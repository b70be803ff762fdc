-- ===== src/Common/Text.antt =====
-- What the program uses of JavaScript's strings: the order of `sort()`, by UTF-16 units, `trim`,
-- `join` and the decimal text of a number. A text is well-formed Unicode.
use Prim.Native.Nat.{ℕ, zero, suc, ◌+◌, ◌-◌, ◌/◌, ◌%◌, ◌<◌}
use Prim.Native.Nat.add
use Prim.Native.Char.{Char, code}
use Prim.Native.String
use Prim.Native.String.{String}
use mathlib.Core.Path.{◌≡◌, refl}
use mathlib.Core.Logic.{◌⊎◌, inl, inr}
use mathlib.Core.Bool.{Bool, true, false, ◌&&◌, ◌||◌}
use mathlib.Core.List.{List, [], ◌∷◌, ◌++◌}
use native.Mathlib.Omega.{arith}
use text.Mathlib.Text.{◌==◌ as str_eq}
use quilons_sentrycode.Common.Tests.{if◌then◌else◌, ltb, leb, nat_beq}

-- `a + b` on strings.
infixr 65 ◌<>◌
abbrev pub ◌<>◌ : String → String → String
s <> t = String.◌++◌ s t

-- A non-empty string is truthy.
abbrev pub is_truthy : String → Bool
is_truthy String.[] = false
is_truthy (String.◌∷◌ c s) = true

-- The UTF-16 units of a character.
abbrev units_of : Char → List ℕ
units_of c =
    if ltb (code c) 0x10000
    then code c ∷ []
    else (0xd800 + (code c - 0x10000) / 0x400) ∷ (0xdc00 + (code c - 0x10000) % 0x400) ∷ []

unfoldable pub utf16 : String → List ℕ
utf16 String.[] = []
utf16 (String.◌∷◌ c s) = units_of c ++ utf16 s

unfoldable pub units_leb : List ℕ → List ℕ → Bool
units_leb [] ys = true
units_leb (x ∷ xs) [] = false
units_leb (x ∷ xs) (y ∷ ys) = ltb x y || (nat_beq x y && units_leb xs ys)

units_leb_total : (xs ys : List ℕ) → (units_leb xs ys ≡ true) ⊎ (units_leb ys xs ≡ true)
unfolding units_leb
units_leb_total [] ys = inl refl
units_leb_total (x ∷ xs) [] = inr refl
units_leb_total (x ∷ xs) (y ∷ ys) = ground (arith, units_leb_total xs ys)

units_leb_trans :
    (xs ys zs : List ℕ) → units_leb xs ys ≡ true → units_leb ys zs ≡ true → units_leb xs zs ≡ true
unfolding units_leb
units_leb_trans [] ys zs h k = refl
units_leb_trans (x ∷ xs) [] zs h k = absurd (cc)
units_leb_trans (x ∷ xs) (y ∷ ys) [] h k = absurd (cc)
units_leb_trans (x ∷ xs) (y ∷ ys) (z ∷ zs) h k = ground (arith, units_leb_trans xs ys zs)

-- The default order of `sort()`.
unfoldable pub text_leb : String → String → Bool
unfolding utf16 units_leb
text_leb s t = units_leb (utf16 s) (utf16 t)

pub text_leb_total : (s t : String) → (text_leb s t ≡ true) ⊎ (text_leb t s ≡ true)
text_leb_total s t = unfold text_leb in units_leb_total (utf16 s) (utf16 t)

pub text_leb_trans :
    (s t u : String) → text_leb s t ≡ true → text_leb t u ≡ true → text_leb s u ≡ true
text_leb_trans s t u h k = unfold text_leb in units_leb_trans (utf16 s) (utf16 t) (utf16 u) h k

-- White space and line terminators, which `trim` removes.
abbrev pub is_space_code : ℕ → Bool
is_space_code c =
    (leb 9 c && leb c 13)
    || nat_beq c 32
    || nat_beq c 0xa0
    || nat_beq c 0x1680
    || (leb 0x2000 c && leb c 0x200a)
    || nat_beq c 0x2028
    || nat_beq c 0x2029
    || nat_beq c 0x202f
    || nat_beq c 0x205f
    || nat_beq c 0x3000
    || nat_beq c 0xfeff

unfoldable pub is_space : Char → Bool
is_space c = is_space_code (code c)

-- `!s.trim()`.
unfoldable pub is_blank : String → Bool
unfolding is_space
is_blank String.[] = true
is_blank (String.◌∷◌ c s) = is_space c && is_blank s

unfoldable pub trim_start : String → String
unfolding is_space
trim_start String.[] = ""
trim_start (String.◌∷◌ c s) = if is_space c then trim_start s else String.◌∷◌ c s

unfoldable pub trim_end : String → String
unfolding is_space is_blank
trim_end String.[] = ""
trim_end (String.◌∷◌ c s) = if is_space c && is_blank s then "" else String.◌∷◌ c (trim_end s)

unfoldable pub trim : String → String
unfolding trim_start trim_end
trim s = trim_end (trim_start s)

-- `s.slice(0, n)` of a text without surrogate pairs.
unfoldable pub take_chars : ℕ → String → String
take_chars zero s = ""
take_chars (suc n) String.[] = ""
take_chars (suc n) (String.◌∷◌ c s) = String.◌∷◌ c (take_chars n s)

-- `s.endsWith(t)`.
unfoldable pub ends_with : String → String → Bool
ends_with String.[] t = str_eq "" t
ends_with (String.◌∷◌ c s) t = str_eq (String.◌∷◌ c s) t || ends_with s t

-- `s.replace(/\\/g, '/')`.
unfoldable pub to_slashes : String → String
to_slashes String.[] = ""
to_slashes (String.◌∷◌ c s) =
    (if nat_beq (code c) 92 then "/" else String.◌∷◌ c String.[]) <> to_slashes s

-- `array.join(separator)`.
unfoldable pub join : String → List String → String
join sep [] = ""
join sep (x ∷ []) = x
join sep (x ∷ (y ∷ ys)) = x <> (sep <> join sep (y ∷ ys))

unfoldable pub digit : ℕ → String
digit d =
    if nat_beq d 0
    then "0"
    else if nat_beq d 1
    then "1"
    else if nat_beq d 2
    then "2"
    else if nat_beq d 3
    then "3"
    else if nat_beq d 4
    then "4"
    else if nat_beq d 5
    then "5"
    else if nat_beq d 6
    then "6"
    else if nat_beq d 7
    then "7"
    else if nat_beq d 8
    then "8"
    else "9"

-- The digits of `n` before `acc`; `suc n` rounds are more than it has digits.
unfoldable pub show_from : ℕ → ℕ → String → String
show_from zero n acc = acc
show_from (suc rounds) n acc =
    let rest = show_from rounds (n / 10) (digit (n % 10) <> acc) in
    if ltb n 10 then digit n <> acc else rest

unfoldable pub show_nat : ℕ → String
unfolding show_from digit
show_nat n = show_from (suc n) n ""

-- Enough rounds are given: more of them change nothing.
show_from_enough :
    (rounds more n : ℕ) (acc : String)
    → n < rounds
    → show_from (rounds + more) n acc ≡ show_from rounds n acc
unfolding show_from
show_from_enough zero more n acc h = elim h [ ]
show_from_enough (suc rounds) more n acc h =
    rw (add.suc rounds more)
      (ground (arith, show_from_enough rounds more (n / 10) (digit (n % 10) <> acc)))

shown : show_nat 1207 ≡ "1207"
unfolding show_nat
shown = refl

trimmed : trim " a b\t" ≡ "a b"
unfolding trim
trimmed = refl
