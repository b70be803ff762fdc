-- ===== src/Common/Decimal.antt =====
-- `Number.parseInt(text, 10)` for a text without a sign, and the texts of numbers.
use Prim.Native.Char.{Char, code}
use Prim.Native.Nat.{ℕ, zero, suc, ◌+◌, ◌-◌, ◌*◌, ◌/◌, ◌%◌, ◌<◌}
use Prim.Native.String.append
use Prim.Native.String.{String}
use mathlib.Core.Path.{◌≡◌, refl, ap, ◌∙◌}
use mathlib.Core.Logic.{inl, inr}
use mathlib.Core.Bool.{Bool, true, false, ◌&&◌}
use native.Mathlib.Omega.{arith}
use quilons_sentrycode.Common.Tests.{if◌then◌else◌, ltb, leb, Bool-cases}
use quilons_sentrycode.Common.Text.{
  ◌<>◌, digit, show_from, show_nat, trim_start, is_space, is_truthy,
}
use quilons_sentrycode.Common.Split.{lacks}

abbrev pub is_digit : Char → Bool
is_digit c = leb 48 (code c) && leb (code c) 57

-- The number that the digits in front spell, after the digits already read.
unfoldable pub digits_value : ℕ → String → ℕ
digits_value read String.[] = read
digits_value read (String.◌∷◌ c s) =
    let more = digits_value (read * 10 + (code c - 48)) s in if is_digit c then more else read

-- A text without a digit in front is `NaN`, which `|| 0` makes 0.
unfoldable pub parse_int : String → ℕ
unfolding digits_value trim_start
parse_int s = digits_value 0 (trim_start s)

pub one_char : (c : Char) (s : String) → (String.◌∷◌ c String.[] <> s) ≡ String.◌∷◌ c s
one_char c s = append.cons c String.[] s ∙ ap (String.◌∷◌ c) (append.nil s)

-- A property of all texts with a digit in front.
digit-cases {ℓ} :
    (P : ℕ → String → Type ℓ) (s : String)
    → P 0 (String.◌∷◌ "0" s)
    → P 1 (String.◌∷◌ "1" s)
    → P 2 (String.◌∷◌ "2" s)
    → P 3 (String.◌∷◌ "3" s)
    → P 4 (String.◌∷◌ "4" s)
    → P 5 (String.◌∷◌ "5" s)
    → P 6 (String.◌∷◌ "6" s)
    → P 7 (String.◌∷◌ "7" s)
    → P 8 (String.◌∷◌ "8" s)
    → P 9 (String.◌∷◌ "9" s)
    → (d : ℕ) → d < 10
    → P d (digit d <> s)
unfolding digit
digit-cases P s p0 p1 p2 p3 p4 p5 p6 p7 p8 p9 zero h = rw (one_char "0" s) p0
digit-cases P s p0 p1 p2 p3 p4 p5 p6 p7 p8 p9 (suc zero) h = rw (one_char "1" s) p1
digit-cases P s p0 p1 p2 p3 p4 p5 p6 p7 p8 p9 (suc (suc zero)) h = rw (one_char "2" s) p2
digit-cases P s p0 p1 p2 p3 p4 p5 p6 p7 p8 p9 (suc (suc (suc zero))) h = rw (one_char "3" s) p3
digit-cases P s p0 p1 p2 p3 p4 p5 p6 p7 p8 p9 (suc (suc (suc (suc zero)))) h =
    rw (one_char "4" s) p4
digit-cases P s p0 p1 p2 p3 p4 p5 p6 p7 p8 p9 (suc (suc (suc (suc (suc zero))))) h =
    rw (one_char "5" s) p5
digit-cases P s p0 p1 p2 p3 p4 p5 p6 p7 p8 p9 (suc (suc (suc (suc (suc (suc zero)))))) h =
    rw (one_char "6" s) p6
digit-cases P s p0 p1 p2 p3 p4 p5 p6 p7 p8 p9 (suc (suc (suc (suc (suc (suc (suc zero))))))) h =
    rw (one_char "7" s) p7
digit-cases P s p0 p1 p2 p3 p4 p5 p6 p7 p8 p9 (suc (suc (suc (suc (suc (suc (suc (suc zero))))))))
      h =
    rw (one_char "8" s) p8
digit-cases P s p0 p1 p2 p3 p4 p5 p6 p7 p8 p9
      (suc (suc (suc (suc (suc (suc (suc (suc (suc zero))))))))) h =
    rw (one_char "9" s) p9
digit-cases P s p0 p1 p2 p3 p4 p5 p6 p7 p8 p9
      (suc (suc (suc (suc (suc (suc (suc (suc (suc (suc d)))))))))) h =
    absurd (omega (arith, h))

digits_value-digit :
    (read d : ℕ) (s : String)
    → d < 10
    → digits_value read (digit d <> s) ≡ digits_value (read * 10 + d) s
unfolding digits_value
digits_value-digit read d s h =
    digit-cases (λ d t. digits_value read t ≡ digits_value (read * 10 + d) s) s refl refl refl refl
      refl refl refl refl refl refl d h

trim_start-digit : (d : ℕ) (s : String) → d < 10 → trim_start (digit d <> s) ≡ (digit d <> s)
unfolding trim_start is_space
trim_start-digit d s h =
    digit-cases (λ d t. trim_start t ≡ t) s refl refl refl refl refl refl refl refl refl refl d h

-- A test that fails at the digits finds none of them.
lacks-digit :
    (mark : ℕ → Bool) (d : ℕ) (s : String)
    → ((k : ℕ) → k < 10 → mark (48 + k) ≡ false)
    → d < 10
    → lacks mark (digit d <> s) ≡ lacks mark s
unfolding lacks
lacks-digit mark d s clear h =
    digit-cases (λ d t. lacks mark t ≡ lacks mark s) s (rw (clear 0 (omega arith)) refl)
      (rw (clear 1 (omega arith)) refl) (rw (clear 2 (omega arith)) refl)
      (rw (clear 3 (omega arith)) refl) (rw (clear 4 (omega arith)) refl)
      (rw (clear 5 (omega arith)) refl) (rw (clear 6 (omega arith)) refl)
      (rw (clear 7 (omega arith)) refl) (rw (clear 8 (omega arith)) refl)
      (rw (clear 9 (omega arith)) refl) d h

-- The rounds of `show_nat` spell the number in front of what is there.
digits_value-show_from :
    (rounds n : ℕ) (acc : String)
    → n < rounds
    → digits_value 0 (show_from rounds n acc) ≡ digits_value n acc
unfolding show_from
digits_value-show_from zero n acc h = absurd (omega (arith, h))
digits_value-show_from (suc rounds) n acc h = elim (Bool-cases (ltb n 10)) [
  | inl e ↦
      rw e (
        digits_value-digit 0 n acc (ground (arith, e)) ∙ ap (λ k. digits_value k acc) (omega arith))
  | inr e ↦
      let smaller : n / 10 < rounds = ground (arith, e, h) in
      rw e (
        digits_value-show_from rounds (n / 10) (digit (n % 10) <> acc) smaller
        ∙ digits_value-digit (n / 10) (n % 10) acc (omega arith)
        ∙ ap (λ k. digits_value k acc) (omega arith))
]

trim_start-show_from :
    (rounds n : ℕ) (acc : String)
    → n < rounds
    → trim_start (show_from rounds n acc) ≡ show_from rounds n acc
unfolding show_from
trim_start-show_from zero n acc h = absurd (omega (arith, h))
trim_start-show_from (suc rounds) n acc h = elim (Bool-cases (ltb n 10)) [
  | inl e ↦ rw e (trim_start-digit n acc (ground (arith, e)))
  | inr e ↦
      let smaller : n / 10 < rounds = ground (arith, e, h) in
      rw e (trim_start-show_from rounds (n / 10) (digit (n % 10) <> acc) smaller)
]

lacks-show_from :
    (mark : ℕ → Bool) (rounds n : ℕ) (acc : String)
    → ((k : ℕ) → k < 10 → mark (48 + k) ≡ false)
    → n < rounds
    → lacks mark (show_from rounds n acc) ≡ lacks mark acc
unfolding show_from
lacks-show_from mark zero n acc clear h = absurd (omega (arith, h))
lacks-show_from mark (suc rounds) n acc clear h = elim (Bool-cases (ltb n 10)) [
  | inl e ↦ rw e (lacks-digit mark n acc clear (ground (arith, e)))
  | inr e ↦
      let smaller : n / 10 < rounds = ground (arith, e, h) in
      rw e (
        lacks-show_from mark rounds (n / 10) (digit (n % 10) <> acc) clear smaller
        ∙ lacks-digit mark (n % 10) acc clear (omega arith))
]

-- The text of a number is parsed as the number.
pub parse_int-show_nat : (n : ℕ) → parse_int (show_nat n) ≡ n
unfolding parse_int show_nat digits_value
parse_int-show_nat n =
    ap (digits_value 0) (trim_start-show_from (suc n) n "" (omega arith))
    ∙ digits_value-show_from (suc n) n "" (omega arith)

pub lacks-show_nat :
    (mark : ℕ → Bool) (n : ℕ)
    → ((k : ℕ) → k < 10 → mark (48 + k) ≡ false)
    → lacks mark (show_nat n) ≡ true
unfolding show_nat lacks
lacks-show_nat mark n clear = lacks-show_from mark (suc n) n "" clear (omega arith)

is_truthy-digit : (d : ℕ) (s : String) → d < 10 → is_truthy (digit d <> s) ≡ true
is_truthy-digit d s h =
    digit-cases (λ d t. is_truthy t ≡ true) s refl refl refl refl refl refl refl refl refl refl d h

is_truthy-show_from :
    (rounds n : ℕ) (acc : String) → n < rounds → is_truthy (show_from rounds n acc) ≡ true
unfolding show_from
is_truthy-show_from zero n acc h = absurd (omega (arith, h))
is_truthy-show_from (suc rounds) n acc h = elim (Bool-cases (ltb n 10)) [
  | inl e ↦ rw e (is_truthy-digit n acc (ground (arith, e)))
  | inr e ↦
      let smaller : n / 10 < rounds = ground (arith, e, h) in
      rw e (is_truthy-show_from rounds (n / 10) (digit (n % 10) <> acc) smaller)
]

pub is_truthy-show_nat : (n : ℕ) → is_truthy (show_nat n) ≡ true
unfolding show_nat
is_truthy-show_nat n = is_truthy-show_from (suc n) n "" (omega arith)
