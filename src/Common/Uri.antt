-- ===== src/Common/Uri.antt =====
-- `encodeURIComponent`.
use Prim.Native.Char.{code}
use Prim.Native.Nat.{ℕ, ◌+◌, ◌/◌, ◌%◌}
use Prim.Native.String.{String}
use mathlib.Core.Path.{◌≡◌, refl}
use mathlib.Core.Bool.{Bool, ◌&&◌, ◌||◌}
use mathlib.Core.List.{List, [], ◌∷◌}
use quilons_sentrycode.Common.Tests.{if◌then◌else◌, ltb, leb, nat_beq}
use quilons_sentrycode.Common.Text.{◌<>◌, digit}

abbrev utf8_bytes : ℕ → List ℕ
utf8_bytes c =
    if ltb c 0x80
    then c ∷ []
    else if ltb c 0x800
    then (0xc0 + c / 0x40) ∷ (0x80 + c % 0x40) ∷ []
    else if ltb c 0x10000
    then (0xe0 + c / 0x1000) ∷ (0x80 + (c / 0x40) % 0x40) ∷ (0x80 + c % 0x40) ∷ []
    else (0xf0 + c / 0x40000)
      ∷ (0x80 + (c / 0x1000) % 0x40)
      ∷ (0x80 + (c / 0x40) % 0x40)
      ∷ (0x80 + c % 0x40)
      ∷ []

abbrev hex_capital : ℕ → String
hex_capital d =
    if nat_beq d 10
    then "A"
    else if nat_beq d 11
    then "B"
    else if nat_beq d 12
    then "C"
    else if nat_beq d 13
    then "D"
    else if nat_beq d 14
    then "E"
    else "F"

abbrev hex : ℕ → String
hex d = if ltb d 10 then digit d else hex_capital d

unfoldable percent : List ℕ → String
unfolding digit
percent [] = ""
percent (b ∷ bs) = "%" <> (hex (b / 16) <> (hex (b % 16) <> percent bs))

-- Letters, digits and - _ . ! ~ * ' ( ).
abbrev is_unreserved : ℕ → Bool
is_unreserved c =
    (leb 65 c && leb c 90)
    || (leb 97 c && leb c 122)
    || (leb 48 c && leb c 57)
    || nat_beq c 45
    || nat_beq c 95
    || nat_beq c 46
    || nat_beq c 33
    || nat_beq c 126
    || (leb 39 c && leb c 42)

unfoldable pub encode_uri_component : String → String
unfolding percent
encode_uri_component String.[] = ""
encode_uri_component (String.◌∷◌ c s) =
    (if is_unreserved (code c) then String.◌∷◌ c String.[] else percent (utf8_bytes (code c)))
    <> encode_uri_component s

encoded : encode_uri_component "a b/ü" ≡ "a%20b%2F%C3%BC"
unfolding encode_uri_component
encoded = refl
