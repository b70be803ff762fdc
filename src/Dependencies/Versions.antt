-- ===== src/Dependencies/Versions.antt =====
-- src/dependencies/versions.ts: comparing versions, and the simple ranges. Components of a version
-- are natural numbers, without JavaScript's rounding above 2^53.
pub mod Order
pub mod Ranges
use Prim.Native.Char.{code}
use Prim.Native.String
use Prim.Native.String.{String}
use quilons_sentrycode.Common.{
  ℕ, zero, suc, ◌+◌, ℤ, pos, negsuc, Bool, true, false, not, ◌&&◌, ◌||◌, List, [], ◌∷◌, map, any,
  all, filter, length, if◌then◌else◌, ltb, leb, nat_beq, ◌==◌, string_eq, is_truthy, is_space_code,
  add_to_first, trim, trim_start, show_nat, split, parse_int, is_digit, ◌<>◌,
}

-- `text.split(/[.+-]/)`.
abbrev pub separates : ℕ → Bool
separates c = nat_beq c 46 || nat_beq c 43 || nat_beq c 45

-- `text.replace(/^v/, '')`.
abbrev pub drop_v : String → String
drop_v String.[] = ""
drop_v (String.◌∷◌ c s) = if nat_beq (code c) 118 then s else String.◌∷◌ c s

abbrev pub take_first {ℓ} : {A : Type ℓ} → ℕ → List A → List A
take_first zero xs = []
take_first (suc n) [] = []
take_first (suc n) (x ∷ xs) = x ∷ take_first n xs

unfoldable pub parts : String → List ℕ
unfolding split parse_int
parts version = map parse_int (take_first 3 (split separates (drop_v version)))

-- `numbers[i] ?? 0`.
abbrev pub version_component : List ℕ → ℕ → ℕ
version_component [] i = 0
version_component (x ∷ xs) zero = x
version_component (x ∷ xs) (suc i) = version_component xs i

-- The loop from position `i`, with `rounds` positions left.
unfoldable pub compare_from : (rounds i : ℕ) → List ℕ → List ℕ → ℤ
compare_from zero i av bv = pos 0
compare_from (suc rounds) i av bv =
    let rest = compare_from rounds (suc i) av bv in
    if nat_beq (version_component av i) (version_component bv i)
    then rest
    else if ltb (version_component av i) (version_component bv i)
    then negsuc 0
    else pos 1

unfoldable pub compare_versions : String → String → ℤ
unfolding parts compare_from
compare_versions a b = compare_from 3 0 (parts a) (parts b)

abbrev pub is_negative : ℤ → Bool
is_negative (pos n) = false
is_negative (negsuc n) = true

abbrev pub is_tie : ℤ → Bool
is_tie (pos n) = nat_beq n 0
is_tie (negsuc n) = false

abbrev pub starts_with_char : ℕ → String → Bool
starts_with_char k String.[] = false
starts_with_char k (String.◌∷◌ c s) = nat_beq (code c) k

-- `text.slice(1)`.
abbrev pub rest_of : String → String
rest_of String.[] = ""
rest_of (String.◌∷◌ c s) = s

pub data Operator : Type 0 where
  eq lt le gt ge : Operator

-- What `(<=|>=|<|>|=)?` takes of the clause, and what is left.
abbrev pub operator_of : String → Operator × String
operator_of s =
    if starts_with_char 60 s
    then (if starts_with_char 61 (rest_of s)
        then (Operator.le, rest_of (rest_of s))
        else (Operator.lt, rest_of s))
    else if starts_with_char 62 s
    then (if starts_with_char 61 (rest_of s)
        then (Operator.ge, rest_of (rest_of s))
        else (Operator.gt, rest_of s))
    else if starts_with_char 61 s
    then (Operator.eq, rest_of s)
    else (Operator.eq, s)

unfoldable pub all_digits : String → Bool
all_digits String.[] = true
all_digits (String.◌∷◌ c s) = is_digit c && all_digits s

-- `\d+(?:\.\d+){0,2}`.
unfoldable pub is_target : String → Bool
unfolding split all_digits
is_target s =
    let numbers = split (λ c. nat_beq c 46) s in
    leb (length numbers) 3 && all (λ n. is_truthy n && all_digits n) numbers

abbrev pub holds : Operator → ℤ → Bool
holds Operator.eq c = is_tie c
holds Operator.lt c = is_negative c
holds Operator.le c = is_negative c || is_tie c
holds Operator.gt c = not (is_negative c || is_tie c)
holds Operator.ge c = not (is_negative c)

-- `version` is not below the first and below the second.
abbrev pub is_between : (version low high : String) → Bool
is_between version low high =
    not (is_negative (compare_versions version low)) && is_negative (compare_versions version high)

unfoldable pub satisfies_clause : (version clause : String) → Bool
unfolding parts compare_versions trim_start is_target show_nat
satisfies_clause version clause =
    let base = rest_of clause in
    if starts_with_char 94 clause
    then is_between version base (show_nat (version_component (parts base) 0 + 1) <> ".0.0")
    else if starts_with_char 126 clause
    then is_between version base (
        show_nat (version_component (parts base) 0)
        <> ("." <> (show_nat (version_component (parts base) 1 + 1) <> ".0")))
    else let taken = operator_of clause in
      let target = trim_start taken.1 in
      if is_target target
      then holds taken.0 (compare_versions version target)
      else version == clause

-- `text.split('||')`.
unfoldable pub split_bars : String → List String
split_bars String.[] = "" ∷ []
split_bars (String.◌∷◌ c String.[]) = String.◌∷◌ c "" ∷ []
split_bars (String.◌∷◌ c (String.◌∷◌ d s)) =
    let after = split_bars s in
    let rest = split_bars (String.◌∷◌ d s) in
    if nat_beq (code c) 124 && nat_beq (code d) 124 then "" ∷ after else add_to_first c rest

-- `text.toLowerCase() === 'any'`.
abbrev pub is_any : String → Bool
is_any (String.◌∷◌ a (String.◌∷◌ b (String.◌∷◌ c String.[]))) =
    (nat_beq (code a) 97 || nat_beq (code a) 65)
    && (nat_beq (code b) 110 || nat_beq (code b) 78)
    && (nat_beq (code c) 121 || nat_beq (code c) 89)
is_any s = false

-- `text.split(/\s+/).filter(Boolean)`.
abbrev pub words : String → List String
words s = filter is_truthy (split is_space_code s)

unfoldable pub satisfies_simple_range : (version range : String) → Bool
unfolding split trim split_bars satisfies_clause
satisfies_simple_range version range =
    let normalized = trim range in
    not (is_truthy normalized)
    || normalized == "*"
    || is_any normalized
    || any (λ alternative. all (satisfies_clause version) (words (trim alternative)))
        (split_bars normalized)
