-- ===== src/Configuration/Reading.antt =====
-- src/config/load.ts: reading single values of a parsed configuration.
use quilons_sentrycode.Common.{
  ℕ, zero, suc, ◌<◌, arith, ℤ, pos, negsuc, Bool, true, false, String, List, [], ◌∷◌, Option, none,
  some, if◌then◌else◌, is_blank, or_else, string_eq, ◌<>◌,
}
use quilons_sentrycode.Core.Enums.{ScannerFailureMode}
use quilons_sentrycode.Core.Json.{
  js_text, Json, null, bool, num, other_num, str, arr, obj, Items, nil, cons, Fields, end, field,
  get, text,
}
use quilons_sentrycode.Policy.Documents.Parsing.{mode_of}
use quilons_sentrycode.Configuration.Outcome.{Outcome, returned, ◌>>=◌, ◌>>◌, fault, refuse_if}

-- What the loader takes from JavaScript's numbers and regular expressions. A number that is no
-- natural number is known by the text that JavaScript prints for it.
pub record LoadHost : Type 0 where
  -- The number, or the whole number that stands for it in the model where it is not whole.
  pub amount : String → ℤ
  pub is_integer : String → Bool
  pub is_finite : String → Bool
  -- `Number(text)`; `none` is NaN or infinite.
  pub to_number : String → Option ℤ
  -- The message of the SyntaxError that `new RegExp(pattern, 'g')` throws.
  pub regexp_error : String → Option String

-- `asObject`, of a value that may be `undefined`.
abbrev pub as_object : Option Json → (label : String) → Outcome Fields
as_object (some (obj fs)) label = returned fs
as_object _ label = fault (label <> " must be an object")

-- `value === undefined ? {} : asObject(value, label)`.
abbrev pub section : Option Json → (label : String) → Outcome Fields
section none label = returned end
section (some v) label = as_object (some v) label

unfoldable pub all_strings : Items → Option (List String)
all_strings nil = some []
all_strings (cons (str s) xs) = elim (all_strings xs) [ none ↦ none | some ss ↦ some (s ∷ ss) ]
all_strings (cons _ xs) = none

abbrev pub strings_or_fault : Option (List String) → (label : String) → Outcome (List String)
strings_or_fault none label = fault (label <> " must be an array of strings")
strings_or_fault (some ss) label = returned ss

unfoldable pub string_array :
    Option Json → (fallback : List String) → (label : String) → Outcome (List String)
unfolding all_strings
string_array none fallback label = returned fallback
string_array (some (arr xs)) fallback label = strings_or_fault (all_strings xs) label
string_array (some _) fallback label = fault (label <> " must be an array of strings")

unfoldable pub string_members : (label : String) → Fields → Outcome (List (String × String))
string_members label end = returned []
string_members label (field k (str s) fs) =
    string_members label fs >>= λ rest. returned ((k, s) ∷ rest)
string_members label (field k _ fs) = fault (label <> ("." <> (k <> " must be a string")))

unfoldable pub string_record :
    Option Json
    → (fallback : List (String × String)) → (label : String) → Outcome (List (String × String))
unfolding string_members
string_record none fallback label = returned fallback
string_record (some v) fallback label = as_object (some v) label >>= λ fs. string_members label fs

abbrev pub non_negative_of : Option ℤ → ℕ → ℕ
non_negative_of (some (pos n)) default = n
non_negative_of _ default = default

abbrev pub positive_of : Option ℤ → ℕ → ℕ
positive_of (some (pos (suc n))) default = suc n
positive_of _ default = default

-- A number that is read as positive or left to a positive default is positive.
pub positive_of_pos : (o : Option ℤ) (default : ℕ) → 0 < default → 0 < positive_of o default
positive_of_pos none default h = h
positive_of_pos (some (pos zero)) default h = h
positive_of_pos (some (pos (suc n))) default h = omega arith
positive_of_pos (some (negsuc n)) default h = h

module _ (host : LoadHost) where
  abbrev number_member : (label k : String) → Json → Outcome ℤ
  number_member label k (num n) = returned (pos n)
  number_member label k (other_num s) =
      if host.is_finite s
      then returned (host.amount s)
      else fault (label <> ("." <> (k <> " must be a number")))
  number_member label k _ = fault (label <> ("." <> (k <> " must be a number")))

  unfoldable pub number_members : (label : String) → Fields → Outcome (List (String × ℤ))
  number_members label end = returned []
  number_members label (field k v fs) =
      number_member label k v >>= λ n. number_members label fs >>= λ rest. returned ((k, n) ∷ rest)

  unfoldable pub number_record :
      Option Json → (fallback : List (String × ℤ)) → (label : String) → Outcome (List (String × ℤ))
  unfolding number_members
  number_record none fallback label = returned fallback
  number_record (some v) fallback label = as_object (some v) label >>= λ fs. number_members label fs

  -- `typeof value === 'number'`.
  abbrev pub number_at : String → Fields → Option ℤ
  number_at k fs = elim (get k fs) [
    | none ↦ none
    | some null ↦ none
    | some (bool b) ↦ none
    | some (num n) ↦ some (pos n)
    | some (other_num s) ↦ some (host.amount s)
    | some (str s) ↦ none
    | some (arr xs) ↦ none
    | some (obj os) ↦ none
  ]

  abbrev pub number_or : String → Fields → ℤ → ℤ
  number_or k fs default = or_else (number_at k fs) default

  -- `typeof value === 'number' && value >= 0 ? value : default`.
  abbrev pub non_negative_or : String → Fields → ℕ → ℕ
  non_negative_or k fs default = non_negative_of (number_at k fs) default

  -- `typeof value === 'number' && value > 0 ? value : default`.
  abbrev pub positive_or : String → Fields → ℕ → ℕ
  positive_or k fs default = positive_of (number_at k fs) default

  -- The same, for whole numbers alone.
  abbrev pub is_integer_at : String → Fields → Bool
  is_integer_at k fs = elim (get k fs) [
    | some (other_num s) ↦ host.is_integer s
    | some null ↦ false
    | some (bool b) ↦ false
    | some (num n) ↦ true
    | some (str s) ↦ false
    | some (arr xs) ↦ false
    | some (obj os) ↦ false
    | none ↦ false
  ]

  abbrev pub positive_integer_or : String → Fields → ℕ → ℕ
  positive_integer_or k fs default =
      if is_integer_at k fs then positive_or k fs default else default

abbrev pub text_or : String → Fields → String → String
text_or k fs default = or_else (text k fs) default

-- `typeof value === 'boolean' ? value : default`.
abbrev pub flag_or : String → Fields → Bool → Bool
flag_or k fs default = elim (get k fs) [
  | some (bool b) ↦ b
  | some null ↦ default
  | some (num n) ↦ default
  | some (other_num s) ↦ default
  | some (str s) ↦ default
  | some (arr xs) ↦ default
  | some (obj os) ↦ default
  | none ↦ default
]

-- `value ?? default`, with a value that is `undefined` or `null` left to the default.
abbrev pub nullish : Option Json → Option Json
nullish (some null) = none
nullish v = v

unfoldable pub checked_modes :
    (label : String) → List (String × String) → Outcome (List (String × ScannerFailureMode))
checked_modes label [] = returned []
checked_modes label ((k, s) ∷ rest) = elim (mode_of s) [
  | none ↦ fault (label <> ("." <> (k <> " must be fail, warn, or ignore")))
  | some m ↦ checked_modes label rest >>= λ ms. returned ((k, m) ∷ ms)
]

unfoldable pub failure_mode_record :
    Option Json
    → (fallback : List (String × ScannerFailureMode)) → (label : String)
    → Outcome (List (String × ScannerFailureMode))
unfolding checked_modes string_members mode_of
failure_mode_record none fallback label = returned fallback
failure_mode_record (some v) fallback label =
    as_object (some v) label >>= λ fs. string_members label fs >>= λ raw. checked_modes label raw

unfoldable pub optional_text : Option Json → (label : String) → Outcome (Option String)
optional_text none label = returned none
optional_text (some (str s)) label =
    refuse_if (is_blank s) (label <> " must be a non-empty string") >> returned (some s)
optional_text (some _) label = fault (label <> " must be a non-empty string")

-- Members that are all names of the type.
unfoldable pub all_named {ℓ} : {A : Type ℓ} → (String → Option A) → List String → Option (List A)
all_named of [] = some []
all_named of (s ∷ ss) = elim (of s) [
  | none ↦ none
  | some a ↦ elim (all_named of ss) [ none ↦ none | some as' ↦ some (a ∷ as') ]
]

-- `if (values.some((value) => !VALID.has(value))) throw new Error(message)`.
abbrev pub named_or_fault {ℓ} :
    {A : Type ℓ} → (String → Option A) → List String → (message : String) → Outcome (List A)
named_or_fault of ss message = elim (all_named of ss) [
  | none ↦ fault message
  | some xs ↦ returned xs
]

abbrev pub or_fault {ℓ} : {A : Type ℓ} → Option A → (message : String) → Outcome A
or_fault none message = fault message
or_fault (some a) message = returned a

-- `[...].includes(String(value)) ? value : ...`: the value that the text names, or `other` where the
-- value is no text itself.
unfoldable pub named_by_text {ℓ} :
    {A : Type ℓ} → (String → Option A) → (other : A) → Json → Option A
unfolding js_text
named_by_text of other (str s) = of s
named_by_text of other v = elim (of (js_text v)) [ none ↦ none | some a ↦ some other ]
