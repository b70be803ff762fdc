-- ===== src/Core/Json.antt =====
-- JSON values and `JSON.stringify` without indentation. A number that is not natural keeps the text
-- that JavaScript prints for it; the fields of an object stand in the order of its keys.
use Prim.Native.Char.{Char, code}
use quilons_sentrycode.Common.{
  ℕ, ◌≡◌, refl, Bool, true, false, String, List, [], ◌∷◌, Option, none, some, ◌<>◌, ◌/◌, ◌%◌, ltb,
  nat_beq, if◌then◌else◌, ◌==◌, string_eq, show_nat,
}

mutual
  pub data Json : Type 0 where
    null : Json
    bool : Bool → Json
    num : ℕ → Json
    other_num : String → Json
    str : String → Json
    arr : Items → Json
    obj : Fields → Json

  pub data Items : Type 0 where
    nil : Items
    cons : Json → Items → Items

  pub data Fields : Type 0 where
    end : Fields
    field : String → Json → Fields → Fields

abbrev hex_digit : ℕ → String
hex_digit d =
    if ltb d 10
    then show_nat d
    else if nat_beq d 10
    then "a"
    else if nat_beq d 11
    then "b"
    else if nat_beq d 12
    then "c"
    else if nat_beq d 13
    then "d"
    else if nat_beq d 14
    then "e"
    else "f"

-- The escapes of `JSON.stringify`.
escape_char : Char → String
escape_char c =
    if nat_beq (code c) 34
    then "\\\""
    else if nat_beq (code c) 92
    then "\\\\"
    else if nat_beq (code c) 8
    then "\\b"
    else if nat_beq (code c) 9
    then "\\t"
    else if nat_beq (code c) 10
    then "\\n"
    else if nat_beq (code c) 12
    then "\\f"
    else if nat_beq (code c) 13
    then "\\r"
    else if ltb (code c) 32
    then "\\u00" <> (hex_digit (code c / 16) <> hex_digit (code c % 16))
    else String.◌∷◌ c String.[]

escape : String → String
unfolding escape_char show_nat
escape String.[] = ""
escape (String.◌∷◌ c s) = escape_char c <> escape s

unfoldable pub quote : String → String
unfolding escape
quote s = "\"" <> (escape s <> "\"")

unfoldable mutual
  unfolding quote show_nat

  pub stringify : Json → String
  stringify null = "null"
  stringify (bool true) = "true"
  stringify (bool false) = "false"
  stringify (num n) = show_nat n
  stringify (other_num s) = s
  stringify (str s) = quote s
  stringify (arr xs) = "[" <> (stringify_items true xs <> "]")
  stringify (obj fs) = "{" <> (stringify_fields true fs <> "}")

  pub stringify_items : Bool → Items → String
  stringify_items first nil = ""
  stringify_items first (cons x xs) =
      (if first then "" else ",") <> (stringify x <> stringify_items false xs)

  pub stringify_fields : Bool → Fields → String
  stringify_fields first end = ""
  stringify_fields first (field k v fs) =
      (if first then "" else ",")
      <> (quote k <> (":" <> (stringify v <> stringify_fields false fs)))

-- `value[key]`; an absent key is `undefined`, which is `none`.
unfoldable pub get : String → Fields → Option Json
get k end = none
get k (field j v fs) = if j == k then some v else get k fs

abbrev pub items : List Json → Items
items [] = nil
items (x ∷ xs) = cons x (items xs)

abbrev pub fields : List (String × Json) → Fields
fields [] = end
fields ((k, v) ∷ fs) = field k v (fields fs)

abbrev pub strings : List String → Items
strings [] = nil
strings (s ∷ ss) = cons (str s) (strings ss)

printed :
    stringify (obj (field "a" (arr (cons (num 1) (cons (str "x\"\n") nil))) (field "b" null end)))
    ≡ "{\"a\":[1,\"x\\\"\\n\"],\"b\":null}"
unfolding stringify
printed = refl

-- What reading and parsing a file gives: no such file (ENOENT) or another error of the read, with
-- its message, a text that is no JSON (SyntaxError), or its value.
pub data JsonFile : Type 0 where
  missing : String → JsonFile
  unreadable : String → JsonFile
  malformed : JsonFile
  value : Json → JsonFile

-- `typeof value[key] === 'string' ? value[key] : undefined`.
abbrev pub as_string : Option Json → Option String
as_string none = none
as_string (some (str s)) = some s
as_string (some _) = none

abbrev pub text : String → Fields → Option String
text k fs = as_string (get k fs)

unfoldable mutual
  unfolding show_nat

  -- `String(value)`.
  pub js_text : Json → String
  js_text null = "null"
  js_text (bool true) = "true"
  js_text (bool false) = "false"
  js_text (num n) = show_nat n
  js_text (other_num s) = s
  js_text (str s) = s
  js_text (arr xs) = joined_texts true xs
  js_text (obj fs) = "[object Object]"

  -- The members joined by commas; `null` is nothing.
  pub joined_texts : Bool → Items → String
  joined_texts first nil = ""
  joined_texts first (cons null xs) = (if first then "" else ",") <> joined_texts false xs
  joined_texts first (cons x xs) =
      (if first then "" else ",") <> (js_text x <> joined_texts false xs)
