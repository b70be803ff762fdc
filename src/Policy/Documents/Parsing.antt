-- ===== src/Policy/Documents/Parsing.antt =====
-- src/policy/documents.ts: `parsePolicyDocument` and the checks that it makes.
use quilons_sentrycode.Common.{
  Bool, false, not, String, List, [], ◌∷◌, Option, none, some, if◌then◌else◌, ◌==◌, string_eq,
  is_some, is_blank, nat_beq, ◌<>◌,
}
use quilons_sentrycode.Common.Result.{Result, ok, err, ◌>>=◌, ◌>>◌, throw_if}
use quilons_sentrycode.Core.Enums.{Severity, ScannerFailureMode, PolicyLevel, PolicyField}
use quilons_sentrycode.Core.Json.{
  Json, num, str, arr, obj, Items, nil, cons, Fields, end, field, get, text,
}
use quilons_sentrycode.Core.Platform.{Platform}
use quilons_sentrycode.Core.PolicyTypes.{PolicyDocument, PolicyScope, PolicyEnforcement}
use quilons_sentrycode.Policy.Resolve.{Modes, set_mode}

abbrev pub object : Json → String → Result Fields
object (obj fs) label = ok fs
object _ label = err (label <> " must be an object")

-- `value === undefined ? undefined : read(value)`.
abbrev pub optional {ℓ} : {A : Type ℓ} → (Json → Result A) → Option Json → Result (Option A)
optional read none = ok none
optional read (some v) = read v >>= λ a. ok (some a)

unfoldable pub non_empty : String → Json → Result String
non_empty label (str s) = if is_blank s then err (label <> " must be a non-empty string") else ok s
non_empty label _ = err (label <> " must be a non-empty string")

abbrev pub optional_string : Option Json → String → Result (Option String)
optional_string v label = optional (non_empty label) v

unfoldable pub severity_of : String → Option Severity
severity_of s =
    if s == "info"
    then some Severity.info
    else if s == "low"
    then some Severity.low
    else if s == "medium"
    then some Severity.medium
    else if s == "high"
    then some Severity.high
    else if s == "critical"
    then some Severity.critical
    else none

unfoldable pub mode_of : String → Option ScannerFailureMode
mode_of s =
    if s == "fail"
    then some ScannerFailureMode.fail
    else if s == "warn"
    then some ScannerFailureMode.warn
    else if s == "ignore"
    then some ScannerFailureMode.ignore
    else none

unfoldable pub level_of : String → Option PolicyLevel
level_of s =
    if s == "organization"
    then some PolicyLevel.organization
    else if s == "tenant"
    then some PolicyLevel.tenant
    else if s == "project"
    then some PolicyLevel.project
    else if s == "repository"
    then some PolicyLevel.repository
    else if s == "service"
    then some PolicyLevel.service
    else none

unfoldable pub field_of : String → Option PolicyField
field_of s =
    if s == "failOn"
    then some PolicyField.fail_on
    else if s == "warnOn"
    then some PolicyField.warn_on
    else if s == "requiredScanners"
    then some PolicyField.required_scanners
    else if s == "scannerFailureModes"
    then some PolicyField.scanner_failure_modes
    else none

-- The value that a JSON text spells.
abbrev spelled {ℓ} : {A : Type ℓ} → (String → Option A) → Json → Option A
spelled of (str s) = of s
spelled of _ = none

abbrev or_throw {ℓ} : {A : Type ℓ} → Option A → String → Result A
or_throw none message = err message
or_throw (some a) message = ok a

-- An array whose members all read.
unfoldable pub each {ℓ} : {A : Type ℓ} → (Json → Option A) → String → Items → Result (List A)
each read message nil = ok []
each read message (cons x xs) =
    or_throw (read x) message >>= λ a. each read message xs >>= λ rest. ok (a ∷ rest)

abbrev array_of {ℓ} : {A : Type ℓ} → (Json → Option A) → String → Json → Result (List A)
array_of read message (arr xs) = each read message xs
array_of read message _ = err message

abbrev pub severity_array : Option Json → String → Result (Option (List Severity))
severity_array v label =
    optional (array_of (spelled severity_of) (label <> " must contain valid severities")) v

abbrev not_blank : String → Option String
not_blank s = if is_blank s then none else some s

abbrev pub string_array : Option Json → String → Result (Option (List String))
string_array v label =
    optional (array_of (spelled not_blank) (label <> " must be an array of non-empty strings")) v

-- `Object.entries` in order; the keys of an object are distinct.
unfoldable pub modes_from : String → Modes → Fields → Result Modes
unfolding set_mode mode_of
modes_from label result end = ok result
modes_from label result (field scanner v rest) = do
  mode ←
      or_throw (spelled mode_of v) (label <> ("." <> (scanner <> " must be fail, warn, or ignore")))
  modes_from label (set_mode scanner mode result) rest

abbrev pub failure_modes : Option Json → String → Result (Option Modes)
failure_modes v label = optional (λ raw. object raw label >>= λ fs. modes_from label [] fs) v

abbrev pub parse_date : Platform → Option Json → String → Result (Option String)
parse_date host v label =
    optional
      (λ raw. non_empty label raw >>= λ s.
        if is_some (host.parse_date s) then ok s else err (label <> " must be a valid timestamp"))
      v

abbrev lock_fields : String → List String → Result (List PolicyField)
lock_fields message [] = ok []
lock_fields message (s ∷ ss) =
    or_throw (field_of s) message >>= λ f. lock_fields message ss >>= λ fs. ok (f ∷ fs)

-- `lock.some(...)` after `stringArray` has passed the whole array.
abbrev optional_lock : Option (List String) → String → Result (Option (List PolicyField))
optional_lock none message = ok none
optional_lock (some ss) message = lock_fields message ss >>= λ fs. ok (some fs)

unfoldable pub parse_scope : String → Fields → Result PolicyScope
parse_scope at fs = do
  tenant ← optional_string (get "tenant" fs) (at <> ".tenant")
  project ← optional_string (get "project" fs) (at <> ".project")
  repository ← optional_string (get "repository" fs) (at <> ".repository")
  service ← optional_string (get "service" fs) (at <> ".service")
  ok (record { tenant = tenant; project = project; repository = repository; service = service })

unfoldable pub parse_enforcement : String → Fields → Result PolicyEnforcement
parse_enforcement at fs = do
  fail_on ← severity_array (get "failOn" fs) (at <> ".failOn")
  warn_on ← severity_array (get "warnOn" fs) (at <> ".warnOn")
  required ← string_array (get "requiredScanners" fs) (at <> ".requiredScanners")
  modes ← failure_modes (get "scannerFailureModes" fs) (at <> ".scannerFailureModes")
  ok (record {
    fail_on = fail_on;
    warn_on = warn_on;
    required_scanners = required;
    scanner_failure_modes = modes;
  })

abbrev is_one : Option Json → Bool
is_one (some (num n)) = nat_beq n 1
is_one _ = false

-- A property that is a text and not blank.
abbrev required : Option String → String → Result String
required none message = err message
required (some s) message = if is_blank s then err message else ok s

abbrev spelled_level : Option String → Option PolicyLevel
spelled_level none = none
spelled_level (some s) = level_of s

-- `raw === undefined ? undefined : parse(raw)`, for an object that was read before.
abbrev parsed {ℓ} : {A : Type ℓ} → (Fields → Result A) → Option Fields → Result (Option A)
parsed parse none = ok none
parsed parse (some fs) = parse fs >>= λ a. ok (some a)

unfoldable pub parse_policy_document : Platform → Json → String → Result PolicyDocument
unfolding parse_scope parse_enforcement level_of
parse_policy_document host raw path = do
  let at = "policy " <> path
  value ← object raw at
  throw_if (not (is_one (get "schemaVersion" value))) (at <> " requires schemaVersion 1")
  id ← required (text "id" value) (at <> " requires id")
  version ← required (text "version" value) (at <> " requires version")
  level ← or_throw (spelled_level (text "level" value)) (at <> " has invalid level")
  scope_raw ← optional (λ v. object v (at <> ".scope")) (get "scope" value)
  enforcement_raw ← optional (λ v. object v (at <> ".enforcement")) (get "enforcement" value)
  lock_texts ← string_array (get "lock" value) (at <> ".lock")
  lock ← optional_lock lock_texts (at <> ".lock contains an unsupported field")
  scope ← parsed (parse_scope (at <> ".scope")) scope_raw
  enforcement ← parsed (parse_enforcement (at <> ".enforcement")) enforcement_raw
  from ← parse_date host (get "effectiveFrom" value) (at <> ".effectiveFrom")
  until ← parse_date host (get "effectiveUntil" value) (at <> ".effectiveUntil")
  ok (record {
    id = id;
    version = version;
    level = level;
    scope = scope;
    description = text "description" value;
    effective_from = from;
    effective_until = until;
    enforcement = enforcement;
    lock = lock;
  })
