-- ===== src/Policy/Resolve.antt =====
-- src/policy/resolve.ts: the effective policy of a sequence of policy documents.
-- Two records of failure modes print the same JSON exactly when they have the same entries in the
-- same order, so they are compared entry by entry.
pub mod Locks
pub mod Floor
use quilons_sentrycode.Common.{
  Bool, true, false, not, ◌&&◌, String, List, [], ◌∷◌, ◌++◌, map, Option, none, some, if◌then◌else◌,
  Eq, ◌==◌, string_eq, includes, sort, text_leb, ◌<>◌,
}
use quilons_sentrycode.Common.Result.{Result, ok, ◌>>=◌, ◌>>◌, throw_if}
use quilons_sentrycode.Core.Enums.{
  Severity, ScannerFailureMode, PolicyLevel, PolicyField, severity_eq, mode_eq, field_eq,
}
use quilons_sentrycode.Core.Json.{Json, str, arr, obj, items, fields, strings, stringify}
use quilons_sentrycode.Core.PolicyTypes.{
  PolicyDocument, PolicyEnforcement, SourceDocument, EffectivePolicy,
}
use quilons_sentrycode.Core.Platform.{Platform}
use quilons_sentrycode.Core.Config.{PolicyConfig}

-- The spelling of the enumerations in documents and in JSON.
abbrev pub severity_text : Severity → String
severity_text Severity.info = "info"
severity_text Severity.low = "low"
severity_text Severity.medium = "medium"
severity_text Severity.high = "high"
severity_text Severity.critical = "critical"

abbrev pub mode_text : ScannerFailureMode → String
mode_text ScannerFailureMode.fail = "fail"
mode_text ScannerFailureMode.warn = "warn"
mode_text ScannerFailureMode.ignore = "ignore"

abbrev pub level_text : PolicyLevel → String
level_text PolicyLevel.organization = "organization"
level_text PolicyLevel.tenant = "tenant"
level_text PolicyLevel.project = "project"
level_text PolicyLevel.repository = "repository"
level_text PolicyLevel.service = "service"

abbrev pub field_text : PolicyField → String
field_text PolicyField.fail_on = "failOn"
field_text PolicyField.warn_on = "warnOn"
field_text PolicyField.required_scanners = "requiredScanners"
field_text PolicyField.scanner_failure_modes = "scannerFailureModes"

module _ {ℓ} {A : Type ℓ} ⦃e : Eq A⦄ where
  unfoldable pub same_array : List A → List A → Bool
  same_array [] [] = true
  same_array (x ∷ xs) (y ∷ ys) = x == y && same_array xs ys
  same_array _ _ = false

abbrev pub Modes : Type 0
Modes = List (String × ScannerFailureMode)

-- `record[key] = mode`: in place, or at the end.
unfoldable pub set_mode : String → ScannerFailureMode → Modes → Modes
set_mode k m [] = (k, m) ∷ []
set_mode k m ((j, n) ∷ rest) = if j == k then (j, m) ∷ rest else (j, n) ∷ set_mode k m rest

-- `{ ...current, ...extra }`.
unfoldable pub merge_modes : Modes → Modes → Modes
unfolding set_mode
merge_modes current [] = current
merge_modes current ((k, m) ∷ extra) = merge_modes (set_mode k m current) extra

unfoldable pub same_modes : Modes → Modes → Bool
same_modes [] [] = true
same_modes ((j, m) ∷ xs) ((k, n) ∷ ys) = j == k && (m == n && same_modes xs ys)
same_modes _ _ = false

-- A field that the document does not set changes nothing.
abbrev differs {ℓ} : {A : Type ℓ} → (A → Bool) → Option A → Bool
differs same none = false
differs same (some xs) = not (same xs)

changes : PolicyField → PolicyEnforcement → EffectivePolicy → Bool
changes PolicyField.fail_on e current = differs (same_array current.fail_on) e.fail_on
changes PolicyField.warn_on e current = differs (same_array current.warn_on) e.warn_on
changes PolicyField.required_scanners e current =
    differs (same_array current.required_scanners) e.required_scanners
changes PolicyField.scanner_failure_modes e current =
    differs
      (λ extra.
        same_modes current.scanner_failure_modes (merge_modes current.scanner_failure_modes extra))
      e.scanner_failure_modes

unfoldable pub changes_locked_field : PolicyField → PolicyDocument → EffectivePolicy → Bool
unfolding changes
changes_locked_field field document current = elim document.enforcement [
  | none ↦ false
  | some e ↦ changes field e current
]

abbrev pub lock_error : PolicyDocument → PolicyField → String
lock_error d field =
    "Policy "
    <> (d.id <> ("@" <> (d.version <> (" cannot override locked field " <> field_text field))))

-- The loop over the locked fields.
unfoldable pub check_locks : List PolicyField → PolicyDocument → EffectivePolicy → Result (Unit {0})
check_locks [] document current = ok tt
check_locks (field ∷ rest) document current = do
  throw_if (changes_locked_field field document current) (lock_error document field)
  check_locks rest document current

abbrev pub replaced {ℓ} : {A : Type ℓ} → A → Option A → A
replaced old none = old
replaced old (some new) = new

abbrev merged : Modes → Option Modes → Modes
merged old none = old
merged old (some extra) = merge_modes old extra

unfoldable pub enforce : Option PolicyEnforcement → EffectivePolicy → EffectivePolicy
enforce none current = current
enforce (some e) current = record current {
  fail_on = replaced current.fail_on e.fail_on;
  warn_on = replaced current.warn_on e.warn_on;
  required_scanners = replaced current.required_scanners e.required_scanners;
  scanner_failure_modes = merged current.scanner_failure_modes e.scanner_failure_modes;
}

-- `if (!list.includes(item)) list.push(item)` for each item.
module _ {ℓ} {A : Type ℓ} ⦃e : Eq A⦄ where
  unfoldable pub push_missing : List A → List A → List A
  push_missing list [] = list
  push_missing list (x ∷ xs) = push_missing (if includes list x then list else list ++ x ∷ []) xs

abbrev pub or_empty {ℓ} : {A : Type ℓ} → Option (List A) → List A
or_empty none = []
or_empty (some xs) = xs

source_of : String → PolicyDocument → SourceDocument
source_of path d = record { id = d.id; version = d.version; level = d.level; path = path }

-- One round of the loop over the documents.
unfoldable pub apply_document : EffectivePolicy → String × PolicyDocument → Result EffectivePolicy
unfolding source_of
apply_document current (path, d) = do
  check_locks current.locked_fields d current
  let next = enforce d.enforcement current
  ok (record next {
    locked_fields = push_missing current.locked_fields (or_empty d.lock);
    source_documents = current.source_documents ++ source_of path d ∷ [];
  })

unfoldable pub apply_documents :
    EffectivePolicy → List (String × PolicyDocument) → Result EffectivePolicy
apply_documents current [] = ok current
apply_documents current (d ∷ ds) = do next ← apply_document current d; apply_documents next ds

abbrev pub initial_policy : PolicyConfig → EffectivePolicy
initial_policy config = record {
  source_documents = [];
  fail_on = config.fail_on;
  warn_on = config.warn_on;
  required_scanners = config.required_scanners;
  scanner_failure_modes = config.scanner_failure_modes;
  locked_fields = [];
  fingerprint = "";
}

source_json : SourceDocument → Json
source_json d = obj (
    fields (
      ("id", str d.id)
      ∷ ("version", str d.version)
      ∷ ("level", str (level_text d.level))
      ∷ ("path", str d.path)
      ∷ []))

mode_json : String × ScannerFailureMode → String × Json
mode_json (k, m) = (k, str (mode_text m))

-- What the fingerprint covers.
unfoldable pub policy_json : EffectivePolicy → Json
unfolding source_json mode_json
policy_json p = obj (
    fields (
      ("sourceDocuments", arr (items (map source_json p.source_documents)))
      ∷ ("failOn", arr (strings (map severity_text p.fail_on)))
      ∷ ("warnOn", arr (strings (map severity_text p.warn_on)))
      ∷ ("requiredScanners", arr (strings p.required_scanners))
      ∷ ("scannerFailureModes", obj (fields (map mode_json p.scanner_failure_modes)))
      ∷ ("lockedFields", arr (strings (map field_text p.locked_fields)))
      ∷ []))

-- The floor of required scanners, their order and the fingerprint.
unfoldable pub finish_policy : Platform → List String → EffectivePolicy → EffectivePolicy
finish_policy host floor p =
    let q : EffectivePolicy = record p {
      required_scanners = sort text_leb (push_missing p.required_scanners floor);
    } in
    record q { fingerprint = host.sha256 (stringify (policy_json q)) }

unfoldable pub resolve_policy :
    Platform → PolicyConfig → List (String × PolicyDocument) → List String → Result EffectivePolicy
resolve_policy host config documents floor =
    apply_documents (initial_policy config) documents >>= λ p. ok (finish_policy host floor p)
