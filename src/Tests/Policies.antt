-- ===== src/Tests/Policies.antt =====
-- Policy documents, their resolution and evaluation at concrete inputs.
use quilons_sentrycode.Common.{
  ◌≡◌, refl, ◌↔◌, ◌⊎◌, ◌||◌, true, List, [], ◌∷◌, map, some, none, All, Any, includes, string_eq,
  filter, length, ◌+◌, IsSorted, sort, text_leb, ends_with, String, is_blank, to_slashes,
}
use quilons_sentrycode.Common.Result.{ok}
use quilons_sentrycode.Core.Json.{get}
use quilons_sentrycode.Core.Enums.{
  Severity, Decision, ScannerFailureMode, PolicyField, field_eq, PolicyLevel,
}
use quilons_sentrycode.Core.PolicyTypes.{EffectivePolicy, AppliedFinding, PolicyDocument}
use quilons_sentrycode.Core.Defaults.{default_config, default_policy}
use quilons_sentrycode.Policy.Resolve.{
  same_array, changes_locked_field, check_locks, enforce, push_missing, apply_document,
  apply_documents, initial_policy, resolve_policy, finish_policy,
}
use quilons_sentrycode.Policy.Resolve.Locks.{SameField, apply_documents-locked}
use quilons_sentrycode.Policy.Resolve.Floor.{resolve_policy-required}
use quilons_sentrycode.Policy.Evaluate.{all_findings, is_active, evaluate_policy}
use quilons_sentrycode.Policy.Evaluate.Findings.{RightlyApplied, evaluate_policy-RightlyApplied}
use quilons_sentrycode.Policy.Evaluate.Required.{NotRun}
use quilons_sentrycode.Policy.Evaluate.Decisions.{
  FailsAs, Violates, evaluate_policy-fail, evaluate_policy-pass,
}
use quilons_sentrycode.Policy.Evaluate.Counts.{total, evaluate_policy-counts}
use quilons_sentrycode.Policy.Documents.{
  Located, by_name, read_json, applies, matches_scope, active_at, load_files, load_policy_documents,
}
use quilons_sentrycode.Policy.Documents.Parsing.{parse_policy_document, each, field_of}
use quilons_sentrycode.Policy.Documents.Selection.{Selects, load_policy_documents-Selects}
use quilons_sentrycode.Tests.Samples.{
  host, scanned, waiver, context, locked_policy, enforcing, policy_directory,
}

abbrev allowed : List (String × PolicyDocument)
allowed = ("p.json", enforcing (some (Severity.high ∷ []))) ∷ []

abbrev after_allowed : EffectivePolicy
after_allowed = record locked_policy {
  warn_on = Severity.low ∷ [];
  locked_fields = PolicyField.fail_on ∷ PolicyField.warn_on ∷ [];
  source_documents =
      record { id = "p"; version = "1"; level = PolicyLevel.project; path = "p.json" } ∷ [];
}

apply_documents-locked_example :
    SameField PolicyField.fail_on locked_policy after_allowed
    × (includes after_allowed.locked_fields PolicyField.fail_on ≡ true)
unfolding apply_documents apply_document check_locks changes_locked_field same_array enforce
    push_missing
apply_documents-locked_example =
    apply_documents-locked locked_policy after_allowed allowed PolicyField.fail_on refl refl

abbrev resolved : EffectivePolicy
resolved = finish_policy host ("supply-chain" ∷ []) (initial_policy default_policy)

resolve_policy-required_example :
    (p : EffectivePolicy) × (apply_documents (initial_policy default_policy) [] ≡ ok p)
    × ((s : String)
        → includes resolved.required_scanners s
          ≡ (includes p.required_scanners s || includes ("supply-chain" ∷ []) s))
    × IsSorted text_leb resolved.required_scanners
unfolding resolve_policy apply_documents
resolve_policy-required_example =
    resolve_policy-required host default_policy [] ("supply-chain" ∷ []) resolved refl

evaluate_policy-RightlyApplied_example :
    let result =
      evaluate_policy host default_config
        (scanned ∷ [])
        (waiver ∷ [])
        2000
        (some locked_policy)
        (some context) in
    (map (λ (a : AppliedFinding). a.finding) result.findings ≡ all_findings (scanned ∷ []))
    × All (RightlyApplied host default_config (waiver ∷ []) 2000 context) result.findings
evaluate_policy-RightlyApplied_example =
    evaluate_policy-RightlyApplied host default_config (scanned ∷ []) (waiver ∷ []) 2000
      (some locked_policy) (some context)

evaluate_policy-fail_example :
    let result =
      evaluate_policy host default_config
        (scanned ∷ [])
        []
        2000
        (some locked_policy)
        (some context) in
    (result.decision ≡ Decision.fail) ↔ (
      Any (NotRun (scanned ∷ [])) locked_policy.required_scanners
      ⊎ (Any (FailsAs ScannerFailureMode.fail locked_policy) (scanned ∷ [])
          ⊎ Any (Violates locked_policy.fail_on) result.findings))
evaluate_policy-fail_example =
    evaluate_policy-fail host default_config (scanned ∷ []) [] 2000 (some locked_policy)
      (some context)

evaluate_policy-pass_example :
    let result =
      evaluate_policy host default_config
        (scanned ∷ [])
        (waiver ∷ [])
        2000
        (some locked_policy)
        (some context) in
    (result.decision ≡ Decision.pass) ↔ (
      (¬ Any (NotRun (scanned ∷ [])) locked_policy.required_scanners)
      × (¬ Any (FailsAs ScannerFailureMode.fail locked_policy) (scanned ∷ []))
      × (¬ Any (FailsAs ScannerFailureMode.warn locked_policy) (scanned ∷ []))
      × (¬ Any (Violates locked_policy.fail_on) result.findings)
      × (¬ Any (Violates locked_policy.warn_on) result.findings))
evaluate_policy-pass_example =
    evaluate_policy-pass host default_config (scanned ∷ []) (waiver ∷ []) 2000 (some locked_policy)
      (some context)

evaluate_policy-counts_example :
    let result =
      evaluate_policy host default_config
        (scanned ∷ [])
        (waiver ∷ [])
        2000
        (some locked_policy)
        (some context) in
    (total result.counts ≡ length (filter is_active result.findings))
    × (total result.counts + result.waived_count ≡ length (all_findings (scanned ∷ [])))
evaluate_policy-counts_example =
    evaluate_policy-counts host default_config (scanned ∷ []) (waiver ∷ []) 2000
      (some locked_policy) (some context)

abbrev base : PolicyDocument
base = record {
  id = "base";
  version = "1";
  level = PolicyLevel.organization;
  scope = none;
  description = none;
  effective_from = none;
  effective_until = none;
  enforcement = none;
  lock = some (PolicyField.fail_on ∷ []);
}

abbrev loaded : List Located
loaded = (".sentrycode/policies/base.json", base) ∷ []

load_policy_documents-Selects_example :
    Selects host ".sentrycode/policies" context 2000
      (sort by_name (filter (λ f. ends_with f.0 ".json") policy_directory))
      loaded
unfolding load_policy_documents load_files sort ends_with read_json parse_policy_document get
    is_blank each field_of applies matches_scope active_at to_slashes
load_policy_documents-Selects_example =
    load_policy_documents-Selects host ".sentrycode/policies" context 2000 policy_directory loaded
      refl
