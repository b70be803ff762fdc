-- ===== src/Engine/RunScan.antt =====
-- `runScan` of src/core/engine.ts.
pub mod Enforcement
pub mod Strictness
use quilons_sentrycode.Common.{
  to_nat, Bool, String, List, [], ◌∷◌, ◌++◌, map, Option, none, some, if◌then◌else◌, string_eq, leb,
  option_beq, or_else, filter, length, distinct, sort, text_leb, join, ◌<>◌,
}
use quilons_sentrycode.Common.Result.{Result, ok, ◌>>=◌}
use quilons_sentrycode.Core.Enums.{
  Decision, ScannerExecutionStatus, ScannerFailureCategory, status_eq, decision_rank,
}
use quilons_sentrycode.Core.Findings.{
  EvidenceRecord, ScannerResult, ScannerFailure, Scalar, schema_version,
}
use quilons_sentrycode.Core.PolicyTypes.{EffectivePolicy, PolicyResult, ScanReport}
use quilons_sentrycode.Core.Json.{stringify}
use quilons_sentrycode.Core.Platform.{Platform, stable_id}
use quilons_sentrycode.Policy.WaiverFile.{load_waivers}
use quilons_sentrycode.Policy.Documents.{load_policy_documents}
use quilons_sentrycode.Policy.Resolve.{resolve_policy}
use quilons_sentrycode.Policy.Evaluate.{evaluate_policy}
use quilons_sentrycode.Policy.Opa.{evaluate_opa}
use quilons_sentrycode.Policy.Release.{decision_text}
use quilons_sentrycode.Consumers.Registry.{consumer_required_scanners}
use quilons_sentrycode.Engine.Classify.{classify_scanner_failure}
use quilons_sentrycode.Engine.RunOne.{run_all}
use quilons_sentrycode.Engine.ScanRequest.{
  Scan, policy_context, managed_profile_scanners, required_scanners_floor, consumer_plan,
}

unfoldable pub stricter : Decision → Decision → Decision
stricter a b = if leb (decision_rank b) (decision_rank a) then a else b

unfoldable pub effective_policy : Platform → Scan → Result EffectivePolicy
effective_policy host scan = do
  documents ←
      load_policy_documents host scan.config.policy.directory (policy_context scan) scan.loading
        scan.documents
  resolve_policy host scan.config.policy documents (required_scanners_floor scan.config)

-- The built-in result, with the stricter of its decision and OPA's.
abbrev pub opa_reason : Decision → Decision → String
opa_reason d combined =
    "OPA decision: "
    <> (decision_text d
        <> ("; combined enforcement keeps stricter decision " <> decision_text combined))

unfoldable pub combine : PolicyResult → Option Decision → PolicyResult
combine p none = p
combine p (some d) = record p {
  decision = stricter p.decision d;
  reasons = p.reasons ++ opa_reason d (stricter p.decision d) ∷ [];
}

abbrev pub failed : ScannerResult → Bool
failed r = option_beq r.status (some ScannerExecutionStatus.failed)

abbrev category_text : ScannerFailureCategory → String
category_text ScannerFailureCategory.runner_startup = "runner_startup"
category_text ScannerFailureCategory.scanner_execution = "scanner_execution"
category_text ScannerFailureCategory.provisioning = "provisioning"
category_text ScannerFailureCategory.intelligence = "intelligence"
category_text ScannerFailureCategory.coverage = "coverage"
category_text ScannerFailureCategory.unknown = "unknown"

abbrev commit_text : Option String → String
commit_text none = "null"
commit_text (some s) = s

abbrev code_scalar : Option String → Scalar
code_scalar none = Scalar.null
code_scalar (some s) = Scalar.text s

abbrev failure_of : ScannerResult → ScannerFailure
failure_of r =
    or_else r.failure (classify_scanner_failure (or_else r.error "unknown scanner error"))

unfoldable pub failure_evidence : Platform → Scan → ScannerResult → EvidenceRecord
failure_evidence host scan r =
    let f = failure_of r in
    let key =
      commit_text scan.repository.commit_sha
      <> ("|scanner.failure|"
          <> (r.scanner
              <> ("|"
                  <> (category_text f.category
                      <> ("|" <> (or_else f.code "" <> ("|" <> f.message))))))) in
    record {
      schema_version = schema_version;
      id = stable_id host "evidence" key;
      type = "scanner.failure";
      scanner = r.scanner;
      repository = scan.repository.repository;
      commit_sha = scan.repository.commit_sha;
      branch = scan.repository.branch;
      generated_at = host.to_iso_string scan.completing;
      finding_ids = [];
      metadata =
          ("category", Scalar.text (category_text f.category))
          ∷ ("code", code_scalar f.code)
          ∷ ("error", Scalar.text f.message)
          ∷ ("scannerStatus", Scalar.text "failed")
          ∷ [];
    }

abbrev failure_categories : List ScannerResult → List String
failure_categories rs = map (λ r. category_text (failure_of r).category) (filter failed rs)

policy_evidence :
    Platform → Scan → List ScannerResult → EffectivePolicy → PolicyResult → EvidenceRecord
unfolding consumer_plan
policy_evidence host scan results effective policy =
    let completed = host.to_iso_string scan.completing in
    record {
      schema_version = schema_version;
      id = stable_id host "evidence" (
          commit_text scan.repository.commit_sha
          <> ("|policy.eval|" <> (completed <> ("|" <> effective.fingerprint))));
      type = "policy.eval";
      scanner = "policy";
      repository = scan.repository.repository;
      commit_sha = scan.repository.commit_sha;
      branch = scan.repository.branch;
      generated_at = completed;
      finding_ids = map (λ a. a.finding.id) policy.findings;
      metadata =
          ("decision", Scalar.text (decision_text policy.decision))
          ∷ ("policyFingerprint", Scalar.text effective.fingerprint)
          ∷ ("policyDocumentCount", Scalar.number (length effective.source_documents))
          ∷ ("waivedCount", Scalar.number policy.waived_count)
          ∷ ("opaEnabled", Scalar.flag scan.config.policy.opa.enabled)
          ∷ (
            "consumerRequiredScanners",
            Scalar.text (join "," (consumer_required_scanners scan.config)),
          )
          ∷ (
            "managedProfileRequiredScanners",
            Scalar.text (join "," (managed_profile_scanners scan.config)),
          )
          ∷ ("requiredScannerFloor", Scalar.text (join "," (required_scanners_floor scan.config)))
          ∷ ("scannerFailureCount", Scalar.number (length (filter failed results)))
          ∷ (
            "scannerFailureCategories",
            Scalar.text (join "," (sort text_leb (distinct (failure_categories results)))),
          )
          ∷ ("consumerPlan", Scalar.text (stringify (consumer_plan host scan.config)))
          ∷ [];
    }

unfoldable pub all_evidence : List ScannerResult → List EvidenceRecord
all_evidence [] = []
all_evidence (r ∷ rs) = r.evidence ++ all_evidence rs

unfoldable pub run_scan : Platform → Scan → Result ScanReport
unfolding policy_evidence
run_scan host scan = do
  let results = run_all (to_nat scan.config.incremental.scanner_timeout_ms) scan.scanners
  effective ← effective_policy host scan
  waivers ← load_waivers host scan.waivers_path scan.waivers_file
  let builtin =
      evaluate_policy host scan.config results waivers scan.evaluating (some effective)
        (some (policy_context scan))
  opa ← evaluate_opa host scan.config.policy.opa scan.opa
  let policy = combine builtin opa
  ok (record {
    run_id = scan.uuid;
    started_at = host.to_iso_string scan.started;
    completed_at = host.to_iso_string scan.completing;
    repository = scan.repository;
    scanners = results;
    policy = policy;
    evidence =
        all_evidence results
        ++ (map (failure_evidence host scan) (filter failed results)
            ++ policy_evidence host scan results effective policy ∷ []);
    execution = scan.execution;
  })
