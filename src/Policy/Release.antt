-- ===== src/Policy/Release.antt =====
-- src/policy/release.ts: the release decision of a report and its evidence.
use quilons_sentrycode.Common.{
  ℕ, not, String, [], ◌∷◌, map, Option, none, some, filter, length, ◌<>◌,
}
use quilons_sentrycode.Core.Enums.{Decision}
use quilons_sentrycode.Core.Findings.{EvidenceRecord, Scalar, schema_version}
use quilons_sentrycode.Core.PolicyTypes.{EffectivePolicy, ScanReport, ReleaseDecision}
use quilons_sentrycode.Core.Platform.{Platform, stable_id}

abbrev pub decision_text : Decision → String
decision_text Decision.pass = "PASS"
decision_text Decision.warn = "WARN"
decision_text Decision.fail = "FAIL"

abbrev pub fingerprint_of : Option EffectivePolicy → String
fingerprint_of none = "config-only"
fingerprint_of (some p) = p.fingerprint

-- `uuid` is what `randomUUID()` returns.
unfoldable pub release_decision : Platform → ScanReport → ℕ → String → ReleaseDecision
release_decision host report now uuid = record {
  release_id = uuid;
  evaluated_at = host.to_iso_string now;
  repository = report.repository;
  decision = report.policy.decision;
  policy_fingerprint = fingerprint_of report.policy.effective_policy;
  reasons = report.policy.reasons;
  evidence_ids = map (λ e. e.id) report.evidence;
  scan_run_id = report.run_id;
}

unfoldable pub build_release_decision :
    Platform → ScanReport → ℕ → String → ReleaseDecision × EvidenceRecord
unfolding release_decision
build_release_decision host report now uuid =
    let d = release_decision host report now uuid in
    (
      d,
      record {
        schema_version = schema_version;
        id = stable_id host "evidence" (report.run_id <> ("|release.gate|" <> d.evaluated_at));
        type = "release.gate";
        scanner = "policy";
        repository = report.repository.repository;
        commit_sha = report.repository.commit_sha;
        branch = report.repository.branch;
        generated_at = d.evaluated_at;
        finding_ids = map (λ a. a.finding.id) (filter (λ a. not a.waived) report.policy.findings);
        metadata =
            ("decision", Scalar.text (decision_text d.decision))
            ∷ ("policyFingerprint", Scalar.text d.policy_fingerprint)
            ∷ ("scanRunId", Scalar.text report.run_id)
            ∷ ("evidenceCount", Scalar.number (length d.evidence_ids))
            ∷ [];
      },
    )
