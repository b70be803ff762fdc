-- ===== src/Consumers/Selection.antt =====
-- src/consumers/selection.ts: which findings a consumer is sent. `lower` is `toLowerCase`.
pub mod Types
pub mod Criteria
use quilons_sentrycode.Common.{
  Bool, ◌&&◌, ◌||◌, String, List, map, filter, any, is_empty, includes, trim, is_truthy, string_eq,
}
use quilons_sentrycode.Core.Enums.{severity_eq}
use quilons_sentrycode.Core.Config.{ConsumerConfig}
use quilons_sentrycode.Core.PolicyTypes.{AppliedFinding, ScanReport}

module _ (lower : String → String) where
  abbrev pub folded : String → String
  folded s = lower (trim s)

  -- The members of the set; that it holds each once makes no difference to its tests.
  unfoldable pub normalized : List String → List String
  normalized values = filter is_truthy (map folded values)

  unfoldable pub linked_evidence_types : ScanReport → AppliedFinding → List String
  linked_evidence_types report a =
      map (λ e. folded e.type) (filter (λ e. includes e.finding_ids a.finding.id) report.evidence)

  abbrev pub unless_empty : List String → Bool → Bool
  unless_empty wanted test = is_empty wanted || test

  unfoldable pub is_consumer_finding_selected : ScanReport → AppliedFinding → ConsumerConfig → Bool
  is_consumer_finding_selected report a config =
      (is_empty config.scan_profile.severities
        || includes config.scan_profile.severities a.finding.severity)
      && unless_empty (normalized config.scan_profile.finding_types)
          (includes (normalized config.scan_profile.finding_types) (folded a.finding.type))
      && unless_empty (normalized config.scan_profile.evidence_types) (
          any (λ t. includes (linked_evidence_types report a) t)
            (normalized config.scan_profile.evidence_types))

  unfoldable pub select_consumer_findings : ScanReport → ConsumerConfig → List AppliedFinding
  select_consumer_findings report config =
      filter (λ a. is_consumer_finding_selected report a config) report.policy.findings
