-- ===== src/Compliance/CraReporting.antt =====
-- src/compliance/cra-reporting.ts: which findings are candidates for CRA reporting, and their reports.
-- `lower` is `toLowerCase`.
use quilons_sentrycode.Common.{
  ◌≡◌, refl, inl, inr, Bool, false, not, ◌||◌, String, List, [], ◌∷◌, some, map, filter, subst,
  includes, is_empty, is_truthy, trim, string_eq, arith, Bool-cases, if◌then◌else◌,
}
use quilons_sentrycode.Common.Result.{Result, ok, ◌>>=◌}
use quilons_sentrycode.Core.Enums.{Severity, severity_eq}
use quilons_sentrycode.Core.Config.{ConsumerConfig}
use quilons_sentrycode.Core.Settings.{SentryCodeConfig}
use quilons_sentrycode.Core.PolicyTypes.{AppliedFinding, ScanReport}
use quilons_sentrycode.Core.Platform.{Platform}
use quilons_sentrycode.Compliance.Scope.{ComplianceIdentity}
use quilons_sentrycode.Consumers.Envelope.{build_technical_finding_envelope}
use quilons_sentrycode.Consumers.Adapters.{Mapped, map_cra_finding}
use quilons_sentrycode.Consumers.Registry.{legacy_cra_consumer}
use quilons_sentrycode.Consumers.Selection.{
  normalized, is_consumer_finding_selected, select_consumer_findings,
}

pub record CraFindingMateriality : Type 0 where
  pub severities : List Severity
  pub finding_types : List String

module _ (lower : String → String) where
  -- The members of the set; that it holds each once makes no difference to its tests.
  unfoldable pub normalized_types : List String → List String
  unfolding trim
  normalized_types values = filter is_truthy (map (λ v. lower (trim v)) values)

  unfoldable pub is_cra_reportable_finding : AppliedFinding → CraFindingMateriality → Bool
  unfolding normalized_types
  is_cra_reportable_finding a materiality =
      if not (includes materiality.severities a.finding.severity)
      then false
      else (is_empty (normalized_types materiality.finding_types)
          || includes (normalized_types materiality.finding_types) (lower (trim a.finding.type)))

  unfoldable pub select_cra_reportable_findings :
      ScanReport → CraFindingMateriality → List AppliedFinding
  unfolding is_cra_reportable_finding
  select_cra_reportable_findings report materiality =
      filter (λ a. is_cra_reportable_finding a materiality) report.policy.findings

-- `args.reportedAt ?? new Date().toISOString()`, decided by the caller.
unfoldable pub build_cra_finding_report :
    Platform
    → ComplianceIdentity
    → ScanReport
    → AppliedFinding
    → (product_version : String) → (reported_at : String) → Result Mapped
unfolding build_technical_finding_envelope map_cra_finding
build_cra_finding_report host identity report a product_version reported_at =
    build_technical_finding_envelope host identity report a product_version reported_at >>= λ e.
    ok (map_cra_finding host e)

unfoldable pub build_reports :
    Platform
    → ComplianceIdentity
    → ScanReport
    → (product_version : String) → (reported_at : String) → List AppliedFinding
    → Result (List Mapped)
unfolding build_cra_finding_report
build_reports host identity report product_version reported_at [] = ok []
build_reports host identity report product_version reported_at (a ∷ rest) =
    build_cra_finding_report host identity report a product_version reported_at >>= λ one.
    build_reports host identity report product_version reported_at rest >>= λ others.
    ok (one ∷ others)

unfoldable pub build_cra_finding_reports :
    (lower : String → String)
    → Platform
    → ComplianceIdentity
    → ScanReport
    → (product_version : String) → CraFindingMateriality
    → (reported_at : String) → Result (List Mapped)
unfolding build_reports select_cra_reportable_findings
build_cra_finding_reports lower host identity report product_version materiality reported_at =
    build_reports host identity report product_version reported_at
      (select_cra_reportable_findings lower report materiality)

-- `config.craReporting` as the materiality of the reports.
abbrev pub configured_materiality : SentryCodeConfig → CraFindingMateriality
configured_materiality config = record {
  severities = config.cra_reporting.severities;
  finding_types = config.cra_reporting.finding_types;
}

some-injective : {a b : ConsumerConfig} → some a ≡ some b → a ≡ b
some-injective h = cc

filter-agree :
    (p q : AppliedFinding → Bool)
    → ((a : AppliedFinding) → p a ≡ q a)
    → (xs : List AppliedFinding) → filter p xs ≡ filter q xs
filter-agree p q same [] = refl
filter-agree p q same (x ∷ xs) = rw (same x) (rw (filter-agree p q same xs) refl)

-- The consumer that stands for the `craReporting` settings selects the findings that are reportable
-- under those settings, where they name at least one severity.
pub legacy_cra_consumer-selects :
    (lower : String → String) (config : SentryCodeConfig) (consumer : ConsumerConfig)
    (report : ScanReport)
    → legacy_cra_consumer config ≡ some consumer
    → is_empty config.cra_reporting.severities ≡ false
    → select_consumer_findings lower report consumer
      ≡ select_cra_reportable_findings lower report (configured_materiality config)
unfolding legacy_cra_consumer select_consumer_findings select_cra_reportable_findings
    is_consumer_finding_selected is_cra_reportable_finding normalized normalized_types
legacy_cra_consumer-selects lower config consumer report h filled =
    elim (Bool-cases config.cra_reporting.enabled) [
      | inl e ↦
          subst
            (λ c.
              select_consumer_findings lower report c
              ≡ select_cra_reportable_findings lower report (configured_materiality config))
            (some-injective (rw e at h))
            (filter-agree _ _ (λ a. ground (arith, filled)) report.policy.findings)
      | inr e ↦ absurd (let k = (rw e at h) in cc)
    ]
