-- ===== src/Tests/Messages.antt =====
-- The messages of a scan for a consumer, at concrete values.
use quilons_sentrycode.Common.{◌≡◌, refl, true, List, [], ◌∷◌, none, some, is_blank, take_chars}
use quilons_sentrycode.Common.Result.{Result, ok, err}
use quilons_sentrycode.Core.Enums.{Severity}
use quilons_sentrycode.Core.Config.{ConsumerConfig}
use quilons_sentrycode.Core.Settings.{SentryCodeConfig}
use quilons_sentrycode.Core.Defaults.{default_config, default_cra_reporting}
use quilons_sentrycode.Core.PolicyTypes.{ScanReport}
use quilons_sentrycode.Core.Platform.{stable_id}
use quilons_sentrycode.Compliance.Scope.{ComplianceIdentity}
use quilons_sentrycode.Compliance.CraReporting.{
  configured_materiality, legacy_cra_consumer-selects, select_cra_reportable_findings,
}
use quilons_sentrycode.Consumers.Registry.{adapter_contract, legacy_cra_consumer}
use quilons_sentrycode.Consumers.Selection.{
  select_consumer_findings, is_consumer_finding_selected, normalized,
}
use quilons_sentrycode.Consumers.Enqueue.{ConsumerDeliveryMessage}
use quilons_sentrycode.Consumers.Messages.{build_consumer_delivery_messages}
use quilons_sentrycode.Consumers.Messages.Valid.{AllSuit, build_consumer_delivery_messages-AllSuit}
use quilons_sentrycode.Tests.Samples.{host}
use quilons_sentrycode.Tests.Deliveries.{applied_one, one_report, profile, unchanged}

abbrev evidenced : ScanReport
evidenced = record one_report {
  evidence =
      record {
        schema_version = "1.0.0";
        id = "e1";
        type = "secrets.scan";
        scanner = "secrets";
        repository = "repo";
        commit_sha = none;
        branch = none;
        generated_at = "2026-01-01";
        finding_ids = "f1" ∷ [];
        metadata = [];
      }
      ∷ [];
}

abbrev identity : ComplianceIdentity
identity = record { tenant = "t"; project = "p" }

abbrev outcome : ScanReport → Result (List ConsumerDeliveryMessage)
outcome report =
    build_consumer_delivery_messages host unchanged unchanged profile identity report "0.1.0" "now"

-- A finding that no evidence names ends the building of messages.
without_evidence : outcome one_report ≡ err "No authoritative evidence references finding f1"
unfolding build_consumer_delivery_messages is_consumer_finding_selected normalized
without_evidence = refl

abbrev built : List ConsumerDeliveryMessage
built = elim (outcome evidenced) [ err m ↦ [] | ok ms ↦ ms ]

build_consumer_delivery_messages-AllSuit_example :
    AllSuit host unchanged unchanged profile identity evidenced "0.1.0" "now"
      (select_consumer_findings unchanged evidenced profile)
      built
unfolding build_consumer_delivery_messages adapter_contract is_consumer_finding_selected normalized
    is_blank stable_id take_chars
build_consumer_delivery_messages-AllSuit_example =
    build_consumer_delivery_messages-AllSuit host unchanged unchanged profile identity evidenced
      "0.1.0" "now" "1.0.0" refl refl refl built refl

abbrev reporting : List Severity → SentryCodeConfig
reporting severities = record default_config {
  cra_reporting = record default_cra_reporting { enabled = true; severities = severities };
}

abbrev stand_in : List Severity → ConsumerConfig
stand_in severities = elim (legacy_cra_consumer (reporting severities)) [
  | none ↦ profile
  | some c ↦ c
]

legacy_cra_consumer-selects_example :
    select_consumer_findings unchanged evidenced (stand_in (Severity.high ∷ []))
    ≡ select_cra_reportable_findings unchanged evidenced
        (configured_materiality (reporting (Severity.high ∷ [])))
unfolding legacy_cra_consumer
legacy_cra_consumer-selects_example =
    legacy_cra_consumer-selects unchanged (reporting (Severity.high ∷ []))
      (stand_in (Severity.high ∷ [])) evidenced refl refl

-- Without severities the consumer that stands for the settings selects every finding, while none is
-- reportable.
open_severities :
    (select_consumer_findings unchanged evidenced (stand_in []) ≡ applied_one ∷ [])
    × (select_cra_reportable_findings unchanged evidenced (configured_materiality (reporting []))
        ≡ [])
unfolding legacy_cra_consumer select_consumer_findings select_cra_reportable_findings
    is_consumer_finding_selected normalized
open_severities = (refl, refl)
