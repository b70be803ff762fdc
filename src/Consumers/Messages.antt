-- ===== src/Consumers/Messages.antt =====
-- src/consumers/messages.ts: the messages that a report gives a consumer.
pub mod Valid
use quilons_sentrycode.Common.{
  not, String, List, [], ◌∷◌, Option, none, some, if◌then◌else◌, trim, is_truthy, ◌==◌, string_eq,
  ◌<>◌,
}
use quilons_sentrycode.Common.Result.{Result, ok, err, ◌>>=◌, ◌>>◌, throw_if}
use quilons_sentrycode.Core.Config.{ConsumerConfig}
use quilons_sentrycode.Core.PolicyTypes.{AppliedFinding, ScanReport}
use quilons_sentrycode.Core.Platform.{Platform}
use quilons_sentrycode.Compliance.Scope.{ComplianceIdentity}
use quilons_sentrycode.Consumers.Registry.{adapter_contract, cra_adapter_id}
use quilons_sentrycode.Consumers.Selection.{select_consumer_findings}
use quilons_sentrycode.Consumers.Envelope.{
  TechnicalFindingEnvelope, build_technical_finding_envelope,
}
use quilons_sentrycode.Consumers.Adapters.{Mapped, map_cra_finding, map_cyber_finding}
use quilons_sentrycode.Consumers.Enqueue.{ConsumerDeliveryMessage, is_object}

-- `lower` is `toLowerCase` and `upper` is `toUpperCase`.
module _ (host : Platform) (lower upper : String → String) (consumer : ConsumerConfig)
    (identity : ComplianceIdentity) (report : ScanReport)
    (product_version produced_at : String) where
  -- `adapter.mapFinding`, of the adapter that is registered under the name.
  unfoldable pub map_finding : TechnicalFindingEnvelope → Result Mapped
  unfolding map_cra_finding map_cyber_finding
  map_finding e =
      if consumer.adapter == cra_adapter_id
      then ok (map_cra_finding host e)
      else map_cyber_finding upper host e consumer

  abbrev pub message_record :
      (contract : String) → TechnicalFindingEnvelope → Mapped → ConsumerDeliveryMessage
  message_record contract e mapped = record {
    consumer_id = consumer.consumer_id;
    adapter_id = consumer.adapter;
    adapter_contract_version = contract;
    message_id = trim mapped.delivery_message_id;
    tenant = e.tenant;
    project = e.project;
    finding_id = e.finding.id;
    run_id = e.correlation_run_id;
    payload = mapped.payload;
  }

  abbrev pub message_of :
      (contract : String) → TechnicalFindingEnvelope → Mapped → Result ConsumerDeliveryMessage
  message_of contract e mapped = do
    throw_if (not (is_object mapped.payload))
        ("Consumer adapter " <> (consumer.adapter <> " returned a non-object payload"))
    throw_if (not (is_truthy (trim mapped.delivery_message_id)))
        ("Consumer adapter " <> (consumer.adapter <> " returned an empty delivery message ID"))
    ok (message_record contract e mapped)

  unfoldable pub build_message :
      (contract : String) → AppliedFinding → Result ConsumerDeliveryMessage
  unfolding map_finding build_technical_finding_envelope trim
  build_message contract a =
      build_technical_finding_envelope host identity report a product_version produced_at >>= λ e.
      map_finding e >>= λ mapped. message_of contract e mapped

  unfoldable pub build_all :
      (contract : String) → List AppliedFinding → Result (List ConsumerDeliveryMessage)
  unfolding build_message
  build_all contract [] = ok []
  build_all contract (a ∷ rest) =
      build_message contract a >>= λ m. build_all contract rest >>= λ ms. ok (m ∷ ms)

  abbrev pub build_with : Option String → Result (List ConsumerDeliveryMessage)
  build_with none = err ("Consumer adapter is not installed: " <> consumer.adapter)
  build_with (some contract) = build_all contract (select_consumer_findings lower report consumer)

  unfoldable pub build_consumer_delivery_messages : Result (List ConsumerDeliveryMessage)
  unfolding build_all adapter_contract select_consumer_findings
  build_consumer_delivery_messages = build_with (adapter_contract consumer.adapter)
