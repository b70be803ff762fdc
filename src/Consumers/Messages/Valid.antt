-- ===== src/Consumers/Messages/Valid.antt =====
-- src/consumers/messages.ts: what the messages are that were built.
use quilons_sentrycode.Common.{
  Bool, any_sound, filter-nil, is_empty, includes, includes_sound, Any, Any-map, arith, ◌≡◌, ◌∙◌,
  refl, ap, sym, subst, inl, inr, false, not, String, List, [], ◌∷◌, some, trim, is_truthy,
  is_blank, is_blank-trim, ◌==◌, string_eq, Bool-cases, eq_iff,
}
use quilons_sentrycode.Common.Result.{ok, throw_if-eq-ok, >>=-eq-ok, ok-injective}
use quilons_sentrycode.Core.Config.{ConsumerConfig}
use quilons_sentrycode.Core.Findings.{EvidenceRecord}
use quilons_sentrycode.Core.PolicyTypes.{AppliedFinding, ScanReport}
use quilons_sentrycode.Core.Platform.{Platform}
use quilons_sentrycode.Compliance.Scope.{ComplianceIdentity}
use quilons_sentrycode.Consumers.Registry.{adapter_contract, cra_adapter_id, cyber_adapter_id}
use quilons_sentrycode.Consumers.Selection.{select_consumer_findings}
use quilons_sentrycode.Consumers.Envelope.{
  linked_evidence, TechnicalFindingEnvelope, build_technical_finding_envelope, non_empty,
}
use quilons_sentrycode.Consumers.Adapters.{Mapped}
use quilons_sentrycode.Consumers.Enqueue.{ConsumerDeliveryMessage, is_object, validate_message}
use quilons_sentrycode.Consumers.Messages.{
  map_finding, message_of, message_record, build_message, build_all, build_with,
  build_consumer_delivery_messages,
}

non_empty-eq-ok :
    (value label : String) {s : String}
    → non_empty value label ≡ ok s
    → (is_blank value ≡ false) × (value ≡ s)
non_empty-eq-ok value label h =
    let kept = throw_if-eq-ok (is_blank value) _ _ h in (kept.0, ok-injective kept.1)

-- An evidence record of the report names the finding.
abbrev pub IsEvidenced : ScanReport → AppliedFinding → Type 0
IsEvidenced report a = Any (λ e. Any (λ id. id ≡ a.finding.id) e.finding_ids) report.evidence

linked_evidence-IsEvidenced :
    (report : ScanReport) (a : AppliedFinding)
    → is_empty (linked_evidence report a.finding) ≡ false
    → IsEvidenced report a
linked_evidence-IsEvidenced report a h =
    let names : EvidenceRecord → Bool = λ e. includes e.finding_ids a.finding.id in
    Any-map _ _ (λ e n. includes_sound e.finding_ids a.finding.id n)
      (any_sound names report.evidence (ground (arith, filter-nil names report.evidence)))

-- The names that an envelope carries are not blank, and its finding is evidenced.
abbrev IsNamed : TechnicalFindingEnvelope → ScanReport → AppliedFinding → Type 0
IsNamed e report a =
    (is_blank e.tenant ≡ false)
    × (is_blank e.project ≡ false)
    × (is_blank e.finding.id ≡ false)
    × (e.finding.id ≡ a.finding.id)
    × (e.correlation_run_id ≡ report.run_id)
    × IsEvidenced report a

-- An adapter that is installed has a contract.
adapter_contract-named :
    (id contract : String)
    → adapter_contract id ≡ some contract
    → (is_blank id ≡ false) × (is_blank contract ≡ false)
unfolding adapter_contract is_blank
adapter_contract-named id contract h = elim (Bool-cases (id == cra_adapter_id)) [
  | inl e ↦
      let found : "1.0.0" ≡ contract = (let k = (rw e at h) in cc) in
      (
        subst (λ i. is_blank i ≡ false) (sym ((eq_iff id cra_adapter_id).0 e)) refl,
        subst (λ c. is_blank c ≡ false) found refl,
      )
  | inr e ↦ elim (Bool-cases (id == cyber_adapter_id)) [
    | inl f ↦
        let found : "cyber.security-evidence.v1" ≡ contract =
          (let k = (rw f at (rw e at h)) in cc) in
        (
          subst (λ i. is_blank i ≡ false) (sym ((eq_iff id cyber_adapter_id).0 f)) refl,
          subst (λ c. is_blank c ≡ false) found refl,
        )
    | inr f ↦ absurd (let k = (rw f at (rw e at h)) in cc)
  ]
]

module _ (host : Platform) (lower upper : String → String) (consumer : ConsumerConfig)
    (identity : ComplianceIdentity) (report : ScanReport)
    (product_version produced_at : String) where
  envelope-IsNamed :
      (a : AppliedFinding) (e : TechnicalFindingEnvelope)
      → build_technical_finding_envelope host identity report a product_version produced_at ≡ ok e
      → IsNamed e report a
  unfolding build_technical_finding_envelope
  envelope-IsNamed a e h =
      let t = >>=-eq-ok (non_empty identity.tenant "tenant") _ h in
      let p = >>=-eq-ok (non_empty identity.project "project") _ t.2 in
      let r = >>=-eq-ok (non_empty report.repository.repository "repository") _ p.2 in
      let v = >>=-eq-ok (non_empty product_version "productVersion") _ r.2 in
      let f = >>=-eq-ok (non_empty a.finding.id "finding.id") _ v.2 in
      let linked = throw_if-eq-ok (is_empty (linked_evidence report a.finding)) _ _ f.2 in
      let tenant = non_empty-eq-ok identity.tenant "tenant" t.1 in
      let project = non_empty-eq-ok identity.project "project" p.1 in
      subst (λ e. IsNamed e report a) (ok-injective linked.1)
        (
          subst (λ s. is_blank s ≡ false) tenant.1 tenant.0,
          subst (λ s. is_blank s ≡ false) project.1 project.0,
          (non_empty-eq-ok a.finding.id "finding.id" f.1).0,
          refl,
          refl,
          linked_evidence-IsEvidenced report a linked.0,
        )

  -- What the message says, that the queue takes it, and that evidence names its finding.
  abbrev pub Suits : AppliedFinding → ConsumerDeliveryMessage → Type 0
  Suits a m =
      (m.consumer_id ≡ consumer.consumer_id)
      × (m.finding_id ≡ a.finding.id)
      × (m.run_id ≡ report.run_id)
      × (validate_message m ≡ ok tt)
      × IsEvidenced report a

  -- A message for each finding, in their order.
  abbrev pub AllSuit : List AppliedFinding → List ConsumerDeliveryMessage → Type 0
  AllSuit [] [] = Unit
  AllSuit (a ∷ found) (m ∷ ms) = Suits a m × AllSuit found ms
  AllSuit [] (m ∷ ms) = ⊥
  AllSuit (a ∷ found) [] = ⊥

  module _ (contract : String) (named_consumer : is_blank consumer.consumer_id ≡ false)
      (named_run : is_blank report.run_id ≡ false)
      (installed : adapter_contract consumer.adapter ≡ some contract) where
    -- The builder with its arguments.
    abbrev built : TechnicalFindingEnvelope → Mapped → ConsumerDeliveryMessage
    built e mapped =
        message_record host lower upper consumer identity report product_version produced_at
          contract e mapped

    message_of-Suits :
        (a : AppliedFinding) (e : TechnicalFindingEnvelope) (mapped : Mapped)
        (m : ConsumerDeliveryMessage)
        → IsNamed e report a
        → message_of host lower upper consumer identity report product_version produced_at contract
            e mapped
          ≡ ok m
        → Suits a m
    unfolding validate_message
    message_of-Suits a e mapped m named h =
        let object = throw_if-eq-ok (not (is_object mapped.payload)) _ _ h in
        let given =
          throw_if-eq-ok (not (is_truthy (trim mapped.delivery_message_id))) _ _ object.1 in
        let adapter = adapter_contract-named consumer.adapter contract installed in
        let id_given : is_blank (trim mapped.delivery_message_id) ≡ false =
          is_blank-trim mapped.delivery_message_id ∙ given.0 in
        subst (Suits a) {x = built e mapped} (ok-injective given.1) (
          refl,
          named.3,
          named.4,
          rw named_consumer (
              rw adapter.0 (
                rw adapter.1 (
                  rw id_given (
                    rw named.0
                      (rw named.1 (rw named.2 (rw named.4 (rw named_run (rw object.0 refl))))))))),
          named.5,
        )

    build_message-Suits :
        (a : AppliedFinding) (m : ConsumerDeliveryMessage)
        → build_message host lower upper consumer identity report product_version produced_at
            contract a
          ≡ ok m
        → Suits a m
    unfolding build_message
    build_message-Suits a m h =
        let e =
          >>=-eq-ok
            (build_technical_finding_envelope host identity report a product_version produced_at) _
            h in
        let mapped =
          >>=-eq-ok
            (map_finding host lower upper consumer identity report product_version produced_at e.0)
            _ e.2 in
        message_of-Suits a e.0 mapped.0 m (envelope-IsNamed a e.0 e.1) mapped.2

    build_all-AllSuit :
        (found : List AppliedFinding) (ms : List ConsumerDeliveryMessage)
        → build_all host lower upper consumer identity report product_version produced_at contract
            found
          ≡ ok ms
        → AllSuit found ms
    unfolding build_all
    build_all-AllSuit [] ms h = subst (AllSuit []) (ok-injective h) tt
    build_all-AllSuit (a ∷ found) ms h =
        let m =
          >>=-eq-ok
            (build_message host lower upper consumer identity report product_version produced_at
              contract a)
            _ h in
        let rest =
          >>=-eq-ok
            (build_all host lower upper consumer identity report product_version produced_at
              contract found)
            _ m.2 in
        subst (AllSuit (a ∷ found)) (ok-injective rest.2)
          (build_message-Suits a m.0 m.1, build_all-AllSuit found rest.0 rest.1)

    -- When the messages of a report for a consumer whose adapter is installed are built without an error,
    -- and neither the consumer's identifier nor the run's is blank, there is one for each finding that
    -- is selected for the consumer, in their order, that names the consumer, the finding and the run,
    -- and that the queue accepts; and an evidence record names each of these findings, so that a
    -- selected finding without evidence always ends in an error.
    pub build_consumer_delivery_messages-AllSuit :
        (ms : List ConsumerDeliveryMessage)
        → build_consumer_delivery_messages host lower upper consumer identity report product_version
            produced_at
          ≡ ok ms
        → AllSuit (select_consumer_findings lower report consumer) ms
    unfolding build_consumer_delivery_messages
    build_consumer_delivery_messages-AllSuit ms h =
        build_all-AllSuit (select_consumer_findings lower report consumer) ms (
          ap (build_with host lower upper consumer identity report product_version produced_at)
            (sym installed)
          ∙ h)
