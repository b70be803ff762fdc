-- ===== src/Consumers/Adapters.antt =====
-- src/consumers/cra-adapter.ts and cyber-adapter.ts: the payloads that the two installed consumers
-- are sent. `upper` is `toUpperCase`.
use quilons_sentrycode.Common.{
  Bool, true, false, not, ◌&&◌, String, List, [], ◌∷◌, Option, none, some, if◌then◌else◌, or_else,
  is_blank, trim, ◌==◌, string_eq, ◌<>◌,
}
use quilons_sentrycode.Common.Result.{Result, ok, ◌>>=◌, ◌>>◌, throw_if}
use quilons_sentrycode.Core.Json.{Json, Fields, null, bool, num, str, arr, obj, end, field, strings}
use quilons_sentrycode.Core.Config.{ConsumerConfig}
use quilons_sentrycode.Core.Platform.{Platform, stable_id}
use quilons_sentrycode.Policy.Resolve.{severity_text}
use quilons_sentrycode.Consumers.Envelope.{
  TechnicalEvidenceReference, EnvelopeSource, FindingStatus, EnvelopeFinding, SourceRevision,
  EnvelopeTimestamps, TechnicalFindingEnvelope,
}

-- A field that is there only where it has a value.
abbrev pub optional_field : String → Option String → Fields → Fields
optional_field k none rest = rest
optional_field k (some s) rest = field k (str s) rest

abbrev pub nullable : Option String → Json
nullable none = null
nullable (some s) = str s

abbrev pub status_text : FindingStatus → String
status_text FindingStatus.active = "active"
status_text FindingStatus.waived = "waived"

unfoldable pub envelope_source_json : EnvelopeSource → Json
envelope_source_json s = obj (
    field "pluginId" (str s.plugin_id)
      (field "product" (str s.product) (field "version" (str s.version) end)))

unfoldable pub finding_json : EnvelopeFinding → Json
finding_json f = obj (
    field "id" (str f.id) (
      field "type" (str f.type) (
        field "scanner" (str f.scanner) (
          field "ruleId" (str f.rule_id) (
            field "title" (str f.title) (
              field "description" (str f.description) (
                field "severity" (str (severity_text f.severity)) (
                  field "status" (str (status_text f.status))
                    (optional_field "waiverId" f.waiver_id end)))))))))

unfoldable pub revision_json : SourceRevision → Json
revision_json r = obj (
    field "commitSha" (nullable r.commit_sha) (
      field "branch" (nullable r.branch) (
        optional_field "buildId" r.build_id (
          optional_field "jobId" r.job_id (
            optional_field "changeNumber" r.change_number (
              optional_field "patchsetNumber" r.patchset_number
                (optional_field "revision" r.revision end)))))))

-- `evidenceTypes` is a field of the envelope's reference and not of the CRA report's.
abbrev evidence_types_field : Bool → List String → Fields → Fields
evidence_types_field true types rest = field "evidenceTypes" (arr (strings types)) rest
evidence_types_field false types rest = rest

unfoldable pub evidence_json : (with_types : Bool) → TechnicalEvidenceReference → Json
evidence_json with_types e = obj (
    field "apiVersion" (str e.api_version) (
      field "runId" (str e.run_id) (
        field "evidenceIds" (arr (strings e.evidence_ids)) (
          evidence_types_field with_types e.evidence_types
            (field "resourcePath" (str e.resource_path) end)))))

abbrev pub correlation_json : String → Json
correlation_json run_id = obj (field "runId" (str run_id) end)

-- The last of the three is `producedAt` in an envelope and `reportedAt` in a CRA report.
unfoldable pub timestamps_json : (last : String) → EnvelopeTimestamps → Json
timestamps_json last t = obj (
    field "detectedAt" (str t.detected_at)
      (field "scanCompletedAt" (str t.scan_completed_at) (field last (str t.produced_at) end)))

-- What a `ConsumerAdapter` gives a message: its payload and its identity.
pub record Mapped : Type 0 where
  pub payload : Json
  pub delivery_message_id : String

unfoldable pub cra_report_id : Platform → TechnicalFindingEnvelope → String
cra_report_id host e = stable_id host "cra-report" (
    e.tenant
    <> ("|"
        <> (e.project
            <> ("|"
                <> (e.repository <> ("|" <> (e.correlation_run_id <> ("|" <> e.finding.id))))))))

-- `CraConsumerAdapter`.
unfoldable pub map_cra_finding : Platform → TechnicalFindingEnvelope → Mapped
unfolding cra_report_id envelope_source_json finding_json revision_json evidence_json
    timestamps_json
map_cra_finding host e = record {
  payload = obj (
      field "schemaVersion" (num 1) (
        field "contractVersion" (str "1.0.0") (
          field "reportId" (str (cra_report_id host e)) (
            field "source" (envelope_source_json e.source) (
              field "tenant" (str e.tenant) (
                field "project" (str e.project) (
                  field "repository" (str e.repository) (
                    field "finding" (finding_json e.finding) (
                      field "sourceRevision" (revision_json e.source_revision) (
                        field "evidenceReference" (evidence_json false e.evidence_reference) (
                          field "correlation" (correlation_json e.correlation_run_id) (
                            field "timestamps" (timestamps_json "reportedAt" e.timestamps)
                              end))))))))))));
  delivery_message_id = cra_report_id host e;
}

-- `config.context[key]`.
unfoldable pub context_at : String → List (String × String) → Option String
context_at key [] = none
context_at key ((k, v) ∷ rest) = if k == key then some v else context_at key rest

unfoldable pub context_value : ConsumerConfig → String → Result String
unfolding context_at trim
context_value config key =
    let value = or_else (context_at key config.context) "" in
    throw_if (is_blank value) ("Cyber consumer context." <> (key <> " is required"))
    >> ok (trim value)

module _ (upper : String → String) where
  unfoldable pub assurance_context : ConsumerConfig → Result String
  unfolding context_at trim
  assurance_context config =
      let value =
        upper (trim (or_else (context_at "assuranceContext" config.context) "MANUFACTURER")) in
      throw_if (not (value == "MANUFACTURER") && not (value == "DEPLOYMENT"))
        "Cyber consumer context.assuranceContext must be MANUFACTURER or DEPLOYMENT"
      >> ok value

  abbrev pub provider_json : TechnicalFindingEnvelope → Json
  provider_json e = obj (
      field "providerType" (str "QUILONS_NATIVE") (
        field "providerId" (str "quilons-sentrycode")
          (field "providerVersion" (str e.source.version) end)))

  abbrev pub provenance_json : TechnicalFindingEnvelope → Json
  provenance_json e = obj (
      field "provider" (provider_json e) (
        field "source"
          (obj (
            field "sourceKind" (str "scanner_result") (
              field "sourceReferenceId" (str e.message_id)
                (field "sourceLabel" (str e.finding.scanner) end))))
          (field "normalized" (bool true) end)))

  unfoldable pub normalized_payload : TechnicalFindingEnvelope → Json
  unfolding finding_json revision_json evidence_json timestamps_json
  normalized_payload e = obj (
      field "sentryCodeContractVersion" (str e.contract_version) (
        field "project" (str e.project) (
          field "repository" (str e.repository) (
            field "finding" (finding_json e.finding) (
              field "sourceRevision" (revision_json e.source_revision) (
                field "evidenceReference" (evidence_json true e.evidence_reference) (
                  field "correlation" (correlation_json e.correlation_run_id)
                    (field "timestamps" (timestamps_json "producedAt" e.timestamps) end))))))))

  abbrev pub subject_json : (build_id subject_context : String) → Json
  subject_json build_id subject_context = obj (
      field "subjectType" (str "BUILD")
        (field "subjectId" (str build_id) (field "assuranceContext" (str subject_context) end)))

  abbrev pub submission_json :
      TechnicalFindingEnvelope → (build_id subject_context evidence_id : String) → Json
  submission_json e build_id subject_context evidence_id = obj (
      field "contractVersion" (str "cyber.security-evidence.v1") (
        field "capabilityId" (str "cyber.security-evidence") (
          field "capabilityVersion" (str "v1") (
            field "tenantId" (str e.tenant) (
              field "evidenceId" (str evidence_id) (
                field "evidenceType" (str "EXTERNAL_TOOL_RESULT") (
                  field "subject" (subject_json build_id subject_context) (
                    field "assuranceContext" (str subject_context) (
                      field "provider" (provider_json e) (
                        field "provenance" (provenance_json e) (
                          field "observedAt" (str e.timestamps.detected_at) (
                            field "collectedAt" (str e.timestamps.produced_at) (
                              field "normalizedPayload" (normalized_payload e) (
                                field "schemaVersion" (str "cyber.security-evidence.sentrycode.v1")
                                  end))))))))))))))

  -- `CyberConsumerAdapter`.
  unfoldable pub map_cyber_finding :
      Platform → TechnicalFindingEnvelope → ConsumerConfig → Result Mapped
  unfolding context_value assurance_context normalized_payload
  map_cyber_finding host e config = context_value config "buildId" >>= λ build_id.
      assurance_context config >>= λ subject_context.
      (let evidence_id =
          stable_id host "cyber-evidence"
            (config.consumer_id <> ("|" <> (build_id <> ("|" <> e.message_id)))) in
        let receipt_id =
          stable_id host "cyber-receipt" (config.consumer_id <> ("|" <> evidence_id)) in
        ok (record {
          payload = obj (
              field "contractVersion" (str "quilons.service-invocation.v1") (
                field "tenantId" (str e.tenant) (
                  field "appId" (str "quilons-sentrycode") (
                    field "operation" (str "cyber.security-evidence.ingest") (
                      field "actor"
                        (obj (
                          field "actorType" (str "SERVICE") (
                            field "actorId" (str "quilons-sentrycode") (
                              field "permissions"
                                (arr (strings ("cyber.security-evidence.ingest" ∷ []))) end))))
                        (field "input"
                          (obj (
                            field "receiptId" (str receipt_id) (
                              field "submission"
                                (submission_json e build_id subject_context evidence_id) end)))
                          end))))));
          delivery_message_id = e.message_id;
        }))
