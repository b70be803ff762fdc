-- ===== src/Consumers/Envelope.antt =====
-- src/consumers/envelope.ts and contracts.ts: the technical finding that every consumer is told of.
use quilons_sentrycode.Common.{
  String, List, map, filter, includes, Option, none, some, if◌then◌else◌, sort, text_leb, distinct,
  is_blank, is_truthy, is_empty, string_eq, encode_uri_component, ◌<>◌,
}
use quilons_sentrycode.Common.Result.{Result, ok, ◌>>=◌, ◌>>◌, throw_if}
use quilons_sentrycode.Core.Enums.{Severity}
use quilons_sentrycode.Core.Findings.{CiContext, EvidenceRecord, Finding, ScanExecutionContext}
use quilons_sentrycode.Core.PolicyTypes.{AppliedFinding, ScanReport}
use quilons_sentrycode.Core.Platform.{Platform, stable_id}
use quilons_sentrycode.Compliance.Scope.{ComplianceIdentity}

pub record TechnicalEvidenceReference : Type 0 where
  pub api_version : String
  pub run_id : String
  pub evidence_ids : List String
  pub evidence_types : List String
  pub resource_path : String

pub record EnvelopeSource : Type 0 where
  pub plugin_id : String
  pub product : String
  pub version : String

pub data FindingStatus : Type 0 where
  active waived : FindingStatus

pub record EnvelopeFinding : Type 0 where
  pub id : String
  pub type : String
  pub scanner : String
  pub rule_id : String
  pub title : String
  pub description : String
  pub severity : Severity
  pub status : FindingStatus
  pub waiver_id : Option String

pub record SourceRevision : Type 0 where
  pub commit_sha : Option String
  pub branch : Option String
  pub build_id : Option String
  pub job_id : Option String
  pub change_number : Option String
  pub patchset_number : Option String
  pub revision : Option String

pub record EnvelopeTimestamps : Type 0 where
  pub detected_at : String
  pub scan_completed_at : String
  pub produced_at : String

-- `correlation` holds the run alone.
pub record TechnicalFindingEnvelope : Type 0 where
  pub contract_version : String
  pub message_id : String
  pub source : EnvelopeSource
  pub tenant : String
  pub project : String
  pub repository : String
  pub finding : EnvelopeFinding
  pub source_revision : SourceRevision
  pub evidence_reference : TechnicalEvidenceReference
  pub correlation_run_id : String
  pub timestamps : EnvelopeTimestamps

abbrev pub consumer_envelope_version : String
consumer_envelope_version = "1.0.0"

abbrev pub compliance_api_version : String
compliance_api_version = "1.0.0"

abbrev pub plugin_id : String
plugin_id = "quilons.sentrycode"

abbrev pub non_empty : String → String → Result String
non_empty value label = throw_if (is_blank value) (label <> " is required") >> ok value

-- `...(value ? { value } : {})`.
abbrev pub if_truthy : Option String → Option String
if_truthy none = none
if_truthy (some s) = if is_truthy s then some s else none

abbrev pub ci_of : Option ScanExecutionContext → Option CiContext
ci_of none = none
ci_of (some e) = e.ci

abbrev pub from_ci : (CiContext → Option String) → Option CiContext → Option String
from_ci part none = none
from_ci part (some ci) = if_truthy (part ci)

abbrev pub source_revision_of : ScanReport → SourceRevision
source_revision_of report =
    let ci = ci_of report.execution in
    record {
      commit_sha = report.repository.commit_sha;
      branch = report.repository.branch;
      build_id = from_ci (λ c. c.build_id) ci;
      job_id = from_ci (λ c. c.job_id) ci;
      change_number = from_ci (λ c. c.change_number) ci;
      patchset_number = from_ci (λ c. c.patchset_number) ci;
      revision = from_ci (λ c. c.revision) ci;
    }

abbrev pub finding_of : AppliedFinding → EnvelopeFinding
finding_of a = record {
  id = a.finding.id;
  type = a.finding.type;
  scanner = a.finding.scanner;
  rule_id = a.finding.rule_id;
  title = a.finding.title;
  description = a.finding.description;
  severity = a.finding.severity;
  status = if a.waived then FindingStatus.waived else FindingStatus.active;
  waiver_id = if_truthy a.waiver_id;
}

abbrev pub linked_evidence : ScanReport → Finding → List EvidenceRecord
linked_evidence report finding = filter (λ e. includes e.finding_ids finding.id) report.evidence

abbrev pub message_text : ComplianceIdentity → ScanReport → Finding → String
message_text identity report finding =
    identity.tenant
    <> ("|"
        <> (identity.project
            <> ("|"
                <> (report.repository.repository
                    <> ("|" <> (report.run_id <> ("|" <> finding.id)))))))

-- `args.producedAt ?? new Date().toISOString()`, decided by the caller.
unfoldable pub build_technical_finding_envelope :
    Platform
    → ComplianceIdentity
    → ScanReport
    → AppliedFinding
    → (product_version : String) → (produced_at : String) → Result TechnicalFindingEnvelope
unfolding encode_uri_component
build_technical_finding_envelope host identity report a product_version produced_at =
    non_empty identity.tenant "tenant" >>= λ tenant.
    non_empty identity.project "project" >>= λ project.
    non_empty report.repository.repository "repository" >>= λ repository.
    non_empty product_version "productVersion" >>= λ version.
    non_empty a.finding.id "finding.id" >>= λ checked.
    (let linked = linked_evidence report a.finding in
      throw_if (is_empty linked) ("No authoritative evidence references finding " <> a.finding.id)
      >> ok (record {
        contract_version = consumer_envelope_version;
        message_id = stable_id host "sentrycode-finding" (message_text identity report a.finding);
        source = record {
          plugin_id = plugin_id;
          product = "QUILONS SentryCode";
          version = version;
        };
        tenant = tenant;
        project = project;
        repository = repository;
        finding = finding_of a;
        source_revision = source_revision_of report;
        evidence_reference = record {
          api_version = compliance_api_version;
          run_id = report.run_id;
          evidence_ids = map (λ e. e.id) linked;
          evidence_types = sort text_leb (distinct (map (λ e. e.type) linked));
          resource_path = "/v1/runs/" <> (encode_uri_component report.run_id <> "/evidence");
        };
        correlation_run_id = report.run_id;
        timestamps = record {
          detected_at = a.finding.detected_at;
          scan_completed_at = report.completed_at;
          produced_at = produced_at;
        };
      }))
