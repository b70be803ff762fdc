-- ===== src/Core/PolicyTypes.antt =====
-- Policy documents, the effective policy, its audit trail and its result: src/core/types.ts.
-- A `Record` is an association list in the order in which its keys were first set.
use quilons_sentrycode.Common.{ℕ, Bool, String, List, Option}
use quilons_sentrycode.Core.Enums.{Severity, Decision, ScannerFailureMode, PolicyLevel, PolicyField}
use quilons_sentrycode.Core.Findings.{
  Finding, EvidenceRecord, RepositoryContext, ScannerResult, ScanExecutionContext,
}

pub record PolicyScope : Type 0 where
  pub tenant : Option String
  pub project : Option String
  pub repository : Option String
  pub service : Option String

pub record PolicyEnforcement : Type 0 where
  pub fail_on : Option (List Severity)
  pub warn_on : Option (List Severity)
  pub required_scanners : Option (List String)
  pub scanner_failure_modes : Option (List (String × ScannerFailureMode))

pub record PolicyDocument : Type 0 where
  pub id : String
  pub version : String
  pub level : PolicyLevel
  pub scope : Option PolicyScope
  pub description : Option String
  pub effective_from : Option String
  pub effective_until : Option String
  pub enforcement : Option PolicyEnforcement
  pub lock : Option (List PolicyField)

pub record SourceDocument : Type 0 where
  pub id : String
  pub version : String
  pub level : PolicyLevel
  pub path : String

pub record EffectivePolicy : Type 0 where
  pub source_documents : List SourceDocument
  pub fail_on : List Severity
  pub warn_on : List Severity
  pub required_scanners : List String
  pub scanner_failure_modes : List (String × ScannerFailureMode)
  pub locked_fields : List PolicyField
  pub fingerprint : String

pub record PolicyContext : Type 0 where
  pub tenant : Option String
  pub project : Option String
  pub repository : String
  pub service : Option String

pub data AuditEvent : Type 0 where
  policy_resolved waiver_applied waiver_rejected release_decision : AuditEvent

pub record PolicyAuditRecord : Type 0 where
  pub event : AuditEvent
  pub at : String
  pub policy_fingerprint : Option String
  pub policy_sources : Option (List String)
  pub waiver_id : Option String
  pub finding_id : Option String
  pub decision : Option Decision
  pub reason : Option String

pub record AppliedFinding : Type 0 where
  pub finding : Finding
  pub waived : Bool
  pub waiver_id : Option String

pub record PolicyResult : Type 0 where
  pub decision : Decision
  pub findings : List AppliedFinding
  pub counts : List (Severity × ℕ)
  pub waived_count : ℕ
  pub reasons : List String
  pub effective_policy : Option EffectivePolicy
  pub audit : List PolicyAuditRecord

pub record ScanReport : Type 0 where
  pub run_id : String
  pub started_at : String
  pub completed_at : String
  pub repository : RepositoryContext
  pub scanners : List ScannerResult
  pub policy : PolicyResult
  pub evidence : List EvidenceRecord
  pub execution : Option ScanExecutionContext

pub record ReleaseDecision : Type 0 where
  pub release_id : String
  pub evaluated_at : String
  pub repository : RepositoryContext
  pub decision : Decision
  pub policy_fingerprint : String
  pub reasons : List String
  pub evidence_ids : List String
  pub scan_run_id : String
