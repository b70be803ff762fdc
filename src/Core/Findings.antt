-- ===== src/Core/Findings.antt =====
-- Repositories, findings, evidence, scanner results and waivers: the records of src/core/types.ts
-- that scanners produce and the policy consumes. An optional field is an `Option`.
use quilons_sentrycode.Common.{ℕ, Bool, String, List, Option}
use quilons_sentrycode.Core.Enums.{
  Severity, ScannerExecutionStatus, ScannerFailureCategory, CiProvider, ScanMode,
}

-- `string | number | boolean | null`, with the numbers that the program stores.
pub data Scalar : Type 0 where
  text : String → Scalar
  number : ℕ → Scalar
  flag : Bool → Scalar
  null : Scalar

pub record RepositoryContext : Type 0 where
  pub root : String
  pub repository : String
  pub commit_sha : Option String
  pub branch : Option String
  pub is_dirty : Bool

pub record SourceLocation : Type 0 where
  pub path : String
  pub line : Option ℕ
  pub column : Option ℕ

pub record Finding : Type 0 where
  pub schema_version : String
  pub id : String
  pub type : String
  pub scanner : String
  pub rule_id : String
  pub title : String
  pub description : String
  pub severity : Severity
  pub location : Option SourceLocation
  pub fingerprint : String
  pub remediation : Option String
  pub detected_at : String
  pub metadata : Option (List (String × Scalar))

pub record EvidenceRecord : Type 0 where
  pub schema_version : String
  pub id : String
  pub type : String
  pub scanner : String
  pub repository : String
  pub commit_sha : Option String
  pub branch : Option String
  pub generated_at : String
  pub finding_ids : List String
  pub metadata : List (String × Scalar)

pub record ScannerFailure : Type 0 where
  pub category : ScannerFailureCategory
  pub code : Option String
  pub message : String

pub record ScannerResult : Type 0 where
  pub scanner : String
  pub findings : List Finding
  pub evidence : List EvidenceRecord
  pub duration_ms : ℕ
  pub status : Option ScannerExecutionStatus
  pub error : Option String
  pub failure : Option ScannerFailure

pub record CiContext : Type 0 where
  pub provider : CiProvider
  pub detected : Bool
  pub pull_request : Bool
  pub base_ref : Option String
  pub head_ref : Option String
  pub branch : Option String
  pub repository : Option String
  pub build_id : Option String
  pub job_id : Option String
  pub change_number : Option String
  pub patchset_number : Option String
  pub revision : Option String

pub record ScanExecutionContext : Type 0 where
  pub mode : ScanMode
  pub base_ref : Option String
  pub head_ref : Option String
  pub changed_files : List String
  pub service : Option String
  pub ci : Option CiContext

pub record Waiver : Type 0 where
  pub id : String
  pub fingerprint : Option String
  pub rule_id : Option String
  pub path : Option String
  pub scanner : Option String
  pub repository : Option String
  pub service : Option String
  pub reason : String
  pub ticket : Option String
  pub created_at : Option String
  pub expires_at : String
  pub author : Option String
  pub approver : Option String
  pub approved_at : Option String

-- `SCHEMA_VERSION`.
abbrev pub schema_version : String
schema_version = "1.0.0"
