-- ===== src/Core/Enums.antt =====
-- The unions of string literals of src/core/types.ts. A value is compared by its position.
use quilons_sentrycode.Common.{ℕ, ◌≡◌, ◌↔◌, arith, true, nat_beq, Eq}

pub data Severity : Type 0 where
  info low medium high critical : Severity

pub data Decision : Type 0 where
  pass warn fail : Decision

pub data ScannerExecutionStatus : Type 0 where
  success failed skipped : ScannerExecutionStatus

pub data ScannerFailureMode : Type 0 where
  fail warn ignore : ScannerFailureMode

pub data PolicyLevel : Type 0 where
  organization tenant project repository service : PolicyLevel

pub data PolicyField : Type 0 where
  fail_on warn_on required_scanners scanner_failure_modes : PolicyField

pub data ScannerFailureCategory : Type 0 where
  runner_startup scanner_execution provisioning intelligence coverage unknown :
      ScannerFailureCategory

pub data CiProvider : Type 0 where
  github gitlab azure_devops jenkins gerrit generic local : CiProvider

pub data ScanMode : Type 0 where
  full incremental : ScanMode

pub data AutomotiveStandard : Type 0 where
  misra_c misra_cpp autosar_cpp : AutomotiveStandard

abbrev pub severity_rank : Severity → ℕ
severity_rank Severity.info = 0
severity_rank Severity.low = 1
severity_rank Severity.medium = 2
severity_rank Severity.high = 3
severity_rank Severity.critical = 4

-- `RANK` of src/core/engine.ts.
abbrev pub decision_rank : Decision → ℕ
decision_rank Decision.pass = 0
decision_rank Decision.warn = 1
decision_rank Decision.fail = 2

abbrev pub status_rank : ScannerExecutionStatus → ℕ
status_rank ScannerExecutionStatus.success = 0
status_rank ScannerExecutionStatus.failed = 1
status_rank ScannerExecutionStatus.skipped = 2

abbrev pub mode_rank : ScannerFailureMode → ℕ
mode_rank ScannerFailureMode.fail = 0
mode_rank ScannerFailureMode.warn = 1
mode_rank ScannerFailureMode.ignore = 2

-- `LEVELS.indexOf` of src/policy/documents.ts.
abbrev pub level_rank : PolicyLevel → ℕ
level_rank PolicyLevel.organization = 0
level_rank PolicyLevel.tenant = 1
level_rank PolicyLevel.project = 2
level_rank PolicyLevel.repository = 3
level_rank PolicyLevel.service = 4

abbrev pub field_rank : PolicyField → ℕ
field_rank PolicyField.fail_on = 0
field_rank PolicyField.warn_on = 1
field_rank PolicyField.required_scanners = 2
field_rank PolicyField.scanner_failure_modes = 3

abbrev pub standard_rank : AutomotiveStandard → ℕ
standard_rank AutomotiveStandard.misra_c = 0
standard_rank AutomotiveStandard.misra_cpp = 1
standard_rank AutomotiveStandard.autosar_cpp = 2

pub severity_beq_iff :
    (a b : Severity) → (nat_beq (severity_rank a) (severity_rank b) ≡ true) ↔ (a ≡ b)
severity_beq_iff a b = ground arith

pub decision_beq_iff :
    (a b : Decision) → (nat_beq (decision_rank a) (decision_rank b) ≡ true) ↔ (a ≡ b)
decision_beq_iff a b = ground arith

pub status_beq_iff :
    (a b : ScannerExecutionStatus) → (nat_beq (status_rank a) (status_rank b) ≡ true) ↔ (a ≡ b)
status_beq_iff a b = ground arith

pub mode_beq_iff :
    (a b : ScannerFailureMode) → (nat_beq (mode_rank a) (mode_rank b) ≡ true) ↔ (a ≡ b)
mode_beq_iff a b = ground arith

pub level_beq_iff : (a b : PolicyLevel) → (nat_beq (level_rank a) (level_rank b) ≡ true) ↔ (a ≡ b)
level_beq_iff a b = ground arith

pub field_beq_iff : (a b : PolicyField) → (nat_beq (field_rank a) (field_rank b) ≡ true) ↔ (a ≡ b)
field_beq_iff a b = ground arith

pub standard_beq_iff :
    (a b : AutomotiveStandard) → (nat_beq (standard_rank a) (standard_rank b) ≡ true) ↔ (a ≡ b)
standard_beq_iff a b = ground arith

instance abbrev pub severity_eq : Eq Severity
severity_eq = record {
  beq = λ a b. nat_beq (severity_rank a) (severity_rank b);
  beq_iff = severity_beq_iff;
}

instance abbrev pub decision_eq : Eq Decision
decision_eq = record {
  beq = λ a b. nat_beq (decision_rank a) (decision_rank b);
  beq_iff = decision_beq_iff;
}

instance abbrev pub status_eq : Eq ScannerExecutionStatus
status_eq = record {
  beq = λ a b. nat_beq (status_rank a) (status_rank b);
  beq_iff = status_beq_iff;
}

instance abbrev pub mode_eq : Eq ScannerFailureMode
mode_eq = record { beq = λ a b. nat_beq (mode_rank a) (mode_rank b); beq_iff = mode_beq_iff }

instance abbrev pub level_eq : Eq PolicyLevel
level_eq = record { beq = λ a b. nat_beq (level_rank a) (level_rank b); beq_iff = level_beq_iff }

instance abbrev pub field_eq : Eq PolicyField
field_eq = record { beq = λ a b. nat_beq (field_rank a) (field_rank b); beq_iff = field_beq_iff }

instance abbrev pub standard_eq : Eq AutomotiveStandard
standard_eq = record {
  beq = λ a b. nat_beq (standard_rank a) (standard_rank b);
  beq_iff = standard_beq_iff;
}
