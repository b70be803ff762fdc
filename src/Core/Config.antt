-- ===== src/Core/Config.antt =====
-- `SentryCodeConfig` of src/core/types.ts, section by section. A `Record<string, T>` is an
-- association list; amounts are whole numbers.
use quilons_sentrycode.Common.{ℕ, ℤ, Bool, String, List, Option}
use quilons_sentrycode.Core.Enums.{Severity, ScannerFailureMode, CiProvider, AutomotiveStandard}

pub record ConsumerScanProfile : Type 0 where
  pub required_scanners : List String
  pub evidence_types : List String
  pub severities : List Severity
  pub finding_types : List String

pub record ConsumerConfig : Type 0 where
  pub consumer_id : String
  pub adapter : String
  pub enabled : Bool
  pub endpoint : String
  pub token_env : String
  pub timeout_ms : ℕ
  pub max_attempts : ℕ
  pub retry_delay_ms : ℕ
  pub scan_profile : ConsumerScanProfile
  pub context : List (String × String)

pub record ScanConfig : Type 0 where
  pub includes : List String
  pub excludes : List String
  pub max_file_bytes : ℤ

pub record CustomPattern : Type 0 where
  pub id : String
  pub pattern' : String
  pub severity : Severity
  pub description : Option String

pub record SecretsConfig : Type 0 where
  pub enabled : Bool
  pub high_entropy : Bool
  pub min_entropy_length : ℤ
  pub history_max_commits : ℕ
  pub custom_patterns : List CustomPattern

pub record MaintenanceConfig : Type 0 where
  pub enabled : Bool
  pub metadata_file : String
  pub max_release_age_days : ℕ
  pub deny_deprecated : Bool
  pub require_metadata : Bool

pub record DependenciesConfig : Type 0 where
  pub enabled : Bool
  pub include_dev : Bool
  pub allowed_registries : List String
  pub denied_registries : List String
  pub denied_packages : List String
  pub allowed_packages : List String
  pub version_restrictions : List (String × String)
  pub maintenance : MaintenanceConfig

-- `listed` is an array that passes for one of the texts.
pub data UnknownLicense : Type 0 where
  allow warn fail listed : UnknownLicense

pub record LicensesConfig : Type 0 where
  pub enabled : Bool
  pub allowed : List String
  pub denied : List String
  pub review_required : List String
  pub unknown : UnknownLicense
  pub overrides : List (String × String)

pub record OsvConfig : Type 0 where
  pub enabled : Bool
  pub endpoint : String
  pub timeout_ms : ℕ

pub record VulnerabilitiesConfig : Type 0 where
  pub enabled : Bool
  pub database_file : String
  pub fail_on_known_exploited : Bool
  pub osv : OsvConfig

pub data SbomFormat : Type 0 where
  cyclonedx spdx : SbomFormat

pub record PolicyDefaultsContext : Type 0 where
  pub tenant : Option String
  pub project : Option String
  pub service : Option String

pub record OpaConfig : Type 0 where
  pub enabled : Bool
  pub binary : String
  pub query : String
  pub policy_files : List String

pub record PolicyConfig : Type 0 where
  pub fail_on : List Severity
  pub warn_on : List Severity
  pub required_scanners : List String
  pub directory : String
  pub scanner_failure_modes : List (String × ScannerFailureMode)
  pub context : PolicyDefaultsContext
  pub opa : OpaConfig

pub data SastLanguage : Type 0 where
  javascript typescript python java csharp c cpp rust go : SastLanguage

pub record ExternalSastConfig : Type 0 where
  pub enabled : Bool
  pub command : String
  pub args : List String
  pub sarif_file : String
  pub timeout_ms : ℕ

pub record SastConfig : Type 0 where
  pub enabled : Bool
  pub languages : List SastLanguage
  pub external : ExternalSastConfig

pub record GithubConfig : Type 0 where
  pub enabled : Bool
  pub token_env : String
  pub api_base_url : String
  pub require_protected_branch : Bool
  pub minimum_approvals : ℕ
  pub require_status_checks : Bool

pub data GerritAuthMode : Type 0 where
  bearer basic : GerritAuthMode

-- `listed` is an array that passes for one of the texts.
pub data GerritNotify : Type 0 where
  nobody owner owner_reviewers everyone listed : GerritNotify

pub record GerritConfig : Type 0 where
  pub enabled : Bool
  pub api_base_url : String
  pub auth_mode : GerritAuthMode
  pub token_env : String
  pub username_env : String
  pub password_env : String
  pub required_labels : List (String × ℤ)
  pub publish_review : Bool
  pub vote_label : String
  pub pass_vote : ℤ
  pub warn_vote : ℤ
  pub fail_vote : ℤ
  pub notify : GerritNotify
  pub fail_closed : Bool
  pub timeout_ms : ℕ

pub record GitAssuranceConfig : Type 0 where
  pub enabled : Bool
  pub require_clean_tree : Bool
  pub require_signed_commit : Bool
  pub allowed_email_domains : List String
  pub github : GithubConfig
  pub gerrit : GerritConfig

pub record ProvenanceConfig : Type 0 where
  pub enabled : Bool
  pub artifact_paths : List String
  pub signing_private_key_file : String
  pub signing_public_key_file : String

pub data AutomotiveEvidenceTarget : Type 0 where
  iso_sae_21434 unece_r155 unece_r156 : AutomotiveEvidenceTarget

pub record AutomotiveConfig : Type 0 where
  pub enabled : Bool
  pub import_directory : String
  pub deviations_file : String
  pub accepted_standards : List AutomotiveStandard
  pub require_deviation_approval : Bool
  pub require_inputs : Bool
  pub evidence_targets : List AutomotiveEvidenceTarget

-- `provider` is `none` for `auto`.
pub record CiConfig : Type 0 where
  pub enabled : Bool
  pub provider : Option CiProvider
  pub annotations : Bool
