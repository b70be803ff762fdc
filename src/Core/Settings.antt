-- ===== src/Core/Settings.antt =====
-- The rest of `SentryCodeConfig` of src/core/types.ts, and the whole of it.
use quilons_sentrycode.Common.{ℕ, ℤ, Bool, String, List}
use quilons_sentrycode.Core.Enums.{Severity}
use quilons_sentrycode.Core.Config.{
  ConsumerConfig, ScanConfig, SecretsConfig, DependenciesConfig, LicensesConfig,
  VulnerabilitiesConfig, SbomFormat, PolicyConfig, SastConfig, GitAssuranceConfig, ProvenanceConfig,
  AutomotiveConfig, CiConfig,
}

pub record MonorepoConfig : Type 0 where
  pub enabled : Bool
  pub service_roots : List String
  pub discover_workspaces : Bool

pub record IncrementalConfig : Type 0 where
  pub enabled : Bool
  pub base_ref : String
  pub head_ref : String
  pub cache_file : String
  pub scanner_timeout_ms : ℤ

pub record RunnerConfig : Type 0 where
  pub enabled : Bool
  pub endpoint : String
  pub token_env : String
  pub tenant : String
  pub project : String
  pub timeout_ms : ℕ
  pub profiles : List (String × String)

pub data ComplianceAuthMode : Type 0 where
  static hmac : ComplianceAuthMode

pub record ComplianceConfig : Type 0 where
  pub enabled : Bool
  pub tenant : String
  pub project : String
  pub store_directory : String
  pub endpoint : String
  pub token_env : String
  pub timeout_ms : ℕ
  pub listen_host : String
  pub listen_port : ℕ
  pub api_token_env : String
  pub auth_mode : ComplianceAuthMode
  pub hmac_secret_env : String
  pub token_issuer : String
  pub token_audience : String

pub record CraReportingConfig : Type 0 where
  pub enabled : Bool
  pub endpoint : String
  pub assessment_id : String
  pub token_env : String
  pub timeout_ms : ℕ
  pub max_attempts : ℕ
  pub retry_delay_ms : ℕ
  pub severities : List Severity
  pub finding_types : List String

pub record OfflineConfig : Type 0 where
  pub enabled : Bool
  pub require_signed_intelligence_bundles : Bool
  pub intelligence_public_key_file : String

pub record IntegrityConfig : Type 0 where
  pub require_signed_config : Bool
  pub config_signature_file : String
  pub public_key_file : String
  pub audit_log_file : String
  pub evidence_manifests : Bool
  pub evidence_signing_private_key_file : String
  pub evidence_signing_public_key_file : String

pub record OperationsConfig : Type 0 where
  pub backup_directory : String
  pub retention_days : ℕ

pub record WaiversConfig : Type 0 where
  pub file : String
  pub require_approval : Bool
  pub require_ticket : Bool
  pub max_duration_days : ℕ

pub record SentryCodeConfig : Type 0 where
  pub scan : ScanConfig
  pub secrets : SecretsConfig
  pub dependencies : DependenciesConfig
  pub licenses : LicensesConfig
  pub vulnerabilities : VulnerabilitiesConfig
  pub sbom_default_format : SbomFormat
  pub policy : PolicyConfig
  pub sast : SastConfig
  pub git_assurance : GitAssuranceConfig
  pub provenance : ProvenanceConfig
  pub automotive : AutomotiveConfig
  pub ci : CiConfig
  pub monorepo : MonorepoConfig
  pub incremental : IncrementalConfig
  pub runner : RunnerConfig
  pub compliance : ComplianceConfig
  pub consumers : List ConsumerConfig
  pub cra_reporting : CraReportingConfig
  pub offline : OfflineConfig
  pub integrity : IntegrityConfig
  pub operations : OperationsConfig
  pub waivers : WaiversConfig
  pub waivers_file : String
