-- ===== src/Core/Defaults.antt =====
-- `DEFAULT_CONFIG` of src/config/defaults.ts.
mod Scanning
pub use Scanning.*
use quilons_sentrycode.Common.{pos, true, false, none, [], ◌∷◌}
use quilons_sentrycode.Core.Enums.{Severity}
use quilons_sentrycode.Core.Config.{SbomFormat, CiConfig}
use quilons_sentrycode.Core.Settings.{
  SentryCodeConfig, ComplianceAuthMode, MonorepoConfig, IncrementalConfig, RunnerConfig,
  ComplianceConfig, CraReportingConfig, IntegrityConfig, WaiversConfig,
}

abbrev pub default_ci : CiConfig
default_ci = record { enabled = true; provider = none; annotations = true }

abbrev pub default_monorepo : MonorepoConfig
default_monorepo = record { enabled = true; service_roots = []; discover_workspaces = true }

abbrev pub default_incremental : IncrementalConfig
default_incremental = record {
  enabled = true;
  base_ref = "";
  head_ref = "HEAD";
  cache_file = ".sentrycode/cache/incremental.json";
  scanner_timeout_ms = pos 120000;
}

abbrev pub default_runner : RunnerConfig
default_runner = record {
  enabled = false;
  endpoint = "http://sentrycode-runner:7791";
  token_env = "SENTRYCODE_RUNNER_TOKEN";
  tenant = "";
  project = "";
  timeout_ms = 300000;
  profiles = ("supply-chain", "syft-grype") ∷ [];
}

abbrev pub default_compliance : ComplianceConfig
default_compliance = record {
  enabled = false;
  tenant = "";
  project = "";
  store_directory = ".sentrycode/compliance";
  endpoint = "";
  token_env = "SENTRYCODE_COMPLIANCE_TOKEN";
  timeout_ms = 15000;
  listen_host = "127.0.0.1";
  listen_port = 7786;
  api_token_env = "SENTRYCODE_PLUGIN_API_TOKEN";
  auth_mode = ComplianceAuthMode.static;
  hmac_secret_env = "SENTRYCODE_PLUGIN_HMAC_SECRET";
  token_issuer = "quilons-compliance";
  token_audience = "quilons.sentrycode";
}

abbrev pub default_cra_reporting : CraReportingConfig
default_cra_reporting = record {
  enabled = false;
  endpoint = "";
  assessment_id = "";
  token_env = "SENTRYCODE_CRA_TOKEN";
  timeout_ms = 15000;
  max_attempts = 5;
  retry_delay_ms = 30000;
  severities = Severity.high ∷ Severity.critical ∷ [];
  finding_types = [];
}

abbrev pub default_integrity : IntegrityConfig
default_integrity = record {
  require_signed_config = false;
  config_signature_file = ".sentrycode/config.sig.json";
  public_key_file = "";
  audit_log_file = ".sentrycode/audit/events.jsonl";
  evidence_manifests = true;
  evidence_signing_private_key_file = "";
  evidence_signing_public_key_file = "";
}

abbrev pub default_waivers : WaiversConfig
default_waivers = record {
  file = ".sentrycode/waivers.json";
  require_approval = false;
  require_ticket = false;
  max_duration_days = 90;
}

abbrev pub default_config : SentryCodeConfig
default_config = record {
  scan = default_scan;
  secrets = default_secrets;
  dependencies = default_dependencies;
  licenses = default_licenses;
  vulnerabilities = default_vulnerabilities;
  sbom_default_format = SbomFormat.cyclonedx;
  policy = default_policy;
  sast = default_sast;
  git_assurance = default_git_assurance;
  provenance = default_provenance;
  automotive = default_automotive;
  ci = default_ci;
  monorepo = default_monorepo;
  incremental = default_incremental;
  runner = default_runner;
  compliance = default_compliance;
  consumers = [];
  cra_reporting = default_cra_reporting;
  offline = record {
    enabled = false;
    require_signed_intelligence_bundles = false;
    intelligence_public_key_file = "";
  };
  integrity = default_integrity;
  operations = record { backup_directory = ".sentrycode/backups"; retention_days = 365 };
  waivers = default_waivers;
  waivers_file = ".sentrycode/waivers.json";
}
