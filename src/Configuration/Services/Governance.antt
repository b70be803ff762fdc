-- ===== src/Configuration/Services/Governance.antt =====
-- src/config/load.ts: the sections on compliance, integrity, policy and waivers.
use quilons_sentrycode.Common.{
  ℕ, ℤ, pos, negsuc, Bool, true, String, List, Option, none, some, if◌then◌else◌, leb, nat_beq,
  ◌<>◌,
}
use quilons_sentrycode.Core.Enums.{Severity}
use quilons_sentrycode.Core.Json.{Json, arr, Fields, get, text}
use quilons_sentrycode.Core.Config.{PolicyConfig, PolicyDefaultsContext}
use quilons_sentrycode.Core.Settings.{
  ComplianceAuthMode, ComplianceConfig, CraReportingConfig, OfflineConfig, IntegrityConfig,
  OperationsConfig, WaiversConfig,
}
use quilons_sentrycode.Core.Defaults.{
  default_config, default_compliance, default_cra_reporting, default_integrity, default_policy,
  default_waivers,
}
use quilons_sentrycode.Policy.Documents.Parsing.{severity_of}
use quilons_sentrycode.Configuration.Outcome.{Outcome, returned, ◌>>=◌, ◌>>◌, fault, refuse_if}
use quilons_sentrycode.Configuration.Reading.{
  LoadHost, string_array, failure_mode_record, text_or, flag_or, number_at, non_negative_or,
  positive_or, positive_integer_or, all_strings, all_named, or_fault,
}
use quilons_sentrycode.Configuration.Sections.{Sections}
use quilons_sentrycode.Configuration.Scanning.{named_array}
use quilons_sentrycode.Configuration.Services.{is_the_text}

-- `value >= 0 && value <= 65535 ? value : default`.
abbrev pub port_of : Option ℤ → ℕ → ℕ
port_of (some (pos n)) default = if leb n 65535 then n else default
port_of _ default = default

abbrev pub port_or : LoadHost → String → Fields → ℕ → ℕ
port_or host k fs default = port_of (number_at host k fs) default

unfoldable pub compliance_config : LoadHost → Fields → ComplianceConfig
compliance_config host fs =
    let d = default_compliance in
    record {
      enabled = flag_or "enabled" fs d.enabled;
      tenant = text_or "tenant" fs d.tenant;
      project = text_or "project" fs d.project;
      store_directory = text_or "storeDirectory" fs d.store_directory;
      endpoint = text_or "endpoint" fs d.endpoint;
      token_env = text_or "tokenEnv" fs d.token_env;
      timeout_ms = non_negative_or host "timeoutMs" fs d.timeout_ms;
      listen_host = text_or "listenHost" fs d.listen_host;
      listen_port = port_or host "listenPort" fs d.listen_port;
      api_token_env = text_or "apiTokenEnv" fs d.api_token_env;
      auth_mode =
          if is_the_text (text "authMode" fs) "hmac"
          then ComplianceAuthMode.hmac
          else ComplianceAuthMode.static;
      hmac_secret_env = text_or "hmacSecretEnv" fs d.hmac_secret_env;
      token_issuer = text_or "tokenIssuer" fs d.token_issuer;
      token_audience = text_or "tokenAudience" fs d.token_audience;
    }

unfoldable pub cra_reporting_config : LoadHost → Fields → Outcome CraReportingConfig
unfolding string_array all_named severity_of
cra_reporting_config host fs =
    let d = default_cra_reporting in
    do
      severities ←
          named_array severity_of (get "severities" fs) d.severities "craReporting.severities"
            "craReporting.severities must contain valid severities"
      types ← string_array (get "findingTypes" fs) d.finding_types "craReporting.findingTypes"
      returned (record {
        enabled = flag_or "enabled" fs d.enabled;
        endpoint = text_or "endpoint" fs d.endpoint;
        assessment_id = text_or "assessmentId" fs d.assessment_id;
        token_env = text_or "tokenEnv" fs d.token_env;
        timeout_ms = non_negative_or host "timeoutMs" fs d.timeout_ms;
        max_attempts = positive_integer_or host "maxAttempts" fs d.max_attempts;
        retry_delay_ms = non_negative_or host "retryDelayMs" fs d.retry_delay_ms;
        severities = severities;
        finding_types = types;
      })

unfoldable pub offline_config : Fields → OfflineConfig
offline_config fs =
    let d = default_config.offline in
    record {
      enabled = flag_or "enabled" fs d.enabled;
      require_signed_intelligence_bundles =
          flag_or "requireSignedIntelligenceBundles" fs d.require_signed_intelligence_bundles;
      intelligence_public_key_file =
          text_or "intelligencePublicKeyFile" fs d.intelligence_public_key_file;
    }

unfoldable pub integrity_config : Fields → IntegrityConfig
integrity_config fs =
    let d = default_integrity in
    record {
      require_signed_config = flag_or "requireSignedConfig" fs d.require_signed_config;
      config_signature_file = text_or "configSignatureFile" fs d.config_signature_file;
      public_key_file = text_or "publicKeyFile" fs d.public_key_file;
      audit_log_file = text_or "auditLogFile" fs d.audit_log_file;
      evidence_manifests = flag_or "evidenceManifests" fs d.evidence_manifests;
      evidence_signing_private_key_file =
          text_or "evidenceSigningPrivateKeyFile" fs d.evidence_signing_private_key_file;
      evidence_signing_public_key_file =
          text_or "evidenceSigningPublicKeyFile" fs d.evidence_signing_public_key_file;
    }

unfoldable pub operations_config : LoadHost → Fields → OperationsConfig
operations_config host fs =
    let d = default_config.operations in
    record {
      backup_directory = text_or "backupDirectory" fs d.backup_directory;
      retention_days = positive_or host "retentionDays" fs d.retention_days;
    }

-- `policy.failOn` and `policy.warnOn`: an array of severities, or the default.
abbrev pub severities_in : Json → Option (List Severity)
severities_in (arr xs) = elim (all_strings xs) [ none ↦ none | some ss ↦ all_named severity_of ss ]
severities_in _ = none

unfoldable pub policy_severities :
    Option Json → (fallback : List Severity) → (label : String) → Outcome (List Severity)
unfolding all_strings all_named severity_of
policy_severities none fallback label = returned fallback
policy_severities (some v) fallback label =
    or_fault (severities_in v) (label <> " must contain valid severities")

unfoldable pub policy_config :
    Sections → (fail_on warn_on : List Severity) → PolicyDefaultsContext → Outcome PolicyConfig
unfolding string_array failure_mode_record
policy_config s fail_on warn_on context =
    let d = default_policy in
    do
      required ←
          string_array (get "requiredScanners" s.policy) d.required_scanners
            "policy.requiredScanners"
      modes ←
          failure_mode_record (get "scannerFailureModes" s.policy) d.scanner_failure_modes
            "policy.scannerFailureModes"
      files ← string_array (get "policyFiles" s.opa) d.opa.policy_files "policy.opa.policyFiles"
      returned (record {
        fail_on = fail_on;
        warn_on = warn_on;
        required_scanners = required;
        directory = text_or "directory" s.policy d.directory;
        scanner_failure_modes = modes;
        context = context;
        opa = record {
          enabled = flag_or "enabled" s.opa d.opa.enabled;
          binary = text_or "binary" s.opa d.opa.binary;
          query = text_or "query" s.opa d.opa.query;
          policy_files = files;
        };
      })

-- `maxDurationDays` is finite and above 0, or it ends the merge.
abbrev pub duration_or_fault : Option ℤ → (finite : Bool) → Outcome ℕ
duration_or_fault none finite = returned default_waivers.max_duration_days
duration_or_fault (some (pos n)) finite =
    refuse_if (if finite then nat_beq n 0 else true)
      "waivers.maxDurationDays must be a positive number"
    >> returned n
duration_or_fault (some (negsuc n)) finite =
    fault "waivers.maxDurationDays must be a positive number"

unfoldable pub waivers_config : Fields → (file : String) → (max_duration_days : ℕ) → WaiversConfig
waivers_config fs file max_duration_days = record {
  file = file;
  require_approval = flag_or "requireApproval" fs default_waivers.require_approval;
  require_ticket = flag_or "requireTicket" fs default_waivers.require_ticket;
  max_duration_days = max_duration_days;
}
