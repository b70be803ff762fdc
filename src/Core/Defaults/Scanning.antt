-- ===== src/Core/Defaults/Scanning.antt =====
-- The sections of `DEFAULT_CONFIG` (src/config/defaults.ts) on scanners and policy.
use quilons_sentrycode.Common.{pos, negsuc, true, false, none, [], ◌∷◌}
use quilons_sentrycode.Core.Enums.{Severity, ScannerFailureMode, AutomotiveStandard}
use quilons_sentrycode.Core.Config.{
  UnknownLicense, SastLanguage, GerritAuthMode, GerritNotify, AutomotiveEvidenceTarget, ScanConfig,
  SecretsConfig, DependenciesConfig, LicensesConfig, VulnerabilitiesConfig, PolicyConfig,
  SastConfig, GitAssuranceConfig, ProvenanceConfig, AutomotiveConfig,
}

abbrev pub default_scan : ScanConfig
default_scan = record {
  includes = "**/*" ∷ [];
  excludes =
      ".git/**" ∷ "node_modules/**" ∷ "dist/**" ∷ "build/**" ∷ "coverage/**" ∷ ".next/**"
      ∷ ".venv/**" ∷ "venv/**" ∷ "**/*.lock" ∷ "**/*.png" ∷ "**/*.jpg" ∷ "**/*.jpeg" ∷ "**/*.gif"
      ∷ "**/*.pdf" ∷ "**/*.zip" ∷ [];
  max_file_bytes = pos 2_000_000;
}

abbrev pub default_secrets : SecretsConfig
default_secrets = record {
  enabled = true;
  high_entropy = true;
  min_entropy_length = pos 24;
  history_max_commits = 500;
  custom_patterns = [];
}

abbrev pub default_dependencies : DependenciesConfig
default_dependencies = record {
  enabled = true;
  include_dev = true;
  allowed_registries = [];
  denied_registries = [];
  denied_packages = [];
  allowed_packages = [];
  version_restrictions = [];
  maintenance = record {
    enabled = false;
    metadata_file = ".sentrycode/dependency-health.json";
    max_release_age_days = 730;
    deny_deprecated = true;
    require_metadata = false;
  };
}

abbrev pub default_licenses : LicensesConfig
default_licenses = record {
  enabled = true;
  allowed = [];
  denied = "AGPL-3.0" ∷ "AGPL-3.0-only" ∷ "AGPL-3.0-or-later" ∷ "SSPL-1.0" ∷ [];
  review_required = "GPL-2.0" ∷ "GPL-3.0" ∷ "LGPL-2.1" ∷ "LGPL-3.0" ∷ [];
  unknown = UnknownLicense.warn;
  overrides = [];
}

abbrev pub default_vulnerabilities : VulnerabilitiesConfig
default_vulnerabilities = record {
  enabled = true;
  database_file = ".sentrycode/vulnerability-db.json";
  fail_on_known_exploited = true;
  osv = record { enabled = true; endpoint = "https://api.osv.dev"; timeout_ms = 20000 };
}

abbrev pub default_policy : PolicyConfig
default_policy = record {
  fail_on = Severity.high ∷ Severity.critical ∷ [];
  warn_on = Severity.medium ∷ [];
  required_scanners = "secrets" ∷ "dependencies" ∷ "sast" ∷ "git-assurance" ∷ [];
  directory = ".sentrycode/policies";
  scanner_failure_modes =
      ("secrets", ScannerFailureMode.fail)
      ∷ ("dependencies", ScannerFailureMode.fail)
      ∷ ("sast", ScannerFailureMode.fail)
      ∷ ("git-assurance", ScannerFailureMode.fail)
      ∷ [];
  context = record { tenant = none; project = none; service = none };
  opa = record {
    enabled = false;
    binary = "opa";
    query = "data.sentrycode.release.decision";
    policy_files = [];
  };
}

abbrev pub default_sast : SastConfig
default_sast = record {
  enabled = true;
  languages =
      SastLanguage.javascript ∷ SastLanguage.typescript ∷ SastLanguage.python ∷ SastLanguage.java
      ∷ SastLanguage.csharp ∷ SastLanguage.c ∷ SastLanguage.cpp ∷ SastLanguage.rust
      ∷ SastLanguage.go ∷ [];
  external = record {
    enabled = false;
    command = "";
    args = [];
    sarif_file = ".sentrycode/external-sast.sarif";
    timeout_ms = 120000;
  };
}

abbrev pub default_git_assurance : GitAssuranceConfig
default_git_assurance = record {
  enabled = true;
  require_clean_tree = false;
  require_signed_commit = false;
  allowed_email_domains = [];
  github = record {
    enabled = false;
    token_env = "GITHUB_TOKEN";
    api_base_url = "https://api.github.com";
    require_protected_branch = true;
    minimum_approvals = 1;
    require_status_checks = true;
  };
  gerrit = record {
    enabled = false;
    api_base_url = "";
    auth_mode = GerritAuthMode.bearer;
    token_env = "SENTRYCODE_GERRIT_TOKEN";
    username_env = "SENTRYCODE_GERRIT_USERNAME";
    password_env = "SENTRYCODE_GERRIT_PASSWORD";
    required_labels = ("Code-Review", pos 2) ∷ ("Verified", pos 1) ∷ [];
    publish_review = true;
    vote_label = "Verified";
    pass_vote = pos 1;
    warn_vote = pos 0;
    fail_vote = negsuc 0;
    notify = GerritNotify.owner_reviewers;
    fail_closed = true;
    timeout_ms = 15000;
  };
}

abbrev pub default_provenance : ProvenanceConfig
default_provenance = record {
  enabled = true;
  artifact_paths = [];
  signing_private_key_file = "";
  signing_public_key_file = "";
}

abbrev pub default_automotive : AutomotiveConfig
default_automotive = record {
  enabled = false;
  import_directory = ".sentrycode/automotive/findings";
  deviations_file = ".sentrycode/automotive/deviations.json";
  accepted_standards =
      AutomotiveStandard.misra_c ∷ AutomotiveStandard.misra_cpp ∷ AutomotiveStandard.autosar_cpp
      ∷ [];
  require_deviation_approval = true;
  require_inputs = true;
  evidence_targets =
      AutomotiveEvidenceTarget.iso_sae_21434 ∷ AutomotiveEvidenceTarget.unece_r155
      ∷ AutomotiveEvidenceTarget.unece_r156 ∷ [];
}
