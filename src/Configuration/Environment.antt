-- ===== src/Configuration/Environment.antt =====
-- src/config/load.ts: `applyEnvironmentOverrides`. An environment tells the value of a variable.
use quilons_sentrycode.Common.{
  ℤ, pos, Bool, true, false, String, Option, none, some, if◌then◌else◌, is_truthy, or_else,
  string_eq,
}
use quilons_sentrycode.Core.Enums.{CiProvider}
use quilons_sentrycode.Core.Settings.{SentryCodeConfig}
use quilons_sentrycode.Configuration.Outcome.{Outcome, returned, ◌>>=◌, fault}
use quilons_sentrycode.Configuration.Reading.{LoadHost, or_fault}
use quilons_sentrycode.Configuration.Services.{provider_of, is_the_text}

abbrev pub Environment : Type 0
Environment = String → Option String

-- The value of a variable that is set and not empty.
abbrev pub filled : Option String → Option String
filled none = none
filled (some s) = if is_truthy s then some s else none

abbrev pub provider_from : Option String → Option CiProvider → Outcome (Option CiProvider)
provider_from none current = returned current
provider_from (some s) current = or_fault (provider_of s) "SENTRYCODE_CI_PROVIDER is unsupported"

abbrev pub timeout_or_fault : Option ℤ → Outcome ℤ
timeout_or_fault (some (pos n)) = returned (pos n)
timeout_or_fault _ = fault "SENTRYCODE_SCANNER_TIMEOUT_MS must be a non-negative number"

abbrev pub timeout_from : LoadHost → Option String → ℤ → Outcome ℤ
timeout_from host none current = returned current
timeout_from host (some s) current = timeout_or_fault (host.to_number s)

-- `'true'` and `'false'` set a flag, and any other value leaves it.
abbrev pub switched : Option String → Bool → Bool
switched value current =
    if is_the_text value "true" then true else if is_the_text value "false" then false else current

-- `'true'` turns a flag off.
abbrev pub disabled_by : Option String → Bool → Bool
disabled_by value current = if is_the_text value "true" then false else current

-- `'true'` turns a flag on.
abbrev pub enabled_by : Option String → Bool → Bool
enabled_by value current = if is_the_text value "true" then true else current

unfoldable pub apply_environment_overrides :
    LoadHost → Environment → SentryCodeConfig → Outcome SentryCodeConfig
unfolding provider_of
apply_environment_overrides host env config = do
  provider ← provider_from (filled (env "SENTRYCODE_CI_PROVIDER")) config.ci.provider
  timeout ←
      timeout_from host (filled (env "SENTRYCODE_SCANNER_TIMEOUT_MS"))
        config.incremental.scanner_timeout_ms
  returned (record config {
    ci = record config.ci {
      provider = provider;
      annotations = disabled_by (env "SENTRYCODE_DISABLE_CI_ANNOTATIONS") config.ci.annotations;
    };
    incremental = record config.incremental {
      base_ref = or_else (env "SENTRYCODE_INCREMENTAL_BASE") config.incremental.base_ref;
      head_ref = or_else (filled (env "SENTRYCODE_INCREMENTAL_HEAD")) config.incremental.head_ref;
      scanner_timeout_ms = timeout;
    };
    runner = record config.runner {
      endpoint = or_else (env "SENTRYCODE_RUNNER_ENDPOINT") config.runner.endpoint;
      token_env = or_else (filled (env "SENTRYCODE_RUNNER_TOKEN_ENV")) config.runner.token_env;
      tenant = or_else (env "SENTRYCODE_RUNNER_TENANT") config.runner.tenant;
      project = or_else (env "SENTRYCODE_RUNNER_PROJECT") config.runner.project;
      enabled = switched (env "SENTRYCODE_RUNNER_ENABLED") config.runner.enabled;
    };
    git_assurance = record config.git_assurance {
      gerrit = record config.git_assurance.gerrit {
        api_base_url =
            or_else (env "SENTRYCODE_GERRIT_URL") config.git_assurance.gerrit.api_base_url;
        token_env =
            or_else (filled (env "SENTRYCODE_GERRIT_TOKEN_ENV"))
              config.git_assurance.gerrit.token_env;
        username_env =
            or_else (filled (env "SENTRYCODE_GERRIT_USERNAME_ENV"))
              config.git_assurance.gerrit.username_env;
        password_env =
            or_else (filled (env "SENTRYCODE_GERRIT_PASSWORD_ENV"))
              config.git_assurance.gerrit.password_env;
      };
    };
    compliance = record config.compliance {
      tenant = or_else (env "SENTRYCODE_COMPLIANCE_TENANT") config.compliance.tenant;
      project = or_else (env "SENTRYCODE_COMPLIANCE_PROJECT") config.compliance.project;
      endpoint = or_else (env "SENTRYCODE_COMPLIANCE_ENDPOINT") config.compliance.endpoint;
      enabled = disabled_by (env "SENTRYCODE_DISABLE_COMPLIANCE_PUBLISH") config.compliance.enabled;
    };
    cra_reporting = record config.cra_reporting {
      endpoint = or_else (env "SENTRYCODE_CRA_ENDPOINT") config.cra_reporting.endpoint;
      assessment_id =
          or_else (env "SENTRYCODE_CRA_ASSESSMENT_ID") config.cra_reporting.assessment_id;
      enabled = disabled_by (env "SENTRYCODE_DISABLE_CRA_REPORTING") config.cra_reporting.enabled;
    };
    offline = record config.offline {
      enabled = enabled_by (env "SENTRYCODE_OFFLINE") config.offline.enabled;
    };
  })
