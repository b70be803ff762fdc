-- ===== src/Configuration/Merge.antt =====
-- src/config/load.ts: `mergeConfig`, the configuration of a parsed document over the defaults.
pub mod Validity
use quilons_sentrycode.Common.{
  ℕ, Bool, true, String, List, Option, none, some, if◌then◌else◌, ◌==◌, string_eq,
}
use quilons_sentrycode.Core.Json.{Json, other_num, str, Items, Fields, get}
use quilons_sentrycode.Core.Config.{SbomFormat, PolicyDefaultsContext}
use quilons_sentrycode.Core.Settings.{SentryCodeConfig}
use quilons_sentrycode.Core.Defaults.{default_config, default_policy, default_waivers}
use quilons_sentrycode.Core.Enums.{Severity}
use quilons_sentrycode.Core.Config.{UnknownLicense}
use quilons_sentrycode.Configuration.Outcome.{Outcome, returned, ◌>>=◌, ◌>>◌}
use quilons_sentrycode.Configuration.Reading.{
  LoadHost, nullish, number_at, optional_text, or_fault, text_or,
}
use quilons_sentrycode.Configuration.Consumers.{consumer_configs}
use quilons_sentrycode.Configuration.Sections.{Sections, open_sections}
use quilons_sentrycode.Configuration.Scanning.{
  scan_config, secrets_config, pattern_items, dependencies_config, unknown_license, licenses_config,
  vulnerabilities_config, sast_config,
}
use quilons_sentrycode.Configuration.Services.{
  git_assurance_config, provenance_config, automotive_config, ci_config, monorepo_config,
  incremental_config, runner_config,
}
use quilons_sentrycode.Configuration.Services.Governance.{
  compliance_config, cra_reporting_config, offline_config, integrity_config, operations_config,
  policy_severities, policy_config, duration_or_fault, waivers_config,
}

abbrev pub sbom_format_of : Json → Option SbomFormat
sbom_format_of (str s) =
    if s == "cyclonedx"
    then some SbomFormat.cyclonedx
    else if s == "spdx"
    then some SbomFormat.spdx
    else none
sbom_format_of _ = none

abbrev pub sbom_format : Option Json → Outcome SbomFormat
sbom_format none = returned default_config.sbom_default_format
sbom_format (some v) = or_fault (sbom_format_of v) "sbom.defaultFormat must be cyclonedx or spdx"

-- The values that are checked before the sections are merged.
pub record Checked : Type 0 where
  pub fail_on : List Severity
  pub warn_on : List Severity
  pub patterns : Items
  pub unknown : UnknownLicense
  pub format : SbomFormat
  pub waiver_file : String
  pub max_duration_days : ℕ
  pub context : PolicyDefaultsContext

-- `typeof waivers.file === 'string' ? waivers.file : legacyWaiverFile ?? default`.
abbrev pub waiver_file_of : Fields → Fields → String
waiver_file_of raw waivers = text_or "file" waivers (text_or "waiversFile" raw default_waivers.file)

module _ (host : LoadHost) where
  abbrev pub is_finite_at : Option Json → Bool
  is_finite_at (some (other_num s)) = host.is_finite s
  is_finite_at _ = true

  unfoldable pub check_values : Fields → Sections → Outcome Checked
  unfolding policy_severities optional_text
  check_values raw s = do
    fail_on ←
        policy_severities (nullish (get "failOn" s.policy)) default_policy.fail_on "policy.failOn"
    warn_on ←
        policy_severities (nullish (get "warnOn" s.policy)) default_policy.warn_on "policy.warnOn"
    patterns ← pattern_items (nullish (get "customPatterns" s.secrets))
    unknown ← unknown_license (nullish (get "unknown" s.licenses))
    format ← sbom_format (nullish (get "defaultFormat" s.sbom))
    days ←
        duration_or_fault (number_at host "maxDurationDays" s.waivers)
          (is_finite_at (get "maxDurationDays" s.waivers))
    tenant ← optional_text (get "tenant" s.policy_context) "policy.context.tenant"
    project ← optional_text (get "project" s.policy_context) "policy.context.project"
    service ← optional_text (get "service" s.policy_context) "policy.context.service"
    returned (record {
      fail_on = fail_on;
      warn_on = warn_on;
      patterns = patterns;
      unknown = unknown;
      format = format;
      waiver_file = waiver_file_of raw s.waivers;
      max_duration_days = days;
      context = record { tenant = tenant; project = project; service = service };
    })

  unfoldable pub merge_sections : Fields → Sections → Checked → Outcome SentryCodeConfig
  unfolding scan_config secrets_config dependencies_config licenses_config vulnerabilities_config
      sast_config git_assurance_config provenance_config automotive_config ci_config monorepo_config
      incremental_config runner_config compliance_config consumer_configs cra_reporting_config
      offline_config integrity_config operations_config policy_config waivers_config
  merge_sections raw s checked = do
    scan ← scan_config host s.scan
    secrets ← secrets_config host s.secrets checked.patterns
    dependencies ← dependencies_config host s
    licenses ← licenses_config s.licenses checked.unknown
    vulnerabilities ← vulnerabilities_config host s.vulnerabilities
    sast ← sast_config host s
    git_assurance ← git_assurance_config host s
    provenance ← provenance_config s.provenance
    automotive ← automotive_config s.automotive
    ci ← ci_config s.ci
    monorepo ← monorepo_config s.monorepo
    runner ← runner_config host s.runner
    consumers ← consumer_configs host (get "consumers" raw)
    cra_reporting ← cra_reporting_config host s.cra_reporting
    policy ← policy_config s checked.fail_on checked.warn_on checked.context
    returned (record {
      scan = scan;
      secrets = secrets;
      dependencies = dependencies;
      licenses = licenses;
      vulnerabilities = vulnerabilities;
      sbom_default_format = checked.format;
      policy = policy;
      sast = sast;
      git_assurance = git_assurance;
      provenance = provenance;
      automotive = automotive;
      ci = ci;
      monorepo = monorepo;
      incremental = incremental_config host s.incremental;
      runner = runner;
      compliance = compliance_config host s.compliance;
      consumers = consumers;
      cra_reporting = cra_reporting;
      offline = offline_config s.offline;
      integrity = integrity_config s.integrity;
      operations = operations_config host s.operations;
      waivers = waivers_config s.waivers checked.waiver_file checked.max_duration_days;
      waivers_file = checked.waiver_file;
    })

  unfoldable pub merge_config : Fields → Outcome SentryCodeConfig
  unfolding open_sections check_values merge_sections
  merge_config raw = do
    s ← open_sections raw
    checked ← check_values raw s
    merge_sections raw s checked
