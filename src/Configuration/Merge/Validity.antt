-- ===== src/Configuration/Merge/Validity.antt =====
-- src/config/load.ts: what a merged configuration may be relied on for.
use quilons_sentrycode.Common.{
  ℕ, ◌<◌, ◌≤◌, ◌≡◌, refl, subst, ℤ, pos, negsuc, Bool, true, [], Option, none, some, if◌then◌else◌,
  nat_beq, arith,
}
use quilons_sentrycode.Core.Json.{Fields, get}
use quilons_sentrycode.Core.Settings.{SentryCodeConfig, RunnerConfig, CraReportingConfig}
use quilons_sentrycode.Core.Defaults.{default_config, default_runner}
use quilons_sentrycode.Policy.Documents.Parsing.{severity_of}
use quilons_sentrycode.Configuration.Outcome.{
  returned, >>=-eq-returned, refuse_if-eq-returned, returned-injective,
}
use quilons_sentrycode.Configuration.Reading.{
  LoadHost, number_at, nullish, optional_text, positive_of_pos, string_record, string_array,
}
use quilons_sentrycode.Configuration.Consumers.{consumer_configs}
use quilons_sentrycode.Configuration.Consumers.Distinct.{
  AreDistinct, consumer_configs-AreDistinct, positive_integer_or_pos,
}
use quilons_sentrycode.Configuration.Sections.{Sections, open_sections}
use quilons_sentrycode.Configuration.Scanning.{
  scan_config, secrets_config, pattern_items, dependencies_config, unknown_license, licenses_config,
  vulnerabilities_config, sast_config, named_array,
}
use quilons_sentrycode.Configuration.Services.{
  git_assurance_config, provenance_config, automotive_config, ci_config, monorepo_config,
  runner_config,
}
use quilons_sentrycode.Configuration.Services.Governance.{
  port_of, compliance_config, cra_reporting_config, policy_config, policy_severities,
  duration_or_fault,
}
use quilons_sentrycode.Configuration.Merge.{
  Checked, check_values, is_finite_at, merge_config, merge_sections, sbom_format,
}

-- Consumers that can be told apart and tried, limits that are in range, and one file of waivers under
-- both of its names.
pub record IsValid (c : SentryCodeConfig) : Type 0 where
  pub consumers : AreDistinct [] c.consumers
  pub max_duration_days : 0 < c.waivers.max_duration_days
  pub waivers_file : c.waivers.file ≡ c.waivers_file
  pub listen_port : c.compliance.listen_port ≤ 65535
  pub runner_timeout : 0 < c.runner.timeout_ms
  pub cra_attempts : 0 < c.cra_reporting.max_attempts
  pub retention_days : 0 < c.operations.retention_days

duration_or_fault-pos :
    (v : Option ℤ) (finite : Bool) (days : ℕ)
    → duration_or_fault v finite ≡ returned days
    → 0 < days
duration_or_fault-pos none finite days h = subst (λ n. 0 < n) (returned-injective h) (omega arith)
duration_or_fault-pos (some (pos n)) finite days h =
    let kept = refuse_if-eq-returned (if finite then nat_beq n 0 else true) _ _ h in
    let e : n ≡ days = returned-injective kept.1 in subst (λ m. 0 < m) e (ground (arith, kept.0))
duration_or_fault-pos (some (negsuc n)) finite days h = cc

port_of_le : (v : Option ℤ) (default : ℕ) → default ≤ 65535 → port_of v default ≤ 65535
port_of_le none default h = h
port_of_le (some (pos n)) default h = ground arith
port_of_le (some (negsuc n)) default h = h

module _ (host : LoadHost) where
  runner_config_pos :
      (fs : Fields) (r : RunnerConfig) → runner_config host fs ≡ returned r → 0 < r.timeout_ms
  unfolding runner_config
  runner_config_pos fs r h =
      let profiles =
        >>=-eq-returned
          (string_record (get "profiles" fs) default_runner.profiles "execution.runner.profiles") _
          h in
      subst (λ r. 0 < r.timeout_ms) (returned-injective profiles.2)
        (positive_of_pos (number_at host "timeoutMs" fs) default_runner.timeout_ms (omega arith))

  cra_reporting_config_pos :
      (fs : Fields) (c : CraReportingConfig)
      → cra_reporting_config host fs ≡ returned c
      → 0 < c.max_attempts
  unfolding cra_reporting_config
  cra_reporting_config_pos fs c h =
      let severities =
        >>=-eq-returned
          (named_array severity_of (get "severities" fs) default_config.cra_reporting.severities
            "craReporting.severities" "craReporting.severities must contain valid severities")
          _ h in
      let types =
        >>=-eq-returned
          (string_array (get "findingTypes" fs) default_config.cra_reporting.finding_types
            "craReporting.findingTypes")
          _ severities.2 in
      subst (λ c. 0 < c.max_attempts) (returned-injective types.2)
        (positive_integer_or_pos host "maxAttempts" fs 5 (omega arith))

  check_values_pos :
      (raw : Fields) (s : Sections) (c : Checked)
      → check_values host raw s ≡ returned c
      → 0 < c.max_duration_days
  unfolding check_values
  check_values_pos raw s c h =
      let fail_on =
        >>=-eq-returned
          (policy_severities (nullish (get "failOn" s.policy)) default_config.policy.fail_on
            "policy.failOn")
          _ h in
      let warn_on =
        >>=-eq-returned
          (policy_severities (nullish (get "warnOn" s.policy)) default_config.policy.warn_on
            "policy.warnOn")
          _ fail_on.2 in
      let patterns =
        >>=-eq-returned (pattern_items (nullish (get "customPatterns" s.secrets))) _ warn_on.2 in
      let unknown =
        >>=-eq-returned (unknown_license (nullish (get "unknown" s.licenses))) _ patterns.2 in
      let format =
        >>=-eq-returned (sbom_format (nullish (get "defaultFormat" s.sbom))) _ unknown.2 in
      let days =
        >>=-eq-returned
          (duration_or_fault (number_at host "maxDurationDays" s.waivers)
            (is_finite_at host (get "maxDurationDays" s.waivers)))
          _ format.2 in
      let tenant =
        >>=-eq-returned (optional_text (get "tenant" s.policy_context) "policy.context.tenant") _
          days.2 in
      let project =
        >>=-eq-returned (optional_text (get "project" s.policy_context) "policy.context.project") _
          tenant.2 in
      let service =
        >>=-eq-returned (optional_text (get "service" s.policy_context) "policy.context.service") _
          project.2 in
      subst (λ c. 0 < c.max_duration_days) (returned-injective service.2)
        (duration_or_fault-pos (number_at host "maxDurationDays" s.waivers)
          (is_finite_at host (get "maxDurationDays" s.waivers)) days.0 days.1)

  merge_sections-IsValid :
      (raw : Fields) (s : Sections) (checked : Checked) (c : SentryCodeConfig)
      → 0 < checked.max_duration_days
      → merge_sections host raw s checked ≡ returned c
      → IsValid c
  unfolding merge_sections compliance_config
  merge_sections-IsValid raw s checked c days h =
      let scan = >>=-eq-returned (scan_config host s.scan) _ h in
      let secrets = >>=-eq-returned (secrets_config host s.secrets checked.patterns) _ scan.2 in
      let dependencies = >>=-eq-returned (dependencies_config host s) _ secrets.2 in
      let licenses =
        >>=-eq-returned (licenses_config s.licenses checked.unknown) _ dependencies.2 in
      let vulnerabilities =
        >>=-eq-returned (vulnerabilities_config host s.vulnerabilities) _ licenses.2 in
      let sast = >>=-eq-returned (sast_config host s) _ vulnerabilities.2 in
      let git = >>=-eq-returned (git_assurance_config host s) _ sast.2 in
      let provenance = >>=-eq-returned (provenance_config s.provenance) _ git.2 in
      let automotive = >>=-eq-returned (automotive_config s.automotive) _ provenance.2 in
      let ci = >>=-eq-returned (ci_config s.ci) _ automotive.2 in
      let monorepo = >>=-eq-returned (monorepo_config s.monorepo) _ ci.2 in
      let runner = >>=-eq-returned (runner_config host s.runner) _ monorepo.2 in
      let consumers = >>=-eq-returned (consumer_configs host (get "consumers" raw)) _ runner.2 in
      let cra = >>=-eq-returned (cra_reporting_config host s.cra_reporting) _ consumers.2 in
      let policy =
        >>=-eq-returned (policy_config s checked.fail_on checked.warn_on checked.context) _ cra.2 in
      subst IsValid (returned-injective policy.2) (record {
        consumers = consumer_configs-AreDistinct host (get "consumers" raw) consumers.0 consumers.1;
        max_duration_days = days;
        waivers_file = refl;
        listen_port = port_of_le (number_at host "listenPort" s.compliance) 7786 (omega arith);
        runner_timeout = runner_config_pos s.runner runner.0 runner.1;
        cra_attempts = cra_reporting_config_pos s.cra_reporting cra.0 cra.1;
        retention_days =
            positive_of_pos (number_at host "retentionDays" s.operations) 365 (omega arith);
      })

  pub merge_config-IsValid :
      (raw : Fields) (c : SentryCodeConfig) → merge_config host raw ≡ returned c → IsValid c
  unfolding merge_config
  merge_config-IsValid raw c h =
      let s = >>=-eq-returned (open_sections raw) _ h in
      let checked = >>=-eq-returned (check_values host raw s.0) _ s.2 in
      merge_sections-IsValid raw s.0 checked.0 c (check_values_pos raw s.0 checked.0 checked.1)
        checked.2
