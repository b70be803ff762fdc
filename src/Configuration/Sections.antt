-- ===== src/Configuration/Sections.antt =====
-- src/config/load.ts: the sections of a configuration, opened in the order of `mergeConfig`.
use quilons_sentrycode.Common.{Bool, true, false, not, Option, none, some, nat_beq}
use quilons_sentrycode.Core.Json.{Json, num, Fields, get}
use quilons_sentrycode.Configuration.Outcome.{Outcome, returned, ◌>>=◌, ◌>>◌, refuse_if}
use quilons_sentrycode.Configuration.Reading.{section}

pub record Sections : Type 0 where
  pub scan : Fields
  pub secrets : Fields
  pub dependencies : Fields
  pub maintenance : Fields
  pub licenses : Fields
  pub vulnerabilities : Fields
  pub sbom : Fields
  pub sast : Fields
  pub external_sast : Fields
  pub git_assurance : Fields
  pub github : Fields
  pub gerrit : Fields
  pub provenance : Fields
  pub automotive : Fields
  pub ci : Fields
  pub monorepo : Fields
  pub incremental : Fields
  pub runner : Fields
  pub compliance : Fields
  pub cra_reporting : Fields
  pub offline : Fields
  pub integrity : Fields
  pub operations : Fields
  pub policy : Fields
  pub policy_context : Fields
  pub opa : Fields
  pub waivers : Fields

-- `raw.schemaVersion !== undefined && raw.schemaVersion !== 1`.
abbrev pub is_other_version : Option Json → Bool
is_other_version none = false
is_other_version (some (num n)) = not (nat_beq n 1)
is_other_version (some _) = true

unfoldable pub open_sections : Fields → Outcome Sections
open_sections raw = do
  refuse_if (is_other_version (get "schemaVersion" raw))
      "Unsupported config schemaVersion; expected 1"
  scan ← section (get "scan" raw) "scan"
  secrets ← section (get "secrets" raw) "secrets"
  dependencies ← section (get "dependencies" raw) "dependencies"
  maintenance ← section (get "maintenance" dependencies) "dependencies.maintenance"
  licenses ← section (get "licenses" raw) "licenses"
  vulnerabilities ← section (get "vulnerabilities" raw) "vulnerabilities"
  sbom ← section (get "sbom" raw) "sbom"
  sast ← section (get "sast" raw) "sast"
  external_sast ← section (get "external" sast) "sast.external"
  git_assurance ← section (get "gitAssurance" raw) "gitAssurance"
  github ← section (get "github" git_assurance) "gitAssurance.github"
  gerrit ← section (get "gerrit" git_assurance) "gitAssurance.gerrit"
  provenance ← section (get "provenance" raw) "provenance"
  automotive ← section (get "automotive" raw) "automotive"
  ci ← section (get "ci" raw) "ci"
  monorepo ← section (get "monorepo" raw) "monorepo"
  incremental ← section (get "incremental" raw) "incremental"
  execution ← section (get "execution" raw) "execution"
  runner ← section (get "runner" execution) "execution.runner"
  compliance ← section (get "compliance" raw) "compliance"
  cra_reporting ← section (get "craReporting" raw) "craReporting"
  offline ← section (get "offline" raw) "offline"
  integrity ← section (get "integrity" raw) "integrity"
  operations ← section (get "operations" raw) "operations"
  policy ← section (get "policy" raw) "policy"
  policy_context ← section (get "context" policy) "policy.context"
  opa ← section (get "opa" policy) "policy.opa"
  waivers ← section (get "waivers" raw) "waivers"
  returned (record {
    scan = scan;
    secrets = secrets;
    dependencies = dependencies;
    maintenance = maintenance;
    licenses = licenses;
    vulnerabilities = vulnerabilities;
    sbom = sbom;
    sast = sast;
    external_sast = external_sast;
    git_assurance = git_assurance;
    github = github;
    gerrit = gerrit;
    provenance = provenance;
    automotive = automotive;
    ci = ci;
    monorepo = monorepo;
    incremental = incremental;
    runner = runner;
    compliance = compliance;
    cra_reporting = cra_reporting;
    offline = offline;
    integrity = integrity;
    operations = operations;
    policy = policy;
    policy_context = policy_context;
    opa = opa;
    waivers = waivers;
  })
