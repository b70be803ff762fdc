-- ===== src/Configuration/Services.antt =====
-- src/config/load.ts: the other sections of the merged configuration.
pub mod Governance
use quilons_sentrycode.Common.{
  ℤ, Bool, false, String, List, Option, none, some, if◌then◌else◌, or_else, ◌==◌, string_eq,
}
use quilons_sentrycode.Core.Enums.{CiProvider, AutomotiveStandard}
use quilons_sentrycode.Core.Json.{Json, Fields, get, text}
use quilons_sentrycode.Core.Config.{
  GithubConfig, GerritAuthMode, GerritNotify, GerritConfig, GitAssuranceConfig, ProvenanceConfig,
  AutomotiveEvidenceTarget, AutomotiveConfig, CiConfig,
}
use quilons_sentrycode.Core.Settings.{MonorepoConfig, IncrementalConfig, RunnerConfig}
use quilons_sentrycode.Core.Defaults.{
  default_git_assurance, default_provenance, default_automotive, default_ci, default_monorepo,
  default_incremental, default_runner,
}
use quilons_sentrycode.Configuration.Outcome.{Outcome, returned, ◌>>=◌, ◌>>◌}
use quilons_sentrycode.Configuration.Reading.{
  LoadHost, string_array, string_record, number_record, text_or, flag_or, number_or,
  non_negative_or, positive_or, or_fault, named_by_text, all_named,
}
use quilons_sentrycode.Configuration.Sections.{Sections}
use quilons_sentrycode.Configuration.Scanning.{named_array}

unfoldable pub github_config : LoadHost → Fields → GithubConfig
github_config host fs =
    let d = default_git_assurance.github in
    record {
      enabled = flag_or "enabled" fs d.enabled;
      token_env = text_or "tokenEnv" fs d.token_env;
      api_base_url = text_or "apiBaseUrl" fs d.api_base_url;
      require_protected_branch = flag_or "requireProtectedBranch" fs d.require_protected_branch;
      minimum_approvals = non_negative_or host "minimumApprovals" fs d.minimum_approvals;
      require_status_checks = flag_or "requireStatusChecks" fs d.require_status_checks;
    }

unfoldable pub notify_of : String → Option GerritNotify
notify_of s =
    if s == "NONE"
    then some GerritNotify.nobody
    else if s == "OWNER"
    then some GerritNotify.owner
    else if s == "OWNER_REVIEWERS"
    then some GerritNotify.owner_reviewers
    else if s == "ALL"
    then some GerritNotify.everyone
    else none

abbrev pub notify_or : Option Json → GerritNotify → GerritNotify
notify_or none default = default
notify_or (some v) default = or_else (named_by_text notify_of GerritNotify.listed v) default

-- `value === text`.
abbrev pub is_the_text : Option String → String → Bool
is_the_text none t = false
is_the_text (some s) t = s == t

unfoldable pub gerrit_config : LoadHost → Fields → List (String × ℤ) → GerritConfig
unfolding notify_of named_by_text
gerrit_config host fs required_labels =
    let d = default_git_assurance.gerrit in
    record {
      enabled = flag_or "enabled" fs d.enabled;
      api_base_url = text_or "apiBaseUrl" fs d.api_base_url;
      auth_mode =
          if is_the_text (text "authMode" fs) "basic"
          then GerritAuthMode.basic
          else GerritAuthMode.bearer;
      token_env = text_or "tokenEnv" fs d.token_env;
      username_env = text_or "usernameEnv" fs d.username_env;
      password_env = text_or "passwordEnv" fs d.password_env;
      required_labels = required_labels;
      publish_review = flag_or "publishReview" fs d.publish_review;
      vote_label = text_or "voteLabel" fs d.vote_label;
      pass_vote = number_or host "passVote" fs d.pass_vote;
      warn_vote = number_or host "warnVote" fs d.warn_vote;
      fail_vote = number_or host "failVote" fs d.fail_vote;
      notify = notify_or (get "notify" fs) d.notify;
      fail_closed = flag_or "failClosed" fs d.fail_closed;
      timeout_ms = positive_or host "timeoutMs" fs d.timeout_ms;
    }

unfoldable pub git_assurance_config : LoadHost → Sections → Outcome GitAssuranceConfig
unfolding string_array number_record github_config gerrit_config
git_assurance_config host s =
    let fs = s.git_assurance in
    let d = default_git_assurance in
    do
      domains ←
          string_array (get "allowedEmailDomains" fs) d.allowed_email_domains
            "gitAssurance.allowedEmailDomains"
      labels ←
          number_record host (get "requiredLabels" s.gerrit) d.gerrit.required_labels
            "gitAssurance.gerrit.requiredLabels"
      returned (record {
        enabled = flag_or "enabled" fs d.enabled;
        require_clean_tree = flag_or "requireCleanTree" fs d.require_clean_tree;
        require_signed_commit = flag_or "requireSignedCommit" fs d.require_signed_commit;
        allowed_email_domains = domains;
        github = github_config host s.github;
        gerrit = gerrit_config host s.gerrit labels;
      })

unfoldable pub provenance_config : Fields → Outcome ProvenanceConfig
unfolding string_array
provenance_config fs =
    let d = default_provenance in
    do
      paths ← string_array (get "artifactPaths" fs) d.artifact_paths "provenance.artifactPaths"
      returned (record {
        enabled = flag_or "enabled" fs d.enabled;
        artifact_paths = paths;
        signing_private_key_file = text_or "signingPrivateKeyFile" fs d.signing_private_key_file;
        signing_public_key_file = text_or "signingPublicKeyFile" fs d.signing_public_key_file;
      })

unfoldable pub standard_of : String → Option AutomotiveStandard
standard_of s =
    if s == "misra-c"
    then some AutomotiveStandard.misra_c
    else if s == "misra-cpp"
    then some AutomotiveStandard.misra_cpp
    else if s == "autosar-cpp"
    then some AutomotiveStandard.autosar_cpp
    else none

unfoldable pub target_of : String → Option AutomotiveEvidenceTarget
target_of s =
    if s == "iso-sae-21434"
    then some AutomotiveEvidenceTarget.iso_sae_21434
    else if s == "unece-r155"
    then some AutomotiveEvidenceTarget.unece_r155
    else if s == "unece-r156"
    then some AutomotiveEvidenceTarget.unece_r156
    else none

unfoldable pub automotive_config : Fields → Outcome AutomotiveConfig
unfolding string_array all_named standard_of target_of
automotive_config fs =
    let d = default_automotive in
    do
      standards ←
          named_array standard_of (get "acceptedStandards" fs) d.accepted_standards
            "automotive.acceptedStandards"
            "automotive.acceptedStandards contains an unsupported standard"
      targets ←
          named_array target_of (get "evidenceTargets" fs) d.evidence_targets
            "automotive.evidenceTargets" "automotive.evidenceTargets contains an unsupported target"
      returned (record {
        enabled = flag_or "enabled" fs d.enabled;
        import_directory = text_or "importDirectory" fs d.import_directory;
        deviations_file = text_or "deviationsFile" fs d.deviations_file;
        accepted_standards = standards;
        require_deviation_approval =
            flag_or "requireDeviationApproval" fs d.require_deviation_approval;
        require_inputs = flag_or "requireInputs" fs d.require_inputs;
        evidence_targets = targets;
      })

-- A provider that is supported; `auto` is none.
unfoldable pub provider_of : String → Option (Option CiProvider)
provider_of s =
    if s == "auto"
    then some none
    else if s == "github"
    then some (some CiProvider.github)
    else if s == "gitlab"
    then some (some CiProvider.gitlab)
    else if s == "azure-devops"
    then some (some CiProvider.azure_devops)
    else if s == "jenkins"
    then some (some CiProvider.jenkins)
    else if s == "gerrit"
    then some (some CiProvider.gerrit)
    else if s == "generic"
    then some (some CiProvider.generic)
    else if s == "local"
    then some (some CiProvider.local)
    else none

abbrev pub provider_or : Option String → Option CiProvider → Outcome (Option CiProvider)
provider_or none default = returned default
provider_or (some s) default = or_fault (provider_of s) "ci.provider is unsupported"

unfoldable pub ci_config : Fields → Outcome CiConfig
unfolding provider_of
ci_config fs = do
  provider ← provider_or (text "provider" fs) default_ci.provider
  returned (record {
    enabled = flag_or "enabled" fs default_ci.enabled;
    provider = provider;
    annotations = flag_or "annotations" fs default_ci.annotations;
  })

unfoldable pub monorepo_config : Fields → Outcome MonorepoConfig
unfolding string_array
monorepo_config fs =
    let d = default_monorepo in
    do
      roots ← string_array (get "serviceRoots" fs) d.service_roots "monorepo.serviceRoots"
      returned (record {
        enabled = flag_or "enabled" fs d.enabled;
        service_roots = roots;
        discover_workspaces = flag_or "discoverWorkspaces" fs d.discover_workspaces;
      })

unfoldable pub incremental_config : LoadHost → Fields → IncrementalConfig
incremental_config host fs =
    let d = default_incremental in
    record {
      enabled = flag_or "enabled" fs d.enabled;
      base_ref = text_or "baseRef" fs d.base_ref;
      head_ref = text_or "headRef" fs d.head_ref;
      cache_file = text_or "cacheFile" fs d.cache_file;
      scanner_timeout_ms = number_or host "scannerTimeoutMs" fs d.scanner_timeout_ms;
    }

unfoldable pub runner_config : LoadHost → Fields → Outcome RunnerConfig
unfolding string_record
runner_config host fs =
    let d = default_runner in
    do
      profiles ← string_record (get "profiles" fs) d.profiles "execution.runner.profiles"
      returned (record {
        enabled = flag_or "enabled" fs d.enabled;
        endpoint = text_or "endpoint" fs d.endpoint;
        token_env = text_or "tokenEnv" fs d.token_env;
        tenant = text_or "tenant" fs d.tenant;
        project = text_or "project" fs d.project;
        timeout_ms = positive_or host "timeoutMs" fs d.timeout_ms;
        profiles = profiles;
      })
