-- ===== src/Configuration/Scanning.antt =====
-- src/config/load.ts: the sections of the merged configuration on scanners. A section that is
-- missing is an empty one, and a value of another type than the expected one is left to its default.
use quilons_sentrycode.Common.{
  ℕ, suc, String, List, [], ◌∷◌, Option, none, some, if◌then◌else◌, ◌==◌, string_eq, show_nat, ◌<>◌,
}
use quilons_sentrycode.Core.Enums.{Severity}
use quilons_sentrycode.Core.Json.{Json, str, arr, Items, nil, cons, Fields, get, text}
use quilons_sentrycode.Core.Config.{
  ScanConfig, CustomPattern, SecretsConfig, MaintenanceConfig, DependenciesConfig, UnknownLicense,
  LicensesConfig, VulnerabilitiesConfig, SastLanguage, SastConfig,
}
use quilons_sentrycode.Core.Defaults.{
  default_scan, default_secrets, default_dependencies, default_licenses, default_vulnerabilities,
  default_sast,
}
use quilons_sentrycode.Policy.Documents.Parsing.{severity_of}
use quilons_sentrycode.Configuration.Outcome.{Outcome, Thrown, returned, thrown, ◌>>=◌, ◌>>◌, fault}
use quilons_sentrycode.Configuration.Reading.{
  LoadHost, as_object, section, string_array, string_record, text_or, flag_or, number_or,
  non_negative_or, positive_or, named_or_fault, nullish, all_named, or_fault, named_by_text,
}
use quilons_sentrycode.Configuration.Sections.{Sections}

unfoldable pub scan_config : LoadHost → Fields → Outcome ScanConfig
unfolding string_array
scan_config host scan = do
  includes ← string_array (get "include" scan) default_scan.includes "scan.include"
  excludes ← string_array (get "exclude" scan) default_scan.excludes "scan.exclude"
  returned (record {
    includes = includes;
    excludes = excludes;
    max_file_bytes = number_or host "maxFileBytes" scan default_scan.max_file_bytes;
  })

abbrev pub pattern_label : ℕ → String
pattern_label index = "secrets.customPatterns[" <> (show_nat index <> "]")

-- `entry.severity ?? 'high'`, if it is a severity.
abbrev pub pattern_severity : Option Json → Option Severity
pattern_severity none = some Severity.high
pattern_severity (some (str s)) = severity_of s
pattern_severity (some _) = none

abbrev pub compiled : LoadHost → String → Outcome (Unit {0})
compiled host pattern' = elim (host.regexp_error pattern') [
  | none ↦ returned tt
  | some message ↦ thrown (Thrown.syntax_error message)
]

abbrev pub both_texts : Option String → Option String → Option (String × String)
both_texts (some a) (some b) = some (a, b)
both_texts _ _ = none

unfoldable pub custom_pattern : LoadHost → ℕ → Json → Outcome CustomPattern
unfolding severity_of
custom_pattern host index item = do
  entry ← as_object (some item) (pattern_label index)
  named ←
      or_fault (both_texts (text "id" entry) (text "pattern" entry))
        (pattern_label index <> " requires id and pattern")
  severity ←
      or_fault (pattern_severity (nullish (get "severity" entry)))
        ("Invalid severity for custom pattern " <> named.0)
  compiled host named.1
  returned (record {
    id = named.0;
    pattern' = named.1;
    severity = severity;
    description = text "description" entry;
  })

unfoldable pub custom_patterns_from : LoadHost → ℕ → Items → Outcome (List CustomPattern)
unfolding custom_pattern
custom_patterns_from host index nil = returned []
custom_patterns_from host index (cons item items) = custom_pattern host index item >>= λ p.
    custom_patterns_from host (suc index) items >>= λ rest. returned (p ∷ rest)

-- The patterns are an array, or left to the default, which is empty.
abbrev pub pattern_items : Option Json → Outcome Items
pattern_items none = returned nil
pattern_items (some (arr xs)) = returned xs
pattern_items (some _) = fault "secrets.customPatterns must be an array"

unfoldable pub secrets_config : LoadHost → Fields → Items → Outcome SecretsConfig
unfolding custom_patterns_from
secrets_config host secrets patterns = do
  custom ← custom_patterns_from host 0 patterns
  returned (record {
    enabled = flag_or "enabled" secrets default_secrets.enabled;
    high_entropy = flag_or "highEntropy" secrets default_secrets.high_entropy;
    min_entropy_length =
        number_or host "minEntropyLength" secrets default_secrets.min_entropy_length;
    history_max_commits =
        positive_or host "historyMaxCommits" secrets default_secrets.history_max_commits;
    custom_patterns = custom;
  })

unfoldable pub maintenance_config : LoadHost → Fields → MaintenanceConfig
maintenance_config host fs =
    let d = default_dependencies.maintenance in
    record {
      enabled = flag_or "enabled" fs d.enabled;
      metadata_file = text_or "metadataFile" fs d.metadata_file;
      max_release_age_days = non_negative_or host "maxReleaseAgeDays" fs d.max_release_age_days;
      deny_deprecated = flag_or "denyDeprecated" fs d.deny_deprecated;
      require_metadata = flag_or "requireMetadata" fs d.require_metadata;
    }

unfoldable pub dependencies_config : LoadHost → Sections → Outcome DependenciesConfig
unfolding string_array string_record maintenance_config
dependencies_config host s =
    let fs = s.dependencies in
    let d = default_dependencies in
    do
      allowed_registries ←
          string_array (get "allowedRegistries" fs) d.allowed_registries
            "dependencies.allowedRegistries"
      denied_registries ←
          string_array (get "deniedRegistries" fs) d.denied_registries
            "dependencies.deniedRegistries"
      denied_packages ←
          string_array (get "deniedPackages" fs) d.denied_packages "dependencies.deniedPackages"
      allowed_packages ←
          string_array (get "allowedPackages" fs) d.allowed_packages "dependencies.allowedPackages"
      restrictions ←
          string_record (get "versionRestrictions" fs) d.version_restrictions
            "dependencies.versionRestrictions"
      returned (record {
        enabled = flag_or "enabled" fs d.enabled;
        include_dev = flag_or "includeDev" fs d.include_dev;
        allowed_registries = allowed_registries;
        denied_registries = denied_registries;
        denied_packages = denied_packages;
        allowed_packages = allowed_packages;
        version_restrictions = restrictions;
        maintenance = maintenance_config host s.maintenance;
      })

unfoldable pub unknown_license_of : String → Option UnknownLicense
unknown_license_of s =
    if s == "allow"
    then some UnknownLicense.allow
    else if s == "warn"
    then some UnknownLicense.warn
    else if s == "fail"
    then some UnknownLicense.fail
    else none

abbrev pub unknown_license : Option Json → Outcome UnknownLicense
unknown_license none = returned default_licenses.unknown
unknown_license (some v) =
    or_fault (named_by_text unknown_license_of UnknownLicense.listed v)
      "licenses.unknown must be allow, warn, or fail"

unfoldable pub licenses_config : Fields → UnknownLicense → Outcome LicensesConfig
unfolding string_array string_record
licenses_config fs unknown =
    let d = default_licenses in
    do
      allowed ← string_array (get "allowed" fs) d.allowed "licenses.allowed"
      denied ← string_array (get "denied" fs) d.denied "licenses.denied"
      review ← string_array (get "reviewRequired" fs) d.review_required "licenses.reviewRequired"
      overrides ← string_record (get "overrides" fs) d.overrides "licenses.overrides"
      returned (record {
        enabled = flag_or "enabled" fs d.enabled;
        allowed = allowed;
        denied = denied;
        review_required = review;
        unknown = unknown;
        overrides = overrides;
      })

unfoldable pub vulnerabilities_config : LoadHost → Fields → Outcome VulnerabilitiesConfig
vulnerabilities_config host fs =
    let d = default_vulnerabilities in
    do
      osv ← section (get "osv" fs) "vulnerabilities.osv"
      returned (record {
        enabled = flag_or "enabled" fs d.enabled;
        database_file = text_or "databaseFile" fs d.database_file;
        fail_on_known_exploited = flag_or "failOnKnownExploited" fs d.fail_on_known_exploited;
        osv = record {
          enabled = flag_or "enabled" osv d.osv.enabled;
          endpoint = text_or "endpoint" osv d.osv.endpoint;
          timeout_ms = positive_or host "timeoutMs" osv d.osv.timeout_ms;
        };
      })

unfoldable pub language_of : String → Option SastLanguage
language_of s =
    if s == "javascript"
    then some SastLanguage.javascript
    else if s == "typescript"
    then some SastLanguage.typescript
    else if s == "python"
    then some SastLanguage.python
    else if s == "java"
    then some SastLanguage.java
    else if s == "csharp"
    then some SastLanguage.csharp
    else if s == "c"
    then some SastLanguage.c
    else if s == "cpp"
    then some SastLanguage.cpp
    else if s == "rust"
    then some SastLanguage.rust
    else if s == "go"
    then some SastLanguage.go
    else none

-- `stringArray` and then the test of every member; the default names languages by construction.
abbrev pub named_array {ℓ} :
    {A : Type ℓ}
    → (String → Option A)
    → Option Json
    → (fallback : List A) → (label message : String) → Outcome (List A)
named_array of none fallback label message = returned fallback
named_array of (some v) fallback label message =
    string_array (some v) [] label >>= λ ss. named_or_fault of ss message

unfoldable pub sast_config : LoadHost → Sections → Outcome SastConfig
unfolding string_array all_named language_of
sast_config host s =
    let d = default_sast in
    do
      languages ←
          named_array language_of (get "languages" s.sast) d.languages "sast.languages"
            "sast.languages contains an unsupported language"
      args ← string_array (get "args" s.external_sast) d.external.args "sast.external.args"
      returned (record {
        enabled = flag_or "enabled" s.sast d.enabled;
        languages = languages;
        external = record {
          enabled = flag_or "enabled" s.external_sast d.external.enabled;
          command = text_or "command" s.external_sast d.external.command;
          args = args;
          sarif_file = text_or "sarifFile" s.external_sast d.external.sarif_file;
          timeout_ms = positive_or host "timeoutMs" s.external_sast d.external.timeout_ms;
        };
      })
