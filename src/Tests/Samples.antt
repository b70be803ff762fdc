-- ===== src/Tests/Samples.antt =====
-- Concrete hosts, policies, results and scans on which the theorems are applied.
use quilons_sentrycode.Common.{
  ℕ, pos, true, false, String, List, [], ◌∷◌, Option, none, some, if◌then◌else◌, ◌==◌, string_eq,
  show_nat, text_leb,
}
use quilons_sentrycode.Common.Result.{ok}
use quilons_sentrycode.Core.Enums.{Severity, PolicyLevel, PolicyField}
use quilons_sentrycode.Core.Findings.{Finding, ScannerResult, Waiver}
use quilons_sentrycode.Core.PolicyTypes.{PolicyDocument, EffectivePolicy, PolicyContext}
use quilons_sentrycode.Core.Json.{Json, str, num, arr, obj, items, fields, JsonFile}
use quilons_sentrycode.Core.Platform.{Platform}
use quilons_sentrycode.Core.Config.{OpaConfig}
use quilons_sentrycode.Core.Settings.{SentryCodeConfig}
use quilons_sentrycode.Core.Defaults.{default_config, default_policy, default_runner}
use quilons_sentrycode.Policy.Documents.{Directory}
use quilons_sentrycode.Policy.Opa.{ProcessResult}
use quilons_sentrycode.Engine.RunOne.{returns}
use quilons_sentrycode.Engine.ScanRequest.{Scan}

-- Two dates that can be read, a hundred days apart.
abbrev pub day_of : String → Option ℕ
day_of s =
    if s == "2026-01-01" then some 1000 else if s == "2026-02-01" then some 2_678_401_000 else none

abbrev opa_output : Json
opa_output = obj (
    fields (
      (
        "result",
        arr (
            items (
              obj (
                fields (
                  ("expressions", arr (items (obj (fields (("value", str "WARN") ∷ [])) ∷ [])))
                  ∷ []))
              ∷ [])),
      )
      ∷ []))

abbrev pub host : Platform
host = record {
  parse_date = day_of;
  to_iso_string = show_nat;
  sha256 = λ s. s;
  locale_le = text_leb;
  parse_json = λ s. if s == "opa" then some opa_output else none;
  decode_utf8 = λ bytes. "opa";
}

abbrev pub finding : Finding
finding = record {
  schema_version = "1.0.0";
  id = "f1";
  type = "secret";
  scanner = "secrets";
  rule_id = "aws-key";
  title = "AWS key";
  description = "A key";
  severity = Severity.high;
  location = some (record { path = "a.ts"; line = some 3; column = none });
  fingerprint = "fp";
  remediation = none;
  detected_at = "2026-01-01";
  metadata = none;
}

abbrev pub scanned : ScannerResult
scanned = record {
  scanner = "secrets";
  findings = finding ∷ [];
  evidence = [];
  duration_ms = 5;
  status = none;
  error = none;
  failure = none;
}

abbrev pub waiver : Waiver
waiver = record {
  id = "w1";
  fingerprint = some "fp";
  rule_id = none;
  path = none;
  scanner = none;
  repository = none;
  service = none;
  reason = "test key";
  ticket = none;
  created_at = some "2026-01-01";
  expires_at = "2026-02-01";
  author = none;
  approver = none;
  approved_at = none;
}

abbrev pub context : PolicyContext
context = record { tenant = none; project = none; repository = "repo"; service = none }

-- `failOn` is locked.
abbrev pub locked_policy : EffectivePolicy
locked_policy = record {
  source_documents = [];
  fail_on = Severity.high ∷ [];
  warn_on = [];
  required_scanners = "secrets" ∷ [];
  scanner_failure_modes = [];
  locked_fields = PolicyField.fail_on ∷ [];
  fingerprint = "";
}

abbrev pub enforcing : Option (List Severity) → PolicyDocument
enforcing severities = record {
  id = "p";
  version = "1";
  level = PolicyLevel.project;
  scope = none;
  description = none;
  effective_from = none;
  effective_until = none;
  enforcement = some (record {
    fail_on = severities;
    warn_on = some (Severity.low ∷ []);
    required_scanners = none;
    scanner_failure_modes = none;
  });
  lock = some (PolicyField.warn_on ∷ []);
}

abbrev pub policy_file : Json
policy_file = obj (
    fields (
      ("schemaVersion", num 1)
      ∷ ("id", str "base")
      ∷ ("version", str "1")
      ∷ ("level", str "organization")
      ∷ ("lock", arr (items (str "failOn" ∷ [])))
      ∷ []))

abbrev pub policy_directory : List (String × JsonFile)
policy_directory = ("base.json", JsonFile.value policy_file) ∷ []

abbrev pub waiver_file : JsonFile
waiver_file = JsonFile.value (
    arr (
      items (
        obj (
          fields (
            ("id", str "w1")
            ∷ ("reason", str "test key")
            ∷ ("expiresAt", str "2026-02-01")
            ∷ ("fingerprint", str "fp")
            ∷ []))
        ∷ [])))

abbrev pub opa_config : OpaConfig
opa_config = record {
  enabled = true;
  binary = "opa";
  query = "data.decision";
  policy_files = "a.rego" ∷ [];
}

abbrev pub opa_run : ProcessResult
opa_run = record { stdout = "opa"; stderr = ""; exit_code = pos 0 }

-- The managed profile `supply-chain` is on, OPA is asked, and only `secrets` runs.
abbrev pub managed_config : SentryCodeConfig
managed_config = record default_config {
  runner = record default_runner { enabled = true };
  policy = record default_policy { opa = opa_config; required_scanners = [] };
}

abbrev pub scan : Scan
scan = record {
  repository = record {
    root = "/r";
    repository = "repo";
    commit_sha = some "c0";
    branch = none;
    is_dirty = false;
  };
  config = managed_config;
  scanners =
      record { id = "secrets"; outcome = returns scanned; timer_first = false; duration_ms = 5 }
      ∷ [];
  service = none;
  execution = none;
  started = 1;
  loading = 2;
  evaluating = 3;
  completing = 4;
  documents = Directory.missing;
  waivers_path = "/r/.sentrycode/waivers.json";
  waivers_file = JsonFile.missing "ENOENT";
  opa = ok opa_run;
  uuid = "run-1";
}
