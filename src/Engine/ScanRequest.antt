-- ===== src/Engine/ScanRequest.antt =====
-- What `runScan` of src/core/engine.ts is given, and what it derives from that before the policy is
-- evaluated. Files, the OPA process and the clock are read before the pure part: each is an argument,
-- in the order in which the source reads it.
use quilons_sentrycode.Common.{
  ℕ, String, List, [], ◌∷◌, ◌++◌, map, Option, none, some, if◌then◌else◌, string_eq, is_truthy,
  filter, distinct, sort, text_leb,
}
use quilons_sentrycode.Common.Result.{Result}
use quilons_sentrycode.Core.Enums.{status_eq}
use quilons_sentrycode.Core.Findings.{RepositoryContext, ScanExecutionContext}
use quilons_sentrycode.Core.PolicyTypes.{PolicyContext}
use quilons_sentrycode.Core.Json.{Json, str, bool, arr, obj, items, fields, strings, JsonFile}
use quilons_sentrycode.Core.Platform.{Platform}
use quilons_sentrycode.Core.Settings.{SentryCodeConfig}
use quilons_sentrycode.Policy.Documents.{Directory}
use quilons_sentrycode.Policy.Opa.{ProcessResult}
use quilons_sentrycode.Consumers.Registry.{
  ConsumerAdapterStatus, consumer_required_scanners, describe_consumer_adapters,
}
use quilons_sentrycode.Engine.RunOne.{ScannerRun}

-- A scan's arguments, and what it reads on the way.
pub record Scan : Type 0 where
  pub repository : RepositoryContext
  pub config : SentryCodeConfig
  pub scanners : List ScannerRun
  pub service : Option String
  pub execution : Option ScanExecutionContext
  -- The moments at which it asks for the time: at the start, for the documents, for the evaluation
  -- and at the end.
  pub started : ℕ
  pub loading : ℕ
  pub evaluating : ℕ
  pub completing : ℕ
  pub documents : Directory
  pub waivers_path : String
  pub waivers_file : JsonFile
  pub opa : Result ProcessResult
  pub uuid : String

-- A name that is set and not empty.
abbrev named : Option String → Option String
named none = none
named (some s) = if is_truthy s then some s else none

abbrev first_set : Option String → Option String → Option String
first_set none other = other
first_set (some s) other = some s

unfoldable pub policy_context : Scan → PolicyContext
policy_context scan = record {
  tenant = named scan.config.policy.context.tenant;
  project = named scan.config.policy.context.project;
  repository = scan.repository.repository;
  service = named (first_set scan.service scan.config.policy.context.service);
}

unfoldable pub managed_profile_scanners : SentryCodeConfig → List String
managed_profile_scanners config =
    if config.runner.enabled
    then map (λ p. p.0) (filter (λ p. is_truthy p.1) config.runner.profiles)
    else []

unfoldable pub required_scanners_floor : SentryCodeConfig → List String
unfolding managed_profile_scanners
required_scanners_floor config =
    sort text_leb (distinct (consumer_required_scanners config ++ managed_profile_scanners config))

abbrev version_json : Option String → Json
version_json none = Json.null
version_json (some v) = str v

abbrev pub plan_entry : ConsumerAdapterStatus → Json
plan_entry s = obj (
    fields (
      ("consumerId", str s.consumer.consumer_id)
      ∷ ("adapter", str s.consumer.adapter)
      ∷ ("adapterAvailable", bool s.available)
      ∷ ("adapterContractVersion", version_json s.adapter_contract_version)
      ∷ ("requiredScanners", arr (strings (sort text_leb s.requirements.required_scanners)))
      ∷ ("evidenceTypes", arr (strings (sort text_leb s.requirements.evidence_types)))
      ∷ []))

unfoldable pub consumer_plan : Platform → SentryCodeConfig → Json
consumer_plan host config = arr (
    items (
      map plan_entry (
        sort (λ a b. host.locale_le a.consumer.consumer_id b.consumer.consumer_id)
          (filter (λ s. s.consumer.enabled) (describe_consumer_adapters config)))))
