-- ===== src/Consumers/Registry.antt =====
-- src/consumers/registry.ts and adapter.ts: the configured consumers and what they require.
pub mod Demands
use quilons_sentrycode.Common.{
  Bool, true, ◌&&◌, String, List, [], ◌∷◌, ◌++◌, Option, none, some, if◌then◌else◌, ◌==◌, string_eq,
  is_some, any, distinct, sort, text_leb,
}
use quilons_sentrycode.Core.Config.{ConsumerConfig, ConsumerScanProfile}
use quilons_sentrycode.Core.Settings.{SentryCodeConfig}

abbrev pub cra_adapter_id : String
cra_adapter_id = "cra"

abbrev pub cyber_adapter_id : String
cyber_adapter_id = "cyber"

-- `ADAPTERS[id]`: the adapters that are installed, known by their contract versions.
unfoldable pub adapter_contract : String → Option String
adapter_contract id =
    if id == cra_adapter_id
    then some "1.0.0"
    else if id == cyber_adapter_id
    then some "cyber.security-evidence.v1"
    else none

unfoldable pub legacy_cra_consumer : SentryCodeConfig → Option ConsumerConfig
legacy_cra_consumer config =
    let cra = config.cra_reporting in
    if cra.enabled
    then some (record {
      consumer_id = "cra";
      adapter = cra_adapter_id;
      enabled = true;
      endpoint = cra.endpoint;
      token_env = cra.token_env;
      timeout_ms = cra.timeout_ms;
      max_attempts = cra.max_attempts;
      retry_delay_ms = cra.retry_delay_ms;
      scan_profile = record {
        required_scanners = [];
        evidence_types = [];
        severities = cra.severities;
        finding_types = cra.finding_types;
      };
      context = ("assessmentId", cra.assessment_id) ∷ [];
    })
    else none

abbrev pub append_some {ℓ} : {A : Type ℓ} → List A → Option A → List A
append_some xs none = xs
append_some xs (some x) = xs ++ x ∷ []

unfoldable pub list_configured_consumers : SentryCodeConfig → List ConsumerConfig
unfolding legacy_cra_consumer
list_configured_consumers config =
    if any (λ c. c.consumer_id == "cra") config.consumers
    then config.consumers
    else append_some config.consumers (legacy_cra_consumer config)

pub record ConsumerAdapterStatus : Type 0 where
  pub consumer : ConsumerConfig
  pub available : Bool
  pub adapter_contract_version : Option String
  -- What the adapter asks for, or the profile itself where none is installed: both copy the profile.
  pub requirements : ConsumerScanProfile

unfoldable pub describe : ConsumerConfig → ConsumerAdapterStatus
unfolding adapter_contract
describe c = record {
  consumer = c;
  available = is_some (adapter_contract c.adapter);
  adapter_contract_version = adapter_contract c.adapter;
  requirements = c.scan_profile;
}

unfoldable pub describe_all : List ConsumerConfig → List ConsumerAdapterStatus
unfolding describe
describe_all [] = []
describe_all (c ∷ cs) = describe c ∷ describe_all cs

unfoldable pub describe_consumer_adapters : SentryCodeConfig → List ConsumerAdapterStatus
unfolding list_configured_consumers describe_all
describe_consumer_adapters config = describe_all (list_configured_consumers config)

-- What the loop adds to the set, in order.
unfoldable pub scanners_of : List ConsumerAdapterStatus → List String
scanners_of [] = []
scanners_of (s ∷ ss) =
    (if s.consumer.enabled && s.available then s.requirements.required_scanners else [])
    ++ scanners_of ss

unfoldable pub consumer_required_scanners : SentryCodeConfig → List String
unfolding describe_consumer_adapters scanners_of
consumer_required_scanners config =
    sort text_leb (distinct (scanners_of (describe_consumer_adapters config)))

-- `requiredScannerUnion`.
unfoldable pub required_scanner_union : SentryCodeConfig → List String
unfolding consumer_required_scanners
required_scanner_union config =
    sort text_leb (distinct (config.policy.required_scanners ++ consumer_required_scanners config))
