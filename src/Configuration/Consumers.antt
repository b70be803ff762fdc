-- ===== src/Configuration/Consumers.antt =====
-- src/config/load.ts: `consumerConfigs`.
pub mod Distinct
use quilons_sentrycode.Common.{
  ℕ, suc, true, String, List, [], ◌∷◌, ◌++◌, Option, none, some, includes, show_nat, string_eq,
  ◌<>◌,
}
use quilons_sentrycode.Core.Json.{Json, arr, Items, nil, cons, Fields, get}
use quilons_sentrycode.Core.Config.{ConsumerConfig, ConsumerScanProfile}
use quilons_sentrycode.Policy.Documents.Parsing.{severity_of}
use quilons_sentrycode.Configuration.Outcome.{Outcome, returned, ◌>>=◌, ◌>>◌, fault, refuse_if}
use quilons_sentrycode.Configuration.Reading.{
  LoadHost, as_object, section, string_array, string_record, optional_text, text_or, flag_or,
  non_negative_or, positive_integer_or, named_or_fault, all_named,
}

abbrev pub consumer_label : ℕ → String
consumer_label index = "consumers[" <> (show_nat index <> "]")

abbrev pub given : Option String → (label : String) → Outcome String
given none label = fault (label <> " is required")
given (some s) label = returned s

unfoldable pub scan_profile : Fields → (label : String) → Outcome ConsumerScanProfile
unfolding string_array severity_of all_named
scan_profile raw label = do
  profile ← section (get "scanProfile" raw) (label <> ".scanProfile")
  severity_values ← string_array (get "severities" profile) [] (label <> ".scanProfile.severities")
  severities ←
      named_or_fault severity_of severity_values
        (label <> ".scanProfile.severities must contain valid severities")
  required ←
      string_array (get "requiredScanners" profile) [] (label <> ".scanProfile.requiredScanners")
  evidence ← string_array (get "evidenceTypes" profile) [] (label <> ".scanProfile.evidenceTypes")
  types ← string_array (get "findingTypes" profile) [] (label <> ".scanProfile.findingTypes")
  returned (record {
    required_scanners = required;
    evidence_types = evidence;
    severities = severities;
    finding_types = types;
  })

module _ (host : LoadHost) where
  abbrev pub consumer_of :
      Fields
      → (consumer_id adapter : String) → ConsumerScanProfile
      → List (String × String)
      → ConsumerConfig
  consumer_of raw consumer_id adapter profile context = record {
    consumer_id = consumer_id;
    adapter = adapter;
    enabled = flag_or "enabled" raw true;
    endpoint = text_or "endpoint" raw "";
    token_env = text_or "tokenEnv" raw "";
    timeout_ms = non_negative_or host "timeoutMs" raw 15000;
    max_attempts = positive_integer_or host "maxAttempts" raw 5;
    retry_delay_ms = non_negative_or host "retryDelayMs" raw 30000;
    scan_profile = profile;
    context = context;
  }

  unfoldable pub consumer_config : List String → ℕ → Json → Outcome ConsumerConfig
  unfolding string_record optional_text show_nat scan_profile
  consumer_config seen index item =
      let label = consumer_label index in
      do
        raw ← as_object (some item) label
        consumer_text ← optional_text (get "consumerId" raw) (label <> ".consumerId")
        adapter_text ← optional_text (get "adapter" raw) (label <> ".adapter")
        consumer_id ← given consumer_text (label <> ".consumerId")
        adapter ← given adapter_text (label <> ".adapter")
        refuse_if (includes seen consumer_id) ("Duplicate consumerId: " <> consumer_id)
        profile ← scan_profile raw label
        context ← string_record (get "context" raw) [] (label <> ".context")
        returned (consumer_of raw consumer_id adapter profile context)

  -- The rest of the array, from the index, after the consumers that are already seen.
  unfoldable pub consumer_configs_from : List String → ℕ → Items → Outcome (List ConsumerConfig)
  unfolding consumer_config
  consumer_configs_from seen index nil = returned []
  consumer_configs_from seen index (cons item items) = consumer_config seen index item >>= λ c.
      consumer_configs_from (seen ++ c.consumer_id ∷ []) (suc index) items >>= λ rest.
      returned (c ∷ rest)

  unfoldable pub consumer_configs : Option Json → Outcome (List ConsumerConfig)
  unfolding consumer_configs_from
  consumer_configs none = returned []
  consumer_configs (some (arr items)) = consumer_configs_from [] 0 items
  consumer_configs (some _) = fault "consumers must be an array"
