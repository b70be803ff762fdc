-- ===== src/Tests/Configurations.antt =====
-- Configurations at concrete documents.
use quilons_sentrycode.Common.{
  ◌≡◌, refl, negsuc, true, false, String, [], ◌∷◌, Option, none, some, if◌then◌else◌, ◌==◌,
  string_eq, map, is_blank,
}
use quilons_sentrycode.Core.Json.{
  Json, num, other_num, str, arr, obj, end, fields, items, get, missing, value,
}
use quilons_sentrycode.Core.Settings.{SentryCodeConfig}
use quilons_sentrycode.Core.Defaults.{default_config}
use quilons_sentrycode.Configuration.Outcome.{returned, thrown, fault}
use quilons_sentrycode.Configuration.Reading.{LoadHost}
use quilons_sentrycode.Configuration.Merge.Validity.{IsValid}
use quilons_sentrycode.Configuration.Load.{load_config}
use quilons_sentrycode.Configuration.Load.Guarantees.{load_config-IsValid, load_config-empty}

-- The text `-1` is the only number in use that is not natural, and `(` the only broken pattern.
abbrev reader : LoadHost
reader = record {
  amount = λ s. negsuc 0;
  is_integer = λ s. true;
  is_finite = λ s. true;
  to_number = λ s. none;
  regexp_error = λ s. if s == "(" then some "Unterminated group" else none;
}

abbrev offline : String → Option String
offline name = if name == "SENTRYCODE_OFFLINE" then some "true" else none

abbrev document : Json
document = obj (
    fields (
      ("waiversFile", str "old.json")
      ∷ ("compliance", obj (fields (("listenPort", num 70000) ∷ [])))
      ∷ (
        "consumers",
        arr (
            items (
              obj (
                fields (
                  ("consumerId", str "a")
                  ∷ ("adapter", str "cra")
                  ∷ ("maxAttempts", other_num "-1")
                  ∷ []))
              ∷ [])),
      )
      ∷ []))

abbrev loaded : SentryCodeConfig
loaded = elim (load_config reader offline "config.json" true (value document)) [
  | returned c ↦ c
  | thrown e ↦ default_config
]

-- A port out of range and a number of attempts below 1 are left to their defaults.
merged_document :
    (loaded.compliance.listen_port ≡ 7786)
    × (loaded.waivers.file ≡ "old.json")
    × (map (λ c. c.max_attempts) loaded.consumers ≡ 5 ∷ [])
    × (loaded.offline.enabled ≡ true)
unfolding load_config get is_blank
merged_document = (refl, refl, refl, refl)

load_config-IsValid_example : IsValid loaded
unfolding load_config get is_blank
load_config-IsValid_example =
    load_config-IsValid reader offline "config.json" true (value document) loaded refl

load_config-empty_example :
    load_config reader offline "other.json" true (value (obj end))
    ≡ load_config reader offline "config.json" false (missing "ENOENT")
load_config-empty_example =
    load_config-empty reader offline "config.json" "other.json" "ENOENT" true

abbrev broken_pattern : Json
broken_pattern = obj (
    fields (
      (
        "secrets",
        obj (
            fields (
              (
                "customPatterns",
                arr (items (obj (fields (("id", str "x") ∷ ("pattern", str "(") ∷ [])) ∷ [])),
              )
              ∷ [])),
      )
      ∷ []))

-- A pattern that does not compile is reported as a file that is no JSON.
misreported :
    load_config reader offline "config.json" true (value broken_pattern)
    ≡ fault "Invalid JSON in SentryCode config: config.json"
unfolding load_config get is_blank
misreported = refl

abbrev twice : Json
twice =
    let one = obj (fields (("consumerId", str "a") ∷ ("adapter", str "cra") ∷ [])) in
    obj (fields (("consumers", arr (items (one ∷ one ∷ []))) ∷ []))

duplicate :
    load_config reader offline "config.json" true (value twice) ≡ fault "Duplicate consumerId: a"
unfolding load_config get is_blank
duplicate = refl
