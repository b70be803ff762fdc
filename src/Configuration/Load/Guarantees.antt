-- ===== src/Configuration/Load/Guarantees.antt =====
-- src/config/load.ts: what a loaded configuration satisfies, and what an empty document means.
use quilons_sentrycode.Common.{
  ◌≡◌, ◌∙◌, refl, ap, subst, ℤ, pos, negsuc, Bool, true, false, String, Option, none, some, arith,
}
use quilons_sentrycode.Core.Json.{
  Json, obj, end, JsonFile, missing, unreadable, malformed, value, get,
}
use quilons_sentrycode.Core.Enums.{CiProvider}
use quilons_sentrycode.Core.Settings.{SentryCodeConfig}
use quilons_sentrycode.Core.Defaults.{default_config}
use quilons_sentrycode.Configuration.Outcome.{
  Outcome, error, syntax_error, returned, thrown, ◌>>=◌, >>=-eq-returned, returned-injective,
}
use quilons_sentrycode.Configuration.Reading.{LoadHost, as_object, or_fault}
use quilons_sentrycode.Configuration.Services.{provider_of}
use quilons_sentrycode.Configuration.Merge.{merge_config}
use quilons_sentrycode.Configuration.Merge.Validity.{IsValid, merge_config-IsValid}
use quilons_sentrycode.Configuration.Environment.{
  Environment, filled, provider_from, timeout_from, timeout_or_fault, apply_environment_overrides,
}
use quilons_sentrycode.Configuration.Load.{caught, configured, load_config}

module _ (host : LoadHost) (env : Environment) where
  overrides-IsValid :
      (c d : SentryCodeConfig)
      → IsValid c
      → apply_environment_overrides host env c ≡ returned d
      → IsValid d
  unfolding apply_environment_overrides
  overrides-IsValid c d valid h =
      let provider =
        >>=-eq-returned (provider_from (filled (env "SENTRYCODE_CI_PROVIDER")) c.ci.provider) _ h in
      let timeout =
        >>=-eq-returned
          (timeout_from host (filled (env "SENTRYCODE_SCANNER_TIMEOUT_MS"))
            c.incremental.scanner_timeout_ms)
          _ provider.2 in
      subst IsValid (returned-injective timeout.2) (record {
        consumers = valid.consumers;
        max_duration_days = valid.max_duration_days;
        waivers_file = valid.waivers_file;
        listen_port = valid.listen_port;
        runner_timeout = valid.runner_timeout;
        cra_attempts = valid.cra_attempts;
        retention_days = valid.retention_days;
      })

  default_config-IsValid : IsValid default_config
  default_config-IsValid = record {
    consumers = tt;
    max_duration_days = omega arith;
    waivers_file = refl;
    listen_port = omega arith;
    runner_timeout = omega arith;
    cra_attempts = omega arith;
    retention_days = omega arith;
  }

  configured-IsValid :
      (raw : Json) (c : SentryCodeConfig) → configured host env raw ≡ returned c → IsValid c
  unfolding configured
  configured-IsValid raw c h =
      let fs = >>=-eq-returned (as_object (some raw) "config") _ h in
      let merged = >>=-eq-returned (merge_config host fs.0) _ fs.2 in
      overrides-IsValid merged.0 c (merge_config-IsValid host fs.0 merged.0 merged.1) merged.2

  caught-eq-returned :
      (path : String) (o : Outcome SentryCodeConfig) (c : SentryCodeConfig)
      → caught path o ≡ returned c
      → o ≡ returned c
  caught-eq-returned path (returned d) c h = h
  caught-eq-returned path (thrown (error m)) c h = cc
  caught-eq-returned path (thrown (syntax_error m)) c h = cc

  -- A configuration that loads has consumers under distinct names that are not blank, each with an
  -- adapter and at least one attempt, positive limits on waivers, runner, retention and CRA attempts,
  -- a port in range, and one file of waivers, whatever the document and the environment say.
  pub load_config-IsValid :
      (path : String) (is_explicit : Bool) (file : JsonFile) (c : SentryCodeConfig)
      → load_config host env path is_explicit file ≡ returned c
      → IsValid c
  unfolding load_config
  load_config-IsValid path true (missing m) c h = cc
  load_config-IsValid path false (missing m) c h =
      overrides-IsValid default_config c default_config-IsValid h
  load_config-IsValid path is_explicit (unreadable m) c h = cc
  load_config-IsValid path is_explicit malformed c h = cc
  load_config-IsValid path is_explicit (value raw) c h =
      configured-IsValid raw c (caught-eq-returned path (configured host env raw) c h)

  -- An error that is not a SyntaxError.
  abbrev IsPlain {ℓ} : {A : Type ℓ} → Outcome A → Type 0
  IsPlain (thrown (syntax_error m)) = ⊥
  IsPlain _ = Unit

  caught-IsPlain : (path : String) (o : Outcome SentryCodeConfig) → IsPlain o → caught path o ≡ o
  caught-IsPlain path (returned c) h = refl
  caught-IsPlain path (thrown (error m)) h = refl
  caught-IsPlain path (thrown (syntax_error m)) h = elim h [ ]

  or_fault-IsPlain {ℓ} : {A : Type ℓ} (o : Option A) (m : String) → IsPlain (or_fault o m)
  or_fault-IsPlain none m = tt
  or_fault-IsPlain (some a) m = tt

  provider_from-IsPlain : (v : Option String) (p : Option CiProvider) → IsPlain (provider_from v p)
  provider_from-IsPlain none p = tt
  provider_from-IsPlain (some s) p = or_fault-IsPlain (provider_of s) _

  timeout_or_fault-IsPlain : (v : Option ℤ) → IsPlain (timeout_or_fault v)
  timeout_or_fault-IsPlain none = tt
  timeout_or_fault-IsPlain (some (pos n)) = tt
  timeout_or_fault-IsPlain (some (negsuc n)) = tt

  timeout_from-IsPlain : (v : Option String) (t : ℤ) → IsPlain (timeout_from host v t)
  timeout_from-IsPlain none t = tt
  timeout_from-IsPlain (some s) t = timeout_or_fault-IsPlain (host.to_number s)

  >>=-IsPlain {ℓ κ} :
      {A : Type ℓ} {B : Type κ} (first : Outcome A) (next : A → Outcome B)
      → IsPlain first
      → ((a : A) → IsPlain (next a))
      → IsPlain (first >>= next)
  >>=-IsPlain (returned a) next h k = k a
  >>=-IsPlain (thrown (error m)) next h k = tt
  >>=-IsPlain (thrown (syntax_error m)) next h k = h

  overrides-IsPlain : (c : SentryCodeConfig) → IsPlain (apply_environment_overrides host env c)
  unfolding apply_environment_overrides
  overrides-IsPlain c =
      >>=-IsPlain (provider_from (filled (env "SENTRYCODE_CI_PROVIDER")) c.ci.provider) _
        (provider_from-IsPlain (filled (env "SENTRYCODE_CI_PROVIDER")) c.ci.provider)
        (λ p.
          >>=-IsPlain
            (timeout_from host (filled (env "SENTRYCODE_SCANNER_TIMEOUT_MS"))
              c.incremental.scanner_timeout_ms)
            _
            (timeout_from-IsPlain (filled (env "SENTRYCODE_SCANNER_TIMEOUT_MS"))
              c.incremental.scanner_timeout_ms)
            (λ t. tt))

  merge_config-empty : merge_config host end ≡ returned default_config
  unfolding merge_config get
  merge_config-empty = refl

  -- An empty document means what a missing default file means: the default configuration under the
  -- overrides of the environment, with the same error where these are refused.
  pub load_config-empty :
      (path given_path message : String) (is_explicit : Bool)
      → load_config host env given_path is_explicit (value (obj end))
        ≡ load_config host env path false (missing message)
  unfolding load_config
  load_config-empty path given_path message is_explicit =
      ap (λ o. caught given_path (o >>= λ merged. apply_environment_overrides host env merged))
        merge_config-empty
      ∙ caught-IsPlain given_path (apply_environment_overrides host env default_config)
          (overrides-IsPlain default_config)
