-- ===== src/Configuration/Load.antt =====
-- src/config/load.ts: `loadConfig`. The path is the resolved one, and the content is what reading it
-- and parsing it gives.
pub mod Guarantees
use quilons_sentrycode.Common.{Bool, String, some, if◌then◌else◌, ◌<>◌}
use quilons_sentrycode.Core.Json.{Json, JsonFile, missing, unreadable, malformed, value}
use quilons_sentrycode.Core.Settings.{SentryCodeConfig}
use quilons_sentrycode.Core.Defaults.{default_config}
use quilons_sentrycode.Configuration.Outcome.{
  Outcome, error, syntax_error, returned, thrown, ◌>>=◌, fault,
}
use quilons_sentrycode.Configuration.Reading.{LoadHost, as_object}
use quilons_sentrycode.Configuration.Merge.{merge_config}
use quilons_sentrycode.Configuration.Environment.{Environment, apply_environment_overrides}

abbrev pub invalid_json : (path : String) → String
invalid_json path = "Invalid JSON in SentryCode config: " <> path

-- The `catch` of an error that is not a missing file.
abbrev pub caught : (path : String) → Outcome SentryCodeConfig → Outcome SentryCodeConfig
caught path (returned config) = returned config
caught path (thrown (error message)) = fault message
caught path (thrown (syntax_error message)) = fault (invalid_json path)

module _ (host : LoadHost) (env : Environment) where
  unfoldable pub configured : Json → Outcome SentryCodeConfig
  unfolding merge_config apply_environment_overrides
  configured raw = as_object (some raw) "config" >>= λ fs.
      merge_config host fs >>= λ merged. apply_environment_overrides host env merged

  -- `is_explicit` tells whether a path was given.
  unfoldable pub load_config :
      (path : String) → (is_explicit : Bool) → JsonFile → Outcome SentryCodeConfig
  unfolding configured
  load_config path is_explicit (missing message) =
      if is_explicit then fault message else apply_environment_overrides host env default_config
  load_config path is_explicit (unreadable message) = fault message
  load_config path is_explicit malformed = fault (invalid_json path)
  load_config path is_explicit (value raw) = caught path (configured raw)
