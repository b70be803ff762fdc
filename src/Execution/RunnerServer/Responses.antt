-- ===== src/Execution/RunnerServer/Responses.antt =====
-- src/execution/runner-server.ts: what the server answers, and what it answers about.
use quilons_sentrycode.Common.{
  ℕ, Bool, true, String, Option, none, some, if◌then◌else◌, ◌<>◌, is_truthy,
}
use quilons_sentrycode.Core.Json.{
  Json, Items, nil, cons, arr, bool, num, str, obj, Fields, end, field,
}
use quilons_sentrycode.Execution.RunnerServer.Requests.{RunnerServerOptions, Job, Reply}

pub data RunnerOutcome : Type 0 where
  completed failed cancelled timeout : RunnerOutcome

-- `result`.
pub record Execution : Type 0 where
  pub outcome : RunnerOutcome
  pub error_code : Option String
  pub artifacts : Items
  pub steps : Items
  pub events : Items
  pub cleanup_confirmed : Bool

-- How the executor ended: it threw the error with the bounded diagnostic, at the time, and the clean-up
-- that followed was confirmed or not.
pub data Ended : Type 0 where
  returned : Execution → Ended
  threw : (diagnostic at : String) → (cleanup_confirmed : Bool) → Ended

-- What the answer says of a profile of the registry; `intelligence` has the fields that it repeats.
pub record LoadedProfile : Type 0 where
  pub version : String
  pub profile_digest : String
  pub rules_identity : Json
  pub intelligence : Option Fields

abbrev pub ready_reply : RunnerServerOptions → Reply
ready_reply options = (
  200,
  obj (
      field "ready" (bool true)
        (field "schemaVersion" (num 1) (field "installationId" (str options.installation_id) end))),
)

abbrev pub cancelled_reply : String → Reply
cancelled_reply id = (202, obj (field "runId" (str id) (field "cancelled" (bool true) end)))

abbrev pub launch_failed : (diagnostic at : String) → (cleanup_confirmed : Bool) → Execution
launch_failed diagnostic at cleanup_confirmed = record {
  outcome = RunnerOutcome.failed;
  error_code = some "SCANNER_LAUNCH_FAILED";
  artifacts = nil;
  steps = nil;
  events =
      cons
        (obj (
          field "at" (str at) (
            field "code" (str "SCANNER_LAUNCH_FAILED") (
              field "message" (str ("Scanner execution could not be established: " <> diagnostic))
                end))))
        nil;
  cleanup_confirmed = cleanup_confirmed;
}

abbrev pub execution_of : Ended → Execution
execution_of (returned e) = e
execution_of (threw diagnostic at cleanup_confirmed) = launch_failed diagnostic at cleanup_confirmed

abbrev pub outcome_status : RunnerOutcome → ℕ
outcome_status RunnerOutcome.completed = 200
outcome_status _ = 422

abbrev pub outcome_text : RunnerOutcome → String
outcome_text RunnerOutcome.completed = "completed"
outcome_text RunnerOutcome.failed = "failed"
outcome_text RunnerOutcome.cancelled = "cancelled"
outcome_text RunnerOutcome.timeout = "timeout"

-- A field that is left out where its value is undefined.
abbrev pub field_if : String → Option Json → Fields → Fields
field_if k none rest = rest
field_if k (some v) rest = field k v rest

-- `...(result.errorCode ? { errorCode } : {})`.
abbrev pub error_code_field : Option String → Fields
error_code_field none = end
error_code_field (some code) = if is_truthy code then field "errorCode" (str code) end else end

abbrev pub intelligence_field : Option Fields → Fields → Fields
intelligence_field none rest = rest
intelligence_field (some fs) rest = field "intelligence" (obj fs) rest

abbrev pub response : Job → LoadedProfile → Execution → Reply
response job found e = (
  outcome_status e.outcome,
  obj (
      field "schemaVersion" (num 1) (
        field "runId" (str job.run_id) (
          field_if "scope" job.scope (
            field_if "profileId" job.profile_id (
              field "profileVersion" (str found.version) (
                field "profileDigest" (str found.profile_digest) (
                  field "rulesIdentity" found.rules_identity (
                    field_if "inputDigest" job.input_digest (
                      field "outcome" (str (outcome_text e.outcome)) (
                        field "artifacts" (arr e.artifacts) (
                          field "steps" (arr e.steps) (
                            field "events" (arr e.events) (
                              field "cleanupConfirmed" (bool e.cleanup_confirmed) (
                                intelligence_field found.intelligence
                                  (error_code_field e.error_code))))))))))))))),
)
