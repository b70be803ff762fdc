-- ===== src/Tests/Servers.antt =====
-- The server of the runner at concrete requests.
use quilons_sentrycode.Common.{
  ℕ, ◌≡◌, refl, true, String, List, [], ◌∷◌, ◌++◌, map, none, some, string_eq, All,
}
use quilons_sentrycode.Common.Result.{ok}
use quilons_sentrycode.Core.Json.{Json, nil, num, str, arr, obj, end, field, get}
use quilons_sentrycode.Core.Platform.{Platform}
use quilons_sentrycode.Execution.RunnerServer.Requests.{
  RunnerServerOptions, HttpRequest, Job, error_reply,
}
use quilons_sentrycode.Execution.RunnerServer.Responses.{
  RunnerOutcome, Execution, returned, LoadedProfile,
}
use quilons_sentrycode.Execution.RunnerServer.{
  arrived, running, answered, RequestEvent, starts, body, profile, prepared, executed, Shared,
  run_server,
}
use quilons_sentrycode.Execution.RunnerServer.Slots.{slots, RunsAs, run_server-Slots}
use quilons_sentrycode.Execution.RunnerServer.Admission.{AreAdmitted, run_server-AreAdmitted}
use quilons_sentrycode.Tests.Samples.{host}

abbrev options : RunnerServerOptions
options = record {
  token = "secret";
  tenant = "t";
  project = "p";
  installation_id = "i";
  max_request_bytes = 10;
  max_concurrency = 1;
}

abbrev submission : HttpRequest
submission = record {
  authorization = some "Bearer secret";
  method = "POST";
  path = "/v1/jobs";
  decoded_run_id = none;
}

abbrev stranger : HttpRequest
stranger = record submission { authorization = some "secret" }

abbrev request_of : String → Json
request_of tenant = obj (
    field "schemaVersion" (num 1) (
      field "runId" (str "run-1") (
        field "profileId" (str "deep") (
          field "scope" (obj (field "tenant" (str tenant) (field "project" (str "p") end)))
            (field "input" (obj (field "files" (arr nil) end)) end)))))

abbrev runner : Platform
runner = record host { decode_utf8 = λ bytes. "body"; parse_json = λ s. some (request_of "t") }

abbrev job : Job
job = record {
  run_id = "run-1";
  has_text_id = true;
  tenant = "t";
  project = "p";
  scope = some (obj (field "tenant" (str "t") (field "project" (str "p") end)));
  profile_id = some (str "deep");
  input_digest = none;
}

abbrev loaded : LoadedProfile
loaded = record {
  version = "1.0.0";
  profile_digest = "d";
  rules_identity = str "r";
  intelligence = none;
}

abbrev nothing : Shared
nothing = record { active = 0; jobs = []; aborted = [] }

abbrev done : Execution
done = record {
  outcome = RunnerOutcome.completed;
  error_code = none;
  artifacts = nil;
  steps = nil;
  events = nil;
  cleanup_confirmed = true;
}

abbrev started : ℕ → List (ℕ × RequestEvent)
started n =
    (n, starts)
    ∷ (n, body ((1 ∷ 2 ∷ []) ∷ []) none)
    ∷ (n, profile (ok loaded))
    ∷ (n, prepared (ok tt))
    ∷ []

abbrev both_start : List (ℕ × RequestEvent)
both_start =
    (0, starts)
    ∷ (1, starts)
    ∷ (0, body ((1 ∷ []) ∷ []) none)
    ∷ (1, body ((1 ∷ []) ∷ []) none)
    ∷ (0, profile (ok loaded))
    ∷ (1, profile (ok loaded))
    ∷ (0, prepared (ok tt))
    ∷ (1, prepared (ok tt))
    ∷ []

-- One at a time: the second request is refused while the first runs.
one_at_a_time :
    run_server runner options
      (started 0 ++ (1, starts) ∷ [])
      (map arrived (submission ∷ submission ∷ []))
      nothing
    ≡ (
      running job loaded ∷ answered (error_reply 429 "RUNNER_BUSY") ∷ [],
      record { active = 1; jobs = ("run-1", 0) ∷ []; aborted = [] },
    )
unfolding run_server get
one_at_a_time = refl

-- Interleaved: two requests for the same run pass both checks, and both run, where one may.
both_run :
    run_server runner options both_start (map arrived (submission ∷ submission ∷ [])) nothing ≡ (
      running job loaded ∷ running job loaded ∷ [],
      record { active = 2; jobs = ("run-1", 1) ∷ []; aborted = [] },
    )
unfolding run_server get
both_run = refl

-- The end of the first job takes the entry of the second, which can be cancelled no more.
second_is_lost :
    (run_server runner options
      (both_start ++ (0, executed (returned done)) ∷ [])
      (map arrived (submission ∷ submission ∷ []))
      nothing).1
    ≡ record { active = 1; jobs = []; aborted = [] }
unfolding run_server get
second_is_lost = refl

run_server-Slots_example :
    let r = run_server runner options (started 0) (map arrived (submission ∷ [])) nothing in
    (r.1.active ≡ slots r.0)
    × (All (RunsAs 0 r.0) r.1.jobs)
    × (slots r.0 ≡ 0 → (r.1.active ≡ 0) × (r.1.jobs ≡ []))
run_server-Slots_example =
    run_server-Slots runner options (started 0) (map arrived (submission ∷ [])) refl

run_server-AreAdmitted_example :
    AreAdmitted options
      (submission ∷ stranger ∷ [])
      (run_server runner options
        (started 0 ++ started 1)
        (map arrived (submission ∷ stranger ∷ []))
        nothing).0
run_server-AreAdmitted_example =
    run_server-AreAdmitted runner options (started 0 ++ started 1) (submission ∷ stranger ∷ [])
      nothing

-- A request without a run passes the validation of its name and ends in the answer 500.
abbrev nameless_request : Json
nameless_request = obj (
    field "schemaVersion" (num 1) (
      field "profileId" (str "deep") (
        field "scope" (obj (field "tenant" (str "t") (field "project" (str "p") end)))
          (field "input" (obj (field "files" (arr nil) end)) end))))

abbrev nameless_runner : Platform
nameless_runner = record runner { parse_json = λ s. some nameless_request }

nameless :
    run_server nameless_runner options (started 0) (map arrived (submission ∷ [])) nothing
    ≡ (answered (error_reply 500 "RUNNER_INTERNAL_ERROR") ∷ [], nothing)
unfolding run_server get
nameless = refl
