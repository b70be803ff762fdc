-- ===== src/Execution/RunnerServer.antt =====
-- src/execution/runner-server.ts: the requests that the runner's server handles at the same time. A
-- request goes through phases, one step of the server for each time it waits: for its body, for its
-- profile, for its input files and for the executor. Everything between two waits is one step, as in
-- an event loop.
pub mod Requests
pub mod Responses
pub mod Steps
pub mod Quiet
pub mod Slots
pub mod Admission
use quilons_sentrycode.Common.{
  ℕ, zero, suc, ◌-◌, Bool, true, false, not, ◌&&◌, String, List, [], ◌∷◌, ◌++◌, filter, Option,
  none, some, if◌then◌else◌, leb, ◌==◌, string_eq,
}
use quilons_sentrycode.Common.Result.{Result, ok, err, ◌>>=◌}
use quilons_sentrycode.Core.Json.{str, obj, end, field}
use quilons_sentrycode.Core.Platform.{Platform}
use quilons_sentrycode.Execution.RunnerServer.Requests.{
  RunnerServerOptions, HttpRequest, Job, Reply, auth_token, starts_with, is_run_id, error_reply,
  read_body, parse_request,
}
use quilons_sentrycode.Execution.RunnerServer.Responses.{
  Execution, Ended, LoadedProfile, ready_reply, cancelled_reply, execution_of, response,
}

-- Where a request is.
pub data RequestPhase : Type 0 where
  arrived : HttpRequest → RequestPhase
  reading : RequestPhase
  loading : Job → RequestPhase
  preparing : Job → LoadedProfile → RequestPhase
  running : Job → LoadedProfile → RequestPhase
  answered : Reply → RequestPhase

-- What a request was waiting for: the chunks of its body with an error of the connection, the profile
-- with the files of an earlier job removed, the input files, or the executor, with the diagnosis where
-- it threw.
pub data RequestEvent : Type 0 where
  starts : RequestEvent
  body : List (List ℕ) → Option String → RequestEvent
  profile : Result LoadedProfile → RequestEvent
  prepared : Result (Unit {0}) → RequestEvent
  executed : Ended → RequestEvent

-- `active`, `jobs` with the request that each controller belongs to, and the requests whose
-- controllers have aborted.
pub record Shared : Type 0 where
  pub active : ℕ
  pub jobs : List (String × ℕ)
  pub aborted : List ℕ

-- `jobs.get(runId)`.
abbrev pub job_of : String → List (String × ℕ) → Option ℕ
job_of id [] = none
job_of id ((k, who) ∷ rest) = if k == id then some who else job_of id rest

abbrev pub has_job : String → List (String × ℕ) → Bool
has_job id jobs = elim (job_of id jobs) [ none ↦ false | some who ↦ true ]

-- `jobs.delete(runId)`.
abbrev pub without_job : String → List (String × ℕ) → List (String × ℕ)
without_job id jobs = filter (λ j. not (j.0 == id)) jobs

-- `jobs.set(runId, controller)`.
abbrev pub with_job : String → ℕ → List (String × ℕ) → List (String × ℕ)
with_job id who jobs = without_job id jobs ++ (id, who) ∷ []

abbrev pub jobs_prefix : String
jobs_prefix = "/v1/jobs/"

-- The request that is no text that `decodeURIComponent` takes, or another unexpected error.
abbrev pub internal_error : Reply
internal_error = error_reply 500 "RUNNER_INTERNAL_ERROR"

abbrev pub cancel : String → Option ℕ → Shared → RequestPhase × Shared
cancel id none s = (RequestPhase.answered (error_reply 404 "RUN_NOT_FOUND"), s)
cancel id (some who) s =
    (RequestPhase.answered (cancelled_reply id), record s { aborted = who ∷ s.aborted })

unfoldable pub handle_delete : Option String → Shared → RequestPhase × Shared
unfolding is_run_id
handle_delete none s = (RequestPhase.answered internal_error, s)
handle_delete (some id) s =
    if is_run_id id
    then cancel id (job_of id s.jobs) s
    else (RequestPhase.answered (error_reply 400 "INVALID_RUN_ID"), s)

unfoldable pub is_authorized : RunnerServerOptions → HttpRequest → Bool
unfolding auth_token
is_authorized options r = auth_token r.authorization == options.token

abbrev pub is_ready_request : HttpRequest → Bool
is_ready_request r = r.method == "GET" && r.path == "/readyz"

unfoldable pub is_deletion : HttpRequest → Bool
unfolding starts_with
is_deletion r = r.method == "DELETE" && starts_with jobs_prefix r.path

abbrev pub is_submission : HttpRequest → Bool
is_submission r = r.method == "POST" && r.path == "/v1/jobs"

-- `handle`, up to the reading of the body.
unfoldable pub handle_start : RunnerServerOptions → HttpRequest → Shared → RequestPhase × Shared
unfolding handle_delete is_authorized is_deletion
handle_start options r s =
    if not (is_authorized options r)
    then (RequestPhase.answered (error_reply 401 "UNAUTHORIZED"), s)
    else if is_ready_request r
    then (RequestPhase.answered (ready_reply options), s)
    else if is_deletion r
    then handle_delete r.decoded_run_id s
    else if not (is_submission r)
    then (RequestPhase.answered (error_reply 404 "NOT_FOUND"), s)
    else if leb options.max_concurrency s.active
    then (RequestPhase.answered (error_reply 429 "RUNNER_BUSY"), s)
    else (RequestPhase.reading, s)

-- The status is 413 for a body that is too large, and 400 for any other error.
abbrev pub refused_body : String → Reply
refused_body message = error_reply (if message == "REQUEST_TOO_LARGE" then 413 else 400) message

abbrev pub after_body : Result Job → Shared → RequestPhase × Shared
after_body (err message) s = (RequestPhase.answered (refused_body message), s)
after_body (ok job) s =
    if job.has_text_id && has_job job.run_id s.jobs
    then (RequestPhase.answered (error_reply 409 "DUPLICATE_RUN_ID"), s)
    else (RequestPhase.loading job, s)

-- A run that is no text ends in the error that `resolve` throws for it.
abbrev pub after_profile : Job → Result LoadedProfile → Shared → RequestPhase × Shared
after_profile job (err message) s = (
  RequestPhase.answered
      (422, obj (field "error" (str "PROFILE_UNAVAILABLE") (field "message" (str message) end))),
  s,
)
after_profile job (ok found) s =
    if job.has_text_id
    then (RequestPhase.preparing job found, s)
    else (RequestPhase.answered internal_error, s)

abbrev pub after_prepared :
    ℕ → Job → LoadedProfile → Result (Unit {0}) → Shared → RequestPhase × Shared
after_prepared who job found (err message) s = (RequestPhase.answered (error_reply 422 message), s)
after_prepared who job found (ok done) s = (
  RequestPhase.running job found,
  record s { active = suc s.active; jobs = with_job job.run_id who s.jobs },
)

-- The response, and the `finally` of the job.
abbrev pub after_executed : Job → LoadedProfile → Execution → Shared → RequestPhase × Shared
after_executed job found e s = (
  RequestPhase.answered (response job found e),
  record s { active = s.active - 1; jobs = without_job job.run_id s.jobs },
)

module _ (host : Platform) (options : RunnerServerOptions) where
  -- The step of a request, by its number, when what it waits for happens; an event that it does not
  -- wait for changes nothing.
  unfoldable pub advance : ℕ → RequestEvent → RequestPhase → Shared → RequestPhase × Shared
  unfolding handle_start read_body parse_request
  advance who starts (arrived r) s = handle_start options r s
  advance who (body chunks broken) reading s =
      after_body (read_body host options.max_request_bytes chunks broken >>= parse_request options)
        s
  advance who (profile loaded) (loading job) s = after_profile job loaded s
  advance who (prepared files) (preparing job found) s = after_prepared who job found files s
  advance who (executed result) (running job found) s =
      after_executed job found (execution_of result) s
  advance who e phase s = (phase, s)

  -- The step of the request number `n`, where the first of the list has the number `first`.
  unfoldable pub step_at :
      (first n : ℕ) → RequestEvent → List RequestPhase → Shared → List RequestPhase × Shared
  unfolding advance
  step_at first n e [] s = ([], s)
  step_at first zero e (p ∷ ps) s = let r = advance first e p s in (r.0 ∷ ps, r.1)
  step_at first (suc n) e (p ∷ ps) s = let r = step_at (suc first) n e ps s in (p ∷ r.0, r.1)

  -- A run of the server: steps of its requests in any order.
  unfoldable pub run_server :
      List (ℕ × RequestEvent) → List RequestPhase → Shared → List RequestPhase × Shared
  unfolding step_at
  run_server [] ps s = (ps, s)
  run_server ((n, e) ∷ rest) ps s = let r = step_at 0 n e ps s in run_server rest r.0 r.1
