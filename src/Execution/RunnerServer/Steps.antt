-- ===== src/Execution/RunnerServer/Steps.antt =====
-- src/execution/runner-server.ts: the steps of one request, to be taken apart in proofs.
use quilons_sentrycode.Common.{ℕ}
use quilons_sentrycode.Common.Result.{Result, ◌>>=◌}
use quilons_sentrycode.Core.Json.{Json}
use quilons_sentrycode.Core.Platform.{Platform}
use quilons_sentrycode.Execution.RunnerServer.Responses.{Execution, LoadedProfile}
use quilons_sentrycode.Execution.RunnerServer.Requests.{
  RunnerServerOptions, HttpRequest, Job, read_body, parse_request,
}
use quilons_sentrycode.Execution.RunnerServer.{
  RequestPhase, arrived, reading, loading, preparing, running, answered, RequestEvent, starts, body,
  profile, prepared, executed, Shared, handle_start, after_body, after_profile, after_prepared,
  after_executed, execution_of, advance,
}

-- What holds of the five steps, and of a request that stays as it is, holds of every step.
module _ {ℓ} (host : Platform) (options : RunnerServerOptions) (who : ℕ) (s : Shared)
    (C : RequestPhase → RequestPhase × Shared → Type ℓ) (same : (p : RequestPhase) → C p (p, s))
    (started : (r : HttpRequest) → C (arrived r) (handle_start options r s))
    (was_read : (o : Result Json) → C reading (after_body (o >>= parse_request options) s))
    (loaded : (job : Job) (o : Result LoadedProfile) → C (loading job) (after_profile job o s))
    (was_prepared : (job : Job) (found : LoadedProfile) (o : Result (Unit {0}))
      → C (preparing job found) (after_prepared who job found o s))
    (was_executed : (job : Job) (found : LoadedProfile) (x : Execution)
      → C (running job found) (after_executed job found x s)) where
  pub advance_cases : (e : RequestEvent) (p : RequestPhase) → C p (advance host options who e p s)
  unfolding advance
  advance_cases starts (arrived r) = started r
  advance_cases starts reading = same reading
  advance_cases starts (loading job) = same (loading job)
  advance_cases starts (preparing job found) = same (preparing job found)
  advance_cases starts (running job found) = same (running job found)
  advance_cases starts (answered reply) = same (answered reply)
  advance_cases (body chunks broken) (arrived r) = same (arrived r)
  advance_cases (body chunks broken) reading =
      was_read (read_body host options.max_request_bytes chunks broken)
  advance_cases (body chunks broken) (loading job) = same (loading job)
  advance_cases (body chunks broken) (preparing job found) = same (preparing job found)
  advance_cases (body chunks broken) (running job found) = same (running job found)
  advance_cases (body chunks broken) (answered reply) = same (answered reply)
  advance_cases (profile o) (arrived r) = same (arrived r)
  advance_cases (profile o) reading = same reading
  advance_cases (profile o) (loading job) = loaded job o
  advance_cases (profile o) (preparing job found) = same (preparing job found)
  advance_cases (profile o) (running job found) = same (running job found)
  advance_cases (profile o) (answered reply) = same (answered reply)
  advance_cases (prepared o) (arrived r) = same (arrived r)
  advance_cases (prepared o) reading = same reading
  advance_cases (prepared o) (loading job) = same (loading job)
  advance_cases (prepared o) (preparing job found) = was_prepared job found o
  advance_cases (prepared o) (running job found) = same (running job found)
  advance_cases (prepared o) (answered reply) = same (answered reply)
  advance_cases (executed o) (arrived r) = same (arrived r)
  advance_cases (executed o) reading = same reading
  advance_cases (executed o) (loading job) = same (loading job)
  advance_cases (executed o) (preparing job found) = same (preparing job found)
  advance_cases (executed o) (running job found) = was_executed job found (execution_of o)
  advance_cases (executed o) (answered reply) = same (answered reply)
