-- ===== src/Execution/RunnerServer/Admission.antt =====
-- src/execution/runner-server.ts: what a request has shown when the server goes on with it.
use quilons_sentrycode.Common.{
  ℕ, zero, suc, ◌≡◌, ◌⊎◌, refl, subst, inl, inr, Bool, true, false, not, ◌&&◌, ◌||◌, String, List,
  [], ◌∷◌, map, Option, none, some, if◌then◌else◌, leb, eq_iff, string_eq, Bool-cases, Option-cases,
  arith,
}
use quilons_sentrycode.Common.Result.{
  Result, ok, err, ◌>>=◌, >>=-eq-ok, throw_if-eq-ok, ok-injective,
}
use quilons_sentrycode.Core.Json.{
  Json, null, bool, num, other_num, str, arr, obj, Fields, get, js_text,
}
use quilons_sentrycode.Core.Platform.{Platform}
use quilons_sentrycode.Execution.RunnerServer.Responses.{LoadedProfile}
use quilons_sentrycode.Execution.RunnerServer.Requests.{
  RunnerServerOptions, HttpRequest, Job, error_reply, parse_request, request_fields, is_run_id,
  is_profile_id, tested, is_version_1, equals_text, scope_part, has_files,
}
use quilons_sentrycode.Execution.RunnerServer.Steps.{advance_cases}
use quilons_sentrycode.Execution.RunnerServer.{
  RequestPhase, arrived, reading, loading, preparing, running, answered, RequestEvent, Shared,
  internal_error, has_job, job_of, handle_delete, handle_start, after_body, after_profile,
  after_prepared, advance, step_at, run_server, is_authorized, is_ready_request, is_deletion,
  is_submission,
}

-- The request bears the token of the server and submits a job.
pub record IsAccepted (options : RunnerServerOptions) (r : HttpRequest) : Type 0 where
  pub authorized : is_authorized options r ≡ true
  pub submits : is_submission r ≡ true

-- The job is of the tenant and the project of the server, under a valid identifier.
pub record IsAdmissible (options : RunnerServerOptions) (job : Job) : Type 0 where
  pub same_tenant : job.tenant ≡ options.tenant
  pub same_project : job.project ≡ options.project
  pub named : is_run_id job.run_id ≡ true

abbrev pub IsReady : RunnerServerOptions → HttpRequest → Job → Type 0
IsReady options r job = (IsAccepted options r × IsAdmissible options job) × (job.has_text_id ≡ true)

-- What the request has shown when it is in the phase. Without the token it gets only the answer 401.
abbrev pub IsAdmitted : RunnerServerOptions → HttpRequest → RequestPhase → Type 0
IsAdmitted options r (arrived q) = q ≡ r
IsAdmitted options r reading = IsAccepted options r
IsAdmitted options r (loading job) = IsAccepted options r × IsAdmissible options job
IsAdmitted options r (preparing job found) = IsReady options r job
IsAdmitted options r (running job found) = IsReady options r job
IsAdmitted options r (answered reply) =
    (is_authorized options r ≡ true) ⊎ (reply ≡ error_reply 401 "UNAUTHORIZED")

abbrev pub AreAdmitted : RunnerServerOptions → List HttpRequest → List RequestPhase → Type 0
AreAdmitted options [] [] = Unit {0}
AreAdmitted options (r ∷ rs) (p ∷ ps) = IsAdmitted options r p × AreAdmitted options rs ps
AreAdmitted options _ _ = ⊥

equals_text-tested : (o : Option Json) (t : String) → equals_text o t ≡ true → tested o ≡ t
unfolding js_text
equals_text-tested none t h = cc
equals_text-tested (some null) t h = cc
equals_text-tested (some (bool b)) t h = cc
equals_text-tested (some (num n)) t h = cc
equals_text-tested (some (other_num n)) t h = cc
equals_text-tested (some (str s)) t h = (eq_iff s t).0 h
equals_text-tested (some (arr xs)) t h = cc
equals_text-tested (some (obj fs)) t h = cc

request_fields-IsAdmissible :
    (options : RunnerServerOptions) (fs : Fields) (job : Job)
    → request_fields options fs ≡ ok job
    → IsAdmissible options job
request_fields-IsAdmissible options fs job h =
    let version = throw_if-eq-ok (not (is_version_1 (get "schemaVersion" fs))) _ _ h in
    let named = throw_if-eq-ok (not (is_run_id (tested (get "runId" fs)))) _ _ version.1 in
    let profiled = throw_if-eq-ok (not (is_profile_id (tested (get "profileId" fs)))) _ _ named.1 in
    let scoped =
      throw_if-eq-ok
        (not (equals_text (scope_part "tenant" (get "scope" fs)) options.tenant)
          || not (equals_text (scope_part "project" (get "scope" fs)) options.project))
        _ _ profiled.1 in
    let filled = throw_if-eq-ok (not (has_files (get "input" fs))) _ _ scoped.1 in
    subst (IsAdmissible options) (ok-injective filled.1) (record {
      same_tenant =
          equals_text-tested (scope_part "tenant" (get "scope" fs)) options.tenant
            (ground (arith, scoped.0));
      same_project =
          equals_text-tested (scope_part "project" (get "scope" fs)) options.project
            (ground (arith, scoped.0));
      named = ground (arith, named.0);
    })

parse_request-IsAdmissible :
    (options : RunnerServerOptions) (v : Json) (job : Job)
    → parse_request options v ≡ ok job
    → IsAdmissible options job
unfolding parse_request
parse_request-IsAdmissible options null job h = cc
parse_request-IsAdmissible options (bool b) job h = cc
parse_request-IsAdmissible options (num n) job h = cc
parse_request-IsAdmissible options (other_num n) job h = cc
parse_request-IsAdmissible options (str s) job h = cc
parse_request-IsAdmissible options (arr xs) job h = cc
parse_request-IsAdmissible options (obj fs) job h = request_fields-IsAdmissible options fs job h

module _ (options : RunnerServerOptions) (r : HttpRequest) (s : Shared) where
  handle_delete-IsAdmitted :
      is_authorized options r ≡ true
      → (o : Option String) → IsAdmitted options r (handle_delete o s).0
  unfolding handle_delete
  handle_delete-IsAdmitted a none = inl a
  handle_delete-IsAdmitted a (some id) = elim (Bool-cases (is_run_id id)) [
    | inr e ↦ rw e (inl a)
    | inl e ↦ rw e (elim (Option-cases (job_of id s.jobs)) [
      | inl k ↦ rw k (inl a)
      | inr (who, k) ↦ rw k (inl a)
    ])
  ]

  handle_start-IsAdmitted : IsAdmitted options r (handle_start options r s).0
  unfolding handle_start
  handle_start-IsAdmitted = elim (Bool-cases (is_authorized options r)) [
    | inr e ↦ rw e (inr refl)
    | inl e ↦ rw e (elim (Bool-cases (is_ready_request r)) [
      | inl f ↦ rw f (inl e)
      | inr f ↦ rw f (elim (Bool-cases (is_deletion r)) [
        | inl g ↦ rw g (handle_delete-IsAdmitted e r.decoded_run_id)
        | inr g ↦ rw g (elim (Bool-cases (is_submission r)) [
          | inr h ↦ rw h (inl e)
          | inl h ↦ rw h (elim (Bool-cases (leb options.max_concurrency s.active)) [
            | inl k ↦ rw k (inl e)
            | inr k ↦ rw k (record { authorized = e; submits = h })
          ])
        ])
      ])
    ])
  ]

  after_body-IsAdmitted :
      IsAccepted options r
      → (o : Result Job) → ((job : Job) → o ≡ ok job → IsAdmissible options job)
      → IsAdmitted options r (after_body o s).0
  after_body-IsAdmitted a (err m) h = inl a.authorized
  after_body-IsAdmitted a (ok job) h =
      elim (Bool-cases (job.has_text_id && has_job job.run_id s.jobs)) [
        | inl e ↦ rw e (inl a.authorized)
        | inr e ↦ rw e (a, h job refl)
      ]

  profiled-IsAdmitted :
      (job : Job) (found : LoadedProfile) (has_text : Bool)
      → job.has_text_id ≡ has_text
      → IsAccepted options r × IsAdmissible options job
      → (let next : RequestPhase × Shared =
            if has_text then (preparing job found, s) else (answered internal_error, s) in
          IsAdmitted options r next.0)
  profiled-IsAdmitted job found true h a = (a, h)
  profiled-IsAdmitted job found false h a = inl a.0.authorized

  after_profile-IsAdmitted :
      (job : Job) (o : Result LoadedProfile)
      → IsAccepted options r × IsAdmissible options job
      → IsAdmitted options r (after_profile job o s).0
  after_profile-IsAdmitted job (err m) a = inl a.0.authorized
  after_profile-IsAdmitted job (ok found) a = profiled-IsAdmitted job found job.has_text_id refl a

  after_prepared-IsAdmitted :
      (who : ℕ) (job : Job) (found : LoadedProfile) (o : Result (Unit {0}))
      → IsReady options r job
      → IsAdmitted options r (after_prepared who job found o s).0
  after_prepared-IsAdmitted who job found (err m) a = inl a.0.0.authorized
  after_prepared-IsAdmitted who job found (ok done) a = a

module _ (host : Platform) (options : RunnerServerOptions) where
  advance-IsAdmitted :
      (r : HttpRequest) (who : ℕ) (s : Shared) (e : RequestEvent) (p : RequestPhase)
      → IsAdmitted options r p
      → IsAdmitted options r (advance host options who e p s).0
  advance-IsAdmitted r who s e p =
      advance_cases host options who s
        (λ q result. IsAdmitted options r q → IsAdmitted options r result.0) (λ q a. a)
        (λ q same.
          subst (λ x. IsAdmitted options x (handle_start options q s).0) same
            (handle_start-IsAdmitted options q s))
        (λ o a. after_body-IsAdmitted options r s a (o >>= parse_request options) (λ job h.
          let value = >>=-eq-ok o (parse_request options) h in
          parse_request-IsAdmissible options value.0 job value.2))
        (after_profile-IsAdmitted options r s) (after_prepared-IsAdmitted options r s who)
        (λ job found x a. inl a.0.0.authorized) e p

  step_at-AreAdmitted :
      (first n : ℕ) (e : RequestEvent) (rs : List HttpRequest) (ps : List RequestPhase) (s : Shared)
      → AreAdmitted options rs ps
      → AreAdmitted options rs (step_at host options first n e ps s).0
  unfolding step_at
  step_at-AreAdmitted first n e [] [] s h = h
  step_at-AreAdmitted first zero e (r ∷ rs) (p ∷ ps) s h =
      (advance-IsAdmitted r first s e p h.0, h.1)
  step_at-AreAdmitted first (suc n) e (r ∷ rs) (p ∷ ps) s h =
      (h.0, step_at-AreAdmitted (suc first) n e rs ps s h.1)
  step_at-AreAdmitted first n e [] (p ∷ ps) s h = elim h [ ]
  step_at-AreAdmitted first n e (r ∷ rs) [] s h = elim h [ ]

  run_server_admits :
      (steps : List (ℕ × RequestEvent)) (rs : List HttpRequest) (ps : List RequestPhase)
      (s : Shared)
      → AreAdmitted options rs ps
      → AreAdmitted options rs (run_server host options steps ps s).0
  unfolding run_server
  run_server_admits [] rs ps s h = h
  run_server_admits ((n, e) ∷ rest) rs ps s h =
      run_server_admits rest rs _ _ (step_at-AreAdmitted 0 n e rs ps s h)

  arrived-AreAdmitted : (rs : List HttpRequest) → AreAdmitted options rs (map arrived rs)
  arrived-AreAdmitted [] = tt
  arrived-AreAdmitted (r ∷ rs) = (refl, arrived-AreAdmitted rs)

  -- Whatever requests arrive and whatever their steps and their order are, and whatever state the
  -- server is in: a request whose body is read bears the token of the server and submits a job; a job
  -- whose profile is loaded, which is prepared or which runs is of the tenant and the project of the
  -- server, with a valid identifier, which is a text before its files are touched; and a request
  -- without the token is answered by 401 alone.
  pub run_server-AreAdmitted :
      (steps : List (ℕ × RequestEvent)) (requests : List HttpRequest) (s : Shared)
      → AreAdmitted options requests (run_server host options steps (map arrived requests) s).0
  run_server-AreAdmitted steps requests s =
      run_server_admits steps requests (map arrived requests) s (arrived-AreAdmitted requests)
