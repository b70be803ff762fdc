-- ===== src/Execution/RunnerServer/Slots.antt =====
-- src/execution/runner-server.ts: how the slots of the server and its table of jobs go with the
-- requests that run.
use quilons_sentrycode.Common.{
  ℕ, zero, suc, ◌+◌, ◌≡◌, ◌⊎◌, refl, sym, subst, inl, inr, not, String, List, [], ◌∷◌, ◌==◌,
  string_eq, All, All-append, All-map, All-filter_kept, ==_ne, arith,
}
use quilons_sentrycode.Common.Result.{Result, ok, err, ◌>>=◌}
use quilons_sentrycode.Core.Platform.{Platform}
use quilons_sentrycode.Execution.RunnerServer.Requests.{RunnerServerOptions, Job, parse_request}
use quilons_sentrycode.Execution.RunnerServer.Steps.{advance_cases}
use quilons_sentrycode.Execution.RunnerServer.{
  RequestPhase, arrived, reading, loading, preparing, running, answered, RequestEvent, Shared,
  without_job, after_prepared, after_executed, advance, step_at, run_server,
}
use quilons_sentrycode.Execution.RunnerServer.Responses.{Execution, LoadedProfile}
use quilons_sentrycode.Execution.RunnerServer.Quiet.{
  slot, IsQuiet, stays-IsQuiet, handle_start-IsQuiet, after_body-IsQuiet, after_profile-IsQuiet,
}

abbrev pub slots : List RequestPhase → ℕ
slots [] = 0
slots (p ∷ ps) = slot p + slots ps

-- The request runs under the identifier.
abbrev pub IsRunning : String → RequestPhase → Type 0
IsRunning id (running job found) = job.run_id ≡ id
IsRunning id _ = ⊥

-- The entry of the table is of a request that runs under its identifier; the first of the list has the
-- number `first`.
abbrev pub RunsAs : (first : ℕ) → List RequestPhase → String × ℕ → Type 0
RunsAs first [] j = ⊥
RunsAs first (p ∷ ps) j = ((j.1 ≡ first) × IsRunning j.0 p) ⊎ RunsAs (suc first) ps j

-- A request that holds no slot runs under no identifier.
IsRunning-slot : (id : String) (p : RequestPhase) → slot p ≡ 0 → IsRunning id p → ⊥
IsRunning-slot id (arrived r) h k = k
IsRunning-slot id reading h k = k
IsRunning-slot id (loading job) h k = k
IsRunning-slot id (preparing job found) h k = k
IsRunning-slot id (running job found) h k = omega (arith, h)
IsRunning-slot id (answered reply) h k = k

-- The entry is of some other request, or of this one, and then it runs under its identifier.
abbrev IsOwned : (Rest : String × ℕ → Type 0) → ℕ → RequestPhase → String × ℕ → Type 0
IsOwned Rest who p j = Rest j ⊎ ((j.1 ≡ who) × IsRunning j.0 p)

-- What is kept by a step of one request, whatever the slots and the entries of the others are.
abbrev KeepsSlots : (who : ℕ) (s : Shared) → RequestPhase → RequestPhase × Shared → Type 1
KeepsSlots who s p r =
    ((others : ℕ) → s.active ≡ others + slot p → r.1.active ≡ others + slot r.0)
    × ((Rest : String × ℕ → Type 0)
        → All (IsOwned Rest who p) s.jobs
        → All (IsOwned Rest who r.0) r.1.jobs)

module _ (who : ℕ) (s : Shared) where
  quiet_step :
      (p : RequestPhase) (r : RequestPhase × Shared)
      → slot p ≡ 0
      → IsQuiet s r
      → KeepsSlots who s p r
  quiet_step p r no_slot q = (
    λ others h. omega (arith, no_slot, q.no_slot, q.same_active, h),
    λ Rest h.
        subst (λ jobs. All (IsOwned Rest who r.0) jobs) (sym q.same_jobs)
          (All-map (IsOwned Rest who p) (IsOwned Rest who r.0)
            (λ j o. elim o [
              | inl rest ↦ inl rest
              | inr own ↦ elim (IsRunning-slot j.0 p no_slot own.1) [ ]
            ])
            s.jobs h),
  )

  prepared_step :
      (job : Job) (found : LoadedProfile) (o : Result (Unit {0}))
      → KeepsSlots who s (preparing job found) (after_prepared who job found o s)
  prepared_step job found (err m) =
      quiet_step (preparing job found) (after_prepared who job found (err m) s) refl
        (stays-IsQuiet s _ refl)
  prepared_step job found (ok done) = (
    λ others h. omega (arith, h),
    λ Rest h.
        All-append (IsOwned Rest who (running job found)) (without_job job.run_id s.jobs) _
          (All-filter_kept (IsOwned Rest who (preparing job found))
            (IsOwned Rest who (running job found)) (λ j. not (j.0 == job.run_id))
            (λ j _ o. elim o [ inl rest ↦ inl rest | inr own ↦ elim own.1 [ ] ]) s.jobs h)
          (inr (refl, refl), tt),
  )

  executed_step :
      (job : Job) (found : LoadedProfile) (x : Execution)
      → KeepsSlots who s (running job found) (after_executed job found x s)
  executed_step job found x = (
    λ others h. omega (arith, h),
    λ Rest h.
        All-filter_kept (IsOwned Rest who (running job found))
          (IsOwned Rest who (after_executed job found x s).0) (λ j. not (j.0 == job.run_id))
          (λ j kept o. elim o [
            | inl rest ↦ inl rest
            | inr own ↦ elim (==_ne j.0 job.run_id (ground (arith, kept)) (sym own.1)) [ ]
          ])
          s.jobs h,
  )

RunsAs-slot :
    (first : ℕ) (ps : List RequestPhase) → slots ps ≡ 0 → (j : String × ℕ) → RunsAs first ps j → ⊥
RunsAs-slot first [] h j k = k
RunsAs-slot first (p ∷ ps) h j k = elim k [
  | inl own ↦ IsRunning-slot j.0 p (omega (arith, h)) own.1
  | inr later ↦ RunsAs-slot (suc first) ps (omega (arith, h)) j later
]

-- Without a running request there are no entries.
no_entries :
    (first : ℕ) (ps : List RequestPhase)
    → slots ps ≡ 0
    → (jobs : List (String × ℕ)) → All (RunsAs first ps) jobs
    → jobs ≡ []
no_entries first ps h [] k = refl
no_entries first ps h (j ∷ jobs) k = elim (RunsAs-slot first ps h j k.0) [ ]

module _ (host : Platform) (options : RunnerServerOptions) where
  advance-KeepsSlots :
      (who : ℕ) (e : RequestEvent) (p : RequestPhase) (s : Shared)
      → KeepsSlots who s p (advance host options who e p s)
  advance-KeepsSlots who e p s =
      advance_cases host options who s (KeepsSlots who s) (λ q. (λ others h. h, λ Rest h. h))
        (λ r. quiet_step who s (arrived r) _ refl (handle_start-IsQuiet options r s))
        (λ o. quiet_step who s reading _ refl (after_body-IsQuiet (o >>= parse_request options) s))
        (λ job o. quiet_step who s (loading job) _ refl (after_profile-IsQuiet job o s))
        (prepared_step who s) (executed_step who s) e p

  step_at-active :
      (first n : ℕ) (e : RequestEvent) (ps : List RequestPhase) (s : Shared) (others : ℕ)
      → s.active ≡ others + slots ps
      → let r = step_at host options first n e ps s in r.1.active ≡ others + slots r.0
  unfolding step_at
  step_at-active first n e [] s others h = h
  step_at-active first zero e (p ∷ ps) s others h =
      let kept = (advance-KeepsSlots first e p s).0 (others + slots ps) (omega (arith, h)) in
      omega (arith, kept)
  step_at-active first (suc n) e (p ∷ ps) s others h =
      let kept = step_at-active (suc first) n e ps s (others + slot p) (omega (arith, h)) in
      omega (arith, kept)

  step_at-jobs :
      (first n : ℕ) (e : RequestEvent) (ps : List RequestPhase) (s : Shared)
      (Outer : String × ℕ → Type 0)
      → All (λ j. Outer j ⊎ RunsAs first ps j) s.jobs
      → let r = step_at host options first n e ps s in
        All (λ j. Outer j ⊎ RunsAs first r.0 j) r.1.jobs
  unfolding step_at
  step_at-jobs first n e [] s Outer h = h
  step_at-jobs first zero e (p ∷ ps) s Outer h =
      All-map _ _
        (λ j o. elim o [
          | inl rest ↦ elim rest [ inl out ↦ inl out | inr later ↦ inr (inr later) ]
          | inr own ↦ inr (inl own)
        ])
        _
        ((advance-KeepsSlots first e p s).1 (λ j. Outer j ⊎ RunsAs (suc first) ps j)
          (All-map _ _
            (λ j o. elim o [
              | inl out ↦ inl (inl out)
              | inr runs ↦ elim runs [ inl own ↦ inr own | inr later ↦ inl (inr later) ]
            ])
            s.jobs h))
  step_at-jobs first (suc n) e (p ∷ ps) s Outer h =
      All-map _ _
        (λ j o. elim o [
          | inl rest ↦ elim rest [ inl out ↦ inl out | inr own ↦ inr (inl own) ]
          | inr later ↦ inr (inr later)
        ])
        _
        (step_at-jobs (suc first) n e ps s (λ j. Outer j ⊎ ((j.1 ≡ first) × IsRunning j.0 p))
          (All-map _ _
            (λ j o. elim o [
              | inl out ↦ inl (inl out)
              | inr runs ↦ elim runs [ inl own ↦ inl (inr own) | inr later ↦ inr later ]
            ])
            s.jobs h))

  run_server_kept :
      (steps : List (ℕ × RequestEvent)) (ps : List RequestPhase) (s : Shared)
      → s.active ≡ slots ps
      → All (λ j. ⊥ ⊎ RunsAs 0 ps j) s.jobs
      → let r = run_server host options steps ps s in
        (r.1.active ≡ slots r.0) × All (λ j. ⊥ ⊎ RunsAs 0 r.0 j) r.1.jobs
  unfolding run_server
  run_server_kept [] ps s h k = (h, k)
  run_server_kept ((n, e) ∷ rest) ps s h k =
      let active = step_at-active 0 n e ps s 0 (omega (arith, h)) in
      run_server_kept rest _ _ (omega (arith, active)) (step_at-jobs 0 n e ps s (λ j. ⊥) k)

  -- Of a server that starts with no job, whatever its requests do in whatever order: `active` is the
  -- number of the requests whose executor runs, and every entry of the table of jobs belongs to such a
  -- request, which runs under the identifier of the entry. When none runs, `active` is 0 and the table
  -- is empty.
  pub run_server-Slots :
      (steps : List (ℕ × RequestEvent)) (requests : List RequestPhase)
      → slots requests ≡ 0
      → let r =
          run_server host options steps requests (record { active = 0; jobs = []; aborted = [] }) in
        (r.1.active ≡ slots r.0)
        × (All (RunsAs 0 r.0) r.1.jobs)
        × (slots r.0 ≡ 0 → (r.1.active ≡ 0) × (r.1.jobs ≡ []))
  run_server-Slots steps requests h =
      let start : Shared = record { active = 0; jobs = []; aborted = [] } in
      let r = run_server host options steps requests start in
      let kept = run_server_kept steps requests start (sym h) tt in
      let owned =
        All-map (λ j. ⊥ ⊎ RunsAs 0 r.0 j) (RunsAs 0 r.0)
          (λ j o. elim o [ inl no' ↦ elim no' [ ] | inr runs ↦ runs ]) r.1.jobs kept.1 in
      (kept.0, owned, λ none. (omega (arith, kept.0, none), no_entries 0 r.0 none r.1.jobs owned))
