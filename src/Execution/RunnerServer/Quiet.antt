-- ===== src/Execution/RunnerServer/Quiet.antt =====
-- src/execution/runner-server.ts: the steps that neither start nor end a job.
use quilons_sentrycode.Common.{
  ℕ, ◌≡◌, refl, inl, inr, ◌&&◌, String, Option, none, some, leb, string_eq, Bool-cases,
}
use quilons_sentrycode.Common.Result.{Result, ok, err}
use quilons_sentrycode.Execution.RunnerServer.Requests.{
  RunnerServerOptions, HttpRequest, Job, is_run_id,
}
use quilons_sentrycode.Execution.RunnerServer.{
  RequestPhase, running, Shared, job_of, has_job, cancel, handle_delete, handle_start, after_body,
  after_profile, is_authorized, is_ready_request, is_deletion, is_submission,
}
use quilons_sentrycode.Execution.RunnerServer.Responses.{LoadedProfile}

-- A running request holds a slot.
abbrev pub slot : RequestPhase → ℕ
slot (running job found) = 1
slot _ = 0

-- A step that leaves the slots and the table as they are, and does not start or end a job.
pub record IsQuiet (s : Shared) (r : RequestPhase × Shared) : Type 0 where
  pub no_slot : slot r.0 ≡ 0
  pub same_active : r.1.active ≡ s.active
  pub same_jobs : r.1.jobs ≡ s.jobs

pub stays-IsQuiet : (s : Shared) (p : RequestPhase) → slot p ≡ 0 → IsQuiet s (p, s)
stays-IsQuiet s p h = record { no_slot = h; same_active = refl; same_jobs = refl }

cancel-IsQuiet : (id : String) (o : Option ℕ) (s : Shared) → IsQuiet s (cancel id o s)
cancel-IsQuiet id none s = stays-IsQuiet s _ refl
cancel-IsQuiet id (some who) s = record { no_slot = refl; same_active = refl; same_jobs = refl }

handle_delete-IsQuiet : (o : Option String) (s : Shared) → IsQuiet s (handle_delete o s)
unfolding handle_delete
handle_delete-IsQuiet none s = stays-IsQuiet s _ refl
handle_delete-IsQuiet (some id) s = elim (Bool-cases (is_run_id id)) [
  | inl e ↦ rw e (cancel-IsQuiet id (job_of id s.jobs) s)
  | inr e ↦ rw e (stays-IsQuiet s _ refl)
]

pub handle_start-IsQuiet :
    (options : RunnerServerOptions) (r : HttpRequest) (s : Shared)
    → IsQuiet s (handle_start options r s)
unfolding handle_start
handle_start-IsQuiet options r s = elim (Bool-cases (is_authorized options r)) [
  | inr e ↦ rw e (stays-IsQuiet s _ refl)
  | inl e ↦ rw e (elim (Bool-cases (is_ready_request r)) [
    | inl f ↦ rw f (stays-IsQuiet s _ refl)
    | inr f ↦ rw f (elim (Bool-cases (is_deletion r)) [
      | inl g ↦ rw g (handle_delete-IsQuiet r.decoded_run_id s)
      | inr g ↦ rw g (elim (Bool-cases (is_submission r)) [
        | inr h ↦ rw h (stays-IsQuiet s _ refl)
        | inl h ↦ rw h (elim (Bool-cases (leb options.max_concurrency s.active)) [
          | inl k ↦ rw k (stays-IsQuiet s _ refl)
          | inr k ↦ rw k (stays-IsQuiet s _ refl)
        ])
      ])
    ])
  ])
]

pub after_body-IsQuiet : (o : Result Job) (s : Shared) → IsQuiet s (after_body o s)
after_body-IsQuiet (err m) s = stays-IsQuiet s _ refl
after_body-IsQuiet (ok job) s = elim (Bool-cases (job.has_text_id && has_job job.run_id s.jobs)) [
  | inl e ↦ rw e (stays-IsQuiet s _ refl)
  | inr e ↦ rw e (stays-IsQuiet s _ refl)
]

pub after_profile-IsQuiet :
    (job : Job) (o : Result LoadedProfile) (s : Shared) → IsQuiet s (after_profile job o s)
after_profile-IsQuiet job (err m) s = stays-IsQuiet s _ refl
after_profile-IsQuiet job (ok found) s = elim (Bool-cases job.has_text_id) [
  | inl e ↦ rw e (stays-IsQuiet s _ refl)
  | inr e ↦ rw e (stays-IsQuiet s _ refl)
]
