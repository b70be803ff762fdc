-- ===== src/Incremental/Plan/Completeness.antt =====
-- Which services a plan looks at.
use quilons_sentrycode.Common.{
  ◌≡◌, subst, ◌⊎◌, inl, inr, Bool, true, false, not, ◌||◌, String, List, Option, none, some,
  is_some, is_truthy, Any, Any-map, Bool-cases,
}
use quilons_sentrycode.Common.Result.{Result, ok, >>=-eq-ok}
use quilons_sentrycode.Core.Enums.{ScanMode}
use quilons_sentrycode.Incremental.Git.{resolve_available_ref, changed_files_between}
use quilons_sentrycode.Incremental.Affected.{ServiceComponent, lies_in, affected_services}
use quilons_sentrycode.Incremental.Affected.Coverage.{
  affected_services-Concerned, some_changed, lies_in_iff,
}
use quilons_sentrycode.Incremental.Plan.{
  IncrementalPlan, IncrementalCache, PlanRequest, full_plan, head_of, candidate_ref, plan_from,
  plan_available, plan_candidate, build_incremental_plan,
}

module _ (ref_exists : String → Bool) (diff_lines : String → Result (List String))
    (services : List ServiceComponent) (cache : Option IncrementalCache) (q : PlanRequest) where
  -- A plan that looks at each service that it has to.
  abbrev Complete : IncrementalPlan → Type 0
  Complete plan =
      (s : ServiceComponent)
      → Any (λ x. x ≡ s) services
      → (plan.mode ≡ ScanMode.full) ⊎ Any (λ f. lies_in f s ≡ true) plan.changed_files
      → Any (λ x. x ≡ s) plan.affected

  ok-injective : {p p' : IncrementalPlan} → ◌≡◌ {A = Result IncrementalPlan} (ok p) (ok p') → p ≡ p'
  ok-injective h = cc

  full-Complete :
      (hit : Bool) (plan : IncrementalPlan) → ok (full_plan services hit) ≡ ok plan → Complete plan
  full-Complete hit plan h = subst Complete (ok-injective h) (λ s member why. member)

  plan_from-Complete :
      (candidate base : String) (plan : IncrementalPlan)
      → plan_from ref_exists diff_lines services cache q candidate base ≡ ok plan
      → Complete plan
  plan_from-Complete candidate base plan h =
      let (changed, git, h1) =
        >>=-eq-ok (changed_files_between ref_exists diff_lines base (head_of q)) _ h in
      subst Complete (ok-injective h1) (λ s member why. covered changed s member why)
    where
      covered :
          (changed : List String) (s : ServiceComponent)
          → Any (λ x. x ≡ s) services
          → (ScanMode.incremental ≡ ScanMode.full) ⊎ Any (λ f. lies_in f s ≡ true) changed
          → Any (λ x. x ≡ s) (affected_services changed services)
      covered changed s member (inl e) = absurd (cc)
      covered changed s member (inr files) =
          ((affected_services-Concerned changed services s).1 (some_changed changed _ files)).1
            (member, inr (inl (Any-map _ _ (λ f l. (lies_in_iff f s).0 l) files)))

  plan-Complete :
      (plan : IncrementalPlan)
      → build_incremental_plan ref_exists diff_lines services cache q ≡ ok plan
      → Complete plan
  unfolding build_incremental_plan
  plan-Complete plan h = elim (Bool-cases (q.force_full || not q.config.enabled)) [
    | inl off ↦ full-Complete false plan (rw off at h)
    | inr on ↦ by_candidate (candidate_ref q cache) (rw on at h)
  ]
    where
      by_base :
          (candidate : String) (o : Option String)
          → plan_available ref_exists diff_lines services cache q candidate o ≡ ok plan
          → Complete plan
      by_base candidate none e = full-Complete (is_some cache) plan e
      by_base candidate (some base) e = plan_from-Complete candidate base plan e

      by_candidate :
          (o : Option String)
          → plan_candidate ref_exists diff_lines services cache q o ≡ ok plan
          → Complete plan
      by_candidate none e = full-Complete (is_some cache) plan e
      by_candidate (some c) e = elim (Bool-cases (is_truthy c)) [
        | inl set ↦ by_base c (resolve_available_ref ref_exists diff_lines c) (rw set at e)
        | inr unset ↦ full-Complete (is_some cache) plan (rw unset at e)
      ]

  -- A plan looks at every service of the repository where the scan is full, and otherwise at every
  -- one in which a changed file lies.
  pub build_incremental_plan-covers :
      (plan : IncrementalPlan) (s : ServiceComponent)
      → build_incremental_plan ref_exists diff_lines services cache q ≡ ok plan
      → Any (λ x. x ≡ s) services
      → (plan.mode ≡ ScanMode.full) ⊎ Any (λ f. lies_in f s ≡ true) plan.changed_files
      → Any (λ x. x ≡ s) plan.affected
  build_incremental_plan-covers plan s h member why = plan-Complete plan h s member why
