-- ===== src/Incremental/Plan.antt =====
-- src/incremental/plan.ts. The services that were discovered and the cache that was read are
-- arguments.
pub mod Completeness
use quilons_sentrycode.Common.{
  Bool, false, not, ◌||◌, String, List, [], Option, none, some, is_some, is_truthy, if◌then◌else◌,
  string_eq, option_beq,
}
use quilons_sentrycode.Common.Result.{Result, ok, ◌>>=◌}
use quilons_sentrycode.Core.Enums.{ScanMode}
use quilons_sentrycode.Core.Findings.{CiContext}
use quilons_sentrycode.Core.Settings.{IncrementalConfig}
use quilons_sentrycode.Incremental.Git.{resolve_available_ref, changed_files_between}
use quilons_sentrycode.Incremental.Affected.{ServiceComponent, affected_services}

pub record IncrementalPlan : Type 0 where
  pub mode : ScanMode
  pub base_ref : Option String
  pub head_ref : Option String
  pub changed_files : List String
  pub affected : List ServiceComponent
  pub cache_hit : Bool

pub record IncrementalCache : Type 0 where
  pub repository : String
  pub last_successful_commit : String
  pub updated_at : String

-- What the plan is made for, and the caller's wishes.
pub record PlanRequest : Type 0 where
  pub config : IncrementalConfig
  pub ci : CiContext
  pub force_full : Bool
  pub base_ref : Option String
  pub head_ref : Option String

-- `a || b` on texts that may be missing.
abbrev pub or_ref : Option String → Option String → Option String
or_ref none other = other
or_ref (some s) other = if is_truthy s then some s else other

abbrev pub last_commit : Option IncrementalCache → Option String
last_commit none = none
last_commit (some c) = some c.last_successful_commit

abbrev pub full_plan : List ServiceComponent → Bool → IncrementalPlan
full_plan services hit = record {
  mode = ScanMode.full;
  base_ref = none;
  head_ref = none;
  changed_files = [];
  affected = services;
  cache_hit = hit;
}

abbrev pub or_head : Option String → String
or_head none = "HEAD"
or_head (some s) = if is_truthy s then s else "HEAD"

unfoldable pub candidate_ref : PlanRequest → Option IncrementalCache → Option String
candidate_ref q cache =
    or_ref q.base_ref (or_ref q.ci.base_ref (or_ref (some q.config.base_ref) (last_commit cache)))

unfoldable pub head_of : PlanRequest → String
head_of q = or_head (or_ref q.head_ref (or_ref q.ci.head_ref (some q.config.head_ref)))

module _ (ref_exists : String → Bool) (diff_lines : String → Result (List String))
    (services : List ServiceComponent) (cache : Option IncrementalCache) (q : PlanRequest) where
  abbrev pub plan_from : String → String → Result IncrementalPlan
  plan_from candidate base =
      changed_files_between ref_exists diff_lines base (head_of q) >>= λ changed. ok (record {
        mode = ScanMode.incremental;
        base_ref = some base;
        head_ref = some (head_of q);
        changed_files = changed;
        affected = affected_services changed services;
        cache_hit = option_beq (last_commit cache) (some candidate);
      })

  abbrev pub plan_available : String → Option String → Result IncrementalPlan
  plan_available candidate none = ok (full_plan services (is_some cache))
  plan_available candidate (some base) = plan_from candidate base

  abbrev pub plan_candidate : Option String → Result IncrementalPlan
  plan_candidate none = ok (full_plan services (is_some cache))
  plan_candidate (some candidate) =
      if is_truthy candidate
      then plan_available candidate (resolve_available_ref ref_exists diff_lines candidate)
      else ok (full_plan services (is_some cache))

  unfoldable pub build_incremental_plan : Result IncrementalPlan
  build_incremental_plan =
      if q.force_full || not q.config.enabled
      then ok (full_plan services false)
      else plan_candidate (candidate_ref q cache)
