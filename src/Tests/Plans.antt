-- ===== src/Tests/Plans.antt =====
-- Plans of incremental scans at concrete inputs.
use quilons_sentrycode.Common.{
  inr, here, ◌≡◌, refl, ◌↔◌, Bool, true, false, String, List, [], ◌∷◌, none, some, Any, is_empty,
  trim, to_slashes, sort, ◌==◌, string_eq,
}
use quilons_sentrycode.Common.Result.{Result, ok}
use quilons_sentrycode.Core.Enums.{CiProvider, ScanMode}
use quilons_sentrycode.Core.Defaults.{default_incremental}
use quilons_sentrycode.Incremental.Affected.{
  ServiceKind, ServiceComponent, lies_in, is_global, affected_services,
}
use quilons_sentrycode.Incremental.Affected.Coverage.{Concerned, affected_services-Concerned}
use quilons_sentrycode.Incremental.Git.{resolve_available_ref, changed_files_between, clean_ref}
use quilons_sentrycode.Incremental.Plan.{
  IncrementalPlan, PlanRequest, candidate_ref, head_of, build_incremental_plan,
}
use quilons_sentrycode.Incremental.Plan.Completeness.{build_incremental_plan-covers}

abbrev api : ServiceComponent
api = record { name = "api"; root = "services/api"; kind = ServiceKind.node }

abbrev web : ServiceComponent
web = record { name = "web"; root = "services/web"; kind = ServiceKind.node }

abbrev touched : List String
touched = "services/api/a.ts" ∷ []

narrowed : affected_services touched (api ∷ web ∷ []) ≡ api ∷ []
unfolding affected_services lies_in is_global
narrowed = refl

affected_services-Concerned_example :
    (is_empty touched ≡ true → affected_services touched (api ∷ web ∷ []) ≡ [])
    × (is_empty touched ≡ false
        → Any (λ x. x ≡ api) (affected_services touched (api ∷ web ∷ []))
          ↔ (Any (λ x. x ≡ api) (api ∷ web ∷ []) × Concerned touched (api ∷ web ∷ []) api))
affected_services-Concerned_example = affected_services-Concerned touched (api ∷ web ∷ []) api

abbrev request : PlanRequest
request = record {
  config = default_incremental;
  ci = record {
    provider = CiProvider.local;
    detected = false;
    pull_request = false;
    base_ref = some "main";
    head_ref = none;
    branch = none;
    repository = none;
    build_id = none;
    job_id = none;
    change_number = none;
    patchset_number = none;
    revision = none;
  };
  force_full = false;
  base_ref = none;
  head_ref = none;
}

abbrev on_remote : String → Bool
on_remote ref = ref == "origin/main"

abbrev printed : String → Result (List String)
printed range = ok ("services\\api\\a.ts " ∷ "" ∷ [])

abbrev planned : IncrementalPlan
planned = record {
  mode = ScanMode.incremental;
  base_ref = some "origin/main";
  head_ref = some "HEAD";
  changed_files = touched;
  affected = api ∷ [];
  cache_hit = false;
}

build_incremental_plan-covers_example : Any (λ x. x ≡ api) planned.affected
unfolding build_incremental_plan candidate_ref resolve_available_ref clean_ref changed_files_between
    head_of sort affected_services to_slashes trim is_global lies_in
build_incremental_plan-covers_example =
    build_incremental_plan-covers on_remote printed (api ∷ web ∷ []) none request planned api refl
      (here refl) (inr (here refl))
