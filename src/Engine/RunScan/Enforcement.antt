-- ===== src/Engine/RunScan/Enforcement.antt =====
-- What a scan does about the scanners that a consumer or a managed profile requires.
use quilons_sentrycode.Common.{
  ◌≡◌, subst, ◌∙◌, sym, ap, ◌⊎◌, inl, inr, true, ◌||◌, String, Option, none, some, arith, string_eq,
  includes, includes_sound, includes-append, includes-distinct, includes-sort, distinct, text_leb,
  ◌++◌, Any, Any-map,
}
use quilons_sentrycode.Common.Result.{ok, >>=-eq-ok}
use quilons_sentrycode.Core.Enums.{Decision}
use quilons_sentrycode.Core.PolicyTypes.{EffectivePolicy, PolicyResult, ScanReport}
use quilons_sentrycode.Core.Platform.{Platform}
use quilons_sentrycode.Core.Settings.{SentryCodeConfig}
use quilons_sentrycode.Policy.Documents.{load_policy_documents}
use quilons_sentrycode.Policy.Resolve.Floor.{resolve_policy-required}
use quilons_sentrycode.Policy.Evaluate.Required.{NotRun}
use quilons_sentrycode.Policy.Evaluate.Decisions.{evaluate_policy-fail}
use quilons_sentrycode.Consumers.Registry.{list_configured_consumers, consumer_required_scanners}
use quilons_sentrycode.Consumers.Registry.Demands.{Demands, consumer_required_scanners_listed}
use quilons_sentrycode.Engine.ScanRequest.{
  Scan, policy_context, managed_profile_scanners, required_scanners_floor,
}
use quilons_sentrycode.Engine.RunScan.{effective_policy, stricter, combine, run_scan}
use quilons_sentrycode.Engine.RunScan.Strictness.{results_of, builtin_of, run_scan-Origin}

-- An enabled consumer with an installed adapter, or a managed runner profile, needs the scanner.
abbrev pub Needed : SentryCodeConfig → String → Type 0
Needed config s =
    Any (Demands s) (list_configured_consumers config)
    ⊎ (includes (managed_profile_scanners config) s ≡ true)

floor_includes :
    (config : SentryCodeConfig) (s : String)
    → Needed config s
    → includes (required_scanners_floor config) s ≡ true
unfolding required_scanners_floor
floor_includes config s h =
    let all = consumer_required_scanners config ++ managed_profile_scanners config in
    includes-sort text_leb (distinct all) s
    ∙ includes-distinct all s
    ∙ includes-append (consumer_required_scanners config) (managed_profile_scanners config) s
    ∙ either h
  where
    either :
        Needed config s
        → (includes (consumer_required_scanners config) s
            || includes (managed_profile_scanners config) s)
          ≡ true
    either (inl d) = ground (arith, (consumer_required_scanners_listed config s).1 d)
    either (inr m) = ground arith

module _ (host : Platform) (scan : Scan) where
  required_by_policy :
      (s : String) (effective : EffectivePolicy)
      → Needed scan.config s
      → effective_policy host scan ≡ ok effective
      → includes effective.required_scanners s ≡ true
  unfolding effective_policy
  required_by_policy s effective need h =
      let (documents, loaded, h1) =
        >>=-eq-ok
          (load_policy_documents host scan.config.policy.directory (policy_context scan)
            scan.loading scan.documents)
          _ h in
      let (p, applied, exactly, sorted) =
        resolve_policy-required host scan.config.policy documents
          (required_scanners_floor scan.config) effective h1 in
      exactly s ∙ ground (arith, floor_includes scan.config s need)

  combine-fail :
      (p : PolicyResult) (o : Option Decision)
      → p.decision ≡ Decision.fail
      → (combine p o).decision ≡ Decision.fail
  unfolding combine stricter
  combine-fail p none h = h
  combine-fail p (some d) h = ground arith

  -- A scan fails whenever a scanner that a consumer or a managed profile needs did not run, whatever
  -- the policy documents, the waivers and OPA say.
  pub run_scan-enforces :
      (s : String) (report : ScanReport)
      → Needed scan.config s
      → run_scan host scan ≡ ok report
      → NotRun report.scanners s
      → report.policy.decision ≡ Decision.fail
  run_scan-enforces s report need h idle =
      let o = run_scan-Origin host scan report h in
      let held =
        includes_sound o.effective.required_scanners s
          (required_by_policy s o.effective need o.resolved) in
      let missing : Any (NotRun (results_of host scan)) o.effective.required_scanners =
        Any-map _ _
          (λ id same.
            subst (NotRun (results_of host scan)) (sym same)
              (subst (λ rs. NotRun rs s) o.scanners idle))
          held in
      let failed =
        (evaluate_policy-fail host scan.config (results_of host scan) o.waivers scan.evaluating
            (some o.effective) (some (policy_context scan))).1
          (inl missing) in
      ap (λ (p : PolicyResult). p.decision) o.policy
      ∙ combine-fail (builtin_of host scan o.effective o.waivers) o.opa failed
