-- ===== src/Engine/RunScan/Strictness.antt =====
-- How the decision of a scan comes from the built-in one and OPA's.
use quilons_sentrycode.Common.{
  to_nat, ◌≡◌, refl, ◌∙◌, sym, ap, ◌⊎◌, inl, inr, true, false, List, Option, some, arith, max,
}
use quilons_sentrycode.Common.Result.{Result, ok, >>=-eq-ok}
use quilons_sentrycode.Core.Enums.{Decision, decision_rank}
use quilons_sentrycode.Core.Findings.{ScannerResult, Waiver}
use quilons_sentrycode.Core.PolicyTypes.{EffectivePolicy, PolicyResult, ScanReport}
use quilons_sentrycode.Core.Platform.{Platform}
use quilons_sentrycode.Policy.WaiverFile.{load_waivers}
use quilons_sentrycode.Policy.Evaluate.{evaluate_policy}
use quilons_sentrycode.Policy.Opa.{evaluate_opa}
use quilons_sentrycode.Policy.Opa.Verdict.{Printed, evaluate_opa-Printed}
use quilons_sentrycode.Engine.RunOne.{run_all}
use quilons_sentrycode.Engine.ScanRequest.{Scan, policy_context}
use quilons_sentrycode.Engine.RunScan.{effective_policy, stricter, combine, run_scan}

module _ (host : Platform) (scan : Scan) where
  abbrev pub results_of : List ScannerResult
  results_of = run_all (to_nat scan.config.incremental.scanner_timeout_ms) scan.scanners

  abbrev pub builtin_of : EffectivePolicy → List Waiver → PolicyResult
  builtin_of effective waivers =
      evaluate_policy host scan.config results_of waivers scan.evaluating (some effective)
        (some (policy_context scan))

  -- How a report came about.
  pub record Origin (report : ScanReport) : Type 0 where
    pub effective : EffectivePolicy
    pub resolved : effective_policy host scan ≡ ok effective
    pub waivers : List Waiver
    pub loaded : load_waivers host scan.waivers_path scan.waivers_file ≡ ok waivers
    pub opa : Option Decision
    pub asked : evaluate_opa host scan.config.policy.opa scan.opa ≡ ok opa
    pub scanners : report.scanners ≡ results_of
    pub policy : report.policy ≡ combine (builtin_of effective waivers) opa

  ok-injective : {a b : ScanReport} → ◌≡◌ {A = Result ScanReport} (ok a) (ok b) → a ≡ b
  ok-injective h = cc

  pub run_scan-Origin : (report : ScanReport) → run_scan host scan ≡ ok report → Origin report
  unfolding run_scan
  run_scan-Origin report h =
      let (effective, resolved, h1) = >>=-eq-ok (effective_policy host scan) _ h in
      let (waivers, loaded, h2) =
        >>=-eq-ok (load_waivers host scan.waivers_path scan.waivers_file) _ h1 in
      let (opa, asked, h3) = >>=-eq-ok (evaluate_opa host scan.config.policy.opa scan.opa) _ h2 in
      let same = ok-injective h3 in
      record {
        effective = effective;
        resolved = resolved;
        waivers = waivers;
        loaded = loaded;
        opa = opa;
        asked = asked;
        scanners = sym (ap (λ (r : ScanReport). r.scanners) same);
        policy = sym (ap (λ (r : ScanReport). r.policy) same);
      }

  combine-rank :
      (p : PolicyResult) (d : Decision)
      → decision_rank (combine p (some d)).decision
        ≡ max (decision_rank p.decision) (decision_rank d)
  unfolding combine stricter
  combine-rank p d = ground arith

  -- A report comes from a policy that resolves and waivers that load, and its decision is the
  -- built-in one for these where OPA is disabled; where OPA is enabled, it has printed a decision,
  -- and the rank of the report's is the greater of the two.
  pub run_scan-stricter :
      (report : ScanReport)
      → run_scan host scan ≡ ok report
      → (effective : EffectivePolicy) × (effective_policy host scan ≡ ok effective)
        × ((waivers : List Waiver) × (load_waivers host scan.waivers_path scan.waivers_file
              ≡ ok waivers)
            × (((scan.config.policy.opa.enabled ≡ false)
                  × (report.policy.decision ≡ (builtin_of effective waivers).decision))
                ⊎ ((scan.config.policy.opa.enabled ≡ true)
                    × ((d : Decision) × Printed host scan.opa d
                        × (decision_rank report.policy.decision
                            ≡ max
                                (decision_rank (builtin_of effective waivers).decision)
                                (decision_rank d))))))
  run_scan-stricter report h =
      let o = run_scan-Origin report h in
      (
        o.effective,
        o.resolved,
        (
          o.waivers,
          o.loaded,
          elim (evaluate_opa-Printed host scan.config.policy.opa scan.opa o.opa o.asked) [
            | inl (off, none') ↦ inl (
              off,
              ap (λ (p : PolicyResult). p.decision)
                    (o.policy ∙ ap (combine (builtin_of o.effective o.waivers)) none')
                  ∙ unfold combine in refl,
            )
            | inr (on, (d, some', printed)) ↦ inr (
              on,
              (
                d,
                printed,
                ap (λ (p : PolicyResult). decision_rank p.decision)
                      (o.policy ∙ ap (combine (builtin_of o.effective o.waivers)) some')
                    ∙ combine-rank (builtin_of o.effective o.waivers) d,
              ),
            )
          ],
        ),
      )
