-- ===== src/Tests/Scans.antt =====
-- A whole scan, its consumers and its OPA process at concrete inputs.
use quilons_sentrycode.Common.{
  eq_iff, ◌≡◌, refl, ◌↔◌, ◌⊎◌, inr, true, false, List, [], ◌∷◌, Option, none, some, Any, arith,
  includes, string_eq, max, pos, trim, show_nat,
}
use quilons_sentrycode.Common.Result.{ok, err}
use quilons_sentrycode.Core.Enums.{Decision, ScannerFailureCategory, decision_rank}
use quilons_sentrycode.Core.Settings.{SentryCodeConfig}
use quilons_sentrycode.Core.PolicyTypes.{EffectivePolicy, ScanReport}
use quilons_sentrycode.Core.Findings.{Waiver}
use quilons_sentrycode.Core.Defaults.{default_config, default_cra_reporting}
use quilons_sentrycode.Core.Json.{get}
use quilons_sentrycode.Policy.WaiverFile.{load_waivers}
use quilons_sentrycode.Policy.Documents.{load_policy_documents}
use quilons_sentrycode.Policy.Resolve.{resolve_policy, apply_documents}
use quilons_sentrycode.Policy.Opa.{
  ProcessResult, ProcessEvent, stdout_data, stdin_error, close, ProcessState, on_event, run_opa,
  started, evaluate_opa,
}
use quilons_sentrycode.Policy.Opa.Verdict.{Printed, evaluate_opa-Printed}
use quilons_sentrycode.Policy.Opa.Process.{Bounded, run_opa-settled, run_opa-Bounded}
use quilons_sentrycode.Core.Config.{ConsumerConfig}
use quilons_sentrycode.Consumers.Registry.{list_configured_consumers, consumer_required_scanners}
use quilons_sentrycode.Consumers.Registry.Demands.{
  Requires, IsLegacy, consumer_required_scanners-Requires,
}
use quilons_sentrycode.Engine.Classify.{classify_scanner_failure}
use quilons_sentrycode.Engine.RunOne.{
  run_one, run_all, race, settle, normalize_result, timed_out, Reported, run_one-Reported,
  ScannerRun, returns,
}
use quilons_sentrycode.Engine.ScanRequest.{managed_profile_scanners}
use quilons_sentrycode.Engine.RunScan.{effective_policy, run_scan}
use quilons_sentrycode.Engine.RunScan.Strictness.{builtin_of, run_scan-stricter}
use quilons_sentrycode.Engine.RunScan.Enforcement.{run_scan-enforces}
use quilons_sentrycode.Tests.Samples.{host, scanned, scan, opa_config, opa_run}

classified :
    (classify_scanner_failure (timed_out 500)).category ≡ ScannerFailureCategory.scanner_execution
unfolding classify_scanner_failure trim show_nat
classified = refl

abbrev slow : ScannerRun
slow = record { id = "secrets"; outcome = returns scanned; timer_first = true; duration_ms = 5 }

run_one-Reported_example : Reported 500 slow (run_one 500 slow)
run_one-Reported_example = run_one-Reported 500 slow

abbrev two_bytes : List ProcessEvent
two_bytes = stdout_data (1 ∷ 2 ∷ []) ∷ close (some (pos 0)) ∷ []

abbrev read : ProcessResult
read = record opa_run { stderr = "opa" }

abbrev settled : ProcessState
settled = run_opa host started two_bytes

run_opa-settled_example : (run_opa host settled (stdin_error "EPIPE" ∷ [])).outcome ≡ some (ok read)
unfolding run_opa on_event
run_opa-settled_example = run_opa-settled host settled (stdin_error "EPIPE" ∷ []) (ok read) refl

run_opa-Bounded_example : Bounded host read × ((run_opa host started two_bytes).killed ≡ false)
unfolding run_opa on_event
run_opa-Bounded_example = run_opa-Bounded host two_bytes read refl

evaluate_opa-Printed_example :
    ((opa_config.enabled ≡ false) × (◌≡◌ {A = Option Decision} (some Decision.warn) none))
    ⊎ ((opa_config.enabled ≡ true)
        × ((d : Decision) × (◌≡◌ {A = Option Decision} (some Decision.warn) (some d))
            × Printed host (ok opa_run) d))
unfolding evaluate_opa get
evaluate_opa-Printed_example =
    evaluate_opa-Printed host opa_config (ok opa_run) (some Decision.warn) refl

abbrev for_cra : SentryCodeConfig
for_cra = record default_config { cra_reporting = record default_cra_reporting { enabled = true } }

consumer_required_scanners-Requires_example :
    ((c : ConsumerConfig)
      → Any (λ x. x ≡ c) (list_configured_consumers for_cra)
        ↔ (Any (λ x. x ≡ c) for_cra.consumers ⊎ IsLegacy for_cra c))
    × ((includes (consumer_required_scanners for_cra) "sbom" ≡ true)
        ↔ Any (Requires "sbom") for_cra.consumers)
consumer_required_scanners-Requires_example = consumer_required_scanners-Requires for_cra "sbom"

abbrev no_report : ScanReport
no_report = record {
  run_id = "";
  started_at = "";
  completed_at = "";
  repository = scan.repository;
  scanners = [];
  policy = record {
    decision = Decision.pass;
    reasons = [];
    findings = [];
    counts = [];
    waived_count = 0;
    effective_policy = none;
    audit = [];
  };
  evidence = [];
  execution = none;
}

abbrev report : ScanReport
report = elim (run_scan host scan) [ ok r ↦ r | err m ↦ no_report ]

run_scan-enforces_example : report.policy.decision ≡ Decision.fail
unfolding run_scan effective_policy managed_profile_scanners load_policy_documents resolve_policy
    apply_documents load_waivers evaluate_opa get run_all run_one race settle normalize_result
run_scan-enforces_example =
    run_scan-enforces host scan "supply-chain" report (inr refl) refl
      (λ same. absurd (ground (arith, (eq_iff "secrets" "supply-chain").1 same)), tt)

run_scan-stricter_example :
    (effective : EffectivePolicy) × (effective_policy host scan ≡ ok effective)
    × ((waivers : List Waiver) × (load_waivers host scan.waivers_path scan.waivers_file
          ≡ ok waivers)
        × (((scan.config.policy.opa.enabled ≡ false)
              × (report.policy.decision ≡ (builtin_of host scan effective waivers).decision))
            ⊎ ((scan.config.policy.opa.enabled ≡ true)
                × ((d : Decision) × Printed host scan.opa d
                    × (decision_rank report.policy.decision
                        ≡ max
                            (decision_rank (builtin_of host scan effective waivers).decision)
                            (decision_rank d))))))
unfolding run_scan effective_policy managed_profile_scanners load_policy_documents resolve_policy
    apply_documents load_waivers evaluate_opa get
run_scan-stricter_example = run_scan-stricter host scan report refl
