-- ===== src/Policy/Evaluate/Decisions.antt =====
-- The decision, stated as conditions on the scanner results and the findings.
use quilons_sentrycode.Common.{
  ℕ, ◌≡◌, ◌↔◌, ◌⊎◌, inl, inr, ◌≢◌, Bool, true, false, not, ◌&&◌, ◌||◌, String, List, [], ◌∷◌,
  Option, some, arith, Bool-cases, ◌==◌, option_beq, is_some, or_else, filter, any, any_sound,
  any_complete, is_empty, filter-nil, includes, Any, Any-map,
}
use quilons_sentrycode.Core.Enums.{
  Severity, Decision, ScannerExecutionStatus, ScannerFailureMode, severity_eq, status_eq, mode_eq,
  decision_eq, status_beq_iff, mode_beq_iff,
}
use quilons_sentrycode.Core.Findings.{ScannerResult, Waiver}
use quilons_sentrycode.Core.PolicyTypes.{EffectivePolicy, PolicyContext, AppliedFinding}
use quilons_sentrycode.Core.Platform.{Platform}
use quilons_sentrycode.Core.Settings.{SentryCodeConfig}
use quilons_sentrycode.Policy.Evaluate.{
  status_of, is_failed, config_only, missing_scanners, failure_mode, Forced, force, force_all,
  initial_forced, violates, decide, evaluate_policy,
}
use quilons_sentrycode.Policy.Evaluate.Required.{NotRun, missing_scanners-empty_iff}

-- The scanner failed, and the policy treats its failure so.
abbrev pub FailsAs : ScannerFailureMode → EffectivePolicy → ScannerResult → Type 0
FailsAs mode policy r =
    (status_of r ≡ ScannerExecutionStatus.failed) × (failure_mode policy r.scanner ≡ mode)

-- A finding that no waiver covers, of one of the severities.
abbrev pub Violates : List Severity → AppliedFinding → Type 0
Violates severities a = (a.waived ≡ false) × (includes severities a.finding.severity ≡ true)

abbrev fails_as : ScannerFailureMode → EffectivePolicy → ScannerResult → Bool
fails_as mode policy r = is_failed r && (failure_mode policy r.scanner == mode)

fails_as_iff :
    (mode : ScannerFailureMode) (policy : EffectivePolicy) (r : ScannerResult)
    → (fails_as mode policy r ≡ true) ↔ FailsAs mode policy r
fails_as_iff mode policy r = (
  λ h. ((status_beq_iff _ _).0 (ground arith), (mode_beq_iff _ _).0 (ground arith)),
  λ h. ground (arith, (status_beq_iff _ _).1 h.0, (mode_beq_iff _ _).1 h.1),
)

abbrev forces_fail : Forced → Bool
forces_fail s = option_beq s.decision (some Decision.fail)

-- What may be forced is a failure or a warning.
abbrev NotPass : Forced → Type 0
NotPass s = s.decision ≢ some Decision.pass

force_step :
    (policy : EffectivePolicy) (r : ScannerResult) (s : Forced)
    → NotPass s
    → NotPass (force policy r s)
      × (forces_fail (force policy r s)
          ≡ (forces_fail s || fails_as ScannerFailureMode.fail policy r))
      × (is_some (force policy r s).decision ≡ (
          is_some s.decision
          || (fails_as ScannerFailureMode.fail policy r
              || fails_as ScannerFailureMode.warn policy r)))
unfolding force
force_step policy r s h = (ground arith, ground arith, ground arith)

force_all_lem :
    (policy : EffectivePolicy) (rs : List ScannerResult) (s : Forced)
    → NotPass s
    → NotPass (force_all policy rs s)
      × (forces_fail (force_all policy rs s)
          ≡ (forces_fail s || any (fails_as ScannerFailureMode.fail policy) rs))
      × (is_some (force_all policy rs s).decision ≡ (
          is_some s.decision
          || (any (fails_as ScannerFailureMode.fail policy) rs
              || any (fails_as ScannerFailureMode.warn policy) rs)))
unfolding force_all
force_all_lem policy [] s h = (h, ground arith, ground arith)
force_all_lem policy (r ∷ rs) s h =
    let (here, failing, forcing) = force_step policy r s h in
    let (later, failing', forcing') = force_all_lem policy rs (force policy r s) here in
    (later, ground arith, ground arith)

decide_fail :
    (blocking warnings : List AppliedFinding) (forced : Option Decision)
    → (decide blocking warnings forced ≡ Decision.fail)
      ↔ ((option_beq forced (some Decision.fail) ≡ true) ⊎ (is_empty blocking ≡ false))
unfolding decide
decide_fail blocking warnings forced = (λ h. ground arith, λ h. ground arith)

decide_pass :
    (blocking warnings : List AppliedFinding) (forced : Option Decision)
    → forced ≢ some Decision.pass
    → (decide blocking warnings forced ≡ Decision.pass)
      ↔ ((is_some forced ≡ false) × (is_empty blocking ≡ true) × (is_empty warnings ≡ true))
unfolding decide
decide_pass blocking warnings forced n =
    (λ h. (ground arith, ground arith, ground arith), λ h. ground arith)

violates_iff :
    (severities : List Severity) (a : AppliedFinding)
    → (violates severities a ≡ true) ↔ Violates severities a
violates_iff severities a = (λ h. (ground arith, ground arith), λ h. ground arith)

-- A filter keeps something exactly when a member passes.
filter-some_iff {ℓ κ} :
    {A : Type ℓ} {P : A → Type κ} (p : A → Bool)
    → ((a : A) → (p a ≡ true) ↔ P a)
    → (xs : List A) → (is_empty (filter p xs) ≡ false) ↔ Any P xs
filter-some_iff p same xs = (
  λ h. Any-map _ _ (λ a. (same a).0) (any_sound p xs (ground (arith, filter-nil p xs))),
  λ h. ground (arith, filter-nil p xs, any_complete p xs (Any-map _ _ (λ a. (same a).1) h)),
)

any_iff {ℓ κ} :
    {A : Type ℓ} {P : A → Type κ} (p : A → Bool)
    → ((a : A) → (p a ≡ true) ↔ P a)
    → (xs : List A) → (any p xs ≡ true) ↔ Any P xs
any_iff p same xs = (
  λ h. Any-map _ _ (λ a. (same a).0) (any_sound p xs h),
  λ h. any_complete p xs (Any-map _ _ (λ a. (same a).1) h),
)

initial_forced_lem :
    (missing : List String)
    → NotPass (initial_forced missing)
      × (forces_fail (initial_forced missing) ≡ not (is_empty missing))
      × (is_some (initial_forced missing).decision ≡ not (is_empty missing))
unfolding initial_forced
initial_forced_lem missing = (ground arith, ground arith, ground arith)

not_of : (b : Bool) {A : Type 0} → ((b ≡ true) ↔ A) → b ≡ false → ¬ A
not_of b e h a = ground (arith, e.1 a)

false_of : (b : Bool) {A : Type 0} → ((b ≡ true) ↔ A) → ¬ A → b ≡ false
false_of b e n = elim (Bool-cases b) [ inl t ↦ absurd (n (e.0 t)) | inr f ↦ f ]

not_empty_iff : (b : Bool) {A : Type 0} → ((b ≡ false) ↔ A) → (not b ≡ true) ↔ A
not_empty_iff b e = (λ h. e.0 (ground arith), λ a. ground (arith, e.1 a))

module _ (host : Platform) (config : SentryCodeConfig) (results : List ScannerResult)
    (waivers : List Waiver) (now : ℕ) (effective : Option EffectivePolicy)
    (context : Option PolicyContext) where
  abbrev policy : EffectivePolicy
  policy = or_else effective (config_only config)

  abbrev start : Forced
  start = initial_forced (missing_scanners policy.required_scanners results)

  abbrev forced : Forced
  forced = force_all policy results start

  abbrev failing : Bool
  failing = any (fails_as ScannerFailureMode.fail policy) results

  abbrev warned : Bool
  warned = any (fails_as ScannerFailureMode.warn policy) results

  abbrev none_missing : Bool
  none_missing = is_empty (missing_scanners policy.required_scanners results)

  forced_lem :
      NotPass forced
      × (forces_fail forced ≡ (not none_missing || failing))
      × (is_some forced.decision ≡ (not none_missing || (failing || warned)))
  forced_lem =
      let (clear, first, any_first) =
        initial_forced_lem (missing_scanners policy.required_scanners results) in
      let (later, failing', forcing') = force_all_lem policy results start clear in
      (later, ground arith, ground arith)

  -- The decision is FAIL exactly when a required scanner did not run, a scanner failed under mode
  -- `fail`, or a finding that no waiver covers has a blocking severity.
  pub evaluate_policy-fail :
      let result = evaluate_policy host config results waivers now effective context in
      let p = or_else effective (config_only config) in
      (result.decision ≡ Decision.fail) ↔ (
        Any (NotRun results) p.required_scanners
        ⊎ (Any (FailsAs ScannerFailureMode.fail p) results
            ⊎ Any (Violates p.fail_on) result.findings))
  unfolding evaluate_policy
  evaluate_policy-fail = (
    λ h. elim ((decide_fail _ _ forced.decision).0 h) [
      | inl f ↦ elim (Bool-cases none_missing) [
        | inl complete ↦ inr (
            inl (
              (any_iff _ (fails_as_iff ScannerFailureMode.fail policy) results).0
                (ground (arith, forced_lem.1))))
        | inr gone ↦ inl ((missing_scanners-empty_iff policy.required_scanners results).0 gone)
      ]
      | inr b ↦ inr (inr ((filter-some_iff _ (violates_iff policy.fail_on) _).0 b))
    ],
    λ h. (decide_fail _ _ forced.decision).1 (elim h [
      | inl gone ↦ inl (
          ground (
            arith,
            forced_lem.1,
            (missing_scanners-empty_iff policy.required_scanners results).1 gone,
          ))
      | inr (inl f) ↦ inl (
          ground (
            arith,
            forced_lem.1,
            (any_iff _ (fails_as_iff ScannerFailureMode.fail policy) results).1 f,
          ))
      | inr (inr b) ↦ inr ((filter-some_iff _ (violates_iff policy.fail_on) _).1 b)
    ]),
  )

  -- The decision is PASS exactly when every required scanner ran, no scanner failed under mode `fail` or
  -- `warn`, and no finding that no waiver covers has a blocking or a warning severity.
  pub evaluate_policy-pass :
      let result = evaluate_policy host config results waivers now effective context in
      let p = or_else effective (config_only config) in
      (result.decision ≡ Decision.pass) ↔ (
        (¬ Any (NotRun results) p.required_scanners)
        × (¬ Any (FailsAs ScannerFailureMode.fail p) results)
        × (¬ Any (FailsAs ScannerFailureMode.warn p) results)
        × (¬ Any (Violates p.fail_on) result.findings)
        × (¬ Any (Violates p.warn_on) result.findings))
  unfolding evaluate_policy
  evaluate_policy-pass =
      let missing = missing_scanners-empty_iff policy.required_scanners results in
      let fails = any_iff _ (fails_as_iff ScannerFailureMode.fail policy) results in
      let warns = any_iff _ (fails_as_iff ScannerFailureMode.warn policy) results in
      let blocks = filter-some_iff _ (violates_iff policy.fail_on) _ in
      let alerts = filter-some_iff _ (violates_iff policy.warn_on) _ in
      (
        λ h.
            let (calm, unblocked, quiet) = (decide_pass _ _ forced.decision forced_lem.0).0 h in
            (
              λ a. absurd (ground (arith, forced_lem.2, missing.1 a)),
              λ a. absurd (ground (arith, forced_lem.2, fails.1 a)),
              λ a. absurd (ground (arith, forced_lem.2, warns.1 a)),
              λ a. absurd (ground (arith, blocks.1 a)),
              λ a. absurd (ground (arith, alerts.1 a)),
            ),
        λ (gone, f, w, b, v). (decide_pass _ _ forced.decision forced_lem.0).1 (
          ground (
            arith,
            forced_lem.2,
            false_of _ (not_empty_iff none_missing missing) gone,
            false_of failing fails f,
            false_of warned warns w,
          ),
          full _ blocks b,
          full _ alerts v,
        ),
      )
    where
      full : (b : Bool) {A : Type 0} → ((b ≡ false) ↔ A) → ¬ A → b ≡ true
      full b e n = elim (Bool-cases b) [ inl t ↦ t | inr f ↦ absurd (n (e.0 f)) ]
