-- ===== src/Policy/Evaluate/Findings.antt =====
-- Which findings a result lists, and which of them are waived.
use quilons_sentrycode.Common.{
  ℕ, ◌≡◌, refl, ap₂, ◌⊎◌, inl, inr, true, false, List, [], ◌∷◌, ◌++◌, map, Option, none, some,
  or_else, All, Any, here, there,
}
use quilons_sentrycode.Core.Findings.{Finding, ScannerResult, Waiver}
use quilons_sentrycode.Core.PolicyTypes.{
  EffectivePolicy, PolicyContext, PolicyAuditRecord, AppliedFinding,
}
use quilons_sentrycode.Core.Platform.{Platform}
use quilons_sentrycode.Core.Settings.{SentryCodeConfig}
use quilons_sentrycode.Policy.Waivers.Applicability.{Covers}
use quilons_sentrycode.Policy.Waivers.Search.{FirstCovering, find_applicable_waiver-FirstCovering}
use quilons_sentrycode.Policy.Evaluate.{
  unknown_context, all_findings, applied_finding, apply_waivers, evaluate_policy,
}

module _ (host : Platform) (config : SentryCodeConfig) (waivers : List Waiver) (now : ℕ)
    (context : PolicyContext) where
  -- The waiver covers the finding, and its id is the one recorded.
  abbrev pub CoveredBy : AppliedFinding → Waiver → Type 0
  CoveredBy a w = Covers host config.waivers a.finding context now w × (a.waiver_id ≡ some w.id)

  -- Waived by a waiver in force that covers the finding, or covered by none.
  abbrev pub RightlyApplied : AppliedFinding → Type 0
  RightlyApplied a =
      ((a.waived ≡ true) × Any (CoveredBy a) waivers)
      ⊎ ((a.waived ≡ false)
          × (a.waiver_id ≡ none)
          × All (λ w. ¬ Covers host config.waivers a.finding context now w) waivers)

  Any-append :
      (P : Waiver → Type 0) (before : List Waiver) (w : Waiver) (later ws : List Waiver)
      → ws ≡ before ++ w ∷ later
      → P w
      → Any P ws
  Any-append P before w later ws e h = rw e (at before)
    where
      at : (vs : List Waiver) → Any P (vs ++ w ∷ later)
      at = elim [ [] ↦ here h | v ∷ (vs → ih) ↦ there ih ]

  applied_finding-RightlyApplied :
      (f : Finding) (o : Option Waiver)
      → FirstCovering host config.waivers f context now waivers o
      → RightlyApplied (applied_finding f o)
  applied_finding-RightlyApplied f none missed = inr (refl, refl, missed)
  applied_finding-RightlyApplied f (some w) (before, later, e, missed, covers) =
      inl (refl, Any-append _ before w later waivers e (covers, refl))

  apply_waivers-RightlyApplied :
      (fs : List Finding) (audit : List PolicyAuditRecord)
      → All RightlyApplied (apply_waivers host config waivers now context fs audit).0
  unfolding apply_waivers
  apply_waivers-RightlyApplied [] audit = tt
  apply_waivers-RightlyApplied (f ∷ fs) audit = (
    applied_finding-RightlyApplied f _
        (find_applicable_waiver-FirstCovering host config.waivers f context now waivers audit),
    apply_waivers-RightlyApplied fs _,
  )

  applied_finding-finding : (f : Finding) (o : Option Waiver) → (applied_finding f o).finding ≡ f
  applied_finding-finding f none = refl
  applied_finding-finding f (some w) = refl

  pub apply_waivers-findings :
      (fs : List Finding) (audit : List PolicyAuditRecord)
      → map (λ a. a.finding) (apply_waivers host config waivers now context fs audit).0 ≡ fs
  unfolding apply_waivers
  apply_waivers-findings [] audit = refl
  apply_waivers-findings (f ∷ fs) audit =
      ap₂ ◌∷◌ (applied_finding-finding f _) (apply_waivers-findings fs _)

module _ (host : Platform) (config : SentryCodeConfig) (results : List ScannerResult)
    (waivers : List Waiver) (now : ℕ) (policy : Option EffectivePolicy)
    (context : Option PolicyContext) where
  -- The result lists every finding of the scanners once, in order; a finding is marked waived
  -- exactly when some waiver in force covers it, and then names one that does.
  pub evaluate_policy-RightlyApplied :
      let result = evaluate_policy host config results waivers now policy context in
      (map (λ (a : AppliedFinding). a.finding) result.findings ≡ all_findings results)
      × All
          (RightlyApplied host config waivers now (or_else context unknown_context))
          result.findings
  unfolding evaluate_policy
  evaluate_policy-RightlyApplied = (
    apply_waivers-findings host config waivers now _ (all_findings results) _,
    apply_waivers-RightlyApplied host config waivers now _ (all_findings results) _,
  )
