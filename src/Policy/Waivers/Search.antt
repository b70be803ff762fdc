-- ===== src/Policy/Waivers/Search.antt =====
-- Which waiver the search takes, and what it adds to the audit trail.
use mathlib.Core.List.{append_assoc, append-nil}
use quilons_sentrycode.Common.{
  ℕ, ◌≡◌, refl, ap, sym, ◌∙◌, ◌⊎◌, inl, inr, String, List, [], ◌∷◌, ◌++◌, Option, none, some, All,
  Any, here, there, All-map,
}
use quilons_sentrycode.Core.Platform.{Platform}
use quilons_sentrycode.Core.Findings.{Finding, Waiver}
use quilons_sentrycode.Core.PolicyTypes.{PolicyContext, PolicyAuditRecord}
use quilons_sentrycode.Core.Settings.{WaiversConfig}
use quilons_sentrycode.Policy.Waivers.{
  waiver_validity, rejected, applied, Verdict, skip, reject, apply, verdict, find_applicable_waiver,
}
use quilons_sentrycode.Policy.Waivers.Applicability.{
  InScope, InForce, Covers, verdict_iff, rejected-InScope, skipped-InScope,
}

verdict_cases : (v : Verdict) → (v ≡ skip) ⊎ (((r : String) × (v ≡ reject r)) ⊎ (v ≡ apply))
verdict_cases skip = inl refl
verdict_cases (reject r) = inr (inl (r, refl))
verdict_cases apply = inr (inr refl)

module _ (host : Platform) (config : WaiversConfig) (f : Finding) (c : PolicyContext)
    (now : ℕ) where
  -- What a search may answer over a list of waivers: none if none covers the finding, and else
  -- the first that does.
  abbrev pub FirstCovering : List Waiver → Option Waiver → Type 0
  FirstCovering ws none = All (λ w. ¬ Covers host config f c now w) ws
  FirstCovering ws (some w) =
      (before : List Waiver) × (later : List Waiver) × (ws ≡ before ++ w ∷ later)
      × All (λ v. ¬ Covers host config f c now v) before
      × Covers host config f c now w

  FirstCovering-cons :
      (w : Waiver) (ws : List Waiver) (o : Option Waiver)
      → ¬ Covers host config f c now w
      → FirstCovering ws o
      → FirstCovering (w ∷ ws) o
  FirstCovering-cons w ws none h k = (h, k)
  FirstCovering-cons w ws (some v) h (before, later, e, missed, covers) =
      (w ∷ before, later, ap (◌∷◌ w) e, (h, missed), covers)

  -- The search takes the first waiver that covers the finding, and none only if none does.
  pub find_applicable_waiver-FirstCovering :
      (ws : List Waiver) (audit : List PolicyAuditRecord)
      → FirstCovering ws (find_applicable_waiver host config f c now ws audit).0
  unfolding find_applicable_waiver
  find_applicable_waiver-FirstCovering [] audit = tt
  find_applicable_waiver-FirstCovering (w ∷ ws) audit =
      elim (verdict_cases (verdict host config f c now w)) [
        | inl e ↦
            rw (e, find_applicable_waiver)
              (FirstCovering-cons w ws _ (λ h. cc (e, (verdict_iff host config f c now w).1 h))
                (find_applicable_waiver-FirstCovering ws audit))
        | inr (inl (r, e)) ↦
            rw (e, find_applicable_waiver)
              (FirstCovering-cons w ws _ (λ h. cc (e, (verdict_iff host config f c now w).1 h))
                (find_applicable_waiver-FirstCovering ws _))
        | inr (inr e) ↦
            rw (e, find_applicable_waiver)
              ([], ws, refl, tt, (verdict_iff host config f c now w).0 e)
      ]

  -- An entry that the search may add to the audit trail.
  abbrev pub Explains : List Waiver → PolicyAuditRecord → Type 0
  Explains ws r =
      Any
        (λ w.
          InScope w f c
          × (((r ≡ applied host config now w f) × InForce host config w now)
              ⊎ ((reason : String) × (waiver_validity host config w now ≡ some reason)
                  × (r ≡ rejected host config now w f reason))))
        ws

  -- The trail of a search over the waivers: nothing for one whose scope leaves the finding out, an
  -- entry for one that is not valid, and the last entry for the one that covers the finding.
  abbrev pub IsTrail : List Waiver → List PolicyAuditRecord → Type 0
  IsTrail [] added = added ≡ []
  IsTrail (w ∷ ws) added =
      ((¬ InScope w f c) × IsTrail ws added)
      ⊎ (((reason : String) × (rest : List PolicyAuditRecord) × InScope w f c
            × (waiver_validity host config w now ≡ some reason)
            × (added ≡ rejected host config now w f reason ∷ rest)
            × IsTrail ws rest)
          ⊎ (Covers host config f c now w × (added ≡ applied host config now w f ∷ [])))

  -- The search only adds to the audit trail, and each entry that it adds is about a waiver whose
  -- scope takes the finding in: it is in force and applied, or rejected for the stated reason. What it
  -- adds is one entry for each such waiver that is not valid, up to the first that covers the finding,
  -- and one for that waiver.
  pub find_applicable_waiver-Explains :
      (ws : List Waiver) (audit : List PolicyAuditRecord)
      → (added : List PolicyAuditRecord) × ((find_applicable_waiver host config f c now ws audit).1
          ≡ audit ++ added)
        × All (Explains ws) added
        × IsTrail ws added
  unfolding find_applicable_waiver
  find_applicable_waiver-Explains [] audit = ([], sym (append-nil audit), tt, refl)
  find_applicable_waiver-Explains (w ∷ ws) audit =
      elim (verdict_cases (verdict host config f c now w)) [
        | inl e ↦
            rw (e, find_applicable_waiver)
              (let (added, eq, ok, trail) = find_applicable_waiver-Explains ws audit in
                (
                  added,
                  eq,
                  All-map _ _ (λ r h. there h) added ok,
                  inl (skipped-InScope host config f c now w e, trail),
                ))
        | inr (inl (r, e)) ↦
            rw (e, find_applicable_waiver)
              (let entry = rejected host config now w f r in
                let (added, eq, ok, trail) =
                  find_applicable_waiver-Explains ws (audit ++ entry ∷ []) in
                let (within, invalid) = rejected-InScope host config f c now w r e in
                (
                  entry ∷ added,
                  eq ∙ append_assoc audit (entry ∷ []) added,
                  (here (within, inr (r, invalid, refl)), All-map _ _ (λ r h. there h) added ok),
                  inr (inl (r, added, within, invalid, refl, trail)),
                ))
        | inr (inr e) ↦
            rw (e, find_applicable_waiver)
              (let covers = (verdict_iff host config f c now w).0 e in
                (
                  applied host config now w f ∷ [],
                  refl,
                  (here (covers.0, inl (refl, covers.1)), tt),
                  inr (inr (covers, refl)),
                ))
      ]
