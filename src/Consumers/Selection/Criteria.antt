-- ===== src/Consumers/Selection/Criteria.antt =====
-- What makes a finding selected.
use quilons_sentrycode.Common.{
  ◌≡◌, refl, ◌↔◌, subst, sym, ◌⊎◌, inl, inr, Bool, true, false, ◌||◌, trim, here, there, All,
  String, List, [], ◌∷◌, any, any_sound, any_complete, is_empty, includes, includes_sound,
  includes_complete, Any, Any-map, string_eq, arith, filter-Any, filter-member,
}
use quilons_sentrycode.Core.Enums.{severity_eq}
use quilons_sentrycode.Core.Config.{ConsumerConfig}
use quilons_sentrycode.Core.PolicyTypes.{AppliedFinding, ScanReport}
use quilons_sentrycode.Core.Findings.{EvidenceRecord}
use quilons_sentrycode.Consumers.Selection.{
  folded, normalized, linked_evidence_types, is_consumer_finding_selected, select_consumer_findings,
}
use quilons_sentrycode.Consumers.Selection.Types.{
  Counts, StandsFor, Names, normalized-none, none-normalized, normalized-Any, Any-normalized,
  linked_sound, linked_complete,
}

is_empty_iff {ℓ} : {A : Type ℓ} (xs : List A) → (is_empty xs ≡ true) ↔ (xs ≡ [])
is_empty_iff [] = (λ h. refl, λ h. refl)
is_empty_iff (x ∷ xs) = (λ h. cc, λ h. cc)

or_sound : (a b : Bool) → (a || b) ≡ true → (a ≡ true) ⊎ (b ≡ true)
or_sound true b h = inl refl
or_sound false b h = inr h

or_complete : (a b : Bool) → (a ≡ true) ⊎ (b ≡ true) → (a || b) ≡ true
or_complete a b (inl h) = ground arith
or_complete true b (inr h) = refl
or_complete false b (inr h) = h

module _ (lower : String → String) where
  -- Each criterion of the profile is left open or met: one of its severities, one of its finding
  -- types, and one of its evidence types by an evidence record that names the finding.
  pub record Meets (report : ScanReport) (a : AppliedFinding) (config : ConsumerConfig)
      : Type 0 where
    pub severity :
        (config.scan_profile.severities ≡ [])
        ⊎ Any (λ s. s ≡ a.finding.severity) config.scan_profile.severities
    pub finding_type :
        All (λ t. ¬ Counts lower t) config.scan_profile.finding_types
        ⊎ Any (λ t. StandsFor lower t a.finding.type) config.scan_profile.finding_types
    pub evidence_type :
        All (λ t. ¬ Counts lower t) config.scan_profile.evidence_types
        ⊎ Any
            (λ t.
              Any
                (λ e. Any (λ id. id ≡ a.finding.id) e.finding_ids × StandsFor lower t e.type)
                report.evidence)
            config.scan_profile.evidence_types

  selected-Meets :
      (report : ScanReport) (a : AppliedFinding) (config : ConsumerConfig)
      → is_consumer_finding_selected lower report a config ≡ true
      → Meets report a config
  unfolding is_consumer_finding_selected
  selected-Meets report a config h =
      let p = config.scan_profile in
      let types = normalized lower p.finding_types in
      let wanted = normalized lower p.evidence_types in
      record {
        severity = elim (or_sound (is_empty p.severities) _ (ground arith)) [
          | inl e ↦ inl ((is_empty_iff p.severities).0 e)
          | inr i ↦ inr (includes_sound p.severities a.finding.severity i)
        ];
        finding_type = elim (or_sound (is_empty types) _ (ground arith)) [
          | inl e ↦ inl (normalized-none lower p.finding_types e)
          | inr i ↦ inr (
              normalized-Any lower (λ t. t ≡ lower (trim a.finding.type)) p.finding_types
                (includes_sound types (folded lower a.finding.type) i))
        ];
        evidence_type = elim (or_sound (is_empty wanted) _ (ground arith)) [
          | inl e ↦ inl (normalized-none lower p.evidence_types e)
          | inr i ↦ inr (
              Any-map _ _ (λ t k. Any-map _ _ (λ e n. (n.0, (k.0, n.1))) k.1)
                (normalized-Any lower (λ t. Any (Names lower a t) report.evidence) p.evidence_types
                  (Any-map _ _ (λ t k. linked_sound lower report a t k)
                    (any_sound (includes (linked_evidence_types lower report a)) wanted i))))
        ];
      }

  Meets-selected :
      (report : ScanReport) (a : AppliedFinding) (config : ConsumerConfig)
      → Meets report a config
      → is_consumer_finding_selected lower report a config ≡ true
  unfolding is_consumer_finding_selected
  Meets-selected report a config m =
      let p = config.scan_profile in
      let types = normalized lower p.finding_types in
      let wanted = normalized lower p.evidence_types in
      let linked = linked_evidence_types lower report a in
      let one =
        or_complete (is_empty p.severities) (includes p.severities a.finding.severity)
          (elim m.severity [
            | inl e ↦ inl ((is_empty_iff p.severities).1 e)
            | inr i ↦ inr (includes_complete p.severities a.finding.severity i)
          ]) in
      let two =
        or_complete (is_empty types) (includes types (folded lower a.finding.type))
          (elim m.finding_type [
            | inl e ↦ inl (none-normalized lower p.finding_types e)
            | inr i ↦ inr (
                includes_complete types (folded lower a.finding.type)
                  (Any-normalized lower (λ t. t ≡ lower (trim a.finding.type)) p.finding_types i))
          ]) in
      let three =
        or_complete (is_empty wanted) (any (λ t. includes linked t) wanted) (elim m.evidence_type [
          | inl e ↦ inl (none-normalized lower p.evidence_types e)
          | inr i ↦ inr (
              any_complete (λ t. includes linked t) wanted
                (Any-map _ _ (λ t k. linked_complete lower report a t k)
                  (Any-normalized lower (λ t. Any (Names lower a t) report.evidence)
                    p.evidence_types
                    (Any-map _ _
                      (λ t k. (Any-counts t report.evidence k, Any-map _ _ (λ e n. (n.0, n.1.1)) k))
                      i))))
        ]) in
      ground (arith, one, two, three)
    where
      Any-counts :
          (t : String) (es : List EvidenceRecord)
          → Any (λ e. Any (λ id. id ≡ a.finding.id) e.finding_ids × StandsFor lower t e.type) es
          → Counts lower t
      Any-counts t [] h = elim h [ ]
      Any-counts t (e ∷ es) (here n) = n.1.0
      Any-counts t (e ∷ es) (there later) = Any-counts t es later

  -- A consumer is sent exactly the findings of the report that meet its profile: the severity, the type
  -- and the type of some evidence record that names the finding are each among those that the profile
  -- wants, where it wants any. Types are compared without the spaces around them and without case, and a
  -- blank one in the profile does not count.
  pub select_consumer_findings-Meets :
      (report : ScanReport) (config : ConsumerConfig) (a : AppliedFinding)
      → Any (λ b. b ≡ a) (select_consumer_findings lower report config)
        ↔ (Any (λ b. b ≡ a) report.policy.findings × Meets report a config)
  unfolding select_consumer_findings
  select_consumer_findings-Meets report config a =
      let test : AppliedFinding → Bool = λ b. is_consumer_finding_selected lower report b config in
      (
        λ h.
            let (member, passes) = filter-member test report.policy.findings a h in
            (member, selected-Meets report a config passes),
        λ h.
            filter-Any (λ b. b ≡ a) test
              (λ b same. subst (λ x. test x ≡ true) (sym same) (Meets-selected report a config h.1))
              report.policy.findings h.0,
      )
