-- ===== src/Consumers/Selection/Types.antt =====
-- src/consumers/selection.ts: which types count in a profile and in the evidence of a finding.
use quilons_sentrycode.Common.{
  ◌≡◌, refl, sym, ◌⊎◌, inl, inr, true, ◌==◌, eq_iff, Bool-cases, is_truthy, trim, map, filter, here,
  there, All, Any-image, String, List, [], ◌∷◌, is_empty, includes, includes_sound,
  includes_complete, Any, Any-map, string_eq, arith,
}
use quilons_sentrycode.Core.Enums.{severity_eq}
use quilons_sentrycode.Core.PolicyTypes.{AppliedFinding, ScanReport}
use quilons_sentrycode.Core.Findings.{EvidenceRecord}
use quilons_sentrycode.Consumers.Selection.{folded, normalized, linked_evidence_types}

first_or_later {ℓ κ} :
    {A : Type ℓ} {P : A → Type κ} {x : A} {xs : List A} → Any P (x ∷ xs) → P x ⊎ Any P xs
first_or_later (here h) = inl h
first_or_later (there t) = inr t

module _ (lower : String → String) where
  -- A type that counts in a profile, and one that it stands for: compared without the spaces around
  -- them and without case. A blank type does not count.
  abbrev pub Counts : String → Type 0
  Counts t = is_truthy (lower (trim t)) ≡ true

  abbrev pub StandsFor : (wanted type : String) → Type 0
  StandsFor wanted type = Counts wanted × (lower (trim wanted) ≡ lower (trim type))

  -- The types that the profile keeps.
  pub normalized-none :
      (ts : List String) → is_empty (normalized lower ts) ≡ true → All (λ t. ¬ Counts t) ts
  unfolding normalized
  normalized-none [] h = tt
  normalized-none (t ∷ ts) h = elim (Bool-cases (is_truthy (lower (trim t)))) [
    | inl counts ↦ absurd (let k = (rw counts at h) in cc)
    | inr blank ↦ (λ c. cc (blank, c), normalized-none ts (let k = (rw blank at h) in k))
  ]

  pub none-normalized :
      (ts : List String) → All (λ t. ¬ Counts t) ts → is_empty (normalized lower ts) ≡ true
  unfolding normalized
  none-normalized [] h = refl
  none-normalized (t ∷ ts) h = elim (Bool-cases (is_truthy (lower (trim t)))) [
    | inl counts ↦ absurd (h.0 counts)
    | inr blank ↦ rw blank (none-normalized ts h.1)
  ]

  pub normalized-Any :
      (P : String → Type 0) (ts : List String)
      → Any P (normalized lower ts)
      → Any (λ t. Counts t × P (lower (trim t))) ts
  unfolding normalized
  normalized-Any P [] h = elim h [ ]
  normalized-Any P (t ∷ ts) h = elim (Bool-cases (is_truthy (lower (trim t)))) [
    | inl counts ↦ elim (first_or_later (let k = (rw counts at h) in k)) [
      | inl first ↦ here (counts, first)
      | inr later ↦ there (normalized-Any P ts later)
    ]
    | inr blank ↦ there (normalized-Any P ts (let k = (rw blank at h) in k))
  ]

  pub Any-normalized :
      (P : String → Type 0) (ts : List String)
      → Any (λ t. Counts t × P (lower (trim t))) ts
      → Any P (normalized lower ts)
  unfolding normalized
  Any-normalized P [] h = elim h [ ]
  Any-normalized P (t ∷ ts) (here h) = rw h.0 (here h.1)
  Any-normalized P (t ∷ ts) (there later) = elim (Bool-cases (is_truthy (lower (trim t)))) [
    | inl counts ↦ rw counts (there (Any-normalized P ts later))
    | inr blank ↦ rw blank (Any-normalized P ts later)
  ]

  -- The types of the evidence that names the finding.
  abbrev pub Names : AppliedFinding → (type : String) → EvidenceRecord → Type 0
  Names a type e = Any (λ id. id ≡ a.finding.id) e.finding_ids × (type ≡ lower (trim e.type))

  pub linked_sound :
      (report : ScanReport) (a : AppliedFinding) (type : String)
      → includes (linked_evidence_types lower report a) type ≡ true
      → Any (Names a type) report.evidence
  unfolding linked_evidence_types
  linked_sound report a type h = from report.evidence h
    where
      from :
          (es : List EvidenceRecord)
          → includes
              (map
                (λ e. folded lower e.type)
                (filter (λ e. includes e.finding_ids a.finding.id) es))
              type
            ≡ true
          → Any (Names a type) es
      from [] h = cc
      from (e ∷ es) h = elim (Bool-cases (includes e.finding_ids a.finding.id)) [
        | inr other ↦ there (from es (let k = (rw other at h) in k))
        | inl named ↦
            let k = (rw named at h) in
            elim (Bool-cases (folded lower e.type == type)) [
              | inl same ↦
                  here
                    (includes_sound e.finding_ids a.finding.id named, sym ((eq_iff _ type).0 same))
              | inr differs ↦ there (from es (ground arith))
            ]
      ]

  pub linked_complete :
      (report : ScanReport) (a : AppliedFinding) (type : String)
      → Any (Names a type) report.evidence
      → includes (linked_evidence_types lower report a) type ≡ true
  unfolding linked_evidence_types
  linked_complete report a type h = includes_complete (linked_evidence_types lower report a) type (
      Any-image (λ t. t ≡ type) (λ e. folded lower e.type) _
        (Any-map (λ e. Names a type e × (includes e.finding_ids a.finding.id ≡ true)) _
          (λ e k. sym k.0.1) (from report.evidence h)))
    where
      from :
          (es : List EvidenceRecord)
          → Any (Names a type) es
          → Any
              (λ e. Names a type e × (includes e.finding_ids a.finding.id ≡ true))
              (filter (λ e. includes e.finding_ids a.finding.id) es)
      from [] h = elim h [ ]
      from (e ∷ es) (here n) =
          let named = includes_complete e.finding_ids a.finding.id n.0 in rw named (here (n, named))
      from (e ∷ es) (there later) = elim (Bool-cases (includes e.finding_ids a.finding.id)) [
        | inl named ↦ rw named (there (from es later))
        | inr other ↦ rw other (from es later)
      ]
