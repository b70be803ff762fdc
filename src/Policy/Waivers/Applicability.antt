-- ===== src/Policy/Waivers/Applicability.antt =====
-- When a waiver covers a finding, stated without the code.
use quilons_sentrycode.Common.{
  ℕ, ◌+◌, ◌*◌, ◌≤◌, ◌<◌, ◌≡◌, refl, ◌↔◌, ◌⊎◌, inl, inr, true, false, String, Option, none, some,
  arith, Bool-cases, Option-cases, option_beq_iff, string_eq, is_truthy,
}
use quilons_sentrycode.Core.Platform.{Platform, not_after, exceeds_days, day_ms}
use quilons_sentrycode.Core.Findings.{Finding, Waiver}
use quilons_sentrycode.Core.PolicyTypes.{PolicyContext}
use quilons_sentrycode.Core.Settings.{WaiversConfig}
use quilons_sentrycode.Policy.Waivers.{
  is_set, admits, location_path, scope_matches, duration_validity, created_validity,
  waiver_validity, skip, reject, apply, verdict,
}

-- A restriction that is not set admits everything; one that is set admits its own value.
abbrev pub Admits : Option String → Option String → Type 0
Admits want have = (is_set want ≡ false) ⊎ (want ≡ have)

admits_iff : (want have : Option String) → (admits want have ≡ true) ↔ Admits want have
unfolding admits
admits_iff want have = (
  λ h. elim (Bool-cases (is_set want)) [
    | inl s ↦ inr ((option_beq_iff want have).0 (ground arith))
    | inr s ↦ inl s
  ],
  λ h. elim h [ inl s ↦ ground arith | inr e ↦ ground (arith, (option_beq_iff want have).1 e) ],
)

-- The waiver's scope takes the finding in.
pub record InScope (w : Waiver) (f : Finding) (c : PolicyContext) : Type 0 where
  pub fingerprint : Admits w.fingerprint (some f.fingerprint)
  pub rule : Admits w.rule_id (some f.rule_id)
  pub path : Admits w.path (location_path f.location)
  pub scanner : Admits w.scanner (some f.scanner)
  pub repository : Admits w.repository (some c.repository)
  pub service : Admits w.service c.service

scope_iff :
    (w : Waiver) (f : Finding) (c : PolicyContext) → (scope_matches w f c ≡ true) ↔ InScope w f c
unfolding scope_matches
scope_iff w f c = (
  λ h. record {
    fingerprint = (admits_iff _ _).0 (ground arith);
    rule = (admits_iff _ _).0 (ground arith);
    path = (admits_iff _ _).0 (ground arith);
    scanner = (admits_iff _ _).0 (ground arith);
    repository = (admits_iff _ _).0 (ground arith);
    service = (admits_iff _ _).0 (ground arith);
  },
  λ h. ground (
    arith,
    (admits_iff _ _).1 h.fingerprint,
    (admits_iff _ _).1 h.rule,
    (admits_iff _ _).1 h.path,
    (admits_iff _ _).1 h.scanner,
    (admits_iff _ _).1 h.repository,
    (admits_iff _ _).1 h.service,
  ),
)

module _ (host : Platform) (config : WaiversConfig) where
  -- Within the longest term, where both dates are valid.
  abbrev pub WithinTerm : Option ℕ → ℕ → Type 0
  WithinTerm none created = Unit {0}
  WithinTerm (some expires) created = expires ≤ created + config.max_duration_days * day_ms

  abbrev pub CreatedInTerm : Option String → Option ℕ → Type 0
  CreatedInTerm none expires = Unit {0}
  CreatedInTerm (some s) expires =
      (is_truthy s ≡ false)
      ⊎ ((created : ℕ) × (host.parse_date s ≡ some created) × WithinTerm expires created)

  -- Not past its end; a date that cannot be read is no end.
  abbrev pub Unexpired : Option ℕ → ℕ → Type 0
  Unexpired none now = Unit {0}
  Unexpired (some expires) now = now < expires

  -- The waiver satisfies the governance rules at a moment.
  pub record InForce (w : Waiver) (now : ℕ) : Type 0 where
    pub unexpired : Unexpired (host.parse_date w.expires_at) now
    pub approved :
        (config.require_approval ≡ false)
        ⊎ ((is_set w.approver ≡ true) × (is_set w.approved_at ≡ true))
    pub ticketed : (config.require_ticket ≡ false) ⊎ (is_set w.ticket ≡ true)
    pub in_term : CreatedInTerm w.created_at (host.parse_date w.expires_at)

  Unexpired-iff : (t : Option ℕ) (now : ℕ) → (not_after t now ≡ false) ↔ Unexpired t now
  Unexpired-iff none now = (λ _. tt, λ _. refl)
  Unexpired-iff (some t) now = (λ h. ground arith, λ h. ground arith)

  within_iff :
      (t : Option ℕ) (created : ℕ)
      → (exceeds_days t created config.max_duration_days ≡ false) ↔ WithinTerm t created
  within_iff none created = (λ _. tt, λ _. refl)
  within_iff (some t) created = (λ h. ground arith, λ h. ground arith)

  duration_iff :
      (s : String) (t : Option ℕ)
      → (duration_validity host config s t ≡ none)
        ↔ ((created : ℕ) × (host.parse_date s ≡ some created) × WithinTerm t created)
  unfolding duration_validity
  duration_iff s t = elim (Option-cases (host.parse_date s)) [
    | inl e ↦ (λ h. absurd (ground arith), λ h. absurd (ground (arith, h.1)))
    | inr (created, e) ↦ (
      λ h. (created, e, (within_iff t created).0 (ground arith)),
      λ h. ground (arith, h.1, (within_iff t h.0).1 h.2),
    )
  ]

  created_iff :
      (o : Option String) (t : Option ℕ)
      → (created_validity host config o t ≡ none) ↔ CreatedInTerm o t
  created_iff none t = (λ _. tt, λ _. refl)
  created_iff (some s) t = elim (Bool-cases (is_truthy s)) [
    | inl set ↦ (
      λ h. inr ((duration_iff s t).0 (ground arith)),
      λ h. elim h [ inl unset ↦ ground arith | inr d ↦ ground (arith, (duration_iff s t).1 d) ],
    )
    | inr unset ↦ (λ h. inl unset, λ h. ground arith)
  ]

  -- The checks give no reason exactly for a waiver in force.
  validity_iff : (w : Waiver) (now : ℕ) → (waiver_validity host config w now ≡ none) ↔ InForce w now
  unfolding waiver_validity
  validity_iff w now = (
    λ h. record {
      unexpired = (Unexpired-iff _ now).0 (ground arith);
      approved = ground arith;
      ticketed = ground arith;
      in_term = (created_iff w.created_at _).0 (ground arith);
    },
    λ h. ground (
      arith,
      (Unexpired-iff _ now).1 h.unexpired,
      h.approved,
      h.ticketed,
      (created_iff w.created_at _).1 h.in_term,
    ),
  )

  -- The waiver covers the finding.
  abbrev pub Covers : Finding → PolicyContext → ℕ → Waiver → Type 0
  Covers f c now w = InScope w f c × InForce w now

  pub verdict_iff :
      (f : Finding) (c : PolicyContext) (now : ℕ) (w : Waiver)
      → (verdict host config f c now w ≡ apply) ↔ Covers f c now w
  unfolding verdict
  verdict_iff f c now w = (
    λ h. ((scope_iff w f c).0 (ground arith), (validity_iff w now).0 (ground arith)),
    λ h. ground (arith, (scope_iff w f c).1 h.0, (validity_iff w now).1 h.1),
  )

  pub rejected-InScope :
      (f : Finding) (c : PolicyContext) (now : ℕ) (w : Waiver) (reason : String)
      → verdict host config f c now w ≡ reject reason
      → InScope w f c × (waiver_validity host config w now ≡ some reason)
  unfolding verdict
  rejected-InScope f c now w reason h = ((scope_iff w f c).0 (ground arith), ground arith)

  pub skipped-InScope :
      (f : Finding) (c : PolicyContext) (now : ℕ) (w : Waiver)
      → verdict host config f c now w ≡ skip
      → ¬ InScope w f c
  unfolding verdict
  skipped-InScope f c now w h within = elim (Option-cases (waiver_validity host config w now)) [
    | inl valid ↦ let k = (rw ((scope_iff w f c).1 within, valid) at h) in cc
    | inr (reason, invalid) ↦ let k = (rw ((scope_iff w f c).1 within, invalid) at h) in cc
  ]
