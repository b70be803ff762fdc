-- ===== src/Compliance/Scope/Identity.antt =====
-- src/compliance/scope.ts: what a validated identity is, and when two of them share a key.
use Prim.Native.Char.{nul}
use Prim.Native.String.append
use quilons_sentrycode.Common.{
  ℕ, ◌≤◌, ◌≡◌, refl, ap, sym, subst, Bool, true, false, not, String, [], ◌∷◌, arith, ltb, nat_beq,
  trim, trim_idem, is_truthy, lacks, split, split-append, split-lacks, ◌<>◌, ◌∙◌, take_chars,
}
use quilons_sentrycode.Common.Result.{ok, throw_if-eq-ok, >>=-eq-ok, ok-injective}
use quilons_sentrycode.Core.Platform.{Platform}
use quilons_sentrycode.Compliance.Scope.{
  ComplianceIdentity, clean, compliance_identity, utf16_length, scope_text, scope_key,
}

-- A name that may stand in an identity: not empty, without white space around, not too long.
abbrev pub IsClean : String → Type 0
IsClean s = (trim s ≡ s) × (is_truthy s ≡ true) × (utf16_length s ≤ 200)

clean-IsClean : (value label : String) {s : String} → clean value label ≡ ok s → IsClean s
unfolding clean
clean-IsClean value label h =
    let filled = throw_if-eq-ok (not (is_truthy (trim value))) _ _ h in
    let fits = throw_if-eq-ok (ltb 200 (utf16_length (trim value))) _ _ filled.1 in
    subst IsClean (ok-injective fits.1)
      (trim_idem value, ground (arith, filled.0), ground (arith, fits.0))

-- A clean name is taken as it stands.
IsClean-clean : (s label : String) → IsClean s → clean s label ≡ ok s
unfolding clean
IsClean-clean s label h =
    let short : ltb 200 (utf16_length s) ≡ false = ground (arith, h.2) in
    rw h.0 (rw h.1 (rw short refl))

-- The tenant and the project of an accepted identity are not empty, have no white space around
-- them and at most 200 UTF-16 units, and validating them again gives the same identity.
pub compliance_identity-IsClean :
    (tenant project : String) (identity : ComplianceIdentity)
    → compliance_identity tenant project ≡ ok identity
    → IsClean identity.tenant
      × IsClean identity.project
      × (compliance_identity identity.tenant identity.project ≡ ok identity)
unfolding compliance_identity
compliance_identity-IsClean tenant project identity h =
    let t = >>=-eq-ok (clean tenant "tenant") _ h in
    let p = >>=-eq-ok (clean project "project") _ t.2 in
    let good_tenant = clean-IsClean tenant "tenant" t.1 in
    let good_project = clean-IsClean project "project" p.1 in
    subst
      (λ i. IsClean i.tenant × IsClean i.project × (compliance_identity i.tenant i.project ≡ ok i))
      (ok-injective p.2)
      (
        good_tenant,
        good_project,
        rw (IsClean-clean t.0 "tenant" good_tenant)
            (rw (IsClean-clean p.0 "project" good_project) refl),
      )

abbrev pub is_nul : ℕ → Bool
is_nul c = nat_beq c 0

after_mark : (s : String) → ("\0" <> s) ≡ String.◌∷◌ nul s
after_mark s = append.cons nul "" s ∙ ap (String.◌∷◌ nul) (append.nil s)

scope_text-parts :
    (i : ComplianceIdentity)
    → lacks is_nul i.tenant ≡ true
    → lacks is_nul i.project ≡ true
    → split is_nul (scope_text i) ≡ i.tenant ∷ i.project ∷ []
scope_text-parts i h k =
    ap (λ s. split is_nul (i.tenant <> s)) (after_mark i.project)
    ∙ split-append is_nul nul i.tenant i.project refl h
    ∙ ap (λ ps. i.tenant ∷ ps) (split-lacks is_nul i.project k)

-- Two identities without a NUL character whose keys agree are the same, where the digests of their
-- two texts do not collide.
pub scope_key-separates :
    (host : Platform) (i j : ComplianceIdentity)
    → lacks is_nul i.tenant ≡ true
    → lacks is_nul i.project ≡ true
    → lacks is_nul j.tenant ≡ true
    → lacks is_nul j.project ≡ true
    → (take_chars 32 (host.sha256 (scope_text i)) ≡ take_chars 32 (host.sha256 (scope_text j))
        → scope_text i ≡ scope_text j)
    → scope_key host i ≡ scope_key host j
    → i ≡ j
unfolding scope_key
scope_key-separates host i j it ip jt jp no_collision same =
    let parts =
      sym (scope_text-parts i it ip)
      ∙ ap (split is_nul) (no_collision same)
      ∙ scope_text-parts j jt jp in
    cc
