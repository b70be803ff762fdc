-- ===== src/Policy/Resolve/Locks.antt =====
-- What becomes of a locked field in later documents.
use quilons_sentrycode.Common.{
  ◌≡◌, refl, sym, ap, subst, inl, inr, ◌∙◌, Bool, true, false, ◌||◌, String, List, [], ◌∷◌, ◌++◌,
  Option, none, some, arith, Bool-cases, Eq, ◌==◌, string_eq, includes, includes-append, eq_iff,
}
use quilons_sentrycode.Common.Result.{Result, ok, >>=-eq-ok, throw_if-eq-ok}
use quilons_sentrycode.Core.Enums.{
  PolicyField, severity_eq, mode_eq, field_eq, mode_beq_iff, field_beq_iff,
}
use quilons_sentrycode.Core.PolicyTypes.{PolicyDocument, PolicyEnforcement, EffectivePolicy}
use quilons_sentrycode.Policy.Resolve.{
  same_array, same_modes, Modes, merge_modes, changes, changes_locked_field, differs, replaced,
  merged, check_locks, enforce, push_missing, or_empty, apply_document, apply_documents,
}

module _ {ℓ} {A : Type ℓ} ⦃e : Eq A⦄ where
  same_array-eq : (xs ys : List A) → same_array xs ys ≡ true → xs ≡ ys
  unfolding same_array
  same_array-eq [] [] h = refl
  same_array-eq (x ∷ xs) (y ∷ ys) h =
      let head : x ≡ y = (e.beq_iff x y).0 (ground arith) in
      let rest : xs ≡ ys = same_array-eq xs ys (ground arith) in cc
  same_array-eq [] (y ∷ ys) h = absurd (cc)
  same_array-eq (x ∷ xs) [] h = absurd (cc)

  pub includes-push_missing :
      (list xs : List A) (a : A)
      → includes (push_missing list xs) a ≡ (includes list a || includes xs a)
  unfolding push_missing
  includes-push_missing list [] a = ground arith
  includes-push_missing list (x ∷ xs) a = elim (Bool-cases (includes list x)) [
    | inl old ↦ rw old (elim (Bool-cases (x == a)) [
      | inl same ↦
          let eq : x ≡ a = (e.beq_iff x a).0 same in
          ground (arith, includes-push_missing list xs a, ap (includes list) eq)
      | inr other ↦ ground (arith, includes-push_missing list xs a)
    ])
    | inr new ↦ rw new (
        ground
          (arith, includes-push_missing (list ++ x ∷ []) xs a, includes-append list (x ∷ []) a))
  ]

same_modes-eq : (xs ys : Modes) → same_modes xs ys ≡ true → xs ≡ ys
unfolding same_modes
same_modes-eq [] [] h = refl
same_modes-eq ((j, m) ∷ xs) ((k, n) ∷ ys) h =
    let key : j ≡ k = (eq_iff j k).0 (ground arith) in
    let mode : m ≡ n = (mode_beq_iff m n).0 (ground arith) in
    let rest : xs ≡ ys = same_modes-eq xs ys (ground arith) in cc
same_modes-eq [] (y ∷ ys) h = absurd (cc)
same_modes-eq (x ∷ xs) [] h = absurd (cc)

-- The two policies agree on a field.
abbrev pub SameField : PolicyField → EffectivePolicy → EffectivePolicy → Type 0
SameField PolicyField.fail_on p q = q.fail_on ≡ p.fail_on
SameField PolicyField.warn_on p q = q.warn_on ≡ p.warn_on
SameField PolicyField.required_scanners p q = q.required_scanners ≡ p.required_scanners
SameField PolicyField.scanner_failure_modes p q = q.scanner_failure_modes ≡ p.scanner_failure_modes

SameField-refl : (f : PolicyField) (p : EffectivePolicy) → SameField f p p
SameField-refl PolicyField.fail_on p = refl
SameField-refl PolicyField.warn_on p = refl
SameField-refl PolicyField.required_scanners p = refl
SameField-refl PolicyField.scanner_failure_modes p = refl

SameField-trans :
    (f : PolicyField) (p q r : EffectivePolicy)
    → SameField f p q
    → SameField f q r
    → SameField f p r
SameField-trans PolicyField.fail_on p q r h k = k ∙ h
SameField-trans PolicyField.warn_on p q r h k = k ∙ h
SameField-trans PolicyField.required_scanners p q r h k = k ∙ h
SameField-trans PolicyField.scanner_failure_modes p q r h k = k ∙ h

module _ {ℓ} {A : Type ℓ} (same : A → Bool) (old : A) where
  replaced-same :
      (o : Option A)
      → ((new : A) → same new ≡ true → old ≡ new)
      → differs same o ≡ false
      → replaced old o ≡ old
  replaced-same none sound h = refl
  replaced-same (some new) sound h = sym (sound new (ground arith))

merged-same :
    (old : Modes) (o : Option Modes)
    → differs (λ extra. same_modes old (merge_modes old extra)) o ≡ false
    → merged old o ≡ old
merged-same old none h = refl
merged-same old (some extra) h = sym (same_modes-eq old (merge_modes old extra) (ground arith))

-- An enforcement that does not change the field leaves its value.
enforce-unchanged :
    (f : PolicyField) (e : PolicyEnforcement) (p : EffectivePolicy)
    → changes f e p ≡ false
    → SameField f p (enforce (some e) p)
unfolding changes enforce
enforce-unchanged PolicyField.fail_on e p h =
    replaced-same (same_array p.fail_on) p.fail_on e.fail_on (same_array-eq p.fail_on) h
enforce-unchanged PolicyField.warn_on e p h =
    replaced-same (same_array p.warn_on) p.warn_on e.warn_on (same_array-eq p.warn_on) h
enforce-unchanged PolicyField.required_scanners e p h =
    replaced-same (same_array p.required_scanners) p.required_scanners e.required_scanners
      (same_array-eq p.required_scanners) h
enforce-unchanged PolicyField.scanner_failure_modes e p h =
    merged-same p.scanner_failure_modes e.scanner_failure_modes h

unchanged :
    (f : PolicyField) (d : PolicyDocument) (o : Option PolicyEnforcement) (p : EffectivePolicy)
    → d.enforcement ≡ o
    → changes_locked_field f d p ≡ false
    → SameField f p (enforce o p)
unfolding changes_locked_field
unchanged f d none p e h = unfold enforce in SameField-refl f p
unchanged f d (some en) p e h = enforce-unchanged f en p (rw (e, changes_locked_field) at h)

check_locks-unchanged :
    (fields : List PolicyField) (d : PolicyDocument) (p : EffectivePolicy) (f : PolicyField)
    → includes fields f ≡ true
    → check_locks fields d p ≡ ok tt
    → changes_locked_field f d p ≡ false
unfolding check_locks
check_locks-unchanged [] d p f held h = absurd (cc)
check_locks-unchanged (g ∷ rest) d p f held h =
    let (kept, h1) = throw_if-eq-ok (changes_locked_field g d p) _ (check_locks rest d p) h in
    elim (Bool-cases (g == f)) [
      | inl same ↦ subst (λ k. changes_locked_field k d p ≡ false) ((field_beq_iff g f).0 same) kept
      | inr other ↦ check_locks-unchanged rest d p f (ground arith) h1
    ]

ok-injective : {p q : EffectivePolicy} → ◌≡◌ {A = Result EffectivePolicy} (ok p) (ok q) → p ≡ q
ok-injective h = cc

SameField-record :
    (f : PolicyField) (p : EffectivePolicy) (o : Option PolicyEnforcement) (q : EffectivePolicy)
    → q.fail_on ≡ (enforce o p).fail_on
    → q.warn_on ≡ (enforce o p).warn_on
    → q.required_scanners ≡ (enforce o p).required_scanners
    → q.scanner_failure_modes ≡ (enforce o p).scanner_failure_modes
    → SameField f p (enforce o p)
    → SameField f p q
SameField-record PolicyField.fail_on p o q a b c d h = a ∙ h
SameField-record PolicyField.warn_on p o q a b c d h = b ∙ h
SameField-record PolicyField.required_scanners p o q a b c d h = c ∙ h
SameField-record PolicyField.scanner_failure_modes p o q a b c d h = d ∙ h

-- One document keeps a field that is locked, and every lock.
apply_document-locked :
    (p q : EffectivePolicy) (d : String × PolicyDocument) (f : PolicyField)
    → includes p.locked_fields f ≡ true
    → apply_document p d ≡ ok q
    → SameField f p q × (includes q.locked_fields f ≡ true)
unfolding apply_document
apply_document-locked p q (path, d) f held h =
    let (u, checked, h1) = >>=-eq-ok (check_locks p.locked_fields d p) _ h in
    let kept =
      unchanged f d d.enforcement p refl
        (check_locks-unchanged p.locked_fields d p f held checked) in
    subst (λ r. SameField f p r × (includes r.locked_fields f ≡ true)) (ok-injective h1)
      (
        SameField-record f p d.enforcement _ refl refl refl refl kept,
        ground (arith, includes-push_missing p.locked_fields (or_empty d.lock) f),
      )

-- Once a field is locked, no later document changes it: either the resolution fails, or the field
-- ends with the value that it had, and is still locked.
pub apply_documents-locked :
    (p q : EffectivePolicy) (ds : List (String × PolicyDocument)) (f : PolicyField)
    → includes p.locked_fields f ≡ true
    → apply_documents p ds ≡ ok q
    → SameField f p q × (includes q.locked_fields f ≡ true)
unfolding apply_documents
apply_documents-locked p q [] f held h =
    subst (λ r. SameField f p r × (includes r.locked_fields f ≡ true)) (ok-injective h)
      (SameField-refl f p, held)
apply_documents-locked p q (d ∷ ds) f held h =
    let (mid, first, h1) = >>=-eq-ok (apply_document p d) _ h in
    let (same, still) = apply_document-locked p mid d f held first in
    let (later, held') = apply_documents-locked mid q ds f still h1 in
    (SameField-trans f p mid q same later, held')
