-- ===== src/Policy/Evaluate/Required.antt =====
-- Which required scanners count as not having run.
use quilons_sentrycode.Common.{
  ◌≡◌, refl, ◌↔◌, inl, inr, Bool, false, not, String, List, [], ◌∷◌, arith, Bool-cases, ◌==◌,
  string_eq, eq_iff, any_sound, any_complete, is_empty, filter-nil, includes, All, Any, Any-map,
}
use quilons_sentrycode.Core.Enums.{ScannerExecutionStatus, status_eq, status_beq_iff}
use quilons_sentrycode.Core.Findings.{ScannerResult}
use quilons_sentrycode.Policy.Evaluate.{status_of, present_scanners, missing_scanners}

-- No result of the scanner, but skipped ones.
abbrev pub NotRun : List ScannerResult → String → Type 0
NotRun results id =
    All (λ (r : ScannerResult). r.scanner ≡ id → status_of r ≡ ScannerExecutionStatus.skipped)
      results

not_run :
    (results : List ScannerResult) (id : String)
    → includes (present_scanners results) id ≡ false
    → NotRun results id
unfolding present_scanners
not_run [] id h = tt
not_run (r ∷ rs) id h = elim (Bool-cases (status_of r == ScannerExecutionStatus.skipped)) [
  | inl idle ↦ (λ _. (status_beq_iff _ _).0 idle, not_run rs id (ground arith))
  | inr ran ↦
      (λ same. absurd (ground (arith, (eq_iff r.scanner id).1 same)), not_run rs id (ground arith))
]

absent :
    (results : List ScannerResult) (id : String)
    → NotRun results id
    → includes (present_scanners results) id ≡ false
unfolding present_scanners
absent [] id h = refl
absent (r ∷ rs) id (h, hs) = elim (Bool-cases (status_of r == ScannerExecutionStatus.skipped)) [
  | inl idle ↦ ground (arith, absent rs id hs)
  | inr ran ↦ elim (Bool-cases (r.scanner == id)) [
    | inl same ↦ absurd (ground (arith, (status_beq_iff _ _).1 (h ((eq_iff r.scanner id).0 same))))
    | inr other ↦ ground (arith, absent rs id hs)
  ]
]

-- The list of missing scanners is empty exactly when every required scanner ran.
pub missing_scanners-empty_iff :
    (required : List String) (results : List ScannerResult)
    → (is_empty (missing_scanners required results) ≡ false) ↔ Any (NotRun results) required
unfolding missing_scanners
missing_scanners-empty_iff required results =
    let gone : String → Bool = λ id. not (includes (present_scanners results) id) in
    (
      λ h.
          Any-map _ _ (λ id g. not_run results id (ground arith))
            (any_sound gone required (ground (arith, filter-nil gone required))),
      λ h. ground (
        arith,
        filter-nil gone required,
        any_complete gone required (Any-map _ _ (λ id n. ground (arith, absent results id n)) h),
      ),
    )
