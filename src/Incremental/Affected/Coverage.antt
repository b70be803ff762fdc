-- ===== src/Incremental/Affected/Coverage.antt =====
-- Which services are affected.
use text.Mathlib.Text.{starts_with}
use quilons_sentrycode.Common.{
  ◌≡◌, refl, ◌↔◌, All, Any-map, eq_iff, ◌==◌, ◌&&◌, string_eq, ◌<>◌, subst, sym, ◌⊎◌, inl, inr,
  true, false, String, List, [], ◌∷◌, filter, any, any_sound, any_complete, is_empty, Any,
  filter-Any, filter-member, is_truthy, arith, Bool-cases, if◌then◌else◌,
}
use quilons_sentrycode.Incremental.Affected.{
  ServiceComponent, lies_in, is_global, is_affected, affected_services,
}

-- The file is the directory of the service, or lies below it.
abbrev pub LiesIn : String → ServiceComponent → Type 0
LiesIn f s = (f ≡ s.root) ⊎ (starts_with f (s.root <> "/") ≡ true)

-- The file lies in no service that has a directory of its own.
abbrev pub InNone : List ServiceComponent → String → Type 0
InNone services f = All (λ s. is_truthy s.root ≡ true → ¬ LiesIn f s) services

-- The service is the whole repository, a changed file lies in it, or one lies in no service.
abbrev pub Concerned : List String → List ServiceComponent → ServiceComponent → Type 0
Concerned changed services s =
    (is_truthy s.root ≡ false) ⊎ (Any (λ f. LiesIn f s) changed ⊎ Any (InNone services) changed)

pub lies_in_iff : (f : String) (s : ServiceComponent) → (lies_in f s ≡ true) ↔ LiesIn f s
unfolding lies_in
lies_in_iff f s = (
  λ h. elim (Bool-cases (f == s.root)) [
    | inl same ↦ inl ((eq_iff f s.root).0 same)
    | inr other ↦ inr (ground arith)
  ],
  λ h. elim h [ inl same ↦ ground (arith, (eq_iff f s.root).1 same) | inr below ↦ ground arith ],
)

is_global_sound :
    (services : List ServiceComponent) (f : String)
    → is_global services f ≡ true
    → InNone services f
unfolding is_global
is_global_sound [] f h = tt
is_global_sound (s ∷ ss) f h = (
  λ own lies. absurd (ground (arith, (lies_in_iff f s).1 lies)),
  is_global_sound ss f (ground arith),
)

is_global_complete :
    (services : List ServiceComponent) (f : String)
    → InNone services f
    → is_global services f ≡ true
unfolding is_global
is_global_complete [] f h = refl
is_global_complete (s ∷ ss) f h = elim (Bool-cases (is_truthy s.root && lies_in f s)) [
  | inl within ↦ absurd (h.0 (ground arith) ((lies_in_iff f s).0 (ground arith)))
  | inr without ↦ ground (arith, is_global_complete ss f h.1)
]

pub some_changed :
    (changed : List String) (P : String → Type 0) → Any P changed → is_empty changed ≡ false
some_changed [] P h = elim h [ ]
some_changed (f ∷ fs) P h = refl

-- Where some file has changed, a service is affected exactly when it is one of the repository's, and
-- it is the whole repository, or a changed file lies in it, or a changed file lies in no service
-- that has a directory of its own; where none has changed, no service is.
pub affected_services-Concerned :
    (changed : List String) (services : List ServiceComponent) (s : ServiceComponent)
    → (is_empty changed ≡ true → affected_services changed services ≡ [])
      × (is_empty changed ≡ false
          → Any (λ x. x ≡ s) (affected_services changed services)
            ↔ (Any (λ x. x ≡ s) services × Concerned changed services s))
unfolding affected_services
affected_services-Concerned changed services s = (
  λ none'. rw none' refl,
  λ some'. rw some' (by_global (Bool-cases (any (is_global services) changed))),
)
  where
    affected : is_affected changed s ≡ true → Concerned changed services s
    affected h = elim (Bool-cases (is_truthy s.root)) [
      | inr whole ↦ inl whole
      | inl own ↦ inr (
          inl (
            Any-map _ _ (λ f l. (lies_in_iff f s).0 l)
              (any_sound (λ f. lies_in f s) changed (ground arith))))
    ]

    concerned :
        any (is_global services) changed ≡ false
        → Concerned changed services s
        → is_affected changed s ≡ true
    concerned h (inl whole) = ground arith
    concerned h (inr (inl some')) = ground (
      arith,
      any_complete (λ f. lies_in f s) changed (Any-map _ _ (λ f l. (lies_in_iff f s).1 l) some'),
    )
    concerned h (inr (inr out)) = absurd (
        ground (
          arith,
          any_complete (is_global services) changed (Any-map _ _ (is_global_complete services) out),
        ))

    by_global :
        (any (is_global services) changed ≡ true) ⊎ (any (is_global services) changed ≡ false)
        → Any
            (λ x. x ≡ s)
            (if any (is_global services) changed
              then services
              else filter (is_affected changed) services)
          ↔ (Any (λ x. x ≡ s) services × Concerned changed services s)
    by_global (inl out) = rw out (
      λ m. (
        m,
        inr (
            inr (
              Any-map _ _ (is_global_sound services) (any_sound (is_global services) changed out))),
      ),
      λ h. h.0,
    )
    by_global (inr within) = rw within (
      λ m.
          let (member, h) = filter-member (is_affected changed) services s m in
          (member, affected h),
      λ h.
          filter-Any (λ x. x ≡ s) (is_affected changed)
            (λ x same. subst (λ y. is_affected changed y ≡ true) (sym same) (concerned within h.1))
            services h.0,
    )
