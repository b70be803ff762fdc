-- ===== src/Policy/Documents/Selection.antt =====
-- Which documents are loaded.
use quilons_sentrycode.Common.{
  ℕ, ◌≤◌, ◌<◌, ◌≡◌, refl, subst, ◌↔◌, ◌⊎◌, inl, inr, Bool, true, false, String, List, [], ◌∷◌,
  Option, none, some, arith, Bool-cases, Option-cases, if◌then◌else◌, string_eq, eq_iff, is_truthy,
  includes, filter, sort, sort-All, sort-Any, All, Any, here, there, ends_with, to_slashes, ◌<>◌,
}
use quilons_sentrycode.Common.Result.{ok-injective, ok, >>=-eq-ok, throw_if-eq-ok}
use quilons_sentrycode.Core.Json.{JsonFile}
use quilons_sentrycode.Core.Platform.{Platform, not_after, after}
use quilons_sentrycode.Core.PolicyTypes.{PolicyDocument, PolicyScope, PolicyContext}
use quilons_sentrycode.Policy.Documents.{
  Located, entries, by_name, permits, scope_permits, matches_scope, dated, active_at, read_json,
  key_of, applies, load_files, precedes, load_policy_documents,
}
use quilons_sentrycode.Policy.Documents.Parsing.{parse_policy_document}

-- A restriction that is absent permits everything.
abbrev pub Permits : Option String → Option String → Type 0
Permits none have = Unit {0}
Permits (some w) have = have ≡ some w

permits_iff : (want have : Option String) → (permits want have ≡ true) ↔ Permits want have
unfolding permits
permits_iff none have = (λ _. tt, λ _. refl)
permits_iff (some w) none = (λ h. cc, λ h. cc)
permits_iff (some w) (some v) =
    (λ h. ground (arith, (eq_iff w v).0 h), λ h. (eq_iff w v).1 (ground arith))

abbrev pub ScopePermits : Option PolicyScope → PolicyContext → Type 0
ScopePermits none c = Unit {0}
ScopePermits (some s) c =
    Permits s.tenant c.tenant
    × Permits s.project c.project
    × Permits s.repository (some c.repository)
    × Permits s.service c.service

scope_iff :
    (o : Option PolicyScope) (d : PolicyDocument) (c : PolicyContext)
    → d.scope ≡ o
    → (matches_scope d c ≡ true) ↔ ScopePermits o c
unfolding matches_scope scope_permits
scope_iff none d c e = (λ _. tt, λ _. ground arith)
scope_iff (some s) d c e = (
  λ h. (
    (permits_iff s.tenant c.tenant).0 (ground arith),
    (permits_iff s.project c.project).0 (ground arith),
    (permits_iff s.repository (some c.repository)).0 (ground arith),
    (permits_iff s.service c.service).0 (ground arith),
  ),
  λ (t, p, r, v). ground (
    arith,
    (permits_iff s.tenant c.tenant).1 t,
    (permits_iff s.project c.project).1 p,
    (permits_iff s.repository (some c.repository)).1 r,
    (permits_iff s.service c.service).1 v,
  ),
)

module _ (host : Platform) where
  -- A date that is set and valid lies so to the moment.
  abbrev pub Dated : (ℕ → Type 0) → Option String → Type 0
  Dated P none = Unit {0}
  Dated P (some s) =
      (is_truthy s ≡ false)
      ⊎ ((host.parse_date s ≡ none) ⊎ ((t : ℕ) × (host.parse_date s ≡ some t) × P t))

  started_iff :
      (o : Option String) (now : ℕ) → (dated after host o now ≡ false) ↔ Dated (λ t. t ≤ now) o
  started_iff none now = (λ _. tt, λ _. refl)
  started_iff (some s) now = elim (Option-cases (host.parse_date s)) [
    | inl e ↦ (λ h. inr (inl e), λ h. ground arith)
    | inr (t, e) ↦ (
      λ h. elim (Bool-cases (is_truthy s)) [
        | inl set ↦ inr (inr (t, e, ground arith))
        | inr unset ↦ inl unset
      ],
      λ h. elim h [
        | inl unset ↦ ground arith
        | inr (inl bad) ↦ ground arith
        | inr (inr (u, e', le)) ↦ ground arith
      ],
    )
  ]

  unended_iff :
      (o : Option String) (now : ℕ) → (dated not_after host o now ≡ false) ↔ Dated (λ t. now < t) o
  unended_iff none now = (λ _. tt, λ _. refl)
  unended_iff (some s) now = elim (Option-cases (host.parse_date s)) [
    | inl e ↦ (λ h. inr (inl e), λ h. ground arith)
    | inr (t, e) ↦ (
      λ h. elim (Bool-cases (is_truthy s)) [
        | inl set ↦ inr (inr (t, e, ground arith))
        | inr unset ↦ inl unset
      ],
      λ h. elim h [
        | inl unset ↦ ground arith
        | inr (inl bad) ↦ ground arith
        | inr (inr (u, e', lt)) ↦ ground arith
      ],
    )
  ]

  -- The document's scope takes the context in, and the moment lies in its period.
  abbrev pub InForce : PolicyContext → ℕ → PolicyDocument → Type 0
  InForce c now d =
      ScopePermits d.scope c
      × Dated (λ t. t ≤ now) d.effective_from
      × Dated (λ t. now < t) d.effective_until

  applies_iff :
      (directory : String) (c : PolicyContext) (now : ℕ) (d : PolicyDocument)
      → (applies host directory c now d ≡ true) ↔ InForce c now d
  unfolding applies active_at
  applies_iff directory c now d = (
    λ h. (
      (scope_iff d.scope d c refl).0 (ground arith),
      (started_iff d.effective_from now).0 (ground arith),
      (unended_iff d.effective_until now).0 (ground arith),
    ),
    λ (s, a, b). ground (
      arith,
      (scope_iff d.scope d c refl).1 s,
      (started_iff d.effective_from now).1 a,
      (unended_iff d.effective_until now).1 b,
    ),
  )

module _ (host : Platform) (directory : String) (context : PolicyContext) (now : ℕ) where
  -- The file holds the document, which is known by the file's path.
  abbrev pub Holds : String × JsonFile → Located → Type 0
  Holds f l =
      (l.0 ≡ to_slashes directory <> ("/" <> f.0))
      × ((raw : _) × (read_json l.0 f.1 ≡ ok raw) × (parse_policy_document host raw l.0 ≡ ok l.1))

  -- Every file holds a document, and the documents are those of the files that are in force.
  abbrev pub Selects : List (String × JsonFile) → List Located → Type 0
  Selects files ds =
      All (λ f. (l : Located) × Holds f l × (InForce host context now l.1 → Any (λ x. x ≡ l) ds))
        files
      × All (λ l. InForce host context now l.1 × Any (λ f. Holds f l) files) ds

  weaken :
      (f : String × JsonFile) (files : List (String × JsonFile)) (ds : List Located)
      → All (λ l. InForce host context now l.1 × Any (λ g. Holds g l) files) ds
      → All (λ l. InForce host context now l.1 × Any (λ g. Holds g l) (f ∷ files)) ds
  weaken f files [] h = tt
  weaken f files (d ∷ ds) ((a, b), h) = ((a, there b), weaken f files ds h)

  extend :
      (d : Located) (files : List (String × JsonFile)) (ds : List Located)
      → All
          (λ f. (l : Located) × Holds f l × (InForce host context now l.1 → Any (λ x. x ≡ l) ds))
          files
      → All
          (λ f.
            (l : Located) × Holds f l × (InForce host context now l.1 → Any (λ x. x ≡ l) (d ∷ ds)))
          files
  extend d [] ds h = tt
  extend d (f ∷ files) ds ((l, a, b), h) = ((l, a, λ i. there (b i)), extend d files ds h)

  step :
      (f : String × JsonFile) (files : List (String × JsonFile)) (d : Located) (ds : List Located)
      (use' : Bool)
      → applies host directory context now d.1 ≡ use'
      → Holds f d
      → Selects files ds
      → Selects (f ∷ files) (if use' then d ∷ ds else ds)
  step f files d ds true e holds (every, only) = (
    ((d, holds, λ _. here refl), extend d files ds every),
    (((applies_iff host directory context now d.1).0 e, here holds), weaken f files ds only),
  )
  step f files d ds false e holds (every, only) = (
    (
      (d, holds, λ i. absurd (ground (arith, (applies_iff host directory context now d.1).1 i))),
      every,
    ),
    weaken f files ds only,
  )

  load_files-Selects :
      (seen : List String) (files : List (String × JsonFile)) (ds : List Located)
      → load_files host directory context now seen files ≡ ok ds
      → Selects files ds
  unfolding load_files
  load_files-Selects seen [] ds h = subst (Selects []) (ok-injective h) (tt, tt)
  load_files-Selects seen ((name, file) ∷ files) ds h =
      let relative = to_slashes directory <> ("/" <> name) in
      let (raw, read, h1) = >>=-eq-ok (read_json relative file) _ h in
      let (d, parsed, h2) = >>=-eq-ok (parse_policy_document host raw relative) _ h1 in
      let (new, h3) = throw_if-eq-ok (includes seen (key_of d)) _ _ h2 in
      let (rest, loaded, h4) =
        >>=-eq-ok (load_files host directory context now (key_of d ∷ seen) files) _ h3 in
      subst (Selects ((name, file) ∷ files)) (ok-injective h4) (
        step (name, file) files (relative, d) rest _ refl (refl, (raw, read, parsed))
          (load_files-Selects (key_of d ∷ seen) files rest loaded))

  sort-Selects :
      (files : List (String × JsonFile)) (ds : List Located)
      → Selects files ds
      → Selects files (sort (precedes host directory context now) ds)
  sort-Selects files ds (every, only) = (kept files every, sort-All _ _ ds only)
    where
      kept :
          (fs : List (String × JsonFile))
          → All
              (λ f.
                (l : Located) × Holds f l × (InForce host context now l.1 → Any (λ x. x ≡ l) ds))
              fs
          → All
              (λ f.
                (l : Located) × Holds f l
                × (InForce host context now l.1
                    → Any (λ x. x ≡ l) (sort (precedes host directory context now) ds)))
              fs
      kept = elim [
        | [] ↦ λ h. tt
        | f ∷ (fs → ih) ↦ λ h. (
          (h.0.0, h.0.1, λ i. sort-Any (precedes host directory context now) _ ds (h.0.2 i)),
          ih h.1,
        )
      ]

  -- When the directory loads, each of its `.json` files holds a valid document, and exactly those
  -- whose scope takes the context in and whose period holds the moment are loaded.
  pub load_policy_documents-Selects :
      (files : List (String × JsonFile)) (ds : List Located)
      → load_policy_documents host directory context now (entries files) ≡ ok ds
      → Selects (sort by_name (filter (λ f. ends_with f.0 ".json") files)) ds
  unfolding load_policy_documents
  load_policy_documents-Selects files ds h =
      let named = sort by_name (filter (λ f. ends_with f.0 ".json") files) in
      let (loaded, read, h1) = >>=-eq-ok (load_files host directory context now [] named) _ h in
      subst (Selects named) (ok-injective h1)
        (sort-Selects named loaded (load_files-Selects [] named loaded read))
