-- ===== src/Dependencies/Diff/Accounts.antt =====
-- src/dependencies/diff.ts: which components the changes between two inventories are about.
use quilons_sentrycode.Common.{
  ◌≡◌, ◌∙◌, ◌⊎◌, All, refl, ap, sym, subst, inl, inr, Bool, true, false, not, ◌||◌, String, List,
  [], ◌∷◌, map, includes, some, if◌then◌else◌, text_leb, ◌==◌, ==_refl, string_eq, arith, Any, here,
  there, Any-map, Any-left, Any-right, Any-image, All-members, All-map, filter-Any,
  includes_complete, includes-append, includes-distinct, includes-sort, Bool-cases, eq_iff,
}
use quilons_sentrycode.Dependencies.Diff.{
  DependencyComponent, DependencySnapshot, DependencyChange, versions, unless_version,
  change_removed, change_added, list_changes, diff_group, component_key, group_of, diff_groups,
  all_keys, diff_dependencies,
}

-- The change that takes the component away, or brings it.
abbrev pub Takes : DependencyComponent → DependencyChange → Type 0
Takes c change = change.before ≡ some c

abbrev pub Brings : DependencyComponent → DependencyChange → Type 0
Brings c change = change.after ≡ some c

abbrev Holds : DependencyComponent → List DependencyComponent → Type 0
Holds c cs = Any (λ x. x ≡ c) cs

unless_version-Holds :
    (others cs : List DependencyComponent) (c : DependencyComponent)
    → includes (versions others) c.version ≡ false
    → Holds c cs
    → Holds c (unless_version others cs)
unless_version-Holds others cs c new =
    filter-Any (λ x. x ≡ c) (λ d. not (includes (versions others) d.version))
      (λ d e. rw (ap (λ x. includes (versions others) x.version) e) (rw new refl)) cs

list_changes-Takes :
    (olds news : List DependencyComponent) (c : DependencyComponent)
    → includes (versions news) c.version ≡ false
    → Holds c olds
    → Any (Takes c) (list_changes olds news)
list_changes-Takes olds news c gone h = Any-left (Takes c) _ _ (
    Any-image (Takes c) change_removed (unless_version news olds) (
      Any-map (λ x. x ≡ c) (λ x. Takes c (change_removed x)) (λ x e. ap some e)
        (unless_version-Holds news olds c gone h)))

list_changes-Brings :
    (olds news : List DependencyComponent) (c : DependencyComponent)
    → includes (versions olds) c.version ≡ false
    → Holds c news
    → Any (Brings c) (list_changes olds news)
list_changes-Brings olds news c fresh h = Any-right (Brings c) _ _ (
    Any-left (Brings c) _ _ (
      Any-image (Brings c) change_added (unless_version olds news) (
        Any-map (λ x. x ≡ c) (λ x. Brings c (change_added x)) (λ x e. ap some e)
          (unless_version-Holds olds news c fresh h))))

in_both :
    (P : DependencyChange → Type 0) (same : Bool) {xs ys : List DependencyChange}
    → Any P xs
    → Any P ys
    → Any P (if not same then xs else ys)
in_both P true h k = k
in_both P false h k = h

only : (x c : DependencyComponent) → Holds c (x ∷ []) → x ≡ c
only x c (here e) = e
only x c (there t) = elim t [ ]

diff_group-Takes :
    (olds news : List DependencyComponent) (c : DependencyComponent)
    → includes (versions news) c.version ≡ false
    → Holds c olds
    → Any (Takes c) (diff_group olds news)
unfolding diff_group
diff_group-Takes [] news c gone h = elim h [ ]
diff_group-Takes (old ∷ []) [] c gone h = list_changes-Takes (old ∷ []) [] c gone h
diff_group-Takes (old ∷ []) (new ∷ []) c gone h =
    in_both (Takes c) (old.version == new.version) (here (ap some (only old c h)))
      (list_changes-Takes (old ∷ []) (new ∷ []) c gone h)
diff_group-Takes (old ∷ []) (new ∷ (n ∷ ns)) c gone h =
    list_changes-Takes (old ∷ []) (new ∷ n ∷ ns) c gone h
diff_group-Takes (old ∷ (o ∷ os)) news c gone h = list_changes-Takes (old ∷ o ∷ os) news c gone h

diff_group-Brings :
    (olds news : List DependencyComponent) (c : DependencyComponent)
    → includes (versions olds) c.version ≡ false
    → Holds c news
    → Any (Brings c) (diff_group olds news)
unfolding diff_group
diff_group-Brings [] news c fresh h = list_changes-Brings [] news c fresh h
diff_group-Brings (old ∷ []) [] c fresh h = list_changes-Brings (old ∷ []) [] c fresh h
diff_group-Brings (old ∷ []) (new ∷ []) c fresh h =
    in_both (Brings c) (old.version == new.version) (here (ap some (only new c h)))
      (list_changes-Brings (old ∷ []) (new ∷ []) c fresh h)
diff_group-Brings (old ∷ []) (new ∷ (n ∷ ns)) c fresh h =
    list_changes-Brings (old ∷ []) (new ∷ n ∷ ns) c fresh h
diff_group-Brings (old ∷ (o ∷ os)) news c fresh h =
    list_changes-Brings (old ∷ o ∷ os) news c fresh h

module _ (lower : String → String) where
  -- What one group reports is reported.
  diff_groups-Any :
      (P : DependencyChange → Type 0) (k : String) (ks : List String)
      (befores afters : List DependencyComponent)
      → includes ks k ≡ true
      → Any P (diff_group (group_of lower k befores) (group_of lower k afters))
      → Any P (diff_groups lower ks befores afters)
  unfolding diff_groups
  diff_groups-Any P k [] befores afters e h = cc
  diff_groups-Any P k (j ∷ ks) befores afters e h = elim (Bool-cases (j == k)) [
    | inl same ↦ Any-left P _ _ (
        subst (λ i. Any P (diff_group (group_of lower i befores) (group_of lower i afters)))
          (sym ((eq_iff j k).0 same)) h)
    | inr other ↦ Any-right P _ _ (diff_groups-Any P k ks befores afters (ground arith) h)
  ]

  group_of-Holds :
      (cs : List DependencyComponent) (c : DependencyComponent)
      → Holds c cs
      → Holds c (group_of lower (component_key lower c) cs)
  group_of-Holds cs c h =
      filter-Any (λ x. x ≡ c) (λ d. component_key lower d == component_key lower c)
        (λ d e. rw (ap (component_key lower) e) (==_refl (component_key lower c))) cs h

  key-includes :
      (cs : List DependencyComponent) (c : DependencyComponent)
      → Holds c cs
      → includes (map (component_key lower) cs) (component_key lower c) ≡ true
  key-includes cs c h = includes_complete (map (component_key lower) cs) (component_key lower c) (
      Any-image (λ k. k ≡ component_key lower c) (component_key lower) cs
        (Any-map (λ x. x ≡ c) (λ x. component_key lower x ≡ component_key lower c)
          (λ x e. ap (component_key lower) e) h))

  all_keys-includes :
      (befores afters : List DependencyComponent) (k : String)
      → includes (all_keys lower befores afters) k ≡ (
          includes (map (component_key lower) befores) k
          || includes (map (component_key lower) afters) k)
  all_keys-includes befores afters k =
      includes-sort text_leb _ k
      ∙ includes-distinct _ k
      ∙ includes-append (map (component_key lower) befores) _ k

  -- The other inventory has a component of the same package in the same version.
  abbrev pub HasVersion : List DependencyComponent → DependencyComponent → Type 0
  HasVersion others c =
      Any (λ d. (component_key lower d ≡ component_key lower c) × (d.version ≡ c.version)) others

  version-HasVersion :
      (others : List DependencyComponent) (c : DependencyComponent)
      → includes (versions (group_of lower (component_key lower c) others)) c.version ≡ true
      → HasVersion others c
  version-HasVersion [] c h = cc
  version-HasVersion (d ∷ ds) c h =
      elim (Bool-cases (component_key lower d == component_key lower c)) [
        | inr other ↦ there (version-HasVersion ds c (let k = (rw other at h) in k))
        | inl same ↦
            let k = (rw same at h) in
            elim (Bool-cases (d.version == c.version)) [
              | inl e ↦ here ((eq_iff _ _).0 same, (eq_iff d.version c.version).0 e)
              | inr differs ↦ there (version-HasVersion ds c (ground arith))
            ]
      ]

  -- For every component of the old inventory, the new one has a component of the same package and
  -- version, or some change takes it away; and for every component of the new inventory, the old one
  -- had a component of the same package and version, or some change brings it.
  pub diff_dependencies-accounts :
      (before after : DependencySnapshot)
      → All
          (λ old.
            HasVersion after.components old
            ⊎ Any (Takes old) (diff_dependencies lower before after))
          before.components
        × All
            (λ new.
              HasVersion before.components new
              ⊎ Any (Brings new) (diff_dependencies lower before after))
            after.components
  unfolding diff_dependencies
  diff_dependencies-accounts before after = (
    All-map (λ c. Holds c before.components) _ gone before.components
        (All-members before.components),
    All-map (λ c. Holds c after.components) _ fresh after.components (All-members after.components),
  )
    where
      gone :
          (old : DependencyComponent)
          → Holds old before.components
          → HasVersion after.components old ⊎ Any (Takes old) (diff_dependencies lower before after)
      gone old member =
          let key = component_key lower old in
          elim (Bool-cases
            (includes (versions (group_of lower key after.components)) old.version)) [
              | inl kept ↦ inl (version-HasVersion after.components old kept)
              | inr lost ↦ inr (
                  diff_groups-Any (Takes old) key _ before.components after.components
                    (all_keys-includes before.components after.components key
                      ∙ ground (arith, key-includes before.components old member))
                    (diff_group-Takes _ _ old lost (group_of-Holds before.components old member)))
            ]

      fresh :
          (new : DependencyComponent)
          → Holds new after.components
          → HasVersion before.components new
            ⊎ Any (Brings new) (diff_dependencies lower before after)
      fresh new member =
          let key = component_key lower new in
          elim (Bool-cases
            (includes (versions (group_of lower key before.components)) new.version)) [
              | inl kept ↦ inl (version-HasVersion before.components new kept)
              | inr came ↦ inr (
                  diff_groups-Any (Brings new) key _ before.components after.components
                    (all_keys-includes before.components after.components key
                      ∙ ground (arith, key-includes after.components new member))
                    (diff_group-Brings _ _ new came (group_of-Holds after.components new member)))
            ]
