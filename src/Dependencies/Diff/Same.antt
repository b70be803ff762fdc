-- ===== src/Dependencies/Diff/Same.antt =====
-- src/dependencies/diff.ts: two inventories with the same components.
use quilons_sentrycode.Common.{
  ◌≡◌, ◌∙◌, refl, ap, ap₂, false, not, String, List, [], ◌∷◌, ◌++◌, includes, Option, none, some,
  if◌then◌else◌, option_beq_iff, ==_refl, string_eq, Any, Any-map, Any-image, All-members, All-map,
  filter-none, includes_complete,
}
use quilons_sentrycode.Dependencies.Diff.{
  DependencyComponent, DependencySnapshot, versions, unless_version, last_version, change_between,
  moved_kind, change_at, changes_at, kept_versions, list_changes, diff_group, group_of, diff_groups,
  all_keys, diff_dependencies,
}

-- Nothing differs within a group that stays as it is.
last_version-some-or-none : (found : Option DependencyComponent) → change_at found found ≡ []
last_version-some-or-none none = refl
last_version-some-or-none (some c) =
    rw (==_refl c.source) (rw ((option_beq_iff c.replaced_from c.replaced_from).1 refl) refl)

changes_at-same : (vs : List String) (cs : List DependencyComponent) → changes_at vs cs cs ≡ []
unfolding changes_at
changes_at-same [] cs = refl
changes_at-same (v ∷ vs) cs =
    ap₂ (λ xs ys. xs ++ ys) (last_version-some-or-none (last_version v cs)) (changes_at-same vs cs)

unless_version-same : (cs : List DependencyComponent) → unless_version cs cs ≡ []
unless_version-same cs =
    filter-none (λ c. not (includes (versions cs) c.version)) cs
      (All-map (λ c. Any (λ x. x ≡ c) cs) (λ c. not (includes (versions cs) c.version) ≡ false)
        (λ c h.
          rw
            (includes_complete (versions cs) c.version (
              Any-image (λ v. v ≡ c.version) (λ d. d.version) cs
                (Any-map (λ x. x ≡ c) (λ x. x.version ≡ c.version) (λ x e. ap (λ d. d.version) e)
                  h)))
            refl)
        cs (All-members cs))

list_changes-same : (cs : List DependencyComponent) → list_changes cs cs ≡ []
list_changes-same cs = rw (unless_version-same cs) (changes_at-same (kept_versions cs cs) cs)

diff_group-same : (cs : List DependencyComponent) → diff_group cs cs ≡ []
unfolding diff_group
diff_group-same [] = list_changes-same []
diff_group-same (c ∷ []) =
    ap
      (λ b.
        if not b then change_between (moved_kind c c) c c ∷ [] else list_changes (c ∷ []) (c ∷ []))
      (==_refl c.version)
    ∙ list_changes-same (c ∷ [])
diff_group-same (c ∷ (d ∷ ds)) = list_changes-same (c ∷ d ∷ ds)

diff_groups-same :
    (lower : String → String) (ks : List String) (cs : List DependencyComponent)
    → diff_groups lower ks cs cs ≡ []
unfolding diff_groups
diff_groups-same lower [] cs = refl
diff_groups-same lower (k ∷ ks) cs =
    ap₂ (λ xs ys. xs ++ ys) (diff_group-same (group_of lower k cs)) (diff_groups-same lower ks cs)

-- Inventories that list the same components have no changes, whenever they were generated.
pub diff_dependencies-same :
    (lower : String → String) (before after : DependencySnapshot)
    → before.components ≡ after.components
    → diff_dependencies lower before after ≡ []
unfolding diff_dependencies
diff_dependencies-same lower before after e =
    rw e
      (diff_groups-same lower (all_keys lower after.components after.components) after.components)
