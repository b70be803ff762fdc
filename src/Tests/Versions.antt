-- ===== src/Tests/Versions.antt =====
-- Versions, ranges and inventories at concrete values.
use quilons_sentrycode.Common.{
  All, ◌⊎◌, ◌≡◌, ◌↔◌, refl, pos, true, false, String, [], ◌∷◌, none, Any,
}
use quilons_sentrycode.Dependencies.Versions.{
  version_component, parts, compare_versions, is_negative, satisfies_clause, satisfies_simple_range,
}
use quilons_sentrycode.Dependencies.Versions.Ranges.{satisfies_clause-ranges}
use quilons_sentrycode.Dependencies.Diff.{
  Ecosystem, DependencyComponent, DependencySnapshot, diff_dependencies,
}
use quilons_sentrycode.Dependencies.Diff.Same.{diff_dependencies-same}
use quilons_sentrycode.Dependencies.Diff.Accounts.{
  Takes, Brings, HasVersion, diff_dependencies-accounts,
}

read : parts "v1.20.3-rc1" ≡ 1 ∷ 20 ∷ 3 ∷ []
unfolding parts
read = refl

newer : compare_versions "1.10.0" "1.9.7" ≡ pos 1
unfolding compare_versions
newer = refl

ranged : satisfies_simple_range "1.4.2" "<1.0 || >=1.4 <2" ≡ true
unfolding satisfies_simple_range
ranged = refl

outside : satisfies_simple_range "2.0.0" "^1.4.0 || ~1.9.1" ≡ false
unfolding satisfies_simple_range
outside = refl

satisfies_clause-ranges_example :
    ((satisfies_clause "1.4.2" "^1.2.0" ≡ true) ↔ (
      (version_component (parts "1.4.2") 0 ≡ version_component (parts "1.2.0") 0)
      × (is_negative (compare_versions "1.4.2" "1.2.0") ≡ false)))
    × ((satisfies_clause "1.4.2" "~1.2.0" ≡ true) ↔ (
        (version_component (parts "1.4.2") 0 ≡ version_component (parts "1.2.0") 0)
        × (version_component (parts "1.4.2") 1 ≡ version_component (parts "1.2.0") 1)
        × (is_negative (compare_versions "1.4.2" "1.2.0") ≡ false)))
satisfies_clause-ranges_example = satisfies_clause-ranges "1.4.2" "1.2.0"

abbrev component : (name version : String) → DependencyComponent
component name version = record {
  ecosystem = Ecosystem.npm;
  name = name;
  version = version;
  direct = true;
  relationship = none;
  dev = false;
  inventory_scope = none;
  source = "package-lock.json";
  license = none;
  purl = "pkg:npm/";
  package_path = none;
  hashes = none;
  dependencies = none;
  replaced_from = none;
}

abbrev inventory : (a_version : String) → (other : String) → DependencySnapshot
inventory a_version other = record {
  generated_at = "2026-01-01";
  components = component "a" a_version ∷ component other "1.0.0" ∷ [];
}

abbrev same_case : String → String
same_case s = s

diff_dependencies-accounts_example :
    let before = inventory "1.0.0" "b" in
    let after = inventory "2.0.0" "c" in
    All
      (λ old.
        HasVersion same_case after.components old
        ⊎ Any (Takes old) (diff_dependencies same_case before after))
      before.components
    × All
        (λ new.
          HasVersion same_case before.components new
          ⊎ Any (Brings new) (diff_dependencies same_case before after))
        after.components
diff_dependencies-accounts_example =
    diff_dependencies-accounts same_case (inventory "1.0.0" "b") (inventory "2.0.0" "c")

unchanged : diff_dependencies same_case (inventory "1.0.0" "b") (inventory "1.0.0" "b") ≡ []
unchanged = diff_dependencies-same same_case (inventory "1.0.0" "b") (inventory "1.0.0" "b") refl
