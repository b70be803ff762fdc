-- ===== src/Dependencies/Diff.antt =====
-- src/dependencies/diff.ts: the difference of two inventories. `lower` is `toLowerCase`.
pub mod Accounts
pub mod Same
use quilons_sentrycode.Common.{
  Bool, not, ◌||◌, String, List, [], ◌∷◌, ◌++◌, map, filter, includes, Option, none, some,
  if◌then◌else◌, sort, text_leb, distinct, option_beq, ◌==◌, string_eq, ◌<>◌,
}
use quilons_sentrycode.Dependencies.Versions.{compare_versions, is_negative, is_tie}

pub data Ecosystem : Type 0 where
  npm pypi maven nuget conan vcpkg cargo go apk deb rpm : Ecosystem

pub data Relationship : Type 0 where
  direct transitive os unknown : Relationship

pub data HashAlgorithm : Type 0 where
  sha_256 sha_512 : HashAlgorithm

pub record DependencyComponent : Type 0 where
  pub ecosystem : Ecosystem
  pub name : String
  pub version : String
  pub direct : Bool
  pub relationship : Option Relationship
  pub dev : Bool
  pub inventory_scope : Option String
  pub source : String
  pub license : Option String
  pub purl : String
  pub package_path : Option String
  pub hashes : Option (List (HashAlgorithm × String))
  pub dependencies : Option (List String)
  pub replaced_from : Option String

pub record DependencySnapshot : Type 0 where
  pub generated_at : String
  pub components : List DependencyComponent

pub data ChangeKind : Type 0 where
  added removed upgraded downgraded changed : ChangeKind

pub record DependencyChange : Type 0 where
  pub kind : ChangeKind
  pub ecosystem : Ecosystem
  pub name : String
  pub before : Option DependencyComponent
  pub after : Option DependencyComponent

abbrev pub ecosystem_text : Ecosystem → String
ecosystem_text Ecosystem.npm = "npm"
ecosystem_text Ecosystem.pypi = "pypi"
ecosystem_text Ecosystem.maven = "maven"
ecosystem_text Ecosystem.nuget = "nuget"
ecosystem_text Ecosystem.conan = "conan"
ecosystem_text Ecosystem.vcpkg = "vcpkg"
ecosystem_text Ecosystem.cargo = "cargo"
ecosystem_text Ecosystem.go = "go"
ecosystem_text Ecosystem.apk = "apk"
ecosystem_text Ecosystem.deb = "deb"
ecosystem_text Ecosystem.rpm = "rpm"

abbrev pub versions : List DependencyComponent → List String
versions cs = map (λ c. c.version) cs

-- `!byVersion.has(component.version)`.
abbrev pub unless_version :
    List DependencyComponent → List DependencyComponent → List DependencyComponent
unless_version others cs = filter (λ c. not (includes (versions others) c.version)) cs

-- `byVersion.get(version)`: the last component of the version.
abbrev pub last_version : String → List DependencyComponent → Option DependencyComponent
last_version v [] = none
last_version v (c ∷ cs) = elim (last_version v cs) [
  | some d ↦ some d
  | none ↦ (if c.version == v then some c else none)
]

abbrev pub change_removed : DependencyComponent → DependencyChange
change_removed c = record {
  kind = ChangeKind.removed;
  ecosystem = c.ecosystem;
  name = c.name;
  before = some c;
  after = none;
}

abbrev pub change_added : DependencyComponent → DependencyChange
change_added c = record {
  kind = ChangeKind.added;
  ecosystem = c.ecosystem;
  name = c.name;
  before = none;
  after = some c;
}

abbrev pub change_between : ChangeKind → (old new : DependencyComponent) → DependencyChange
change_between kind old new = record {
  kind = kind;
  ecosystem = new.ecosystem;
  name = new.name;
  before = some old;
  after = some new;
}

unfoldable pub moved_kind : (old new : DependencyComponent) → ChangeKind
unfolding compare_versions
moved_kind old new =
    let comparison = compare_versions new.version old.version in
    if is_negative comparison
    then ChangeKind.downgraded
    else if is_tie comparison
    then ChangeKind.changed
    else ChangeKind.upgraded

-- `source` or `replacedFrom` differ.
abbrev pub is_moved : (old new : DependencyComponent) → Bool
is_moved old new =
    not (old.source == new.source) || not (option_beq old.replaced_from new.replaced_from)

abbrev pub change_at :
    Option DependencyComponent → Option DependencyComponent → List DependencyChange
change_at (some old) (some new) =
    if is_moved old new then change_between ChangeKind.changed old new ∷ [] else []
change_at _ _ = []

-- The changes of the versions that both sides have, in the order in which the old side has them.
unfoldable pub changes_at :
    List String → (olds news : List DependencyComponent) → List DependencyChange
changes_at [] olds news = []
changes_at (v ∷ vs) olds news =
    change_at (last_version v olds) (last_version v news) ++ changes_at vs olds news

abbrev pub kept_versions : (olds news : List DependencyComponent) → List String
kept_versions olds news = filter (λ v. includes (versions news) v) (distinct (versions olds))

abbrev pub list_changes : (olds news : List DependencyComponent) → List DependencyChange
list_changes olds news =
    map change_removed (unless_version news olds)
    ++ (map change_added (unless_version olds news)
        ++ changes_at (kept_versions olds news) olds news)

-- The changes of one package: a version that replaced the only other one, or all of them.
unfoldable pub diff_group : (olds news : List DependencyComponent) → List DependencyChange
unfolding changes_at moved_kind
diff_group (old ∷ []) (new ∷ []) =
    if not (old.version == new.version)
    then change_between (moved_kind old new) old new ∷ []
    else list_changes (old ∷ []) (new ∷ [])
diff_group olds news = list_changes olds news

module _ (lower : String → String) where
  abbrev pub component_key : DependencyComponent → String
  component_key c = ecosystem_text c.ecosystem <> (":" <> lower c.name)

  -- `groups.get(key) ?? []`.
  abbrev pub group_of : String → List DependencyComponent → List DependencyComponent
  group_of k cs = filter (λ c. component_key c == k) cs

  unfoldable pub diff_groups :
      List String → (befores afters : List DependencyComponent) → List DependencyChange
  unfolding diff_group
  diff_groups [] befores afters = []
  diff_groups (k ∷ ks) befores afters =
      diff_group (group_of k befores) (group_of k afters) ++ diff_groups ks befores afters

  abbrev pub all_keys : (befores afters : List DependencyComponent) → List String
  all_keys befores afters =
      sort text_leb (distinct (map component_key befores ++ map component_key afters))

  unfoldable pub diff_dependencies : (before after : DependencySnapshot) → List DependencyChange
  unfolding diff_groups
  diff_dependencies before after =
      diff_groups (all_keys before.components after.components) before.components after.components
