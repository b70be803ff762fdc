-- ===== src/Incremental/Affected.antt =====
-- `affectedServices` of src/monorepo/discover.ts.
pub mod Coverage
use text.Mathlib.Text.{starts_with}
use quilons_sentrycode.Common.{
  Bool, not, ◌&&◌, ◌||◌, String, List, [], filter, any, is_empty, is_truthy, if◌then◌else◌, ◌==◌,
  string_eq, ◌<>◌,
}

pub data ServiceKind : Type 0 where
  node python java dotnet cpp rust go generic : ServiceKind

pub record ServiceComponent : Type 0 where
  pub name : String
  pub root : String
  pub kind : ServiceKind

-- `f === s.root || f.startsWith(`${s.root}/`)`.
unfoldable pub lies_in : String → ServiceComponent → Bool
lies_in f s = f == s.root || starts_with f (s.root <> "/")

-- A file in no service that has a directory of its own.
unfoldable pub is_global : List ServiceComponent → String → Bool
is_global services f = not (any (λ s. is_truthy s.root && lies_in f s) services)

abbrev pub is_affected : List String → ServiceComponent → Bool
is_affected changed s = not (is_truthy s.root) || any (λ f. lies_in f s) changed

unfoldable pub affected_services : List String → List ServiceComponent → List ServiceComponent
affected_services changed services =
    if is_empty changed
    then []
    else if any (is_global services) changed
    then services
    else filter (is_affected changed) services
