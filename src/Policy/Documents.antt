-- ===== src/Policy/Documents.antt =====
-- src/policy/documents.ts: which documents of the policy directory apply, and in which order.
pub mod Parsing
pub mod Order
pub mod Selection
use quilons_sentrycode.Common.{
  ℕ, Bool, true, false, not, ◌&&◌, ◌||◌, String, List, [], ◌∷◌, Option, none, some, if◌then◌else◌,
  string_eq, option_beq, is_truthy, includes, filter, sort, ltb, nat_beq, ends_with, to_slashes,
  text_leb, ◌<>◌,
}
use quilons_sentrycode.Common.Result.{Result, ok, err, ◌>>=◌, ◌>>◌, throw_if}
use quilons_sentrycode.Core.Enums.{level_rank}
use quilons_sentrycode.Core.Json.{Json, JsonFile}
use quilons_sentrycode.Core.Platform.{Platform, not_after, after}
use quilons_sentrycode.Core.PolicyTypes.{PolicyDocument, PolicyScope, PolicyContext}
use quilons_sentrycode.Policy.Resolve.{level_text}
use Parsing.{parse_policy_document}

abbrev pub Located : Type 0
Located = String × PolicyDocument

-- `!(want !== undefined && want !== have)`.
unfoldable pub permits : Option String → Option String → Bool
permits none have = true
permits (some w) have = option_beq (some w) have

unfoldable pub scope_permits : PolicyScope → PolicyContext → Bool
unfolding permits
scope_permits s c =
    permits s.tenant c.tenant
    && permits s.project c.project
    && permits s.repository (some c.repository)
    && permits s.service c.service

unfoldable pub matches_scope : PolicyDocument → PolicyContext → Bool
matches_scope d c = elim d.scope [ none ↦ true | some s ↦ scope_permits s c ]

-- A date that is set, not empty, and past or not past a moment.
abbrev pub dated : (Option ℕ → ℕ → Bool) → Platform → Option String → ℕ → Bool
dated test host none now = false
dated test host (some text) now = is_truthy text && test (host.parse_date text) now

unfoldable pub active_at : Platform → PolicyDocument → ℕ → Bool
active_at host d now =
    not (dated after host d.effective_from now) && not (dated not_after host d.effective_until now)

-- What reading the directory gives: no such directory, another error, or its files.
pub data Directory : Type 0 where
  missing : Directory
  unreadable : String → Directory
  entries : List (String × JsonFile) → Directory

abbrev pub by_name : String × JsonFile → String × JsonFile → Bool
by_name a b = text_leb a.0 b.0

-- `JSON.parse(await readFile(...))`, with its errors.
unfoldable pub read_json : String → JsonFile → Result Json
read_json relative (JsonFile.missing message) = err message
read_json relative (JsonFile.unreadable message) = err message
read_json relative JsonFile.malformed = err ("Invalid JSON in policy file: " <> relative)
read_json relative (JsonFile.value v) = ok v

abbrev pub key_of : PolicyDocument → String
key_of d = level_text d.level <> (":" <> d.id)

module _ (host : Platform) (directory : String) (context : PolicyContext) (now : ℕ) where
  unfoldable pub applies : PolicyDocument → Bool
  applies d = matches_scope d context && active_at host d now

  -- The loop over the files.
  unfoldable pub load_files : List String → List (String × JsonFile) → Result (List Located)
  load_files seen [] = ok []
  load_files seen ((name, file) ∷ files) = do
    let relative = to_slashes directory <> ("/" <> name)
    raw ← read_json relative file
    d ← parse_policy_document host raw relative
    throw_if (includes seen (key_of d))
        ("Duplicate policy id at level " <> (level_text d.level <> (": " <> d.id)))
    rest ← load_files (key_of d ∷ seen) files
    ok (if applies d then (relative, d) ∷ rest else rest)

  -- Levels first, then paths.
  abbrev pub precedes : Located → Located → Bool
  precedes (p, a) (q, b) =
      ltb (level_rank a.level) (level_rank b.level)
      || (nat_beq (level_rank a.level) (level_rank b.level) && host.locale_le p q)

  unfoldable pub load_policy_documents : Directory → Result (List Located)
  load_policy_documents missing = ok []
  load_policy_documents (unreadable message) = err message
  load_policy_documents (entries files) = do
    let named = sort by_name (filter (λ f. ends_with f.0 ".json") files)
    loaded ← load_files [] named
    ok (sort precedes loaded)
