-- ===== src/Policy/WaiverFile.antt =====
-- src/policy/waivers.ts: reading the waivers file.
pub mod Validity
use quilons_sentrycode.Common.{
  ℕ, suc, not, ◌||◌, String, List, [], ◌∷◌, Option, none, some, if◌then◌else◌, string_eq, includes,
  is_some, show_nat, is_blank, ◌<>◌,
}
use quilons_sentrycode.Common.Result.{Result, ok, err, ◌>>=◌, ◌>>◌, throw_if}
use quilons_sentrycode.Core.Json.{Json, obj, arr, Items, nil, cons, Fields, JsonFile, text}
use quilons_sentrycode.Core.Platform.{Platform}
use quilons_sentrycode.Core.Findings.{Waiver}

abbrev label : ℕ → String → String
label index what = "waiver[" <> (show_nat index <> ("] " <> what))

-- `typeof value !== 'string' || !value.trim()` throws.
abbrev pub required : Option String → String → Result String
required none message = err message
required (some s) message = if is_blank s then err message else ok s

abbrev present : Option String → String → Result String
present none message = err message
present (some s) message = ok s

-- The loop that refuses an id which it has seen.
unfoldable pub check_ids : List String → List Waiver → Result (Unit {0})
check_ids ids [] = ok tt
check_ids ids (w ∷ ws) = do
  throw_if (includes ids w.id) ("duplicate waiver id: " <> w.id)
  check_ids (w.id ∷ ids) ws

module _ (host : Platform) where
  parse_fields : ℕ → Fields → Result Waiver
  parse_fields index v = do
    id ← required (text "id" v) (label index "requires id")
    reason ← required (text "reason" v) (label index "requires reason")
    expires_at ← present (text "expiresAt" v) (label index "requires expiresAt")
    throw_if (not (is_some (host.parse_date expires_at))) (label index "has invalid expiresAt")
    throw_if
        (not (
          is_some (text "fingerprint" v)
          || is_some (text "ruleId" v)
          || is_some (text "path" v)
          || is_some (text "scanner" v)))
        (label index "must scope at least one of fingerprint, ruleId, path, or scanner")
    ok (record {
      id = id;
      fingerprint = text "fingerprint" v;
      rule_id = text "ruleId" v;
      path = text "path" v;
      scanner = text "scanner" v;
      repository = text "repository" v;
      service = text "service" v;
      reason = reason;
      ticket = text "ticket" v;
      created_at = text "createdAt" v;
      expires_at = expires_at;
      author = text "author" v;
      approver = text "approver" v;
      approved_at = text "approvedAt" v;
    })

  unfoldable pub parse_waiver : ℕ → Json → Result Waiver
  unfolding parse_fields
  parse_waiver index (obj v) = parse_fields index v
  parse_waiver index _ = err (label index "must be an object")

  -- `parsed.map(parseWaiver)`, from an index on.
  unfoldable pub parse_waivers : ℕ → Items → Result (List Waiver)
  parse_waivers index nil = ok []
  parse_waivers index (cons x xs) = do
    w ← parse_waiver index x
    ws ← parse_waivers (suc index) xs
    ok (w ∷ ws)

  unfoldable pub waivers_of : Json → Result (List Waiver)
  waivers_of (arr xs) = do ws ← parse_waivers 0 xs; check_ids [] ws; ok ws
  waivers_of _ = err "waivers file must contain a JSON array"

  unfoldable pub load_waivers : String → JsonFile → Result (List Waiver)
  load_waivers absolute (JsonFile.missing message) = ok []
  load_waivers absolute (JsonFile.unreadable message) = err message
  load_waivers absolute JsonFile.malformed = err ("Invalid JSON in waivers file: " <> absolute)
  load_waivers absolute (JsonFile.value v) = waivers_of v
