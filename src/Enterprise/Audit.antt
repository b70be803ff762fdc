-- ===== src/Enterprise/Audit.antt =====
-- src/enterprise/audit.ts: an append-only file of events, each with the hash of the one before it.
-- The signing key and the verifying key are functions on the text of a hash; `show` is the text that
-- a template gives to a value that is not a text.
pub mod Chain
pub mod Append
pub mod Commitment
use quilons_sentrycode.Common.{
  ℕ, suc, Bool, true, false, ◌&&◌, ◌||◌, not, String, List, [], ◌∷◌, ◌++◌, Option, none, some,
  if◌then◌else◌, ◌==◌, string_eq, option_beq, is_truthy, nat_beq, ◌<>◌,
}
use quilons_sentrycode.Common.Result.{Result, ok, err, ◌>>=◌}
use quilons_sentrycode.Core.Json.{
  Json, Fields, null, bool, num, str, obj, end, field, get, text, stringify,
}
use quilons_sentrycode.Core.Platform.{Platform, stable_id}

abbrev pub SigningKey : Type 0
SigningKey = Option (String → String)

abbrev pub VerifyingKey : Type 0
VerifyingKey = Option (String → Json → Result Bool)

-- The file: absent (ENOENT), with another error of the read, or its lines that are not empty.
pub data AuditFile : Type 0 where
  absent : AuditFile
  unreadable : String → AuditFile
  lines : List String → AuditFile

abbrev pub parsed_line : Option Json → Result Json
parsed_line none = err "SyntaxError"
parsed_line (some event) = ok event

unfoldable pub parse_lines : Platform → List String → Result (List Json)
parse_lines host [] = ok []
parse_lines host (line ∷ rest) = parsed_line (host.parse_json line) >>= λ event.
    parse_lines host rest >>= λ events. ok (event ∷ events)

unfoldable pub read_audit_events : Platform → AuditFile → Result (List Json)
read_audit_events host absent = ok []
read_audit_events host (unreadable message) = err message
read_audit_events host (lines ls) = parse_lines host ls

-- `event?.hash ?? 'GENESIS'`.
abbrev pub hash_value : Option Json → Json
hash_value none = str "GENESIS"
hash_value (some null) = str "GENESIS"
hash_value (some v) = v

abbrev pub hash_or_genesis : Json → Json
hash_or_genesis (obj fs) = hash_value (get "hash" fs)
hash_or_genesis _ = str "GENESIS"

-- `existing.at(-1)?.hash ?? 'GENESIS'`, where the first argument is for no event.
unfoldable pub previous_hash : Json → List Json → Json
previous_hash start [] = start
previous_hash start (event ∷ events) = previous_hash (hash_or_genesis event) events

unfoldable pub event_hash : Platform → Fields → String
event_hash host base = host.sha256 (stringify (obj base))

abbrev pub template : (Json → String) → Json → String
template show (str s) = s
template show v = show v

unfoldable pub unsigned_event :
    Platform → (Json → String) → (type' at' actor : String) → Fields → Json → Fields
unsigned_event host show type' at' actor detail previous =
    let key =
      type'
      <> ("|" <> (at' <> ("|" <> (stringify (obj detail) <> ("|" <> template show previous))))) in
    field "schemaVersion" (num 1) (
      field "id" (str (stable_id host "audit" key)) (
        field "at" (str at') (
          field "type" (str type') (
            field "actor" (str actor)
              (field "detail" (obj detail) (field "previousHash" previous end))))))

-- `{ ...base, [key]: value }`, for a key that the base has not.
unfoldable pub with_field : Fields → String → Json → Fields
with_field end k v = field k v end
with_field (field j w fs) k v = field j w (with_field fs k v)

abbrev pub signature_of : SigningKey → String → Option Json
signature_of none hash = none
signature_of (some sign) hash = if is_truthy (sign hash) then some (str (sign hash)) else none

abbrev pub with_signature : Fields → Option Json → Fields
with_signature fs none = fs
with_signature fs (some s) = with_field fs "signature" s

unfoldable pub signed_event : Platform → SigningKey → Fields → Fields
unfolding event_hash with_field
signed_event host key base =
    let hash = event_hash host base in
    with_signature (with_field base "hash" (str hash)) (signature_of key hash)

abbrev pub lines_of : AuditFile → List String
lines_of (lines ls) = ls
lines_of _ = []

-- The event, and the file with it.
unfoldable pub append_audit_event :
    Platform
    → (Json → String)
    → SigningKey
    → (type' at' actor : String) → Fields
    → AuditFile
    → Result (Fields × AuditFile)
append_audit_event host show key type' at' actor detail file = do
  existing ← read_audit_events host file
  let base =
      unsigned_event host show type' at' actor detail (previous_hash (str "GENESIS") existing)
  let event = signed_event host key base
  ok (event, lines (lines_of file ++ stringify (obj event) ∷ []))

-- `const { hash, signature, ...base } = event`.
unfoldable pub base_of : Fields → Fields
base_of end = end
base_of (field k v fs) =
    let rest = base_of fs in if k == "hash" || k == "signature" then rest else field k v rest

-- JavaScript's truth of a value; a number that is not natural is taken to be one but -0 and NaN,
-- which JSON has not.
abbrev pub json_truthy : Json → Bool
json_truthy null = false
json_truthy (bool b) = b
json_truthy (num n) = not (nat_beq n 0)
json_truthy (str s) = is_truthy s
json_truthy _ = true

-- `!publicKey || (event.signature && verify(...))`.
unfoldable pub accepts : VerifyingKey → String → Option Json → Result Bool
accepts none hash signature = ok true
accepts (some check) hash none = ok false
accepts (some check) hash (some s) = if json_truthy s then check hash s else ok false

abbrev pub next_hash : String → Bool → Option String
next_hash hash good = if good then some hash else none

-- The hash to go on with, or none where the event is invalid.
unfoldable pub check_event : Platform → VerifyingKey → String → Json → Result (Option String)
check_event host key previous null = err "TypeError"
check_event host key previous (obj fs) =
    let hash = event_hash host (base_of fs) in
    if option_beq (text "previousHash" fs) (some previous)
      && option_beq (text "hash" fs) (some hash)
    then (accepts key hash (get "signature" fs) >>= λ good. ok (next_hash hash good))
    else ok none
check_event host key previous _ = ok none

pub data ChainVerdict : Type 0 where
  intact : ChainVerdict
  broken : ℕ → ChainVerdict

unfoldable pub verify_from : Platform → VerifyingKey → String → ℕ → List Json → Result ChainVerdict
verify_from host key previous index [] = ok intact
verify_from host key previous index (event ∷ events) = check_event host key previous event >>= λ o.
    elim o [ none ↦ ok (broken index) | some hash ↦ verify_from host key hash (suc index) events ]

unfoldable pub verify_audit_chain : Platform → VerifyingKey → AuditFile → Result ChainVerdict
verify_audit_chain host key file =
    read_audit_events host file >>= λ events. verify_from host key "GENESIS" 0 events
