-- ===== src/Compliance/Auth.antt =====
-- src/compliance/auth.ts: the signed tokens of the compliance service. Times are whole seconds.
pub mod RoundTrip
pub mod Soundness
use quilons_sentrycode.Common.{
  ℕ, ◌+◌, Bool, true, false, not, ◌||◌, String, List, [], ◌∷◌, Option, none, some, leb, nat_beq,
  ◌==◌, string_eq, is_truthy, split, or_else, ◌<>◌,
}
use quilons_sentrycode.Common.Result.{Result, ok, err, ◌>>=◌, ◌>>◌, throw_if}
use quilons_sentrycode.Core.Json.{
  Json, Fields, null, bool, num, other_num, str, arr, obj, end, field, get, stringify,
}
use quilons_sentrycode.Compliance.Scope.{ComplianceIdentity}

-- What the tokens take from their host.
pub record TokenHost : Type 0 where
  -- `Buffer.from(text).toString('base64url')`.
  pub to_base64url : String → String
  -- `Buffer.from(text, 'base64url').toString('utf8')`.
  pub from_base64url : String → String
  -- `createHmac('sha256', secret).update(payload).digest('base64url')`, payload first.
  pub hmac : String → String → String
  -- `JSON.parse(text)`; `none` is a SyntaxError.
  pub parse_json : String → Option Json
  -- The least natural number that is not below the number JavaScript prints as the text; `none`
  -- where it is not finite.
  pub ceiling : String → Option ℕ

pub record TokenOptions : Type 0 where
  pub issuer : String
  pub audience : String

-- The full stop.
abbrev pub dot : ℕ → Bool
dot c = nat_beq c 46

-- `ComplianceTokenClaims` as the object that `JSON.stringify` prints.
abbrev pub claims_of : ComplianceIdentity → TokenOptions → ℕ → Fields
claims_of identity options exp = field "schemaVersion" (num 1) (
    field "tenant" (str identity.tenant) (
      field "project" (str identity.project) (
        field "iss" (str options.issuer)
          (field "aud" (str options.audience) (field "exp" (num exp) end)))))

-- `!value` on a value of a JSON text.
abbrev pub is_falsy : Option Json → Bool
is_falsy none = true
is_falsy (some null) = true
is_falsy (some (bool b)) = not b
is_falsy (some (num n)) = nat_beq n 0
is_falsy (some (other_num s)) = false
is_falsy (some (str s)) = not (is_truthy s)
is_falsy (some (arr xs)) = false
is_falsy (some (obj fs)) = false

-- `value === text`.
abbrev pub is_text : Option Json → String → Bool
is_text (some (str s)) t = s == t
is_text _ t = false

abbrev pub is_version_one : Option Json → Bool
is_version_one (some (num n)) = nat_beq n 1
is_version_one _ = false

-- The members of a value that is not `null`: the names that the claims have are no members of a
-- text, a number, a Boolean or an array.
abbrev pub members : Json → Result Fields
members null = err "Cannot read properties of null (reading 'schemaVersion')"
members (obj fs) = ok fs
members _ = ok end

module _ (host : TokenHost) where
  -- The claims of a token issued at the time, and their encoding.
  abbrev pub issued_claims : ComplianceIdentity → TokenOptions → Option ℕ → ℕ → Fields
  issued_claims identity options ttl_seconds now =
      claims_of identity options (now + or_else ttl_seconds 900)

  abbrev pub issued_payload : ComplianceIdentity → TokenOptions → Option ℕ → ℕ → String
  issued_payload identity options ttl_seconds now =
      host.to_base64url (stringify (obj (issued_claims identity options ttl_seconds now)))

  unfoldable pub issue_compliance_token :
      ComplianceIdentity
      → (secret : String) → TokenOptions
      → (ttl_seconds : Option ℕ) → (now : ℕ) → Result String
  issue_compliance_token identity secret options ttl_seconds now =
      throw_if (not (is_truthy secret)) "Compliance HMAC secret is required"
      >> (let payload = issued_payload identity options ttl_seconds now in
          ok (payload <> ("." <> host.hmac payload secret)))

  -- `!Number.isFinite(exp) || exp <= now`.
  abbrev pub is_expired : Option Json → ℕ → Bool
  is_expired (some (num n)) now = leb n now
  is_expired (some (other_num s)) now = elim (host.ceiling s) [ none ↦ true | some n ↦ leb n now ]
  is_expired _ now = true

  abbrev pub is_refused : Fields → TokenOptions → ℕ → Bool
  is_refused claims options now =
      not (is_version_one (get "schemaVersion" claims))
      || is_falsy (get "tenant" claims)
      || is_falsy (get "project" claims)
      || not (is_text (get "iss" claims) options.issuer)
      || not (is_text (get "aud" claims) options.audience)
      || is_expired (get "exp" claims) now

  abbrev pub check_claims : TokenOptions → ℕ → Option Json → Result Fields
  check_claims options now none = err "invalid compliance token payload"
  check_claims options now (some v) = members v >>= λ claims.
      throw_if (is_refused claims options now) "invalid or expired compliance token claims"
      >> ok claims

  -- `[payload, signature]`, the first two parts of the token; a missing one is the empty text, which
  -- is as falsy as `undefined`.
  abbrev pub verify_parts :
      (payload signature secret : String) → TokenOptions → (now : ℕ) → Result Fields
  verify_parts payload signature secret options now =
      throw_if (not (is_truthy payload) || not (is_truthy signature) || not (is_truthy secret))
        "invalid compliance token"
      >> (throw_if (not (host.hmac payload secret == signature))
            "invalid compliance token signature"
          >> check_claims options now (host.parse_json (host.from_base64url payload)))

  abbrev pub verify_split : List String → String → TokenOptions → ℕ → Result Fields
  verify_split (payload ∷ signature ∷ rest) secret options now =
      verify_parts payload signature secret options now
  verify_split (payload ∷ []) secret options now = verify_parts payload "" secret options now
  verify_split [] secret options now = verify_parts "" "" secret options now

  unfoldable pub verify_compliance_token :
      (token secret : String) → TokenOptions → (now : ℕ) → Result Fields
  unfolding split
  verify_compliance_token token secret options now =
      verify_split (split dot token) secret options now
