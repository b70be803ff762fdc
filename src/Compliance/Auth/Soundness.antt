-- ===== src/Compliance/Auth/Soundness.antt =====
-- src/compliance/auth.ts: what an accepted token carries.
use quilons_sentrycode.Common.{
  ℕ, ◌≡◌, ◌∙◌, ap, sym, refl, subst, Bool, true, false, not, ◌||◌, String, List, [], ◌∷◌, Option,
  some, none, arith, ◌==◌, string_eq, is_truthy, split, eq_iff, nat_beq_iff,
}
use quilons_sentrycode.Common.Result.{ok, throw_if-eq-ok, ok-injective}
use quilons_sentrycode.Core.Json.{Json, Fields, null, bool, num, other_num, str, arr, obj, get}
use quilons_sentrycode.Compliance.Auth.{
  TokenHost, TokenOptions, dot, verify_compliance_token, verify_parts, verify_split, is_text,
  is_version_one, is_falsy, is_refused, is_expired, check_claims,
}

module _ (host : TokenHost) (secret : String) (options : TokenOptions) (now : ℕ) where
  -- The payload of the token carries the claims, and its signature is the payload's under the secret.
  abbrev pub IsSigned : String → Fields → Type 0
  IsSigned token claims =
      (payload : String) × (rest : List String) × (is_truthy secret ≡ true)
      × (split dot token ≡ payload ∷ host.hmac payload secret ∷ rest)
      × (host.parse_json (host.from_base64url payload) ≡ some (obj claims))

  -- The claims are of the version, the issuer and the audience, name a tenant and a project, and
  -- have not expired.
  abbrev pub IsCurrent : Fields → Type 0
  IsCurrent claims =
      (get "schemaVersion" claims ≡ some (num 1))
      × (get "iss" claims ≡ some (str options.issuer))
      × (get "aud" claims ≡ some (str options.audience))
      × (is_falsy (get "tenant" claims) ≡ false)
      × (is_falsy (get "project" claims) ≡ false)
      × (is_expired host (get "exp" claims) now ≡ false)

  is_text-eq : (v : Option Json) (t : String) → not (is_text v t) ≡ false → v ≡ some (str t)
  is_text-eq none t h = cc
  is_text-eq (some null) t h = cc
  is_text-eq (some (bool b)) t h = cc
  is_text-eq (some (num n)) t h = cc
  is_text-eq (some (other_num s)) t h = cc
  is_text-eq (some (str s)) t h = ap (λ u. some (str u)) ((eq_iff s t).0 (ground (arith, h)))
  is_text-eq (some (arr xs)) t h = cc
  is_text-eq (some (obj fs)) t h = cc

  is_version_one-eq : (v : Option Json) → not (is_version_one v) ≡ false → v ≡ some (num 1)
  is_version_one-eq none h = cc
  is_version_one-eq (some null) h = cc
  is_version_one-eq (some (bool b)) h = cc
  is_version_one-eq (some (num n)) h =
      ap (λ m. some (num m)) ((nat_beq_iff n 1).0 (ground (arith, h)))
  is_version_one-eq (some (other_num s)) h = cc
  is_version_one-eq (some (str s)) h = cc
  is_version_one-eq (some (arr xs)) h = cc
  is_version_one-eq (some (obj fs)) h = cc

  or-false : (a b : Bool) → (a || b) ≡ false → (a ≡ false) × (b ≡ false)
  or-false a b h = ground arith

  is_refused-IsCurrent :
      (claims : Fields) → is_refused host claims options now ≡ false → IsCurrent claims
  is_refused-IsCurrent claims h =
      let alive = or-false _ (is_expired host (get "exp" claims) now) h in
      let audience = or-false _ (not (is_text (get "aud" claims) options.audience)) alive.0 in
      let issuer = or-false _ (not (is_text (get "iss" claims) options.issuer)) audience.0 in
      let project = or-false _ (is_falsy (get "project" claims)) issuer.0 in
      let tenant = or-false _ (is_falsy (get "tenant" claims)) project.0 in
      (
        is_version_one-eq _ tenant.0,
        is_text-eq _ _ issuer.1,
        is_text-eq _ _ audience.1,
        tenant.1,
        project.1,
        alive.1,
      )

  check_claims-IsCurrent :
      (parsed : Option Json) (claims : Fields)
      → check_claims host options now parsed ≡ ok claims
      → (parsed ≡ some (obj claims)) × IsCurrent claims
  unfolding get
  check_claims-IsCurrent none claims h = cc
  check_claims-IsCurrent (some (obj fs)) claims h =
      let checked = throw_if-eq-ok (is_refused host fs options now) _ _ h in
      subst (λ c. (some (obj fs) ≡ some (obj c)) × IsCurrent c) (ok-injective checked.1)
        (refl, is_refused-IsCurrent fs checked.0)
  check_claims-IsCurrent (some null) claims h = cc
  check_claims-IsCurrent (some (bool b)) claims h = cc
  check_claims-IsCurrent (some (num n)) claims h = cc
  check_claims-IsCurrent (some (other_num s)) claims h = cc
  check_claims-IsCurrent (some (str s)) claims h = cc
  check_claims-IsCurrent (some (arr xs)) claims h = cc

  verify_parts_sound :
      (payload signature : String) (claims : Fields)
      → verify_parts host payload signature secret options now ≡ ok claims
      → (is_truthy signature ≡ true)
        × (is_truthy secret ≡ true)
        × (host.hmac payload secret ≡ signature)
        × (host.parse_json (host.from_base64url payload) ≡ some (obj claims))
        × IsCurrent claims
  verify_parts_sound payload signature claims h =
      let filled = throw_if-eq-ok _ _ _ h in
      let signed = throw_if-eq-ok (not (host.hmac payload secret == signature)) _ _ filled.1 in
      let checked = check_claims-IsCurrent _ claims signed.1 in
      let keyed = or-false _ (not (is_truthy secret)) filled.0 in
      let signature_given = or-false _ (not (is_truthy signature)) keyed.0 in
      (
        ground (arith, signature_given.1),
        ground (arith, keyed.1),
        (eq_iff (host.hmac payload secret) signature).0 (ground (arith, signed.0)),
        checked.0,
        checked.1,
      )

  verify_split_sound :
      (token : String) (parts : List String) (claims : Fields)
      → split dot token ≡ parts
      → verify_split host parts secret options now ≡ ok claims
      → IsSigned token claims × IsCurrent claims
  verify_split_sound token [] claims e h = cc
  verify_split_sound token (payload ∷ []) claims e h =
      absurd (let parts = verify_parts_sound payload "" claims h in cc)
  verify_split_sound token (payload ∷ (signature ∷ rest)) claims e h =
      let sound = verify_parts_sound payload signature claims h in
      ((payload, rest, sound.1, e ∙ ap (λ s. payload ∷ s ∷ rest) (sym sound.2), sound.3), sound.4)

  -- A token is accepted only with the claims that its payload carries, when its signature is the
  -- payload's under the secret, which is not empty, and only when the claims have the version, the issuer and the
  -- audience asked for, a tenant and a project, and have not expired.
  pub verify_compliance_token-IsSigned :
      (token : String) (claims : Fields)
      → verify_compliance_token host token secret options now ≡ ok claims
      → IsSigned token claims × IsCurrent claims
  unfolding verify_compliance_token
  verify_compliance_token-IsSigned token claims h =
      verify_split_sound token (split dot token) claims refl h
