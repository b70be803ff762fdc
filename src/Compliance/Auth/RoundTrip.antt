-- ===== src/Compliance/Auth/RoundTrip.antt =====
-- src/compliance/auth.ts: issuing a token and verifying it.
use Prim.Native.String.append
use quilons_sentrycode.Common.{
  ℕ, ◌+◌, ◌<◌, ◌≡◌, ◌∙◌, ap, refl, true, false, String, [], ◌∷◌, Option, some, arith, leb,
  string_eq, ==_refl, is_truthy, split, lacks, split-append, split-lacks, or_else, ◌<>◌,
}
use quilons_sentrycode.Common.Result.{ok, ◌>>=◌}
use quilons_sentrycode.Core.Json.{obj, get, stringify}
use quilons_sentrycode.Compliance.Scope.{ComplianceIdentity}
use quilons_sentrycode.Compliance.Auth.{
  TokenHost, TokenOptions, dot, issued_claims, issued_payload, issue_compliance_token,
  verify_compliance_token,
}

-- A part of a token: not empty and without a full stop.
abbrev pub IsPart : String → Type 0
IsPart s = (is_truthy s ≡ true) × (lacks dot s ≡ true)

after_dot : (s : String) → ("." <> s) ≡ String.◌∷◌ "." s
after_dot s = append.cons "." "" s ∙ ap (String.◌∷◌ ".") (append.nil s)

token-parts : (p s : String) → IsPart p → IsPart s → split dot (p <> ("." <> s)) ≡ p ∷ s ∷ []
token-parts p s h k =
    ap (λ t. split dot (p <> t)) (after_dot s)
    ∙ split-append dot "." p s refl h.1
    ∙ ap (λ ps. p ∷ ps) (split-lacks dot s k.1)

-- Issuing a token and verifying it under the same secret, issuer and audience before it expires
-- gives back the claims it was issued for: where no part of the identity is empty, JSON and
-- base64url give back what they encoded, and the encodings are not empty and hold no full stop.
pub verify-issue :
    (host : TokenHost) (identity : ComplianceIdentity) (secret : String) (options : TokenOptions)
    (ttl : Option ℕ) (now later : ℕ)
    → is_truthy secret ≡ true
    → is_truthy identity.tenant ≡ true
    → is_truthy identity.project ≡ true
    → later < now + or_else ttl 900
    → IsPart (issued_payload host identity options ttl now)
    → IsPart (host.hmac (issued_payload host identity options ttl now) secret)
    → host.from_base64url (issued_payload host identity options ttl now)
      ≡ stringify (obj (issued_claims host identity options ttl now))
    → host.parse_json (stringify (obj (issued_claims host identity options ttl now)))
      ≡ some (obj (issued_claims host identity options ttl now))
    → (issue_compliance_token host identity secret options ttl now >>= λ token.
        verify_compliance_token host token secret options later)
      ≡ ok (issued_claims host identity options ttl now)
unfolding issue_compliance_token verify_compliance_token get
verify-issue host identity secret options ttl now later has_secret has_tenant has_project fresh
      payload_part mac_part decodes parses =
    let payload = issued_payload host identity options ttl now in
    let mac = host.hmac payload secret in
    let alive : leb (now + or_else ttl 900) later ≡ false = ground arith in
    rw has_secret (
      rw (token-parts payload mac payload_part mac_part) (
        rw payload_part.0 (
          rw mac_part.0 (
            rw has_secret (
              rw (==_refl mac) (
                rw decodes (
                  rw parses (
                    rw has_tenant (
                      rw has_project (
                        rw alive (
                          rw (==_refl options.issuer)
                            (rw (==_refl options.audience) refl))))))))))))
