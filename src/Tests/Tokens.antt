-- ===== src/Tests/Tokens.antt =====
-- Tokens and scopes of the compliance service at concrete values.
use quilons_sentrycode.Common.{
  ◌≡◌, refl, String, none, some, if◌then◌else◌, ◌==◌, string_eq, ◌<>◌, lacks, arith,
}
use quilons_sentrycode.Common.Result.{ok, err, ◌>>=◌}
use quilons_sentrycode.Core.Json.{Fields, obj, stringify, get}
use quilons_sentrycode.Compliance.Scope.{ComplianceIdentity, compliance_identity, scope_text}
use quilons_sentrycode.Compliance.Scope.Identity.{
  IsClean, compliance_identity-IsClean, scope_key-separates,
}
use quilons_sentrycode.Compliance.Auth.{
  TokenHost, TokenOptions, claims_of, issue_compliance_token, verify_compliance_token,
}
use quilons_sentrycode.Compliance.Auth.RoundTrip.{verify-issue}
use quilons_sentrycode.Compliance.Auth.Soundness.{
  IsSigned, IsCurrent, verify_compliance_token-IsSigned,
}
use quilons_sentrycode.Tests.Samples.{host}

abbrev identity : ComplianceIdentity
identity = record { tenant = "t"; project = "p" }

abbrev options : TokenOptions
options = record { issuer = "quilons-compliance"; audience = "quilons.sentrycode" }

-- Tokens that expire at 905.
abbrev claims : Fields
claims = claims_of identity options 905

abbrev claims_json : String
claims_json =
    "{\"schemaVersion\":1,\"tenant\":\"t\",\"project\":\"p\",\"iss\":\"quilons-compliance\",\"aud\":\"quilons.sentrycode\",\"exp\":905}"

abbrev tokens : TokenHost
tokens = record {
  to_base64url = λ s. if s == claims_json then "claims" else "other";
  from_base64url = λ s. if s == "claims" then claims_json else "";
  hmac = λ payload secret. secret <> ("-" <> payload);
  parse_json = λ s. if s == claims_json then some (obj claims) else none;
  ceiling = λ s. none;
}

issued : issue_compliance_token tokens identity "k" options none 5 ≡ ok "claims.k-claims"
unfolding issue_compliance_token stringify
issued = refl

verified : verify_compliance_token tokens "claims.k-claims" "k" options 100 ≡ ok claims
unfolding verify_compliance_token get
verified = refl

expired :
    verify_compliance_token tokens "claims.k-claims" "k" options 905
    ≡ err "invalid or expired compliance token claims"
unfolding verify_compliance_token get
expired = refl

forged :
    verify_compliance_token tokens "claims.x-claims" "k" options 100
    ≡ err "invalid compliance token signature"
unfolding verify_compliance_token
forged = refl

verify-issue_example :
    (issue_compliance_token tokens identity "k" options none 5 >>= λ token.
    verify_compliance_token tokens token "k" options 100)
    ≡ ok claims
unfolding stringify lacks
verify-issue_example =
    verify-issue tokens identity "k" options none 5 100 refl refl refl (omega arith) (refl, refl)
      (refl, refl) refl refl

verify_compliance_token-IsSigned_example :
    IsSigned tokens "k" options 100 "claims.k-claims" claims
    × IsCurrent tokens "k" options 100 claims
verify_compliance_token-IsSigned_example =
    verify_compliance_token-IsSigned tokens "k" options 100 "claims.k-claims" claims verified

accepted_identity : compliance_identity " t " "p" ≡ ok identity
unfolding compliance_identity
accepted_identity = refl

trimmed_identity : IsClean "t" × IsClean "p" × (compliance_identity "t" "p" ≡ ok identity)
trimmed_identity = compliance_identity-IsClean " t " "p" identity accepted_identity

scope_key-separates_example : identity ≡ identity
unfolding lacks
scope_key-separates_example =
    scope_key-separates host identity identity refl refl refl refl (λ same. refl) refl

-- A NUL inside the names lets two identities have one text.
shared_text :
    scope_text (record { tenant = "a"; project = "b\0c" })
    ≡ scope_text (record { tenant = "a\0b"; project = "c" })
shared_text = refl

both_accepted :
    (compliance_identity "a" "b\0c" ≡ ok (record { tenant = "a"; project = "b\0c" }))
    × (compliance_identity "a\0b" "c" ≡ ok (record { tenant = "a\0b"; project = "c" }))
unfolding compliance_identity
both_accepted = (refl, refl)
