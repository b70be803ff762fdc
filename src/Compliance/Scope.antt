-- ===== src/Compliance/Scope.antt =====
-- src/compliance/scope.ts: the tenant and project that records belong to, and the key of their
-- directory.
pub mod Identity
use Prim.Native.String
use quilons_sentrycode.Common.{
  ℕ, not, String, length, ltb, trim, utf16, take_chars, is_truthy, ◌<>◌,
}
use quilons_sentrycode.Common.Result.{Result, ok, ◌>>=◌, ◌>>◌, throw_if}
use quilons_sentrycode.Core.Platform.{Platform}

pub record ComplianceIdentity : Type 0 where
  pub tenant : String
  pub project : String

-- `value.length`, in UTF-16 units.
abbrev pub utf16_length : String → ℕ
utf16_length s = length (utf16 s)

unfoldable pub clean : String → String → Result String
unfolding trim utf16
clean value label = do
  throw_if (not (is_truthy (trim value))) (label <> " is required for Compliance publication")
  throw_if (ltb 200 (utf16_length (trim value))) (label <> " is too long")
  ok (trim value)

unfoldable pub compliance_identity : String → String → Result ComplianceIdentity
unfolding clean
compliance_identity tenant project = clean tenant "tenant" >>= λ t.
    clean project "project" >>= λ p. ok (record { tenant = t; project = p })

-- The text whose digest the key is.
abbrev pub scope_text : ComplianceIdentity → String
scope_text identity = identity.tenant <> ("\0" <> identity.project)

unfoldable pub scope_key : Platform → ComplianceIdentity → String
unfolding take_chars
scope_key host identity = take_chars 32 (host.sha256 (scope_text identity))
