-- ===== src/Policy/Waivers.antt =====
-- src/policy/waivers.ts: which waiver, if any, covers a finding, and what the audit trail says.
pub mod Applicability
pub mod Search
use quilons_sentrycode.Common.{
  ℕ, Bool, false, not, ◌&&◌, ◌||◌, String, List, [], ◌∷◌, ◌++◌, Option, none, some, if◌then◌else◌,
  option_beq, string_eq, is_truthy, show_nat, ◌<>◌,
}
use quilons_sentrycode.Core.Platform.{Platform, not_after, exceeds_days}
use quilons_sentrycode.Core.Findings.{Finding, SourceLocation, Waiver}
use quilons_sentrycode.Core.PolicyTypes.{PolicyContext, PolicyAuditRecord, AuditEvent}
use quilons_sentrycode.Core.Settings.{WaiversConfig}

-- A text that is set and not empty.
abbrev pub is_set : Option String → Bool
is_set none = false
is_set (some s) = is_truthy s

-- `!(want && want !== have)`.
unfoldable pub admits : Option String → Option String → Bool
admits want have = not (is_set want && not (option_beq want have))

abbrev pub location_path : Option SourceLocation → Option String
location_path none = none
location_path (some l) = some l.path

unfoldable pub scope_matches : Waiver → Finding → PolicyContext → Bool
unfolding admits
scope_matches w f c =
    admits w.fingerprint (some f.fingerprint)
    && admits w.rule_id (some f.rule_id)
    && admits w.path (location_path f.location)
    && admits w.scanner (some f.scanner)
    && admits w.repository (some c.repository)
    && admits w.service c.service

-- What one round of the search does with a waiver.
pub data Verdict : Type 0 where
  skip : Verdict
  reject : String → Verdict
  apply : Verdict

module _ (host : Platform) (config : WaiversConfig) where
  -- The checks on `createdAt`.
  unfoldable pub duration_validity : String → Option ℕ → Option String
  duration_validity created_at expires = elim (host.parse_date created_at) [
    | none ↦ some "invalid createdAt"
    | some created ↦
        if exceeds_days expires created config.max_duration_days
        then some ("duration exceeds " <> (show_nat config.max_duration_days <> " days"))
        else none
  ]

  abbrev pub created_validity : Option String → Option ℕ → Option String
  created_validity none expires = none
  created_validity (some created_at) expires =
      if is_truthy created_at then duration_validity created_at expires else none

  -- The reason why the waiver is not valid, or none.
  unfoldable pub waiver_validity : Waiver → ℕ → Option String
  unfolding duration_validity
  waiver_validity w now =
      let expires = host.parse_date w.expires_at in
      if not_after expires now
      then some "expired"
      else if config.require_approval && (not (is_set w.approver) || not (is_set w.approved_at))
      then some "approval required"
      else if config.require_ticket && not (is_set w.ticket)
      then some "ticket required"
      else created_validity w.created_at expires

  abbrev waiver_record : AuditEvent → ℕ → Waiver → Finding → String → PolicyAuditRecord
  waiver_record event now w f reason = record {
    event = event;
    at = host.to_iso_string now;
    policy_fingerprint = none;
    policy_sources = none;
    waiver_id = some w.id;
    finding_id = some f.id;
    decision = none;
    reason = some reason;
  }

  abbrev pub rejected : ℕ → Waiver → Finding → String → PolicyAuditRecord
  rejected = waiver_record AuditEvent.waiver_rejected

  abbrev pub applied : ℕ → Waiver → Finding → PolicyAuditRecord
  applied now w f = waiver_record AuditEvent.waiver_applied now w f w.reason

  unfoldable pub verdict : Finding → PolicyContext → ℕ → Waiver → Verdict
  verdict f c now w =
      if scope_matches w f c
      then elim (waiver_validity w now) [ none ↦ apply | some reason ↦ reject reason ]
      else skip

  -- The waiver that applies, and the audit trail with what the search added to it.
  unfoldable pub find_applicable_waiver :
      Finding
      → PolicyContext
      → ℕ
      → List Waiver
      → List PolicyAuditRecord
      → Option Waiver × List PolicyAuditRecord
  find_applicable_waiver f c now [] audit = (none, audit)
  find_applicable_waiver f c now (w ∷ ws) audit = elim (verdict f c now w) [
    | skip ↦ find_applicable_waiver f c now ws audit
    | reject reason ↦ find_applicable_waiver f c now ws (audit ++ rejected now w f reason ∷ [])
    | apply ↦ (some w, audit ++ applied now w f ∷ [])
  ]
