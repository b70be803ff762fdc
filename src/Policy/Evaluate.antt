-- ===== src/Policy/Evaluate.antt =====
-- src/policy/evaluate.ts: the decision about a set of scanner results under a policy.
-- A failure mode is looked up among the entries of the record alone.
pub mod Findings
pub mod Required
pub mod Decisions
pub mod Counts
use quilons_sentrycode.Common.{
  ℕ, Bool, true, false, not, ◌&&◌, String, List, [], ◌∷◌, ◌++◌, map, Option, none, some,
  if◌then◌else◌, ◌==◌, string_eq, option_beq, or_else, length, filter, includes, is_empty, show_nat,
  join, ◌<>◌,
}
use quilons_sentrycode.Core.Enums.{
  Severity, Decision, ScannerExecutionStatus, ScannerFailureMode, severity_eq, status_eq,
  decision_eq,
}
use quilons_sentrycode.Core.Findings.{Finding, ScannerResult, Waiver}
use quilons_sentrycode.Core.PolicyTypes.{
  EffectivePolicy, PolicyContext, PolicyAuditRecord, AuditEvent, AppliedFinding, PolicyResult,
  SourceDocument,
}
use quilons_sentrycode.Core.Platform.{Platform}
use quilons_sentrycode.Core.Settings.{SentryCodeConfig}
use quilons_sentrycode.Policy.Waivers.{find_applicable_waiver}

-- `result.status ?? 'success'`.
abbrev pub status_of : ScannerResult → ScannerExecutionStatus
status_of r = or_else r.status ScannerExecutionStatus.success

abbrev pub is_failed : ScannerResult → Bool
is_failed r = status_of r == ScannerExecutionStatus.failed

abbrev pub config_only : SentryCodeConfig → EffectivePolicy
config_only config = record {
  source_documents = [];
  fail_on = config.policy.fail_on;
  warn_on = config.policy.warn_on;
  required_scanners = config.policy.required_scanners;
  scanner_failure_modes = config.policy.scanner_failure_modes;
  locked_fields = [];
  fingerprint = "config-only";
}

abbrev pub unknown_context : PolicyContext
unknown_context = record { tenant = none; project = none; repository = "unknown"; service = none }

abbrev source_name : SourceDocument → String
source_name d = d.id <> ("@" <> d.version)

resolved_record : Platform → ℕ → EffectivePolicy → PolicyAuditRecord
resolved_record host now policy = record {
  event = AuditEvent.policy_resolved;
  at = host.to_iso_string now;
  policy_fingerprint = some policy.fingerprint;
  policy_sources = some (map source_name policy.source_documents);
  waiver_id = none;
  finding_id = none;
  decision = none;
  reason = none;
}

-- The required scanners that did not run: absent, or skipped.
unfoldable pub present_scanners : List ScannerResult → List String
present_scanners results =
    map (λ r. r.scanner) (filter (λ r. not (status_of r == ScannerExecutionStatus.skipped)) results)

unfoldable pub missing_scanners : List String → List ScannerResult → List String
unfolding present_scanners
missing_scanners required results =
    filter (λ id. not (includes (present_scanners results) id)) required

unfoldable pub lookup_mode : String → List (String × ScannerFailureMode) → Option ScannerFailureMode
lookup_mode k [] = none
lookup_mode k ((j, m) ∷ rest) = if j == k then some m else lookup_mode k rest

-- How a failure of the scanner counts.
unfoldable pub failure_mode : EffectivePolicy → String → ScannerFailureMode
unfolding lookup_mode
failure_mode policy scanner = or_else (lookup_mode scanner policy.scanner_failure_modes) (
    if includes policy.required_scanners scanner
    then ScannerFailureMode.fail
    else ScannerFailureMode.warn)

abbrev error_of : ScannerResult → String
error_of r = or_else r.error "unknown scanner error"

-- The decision that failures force, and the reasons given so far.
pub record Forced : Type 0 where
  pub decision : Option Decision
  pub reasons : List String

abbrev fail_closed : ScannerResult → Forced → Forced
fail_closed r s = record {
  decision = some Decision.fail;
  reasons = s.reasons ++ ("Scanner " <> (r.scanner <> (" failed closed: " <> error_of r))) ∷ [];
}

abbrev warn_only : ScannerResult → Forced → Forced
warn_only r s = if option_beq s.decision (some Decision.fail) then s else record {
  decision = some Decision.warn;
  reasons =
      s.reasons
      ++ ("Scanner " <> (r.scanner <> (" failed but policy permits warning: " <> error_of r))) ∷ [];
}

abbrev by_mode : ScannerFailureMode → ScannerResult → Forced → Forced
by_mode ScannerFailureMode.fail r s = fail_closed r s
by_mode ScannerFailureMode.warn r s = warn_only r s
by_mode ScannerFailureMode.ignore r s = s

-- One round of the loop over the scanner results.
unfoldable pub force : EffectivePolicy → ScannerResult → Forced → Forced
force policy r s = if is_failed r then by_mode (failure_mode policy r.scanner) r s else s

unfoldable pub force_all : EffectivePolicy → List ScannerResult → Forced → Forced
unfolding force failure_mode
force_all policy [] s = s
force_all policy (r ∷ rs) s = force_all policy rs (force policy r s)

unfoldable pub initial_forced : List String → Forced
initial_forced missing =
    if is_empty missing then record { decision = none; reasons = [] } else record {
      decision = some Decision.fail;
      reasons = ("Required scanner(s) did not run: " <> join ", " missing) ∷ [];
    }

unfoldable pub all_findings : List ScannerResult → List Finding
all_findings [] = []
all_findings (r ∷ rs) = r.findings ++ all_findings rs

abbrev pub applied_finding : Finding → Option Waiver → AppliedFinding
applied_finding f none = record { finding = f; waived = false; waiver_id = none }
applied_finding f (some w) = record { finding = f; waived = true; waiver_id = some w.id }

module _ (host : Platform) (config : SentryCodeConfig) (waivers : List Waiver) (now : ℕ)
    (context : PolicyContext) where
  -- The findings with the waiver that covers each, and the audit trail.
  unfoldable pub apply_waivers :
      List Finding → List PolicyAuditRecord → List AppliedFinding × List PolicyAuditRecord
  apply_waivers [] audit = ([], audit)
  apply_waivers (f ∷ fs) audit =
      let found = find_applicable_waiver host config.waivers f context now waivers audit in
      let rest = apply_waivers fs found.1 in (applied_finding f found.0 ∷ rest.0, rest.1)

abbrev pub is_active : AppliedFinding → Bool
is_active a = not a.waived

abbrev pub violates : List Severity → AppliedFinding → Bool
violates severities a = is_active a && includes severities a.finding.severity

abbrev severities : List Severity
severities = Severity.info ∷ Severity.low ∷ Severity.medium ∷ Severity.high ∷ Severity.critical ∷ []

unfoldable pub counts : List AppliedFinding → List (Severity × ℕ)
counts applied =
    map (λ s. (s, length (filter (λ a. is_active a && a.finding.severity == s) applied))) severities

-- Violations first, then what the scanners' failures force.
unfoldable pub decide : List AppliedFinding → List AppliedFinding → Option Decision → Decision
decide blocking warnings forced =
    let base =
      if not (is_empty blocking)
      then Decision.fail
      else if not (is_empty warnings)
      then Decision.warn
      else Decision.pass in
    if option_beq forced (some Decision.fail)
    then Decision.fail
    else if option_beq forced (some Decision.warn) && base == Decision.pass
    then Decision.warn
    else base

unfoldable pub final_reasons : List AppliedFinding → List AppliedFinding → List String → List String
final_reasons blocking warnings reasons =
    if not (is_empty blocking)
    then reasons
      ++ (show_nat (length blocking) <> " unwaived finding(s) violate blocking policy") ∷ []
    else if not (is_empty warnings)
    then reasons ++ (show_nat (length warnings) <> " warning finding(s)") ∷ []
    else if is_empty reasons
    then "No unwaived findings violate policy" ∷ []
    else reasons

unfoldable pub evaluate_policy :
    Platform
    → SentryCodeConfig
    → List ScannerResult
    → List Waiver
    → ℕ
    → Option EffectivePolicy
    → Option PolicyContext
    → PolicyResult
unfolding resolved_record initial_forced
evaluate_policy host config results waivers now effective context =
    let policy = or_else effective (config_only config) in
    let forced =
      force_all policy results
        (initial_forced (missing_scanners policy.required_scanners results)) in
    let applied =
      apply_waivers host config waivers now (or_else context unknown_context) (all_findings results)
        (resolved_record host now policy ∷ []) in
    let blocking = filter (violates policy.fail_on) applied.0 in
    let warnings = filter (violates policy.warn_on) applied.0 in
    record {
      decision = decide blocking warnings forced.decision;
      findings = applied.0;
      counts = counts applied.0;
      waived_count = length (filter (λ a. a.waived) applied.0);
      reasons = final_reasons blocking warnings forced.reasons;
      effective_policy = some policy;
      audit = applied.1;
    }
