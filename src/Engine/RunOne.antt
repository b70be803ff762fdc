-- ===== src/Engine/RunOne.antt =====
-- `runOne` of src/core/engine.ts: one scanner under its time limit.
use quilons_sentrycode.Common.{
  ℕ, ◌≡◌, ◌≢◌, ◌⊎◌, inl, inr, refl, Option, none, Bool-cases, Bool, true, false, not, ◌&&◌, String,
  List, [], ◌∷◌, some, arith, if◌then◌else◌, ◌==◌, is_some, or_else, ltb, show_nat, ◌<>◌,
}
use quilons_sentrycode.Core.Enums.{ScannerExecutionStatus, status_eq}
use quilons_sentrycode.Core.Findings.{ScannerResult}
use quilons_sentrycode.Engine.Classify.{classify_scanner_failure}

-- How the scanner's own promise ends.
pub data ScanOutcome : Type 0 where
  returns : ScannerResult → ScanOutcome
  throws : String → ScanOutcome

-- A scanner, with how its run ends, whether a timer would fire before it does, and how long the
-- call took.
pub record ScannerRun : Type 0 where
  pub id : String
  pub outcome : ScanOutcome
  pub timer_first : Bool
  pub duration_ms : ℕ

abbrev pub timed_out : ℕ → String
timed_out limit = "scanner timed out after " <> (show_nat limit <> "ms")

-- `Promise.race` against the timer, where a limit is set.
unfoldable pub race : ℕ → ScannerRun → ScanOutcome
race limit run = if ltb 0 limit && run.timer_first then throws (timed_out limit) else run.outcome

unfoldable pub normalize_result : ScannerResult → ScannerResult
normalize_result r =
    let normalized : ScannerResult = record r {
      status = some (or_else r.status ScannerExecutionStatus.success);
    } in
    if or_else r.status ScannerExecutionStatus.success == ScannerExecutionStatus.failed
      && not (is_some r.failure)
    then record normalized {
      failure = some (classify_scanner_failure (or_else r.error "unknown scanner error"));
    }
    else normalized

unfoldable pub settle : ScannerRun → ScanOutcome → ScannerResult
settle run (returns r) = normalize_result r
settle run (throws message) = record {
  scanner = run.id;
  findings = [];
  evidence = [];
  duration_ms = run.duration_ms;
  status = some ScannerExecutionStatus.failed;
  error = some message;
  failure = some (classify_scanner_failure message);
}

unfoldable pub run_one : ℕ → ScannerRun → ScannerResult
unfolding race settle normalize_result
run_one limit run = settle run (race limit run)

-- `Promise.all` over the scanners, which keeps their order.
unfoldable pub run_all : ℕ → List ScannerRun → List ScannerResult
run_all limit [] = []
run_all limit (s ∷ ss) = run_one limit s ∷ run_all limit ss

-- The scanner returned a result, and not after its limit.
abbrev pub ReturnsInTime : ℕ → ScannerRun → ScannerResult → Type 0
ReturnsInTime limit run r = (run.outcome ≡ returns r) × ((limit ≡ 0) ⊎ (run.timer_first ≡ false))

-- The report of a scanner that returned in time: its own, with a status where it gave none.
pub record IsOwn (r out : ScannerResult) : Type 0 where
  pub same_findings : out.findings ≡ r.findings
  pub same_evidence : out.evidence ≡ r.evidence
  pub same_status :
      (r.status ≡ out.status)
      ⊎ ((r.status ≡ none) × (out.status ≡ some ScannerExecutionStatus.success))
  pub classified : (out.status ≢ some ScannerExecutionStatus.failed) ⊎ (is_some out.failure ≡ true)

-- The report of one that threw or ran out of time: failed, classified, without findings.
pub record IsFailure (id : String) (out : ScannerResult) : Type 0 where
  pub failed : out.status ≡ some ScannerExecutionStatus.failed
  pub classified : is_some out.failure ≡ true
  pub explained : is_some out.error ≡ true
  pub no_findings : out.findings ≡ []
  pub named : out.scanner ≡ id

abbrev pub Reported : ℕ → ScannerRun → ScannerResult → Type 0
Reported limit run out =
    ((r : ScannerResult) × ReturnsInTime limit run r × IsOwn r out)
    ⊎ (¬ ((r : ScannerResult) × ReturnsInTime limit run r) × IsFailure run.id out)

kept_or_success :
    (o : Option ScannerExecutionStatus)
    → (o ≡ some (or_else o ScannerExecutionStatus.success))
      ⊎ ((o ≡ none)
          × (some (or_else o ScannerExecutionStatus.success) ≡ some ScannerExecutionStatus.success))
kept_or_success none = inr (refl, refl)
kept_or_success (some x) = inl refl

normalize_result-IsOwn : (r : ScannerResult) → IsOwn r (normalize_result r)
unfolding normalize_result
normalize_result-IsOwn r =
    let status = or_else r.status ScannerExecutionStatus.success in
    elim (Bool-cases (status == ScannerExecutionStatus.failed && not (is_some r.failure))) [
      | inl unclassified ↦ rw unclassified (record {
        same_findings = refl;
        same_evidence = refl;
        same_status = kept_or_success r.status;
        classified = inr refl;
      })
      | inr rest ↦ rw rest (record {
        same_findings = refl;
        same_evidence = refl;
        same_status = kept_or_success r.status;
        classified = elim (Bool-cases (is_some r.failure)) [
          | inl given ↦ inr given
          | inr missing ↦ inl (λ q.
              let same : status ≡ ScannerExecutionStatus.failed = cc in
              absurd (let k = (rw same at rest) in ground (arith, k)))
        ];
      })
    ]

settle-Reported :
    (limit : ℕ) (run : ScannerRun) (o : ScanOutcome)
    → run.outcome ≡ o
    → ltb 0 limit && run.timer_first ≡ false
    → Reported limit run (settle run o)
unfolding settle
settle-Reported limit run (returns r) e h = inl (
  r,
  (e, elim (Bool-cases run.timer_first) [ inl t ↦ inl (ground arith) | inr f ↦ inr f ]),
  normalize_result-IsOwn r,
)
settle-Reported limit run (throws m) e h = inr (
  λ q. cc (e, q.1.0),
  record { failed = refl; classified = refl; explained = refl; no_findings = refl; named = refl },
)

-- Every run of a scanner is reported. Where it returned a result in time, the report has its findings,
-- its evidence and its status, or `success` where it gave none, and a failure is classified. Where it
-- threw or ran out of time, and only there, the report is a failure under the scanner's id, which is
-- classified and explained and has no findings.
pub run_one-Reported : (limit : ℕ) (run : ScannerRun) → Reported limit run (run_one limit run)
unfolding run_one
run_one-Reported limit run = elim (Bool-cases (ltb 0 limit && run.timer_first)) [
  | inl late ↦ rw late (
      inr (
        λ q. elim q.1.1 [
          | inl unlimited ↦ absurd (ground arith)
          | inr first ↦ absurd (ground arith)
        ],
        record {
          failed = refl;
          classified = refl;
          explained = refl;
          no_findings = refl;
          named = refl;
        },
      ))
  | inr timely ↦ rw timely (settle-Reported limit run run.outcome refl timely)
]
