-- ===== src/Policy/Opa.antt =====
-- src/policy/opa.ts: the OPA process as its stream of events, and the decision that it prints.
pub mod Process
pub mod Verdict
use quilons_sentrycode.Common.{
  ℕ, zero, ◌+◌, ◌*◌, ℤ, pos, negsuc, Bool, true, false, not, String, List, [], ◌∷◌, ◌++◌, Option,
  none, some, if◌then◌else◌, ◌==◌, string_eq, is_truthy, is_empty, length, ltb, trim, show_nat,
  ◌<>◌,
}
use quilons_sentrycode.Common.Result.{Result, ok, err, ◌>>=◌, ◌>>◌, throw_if}
use quilons_sentrycode.Core.Enums.{Decision}
use quilons_sentrycode.Core.Json.{Json, str, bool, arr, obj, cons, get, text}
use quilons_sentrycode.Core.Platform.{Platform}
use quilons_sentrycode.Core.Config.{OpaConfig}

pub record ProcessResult : Type 0 where
  pub stdout : String
  pub stderr : String
  pub exit_code : ℤ

-- What the child process and its pipes report; a chunk is a list of bytes.
pub data ProcessEvent : Type 0 where
  stdout_data stderr_data : List ℕ → ProcessEvent
  error stdin_error : String → ProcessEvent
  close : Option ℤ → ProcessEvent

-- The variables of `runOpa`; `outcome` is how the promise has settled.
pub record ProcessState : Type 0 where
  pub stdout_chunks : List ℕ
  pub stderr_chunks : List ℕ
  pub stdout_bytes : ℕ
  pub stderr_bytes : ℕ
  pub killed : Bool
  pub outcome : Option (Result ProcessResult)

abbrev pub max_buffer : ℕ
max_buffer = 4 * 1024 * 1024

abbrev pub is_settled : ProcessState → Bool
is_settled s = elim s.outcome [ none ↦ false | some r ↦ true ]

unfoldable pub fail_process : String → ProcessState → ProcessState
fail_process message s =
    if is_settled s then s else record s { killed = true; outcome = some (err message) }

abbrev pub exceeded : String → String
exceeded stream = "OPA " <> (stream <> (" exceeded " <> (show_nat max_buffer <> " bytes")))

abbrev pub exit_of : Option ℤ → ℤ
exit_of none = negsuc 0
exit_of (some code) = code

-- One event handler.
unfoldable pub on_event : Platform → ProcessState → ProcessEvent → ProcessState
unfolding fail_process
on_event host s (stdout_data chunk) =
    let bytes = s.stdout_bytes + length chunk in
    if ltb max_buffer bytes
    then fail_process (exceeded "stdout") (record s { stdout_bytes = bytes })
    else record s { stdout_bytes = bytes; stdout_chunks = s.stdout_chunks ++ chunk }
on_event host s (stderr_data chunk) =
    let bytes = s.stderr_bytes + length chunk in
    if ltb max_buffer bytes
    then fail_process (exceeded "stderr") (record s { stderr_bytes = bytes })
    else record s { stderr_bytes = bytes; stderr_chunks = s.stderr_chunks ++ chunk }
on_event host s (error message) = fail_process message s
on_event host s (stdin_error message) = fail_process message s
on_event host s (close code) = if is_settled s then s else record s {
  outcome = some (
      ok (record {
        stdout = host.decode_utf8 s.stdout_chunks;
        stderr = host.decode_utf8 s.stderr_chunks;
        exit_code = exit_of code;
      }));
}

abbrev pub started : ProcessState
started = record {
  stdout_chunks = [];
  stderr_chunks = [];
  stdout_bytes = 0;
  stderr_bytes = 0;
  killed = false;
  outcome = none;
}

unfoldable pub run_opa : Platform → ProcessState → List ProcessEvent → ProcessState
run_opa host s [] = s
run_opa host s (e ∷ es) = run_opa host (on_event host s e) es

-- `value?.[0]` and `value?.key`, where both sides of a chain end in `undefined`.
unfoldable pub first_item : Option Json → Option Json
first_item (some (arr (cons x xs))) = some x
first_item (some (obj fs)) = get "0" fs
first_item _ = none

unfoldable pub property : String → Option Json → Option Json
property key (some (obj fs)) = get key fs
property key _ = none

-- `result?.[0]?.expressions?.[0]?.value`.
abbrev pub value_in : Option Json → Option Json
value_in result = property "value" (first_item (property "expressions" (first_item result)))

unfoldable pub decision_of : String → Option Decision
decision_of s =
    if s == "PASS"
    then some Decision.pass
    else if s == "WARN"
    then some Decision.warn
    else if s == "FAIL"
    then some Decision.fail
    else none

abbrev not_a_decision : String
not_a_decision = "OPA decision must be PASS/WARN/FAIL, boolean, or an object containing decision"

abbrev decide_text : Option Decision → Result Decision
decide_text none = err not_a_decision
decide_text (some d) = ok d

abbrev decide_spelled : Option String → Result Decision
decide_spelled none = err not_a_decision
decide_spelled (some s) = decide_text (decision_of s)

unfoldable pub interpret : String → Option Json → Result Decision
unfolding decision_of
interpret query none = err ("OPA query returned no value: " <> query)
interpret query (some (str s)) = decide_text (decision_of s)
interpret query (some (bool true)) = ok Decision.pass
interpret query (some (bool false)) = ok Decision.fail
interpret query (some (obj fs)) = decide_spelled (text "decision" fs)
interpret query (some _) = err not_a_decision

-- `parsed.result`, which throws on `null`.
unfoldable pub result_of : Json → Result (Option Json)
result_of Json.null = err "Cannot read properties of null (reading 'result')"
result_of v = ok (property "result" (some v))

abbrev parse_stdout : Platform → String → Result Json
parse_stdout host s = elim (host.parse_json s) [
  | none ↦ err "OPA returned invalid JSON"
  | some v ↦ ok v
]

abbrev is_zero : ℤ → Bool
is_zero (pos zero) = true
is_zero _ = false

show_int : ℤ → String
show_int (pos n) = show_nat n
show_int (negsuc n) = "-" <> show_nat (n + 1)

abbrev or_text : String → String → String
or_text s t = if is_truthy s then s else t

-- A rejected run is reported under one prefix.
unfoldable pub finished : Result ProcessResult → Result ProcessResult
unfolding show_int
finished (err message) = err ("OPA evaluation failed: " <> message)
finished (ok r) =
    if is_zero r.exit_code
    then ok r
    else err (
        "OPA evaluation failed: " <> or_text (trim r.stderr) ("exit code " <> show_int r.exit_code))

-- `evaluateOpa`, given how the run of the process ended.
unfoldable pub evaluate_opa : Platform → OpaConfig → Result ProcessResult → Result (Option Decision)
unfolding finished result_of interpret first_item property
evaluate_opa host config run = if not config.enabled then ok none else do
  throw_if (is_empty config.policy_files) "OPA is enabled but policy.opa.policyFiles is empty"
  r ← finished run
  parsed ← parse_stdout host r.stdout
  result ← result_of parsed
  d ← interpret config.query (value_in result)
  ok (some d)
