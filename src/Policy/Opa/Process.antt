-- ===== src/Policy/Opa/Process.antt =====
-- How the promise of `runOpa` settles.
use quilons_sentrycode.Common.{
  ℕ, ◌+◌, ◌≤◌, ◌≡◌, refl, sym, ◌∙◌, inl, inr, true, false, List, [], ◌∷◌, Option, none, some, arith,
  length, length-append, ltb, Bool-cases,
}
use quilons_sentrycode.Common.Result.{Result, ok, err}
use quilons_sentrycode.Core.Platform.{Platform}
use quilons_sentrycode.Policy.Opa.{
  ProcessResult, ProcessEvent, stdout_data, stderr_data, error, stdin_error, close, ProcessState,
  max_buffer, exceeded, exit_of, on_event, started, run_opa,
}

on_event-settled :
    (host : Platform) (s : ProcessState) (e : ProcessEvent) (r : Result ProcessResult)
    → s.outcome ≡ some r
    → (on_event host s e).outcome ≡ some r
unfolding on_event
on_event-settled host s (stdout_data chunk) r h = ground arith
on_event-settled host s (stderr_data chunk) r h = ground arith
on_event-settled host s (error m) r h = ground arith
on_event-settled host s (stdin_error m) r h = ground arith
on_event-settled host s (close code) r h = ground arith

-- Once settled, the promise keeps its outcome, whatever events follow.
pub run_opa-settled :
    (host : Platform) (s : ProcessState) (es : List ProcessEvent) (r : Result ProcessResult)
    → s.outcome ≡ some r
    → (run_opa host s es).outcome ≡ some r
unfolding run_opa
run_opa-settled host s [] r h = h
run_opa-settled host s (e ∷ es) r h =
    run_opa-settled host (on_event host s e) es r (on_event-settled host s e r h)

-- The output that was decoded, and how much there was of it.
abbrev pub Bounded : Platform → ProcessResult → Type 0
Bounded host r =
    (out : List ℕ) × (errors : List ℕ) × (length out ≤ max_buffer)
    × (length errors ≤ max_buffer)
    × (r.stdout ≡ host.decode_utf8 out)
    × (r.stderr ≡ host.decode_utf8 errors)

-- Unsettled, it has counted what it keeps, within the limits; resolved, it has given back bounded
-- output and killed nothing; rejected, it has killed the process.
abbrev Tidy : Platform → ProcessState → Option (Result ProcessResult) → Type 0
Tidy host s none =
    (s.stdout_bytes ≡ length s.stdout_chunks)
    × (s.stderr_bytes ≡ length s.stderr_chunks)
    × (s.stdout_bytes ≤ max_buffer)
    × (s.stderr_bytes ≤ max_buffer)
    × (s.killed ≡ false)
Tidy host s (some (ok r)) = Bounded host r × (s.killed ≡ false)
Tidy host s (some (err message)) = s.killed ≡ true

on_event-kept :
    (host : Platform) (s : ProcessState) (e : ProcessEvent) (r : Result ProcessResult)
    → s.outcome ≡ some r
    → (on_event host s e).killed ≡ s.killed
unfolding on_event
on_event-kept host s (stdout_data chunk) r h = ground arith
on_event-kept host s (stderr_data chunk) r h = ground arith
on_event-kept host s (error m) r h = ground arith
on_event-kept host s (stdin_error m) r h = ground arith
on_event-kept host s (close code) r h = ground arith

-- An event that reaches a running process.
on_event-running :
    (host : Platform) (s : ProcessState) (e : ProcessEvent)
    → s.outcome ≡ none
    → Tidy host s none
    → (o : Option (Result ProcessResult)) × ((on_event host s e).outcome ≡ o)
      × Tidy host (on_event host s e) o
unfolding on_event
on_event-running host s (stdout_data chunk) h t =
    elim (Bool-cases (ltb max_buffer (s.stdout_bytes + length chunk))) [
      | inl over ↦ (some (err (exceeded "stdout")), ground arith, ground arith)
      | inr fits ↦ (none, ground arith, ground (arith, length-append s.stdout_chunks chunk))
    ]
on_event-running host s (stderr_data chunk) h t =
    elim (Bool-cases (ltb max_buffer (s.stderr_bytes + length chunk))) [
      | inl over ↦ (some (err (exceeded "stderr")), ground arith, ground arith)
      | inr fits ↦ (none, ground arith, ground (arith, length-append s.stderr_chunks chunk))
    ]
on_event-running host s (error m) h t = (some (err m), ground arith, ground arith)
on_event-running host s (stdin_error m) h t = (some (err m), ground arith, ground arith)
on_event-running host s (close code) h t = (
  some (
      ok (record {
        stdout = host.decode_utf8 s.stdout_chunks;
        stderr = host.decode_utf8 s.stderr_chunks;
        exit_code = exit_of code;
      })),
  ground arith,
  ((s.stdout_chunks, s.stderr_chunks, ground arith, ground arith, refl, refl), ground arith),
)

on_event-Tidy :
    (host : Platform) (s : ProcessState) (e : ProcessEvent) (o : Option (Result ProcessResult))
    → s.outcome ≡ o
    → Tidy host s o
    → (o' : Option (Result ProcessResult)) × ((on_event host s e).outcome ≡ o')
      × Tidy host (on_event host s e) o'
on_event-Tidy host s e none h t = on_event-running host s e h t
on_event-Tidy host s e (some (ok r)) h t =
    (some (ok r), on_event-settled host s e (ok r) h, (t.0, on_event-kept host s e (ok r) h ∙ t.1))
on_event-Tidy host s e (some (err m)) h t =
    (some (err m), on_event-settled host s e (err m) h, on_event-kept host s e (err m) h ∙ t)

run_opa-Tidy :
    (host : Platform) (s : ProcessState) (es : List ProcessEvent)
    (o : Option (Result ProcessResult))
    → s.outcome ≡ o
    → Tidy host s o
    → (o' : Option (Result ProcessResult)) × ((run_opa host s es).outcome ≡ o')
      × Tidy host (run_opa host s es) o'
unfolding run_opa
run_opa-Tidy host s [] o h t = (o, h, t)
run_opa-Tidy host s (e ∷ es) o h t =
    let (o', h', t') = on_event-Tidy host s e o h t in
    run_opa-Tidy host (on_event host s e) es o' h' t'

Tidy-resolved :
    (host : Platform) (s : ProcessState) (o : Option (Result ProcessResult)) (r : ProcessResult)
    → o ≡ some (ok r)
    → Tidy host s o
    → Bounded host r × (s.killed ≡ false)
Tidy-resolved host s o r e t = rw e at t

-- When the run resolves, at any point of any sequence of events, its output is the decoding of at
-- most 4 MB from each pipe, and the process was not killed.
pub run_opa-Bounded :
    (host : Platform) (es : List ProcessEvent) (r : ProcessResult)
    → (run_opa host started es).outcome ≡ some (ok r)
    → Bounded host r × ((run_opa host started es).killed ≡ false)
run_opa-Bounded host es r h =
    let (o, e, t) =
      run_opa-Tidy host started es none refl (refl, refl, omega arith, omega arith, refl) in
    Tidy-resolved host (run_opa host started es) o r (sym e ∙ h) t
