-- ===== src/Execution/RunnerLease/Termination.antt =====
-- How many calls of the file system an `acquire` makes.
use quilons_sentrycode.Common.{
  ℕ, ◌*◌, ◌-◌, ◌≤◌, ◌<◌, ◌≡◌, refl, true, String, List, [], ◌∷◌, Option, none, some, arith, length,
  includes, leb, string_eq, Bool-cases, inl, inr,
}
use quilons_sentrycode.Execution.RunnerLease.{
  Directory, Phase, start, reading, evicting, clearing, writing, renaming, held, failed, releasing,
  removing, released, Turn, is_settled, is_fresh, is_own, current, next_attempt, with_fault, call,
  step, run,
}

-- How many calls a phase leaves at most.
abbrev pub calls_left : Phase → ℕ
calls_left (start k) = 4 * (5 - k)
calls_left (reading k) = 4 * (5 - k) - 1
calls_left (evicting k) = 4 * (5 - k) - 2
calls_left (clearing k) = 4 * (5 - k) - 3
calls_left writing = 2
calls_left (renaming at') = 1
calls_left releasing = 2
calls_left removing = 1
calls_left _ = 0

-- A phase that an attempt reaches: there are five of them.
abbrev pub InAttempts : Phase → Type 0
InAttempts (start k) = k < 5
InAttempts (reading k) = k < 5
InAttempts (evicting k) = k < 5
InAttempts (clearing k) = k < 5
InAttempts _ = Unit

module _ (owner : String) (stale_after_ms : ℕ) where
  next_attempt_left :
      (k : ℕ)
      → k < 5
      → InAttempts (next_attempt owner stale_after_ms k)
        × (calls_left (next_attempt owner stale_after_ms k) ≤ 4 * (5 - k) - 4)
  next_attempt_left k h = elim (Bool-cases (leb 4 k)) [
    | inl last ↦ rw last (tt, omega arith)
    | inr more ↦ rw more (ground arith, omega arith)
  ]

  -- A call that is made takes one off what is left.
  progress :
      (fault : Option String) (now : ℕ) (dir : Option Directory) (p : Phase)
      → InAttempts p
      → let after = with_fault owner stale_after_ms fault now dir p in
        InAttempts after.1 × (calls_left after.1 ≤ calls_left p - 1)
  unfolding call
  progress none now none (start k) h = (tt, omega (arith, h))
  progress none now (some d) (start k) h = (h, omega arith)
  progress none now dir (reading k) h =
      elim (Bool-cases (is_fresh owner stale_after_ms (current owner stale_after_ms dir) now)) [
        | inl fresh ↦ rw fresh (tt, omega arith)
        | inr stale ↦ rw stale (h, omega arith)
      ]
  progress none now none (evicting k) h =
      ((next_attempt_left k h).0, omega (arith, (next_attempt_left k h).1))
  progress none now (some d) (evicting k) h = (h, omega arith)
  progress none now dir (clearing k) h =
      ((next_attempt_left k h).0, omega (arith, (next_attempt_left k h).1))
  progress none now none writing h = (tt, omega arith)
  progress none now (some d) writing h = (tt, omega arith)
  progress none now none (renaming at') h = (tt, omega arith)
  progress none now (some d) (renaming at') h = elim (Bool-cases (includes d.temporary owner)) [
    | inl there' ↦ rw there' (tt, omega arith)
    | inr gone ↦ rw gone (tt, omega arith)
  ]
  progress none now dir held h = (tt, omega arith)
  progress none now dir (failed m) h = (tt, omega arith)
  progress none now dir releasing h =
      elim (Bool-cases (is_own owner stale_after_ms (current owner stale_after_ms dir))) [
        | inl own ↦ rw own (tt, omega arith)
        | inr other ↦ rw other (tt, omega arith)
      ]
  progress none now dir removing h = (tt, omega arith)
  progress none now dir released h = (tt, omega arith)
  progress (some m) now dir (start k) h = (tt, omega arith)
  progress (some m) now dir (reading k) h = (tt, omega arith)
  progress (some m) now dir (evicting k) h = (tt, omega arith)
  progress (some m) now dir (clearing k) h = (tt, omega arith)
  progress (some m) now dir writing h = (tt, omega arith)
  progress (some m) now dir (renaming at') h = (tt, omega arith)
  progress (some m) now dir held h = (tt, omega arith)
  progress (some m) now dir (failed m') h = (tt, omega arith)
  progress (some m) now dir releasing h = (tt, omega arith)
  progress (some m) now dir removing h = (tt, omega arith)
  progress (some m) now dir released h = (tt, omega arith)

  none_left :
      (p : Phase) → InAttempts p → calls_left p ≤ 0 → is_settled owner stale_after_ms p ≡ true
  none_left (start k) a h = absurd (omega (arith, a, h))
  none_left (reading k) a h = absurd (omega (arith, a, h))
  none_left (evicting k) a h = absurd (omega (arith, a, h))
  none_left (clearing k) a h = absurd (omega (arith, a, h))
  none_left writing a h = absurd (omega arith)
  none_left (renaming at') a h = absurd (omega arith)
  none_left held a h = refl
  none_left (failed m) a h = refl
  none_left releasing a h = absurd (omega arith)
  none_left removing a h = absurd (omega arith)
  none_left released a h = refl

  settles :
      (ts : List Turn) (dir : Option Directory) (p : Phase)
      → InAttempts p
      → calls_left p ≤ length ts
      → is_settled owner stale_after_ms (run owner stale_after_ms ts (dir, p)).1 ≡ true
  unfolding run step
  settles [] dir p h n = none_left p h n
  settles (t ∷ ts) dir p h n =
      let next = with_fault owner stale_after_ms t.fault t.now (t.others dir) p in
      let (h1, n1) = progress t.fault t.now (t.others dir) p h in
      settles ts next.0 next.1 h1 (omega (arith, n, n1))

  -- `acquire` ends within twenty calls of the file system, whatever the other runners do to the
  -- lease between them, whatever the time is, and whichever of the calls fail.
  pub run-settles :
      (ts : List Turn) (dir : Option Directory)
      → 20 ≤ length ts
      → is_settled owner stale_after_ms (run owner stale_after_ms ts (dir, start 0)).1 ≡ true
  run-settles ts dir n = settles ts dir (start 0) (omega arith) n
