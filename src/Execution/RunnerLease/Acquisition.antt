-- ===== src/Execution/RunnerLease/Acquisition.antt =====
-- `acquire` and `release` where no other runner steps in.
use quilons_sentrycode.Common.{
  ℕ, ◌≡◌, refl, true, false, String, [], ◌∷◌, Option, none, some, string_eq, ==_refl, ◌==◌, eq_iff,
  Bool-cases, inl, inr, ◌≢◌,
}
use quilons_sentrycode.Execution.RunnerLease.{
  LeaseRecord, Directory, start, held, failed, releasing, released, Turn, is_fresh, current,
  owned_elsewhere, call, run,
}

abbrev pub quiet : ℕ → Turn
quiet now = record { others = λ dir. dir; now = now; fault = none }

module _ (owner : String) (stale_after_ms : ℕ) where
  -- The record of this runner.
  abbrev pub own_record : ℕ → Option LeaseRecord
  own_record at' = some (record { owner = owner; heartbeat_at = at' })

  -- Left alone, `acquire` fails and changes nothing where a record is fresh when it is read, and
  -- otherwise holds the lease under its own record, be the lease absent, stale or without a record.
  pub run-acquires :
      (dir : Option Directory) (a b c d e f g : ℕ)
      → let after =
          run owner stale_after_ms
            (quiet a ∷ quiet b ∷ quiet c ∷ quiet d ∷ quiet e ∷ quiet f ∷ quiet g ∷ [])
            (dir, start 0) in
        (is_fresh owner stale_after_ms (current owner stale_after_ms dir) b ≡ true
          → after ≡ (dir, failed owned_elsewhere))
        × (is_fresh owner stale_after_ms (current owner stale_after_ms dir) b ≡ false
            → (after.1 ≡ held)
              × ((at' : ℕ) × (current owner stale_after_ms after.0 ≡ own_record at')))
  unfolding run call
  run-acquires none a b c d e f g = (λ h. absurd (cc), λ h. rw (==_refl owner) (refl, (b, refl)))
  run-acquires (some dir) a b c d e f g =
      (λ h. rw h refl, λ h. rw (h, ==_refl owner) (refl, (f, refl)))

  -- Left alone, `release` removes the lease where its record names this runner, and leaves it as it
  -- is where there is no record, or one that names another.
  pub run-releases :
      (dir : Option Directory) (a b : ℕ)
      → let after = run owner stale_after_ms (quiet a ∷ quiet b ∷ []) (dir, releasing) in
        ((r : LeaseRecord)
          → current owner stale_after_ms dir ≡ some r
          → (r.owner ≡ owner → after ≡ (none, released))
            × (r.owner ≢ owner → after ≡ (dir, released)))
        × (current owner stale_after_ms dir ≡ none → after ≡ (dir, released))
  unfolding run call
  run-releases dir a b = (
    λ r e. (
      λ own. rw e (rw own (rw (==_refl owner) refl)),
      λ other. elim (Bool-cases (r.owner == owner)) [
        | inl same ↦ absurd (other ((eq_iff r.owner owner).0 same))
        | inr differs ↦ rw e (rw differs refl)
      ],
    ),
    λ e. rw e refl,
  )
