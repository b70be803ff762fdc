-- ===== src/Execution/RunnerLease.antt =====
-- src/execution/runner-lease.ts: the lease that one runner holds on an installation, a directory
-- with a record in it. Runners interleave between any two calls of the file system, so a runner is
-- a phase, and each call is a step of its own. A directory that was moved away is seen by nobody
-- again, so only the clean-up of it is a step, and what it removes is not part of the state.
pub mod Acquisition
pub mod Termination
use quilons_sentrycode.Common.{
  ℕ, suc, ◌+◌, Bool, true, false, not, String, List, [], ◌∷◌, Option, none, some, if◌then◌else◌,
  ◌==◌, string_eq, includes, filter, ltb, leb,
}

pub record LeaseRecord : Type 0 where
  pub owner : String
  pub heartbeat_at : ℕ

-- The directory `.runner-lease`: who has a temporary file in it, and `owner.json`.
pub record Directory : Type 0 where
  pub temporary : List String
  pub owner_file : Option LeaseRecord

pub data Phase : Type 0 where
  -- `mkdir`, `current`, and the `rename` and `rm` of a stale lease, in an attempt of `acquire`.
  start reading evicting clearing : ℕ → Phase
  -- The two calls of the first heartbeat; the second carries the time of the record.
  writing : Phase
  renaming : ℕ → Phase
  held : Phase
  failed : String → Phase
  -- The two calls of `release`.
  releasing removing released : Phase

-- One turn of a runner: what the other runners have made of the directory meanwhile, the time, and
-- an error of the file system other than those that the code expects.
pub record Turn : Type 0 where
  pub others : Option Directory → Option Directory
  pub now : ℕ
  pub fault : Option String

abbrev pub no_directory : String
no_directory = "ENOENT"

abbrev pub owned_elsewhere : String
owned_elsewhere = "Another SentryCode runner owns this installation"

abbrev pub unable : String
unable = "Unable to acquire SentryCode runner lease"

module _ (owner : String) (stale_after_ms : ℕ) where
  -- `current()`: the record, where the directory has one.
  abbrev pub current : Option Directory → Option LeaseRecord
  current none = none
  current (some d) = d.owner_file

  -- `record && Date.now() - record.heartbeatAt < this.staleAfterMs`.
  abbrev pub is_fresh : Option LeaseRecord → ℕ → Bool
  is_fresh none now = false
  is_fresh (some r) now = ltb now (r.heartbeat_at + stale_after_ms)

  abbrev pub is_own : Option LeaseRecord → Bool
  is_own none = false
  is_own (some r) = r.owner == owner

  abbrev pub make_directory : ℕ → Option Directory → Option Directory × Phase
  make_directory k none = (some (record { temporary = []; owner_file = none }), writing)
  make_directory k (some d) = (some d, reading k)

  abbrev pub write_temporary : ℕ → Option Directory → Option Directory × Phase
  write_temporary now none = (none, failed no_directory)
  write_temporary now (some d) = (some (record d { temporary = owner ∷ d.temporary }), renaming now)

  -- `rename(temp, this.recordPath)`.
  abbrev pub rename_temporary : ℕ → Option Directory → Option Directory × Phase
  rename_temporary at' none = (none, failed no_directory)
  rename_temporary at' (some d) =
      if includes d.temporary owner
      then (
        some (record {
          temporary = filter (λ o. not (o == owner)) d.temporary;
          owner_file = some (record { owner = owner; heartbeat_at = at' });
        }),
        held,
      )
      else (some d, failed no_directory)

  abbrev pub judge : ℕ → ℕ → Option Directory → Option Directory × Phase
  judge k now dir =
      if is_fresh (current dir) now then (dir, failed owned_elsewhere) else (dir, evicting k)

  -- The attempt after this one, of five; after the last, `acquire` throws.
  abbrev pub next_attempt : ℕ → Phase
  next_attempt k = if leb 4 k then failed unable else start (suc k)

  -- `rename(this.directory, tombstone)`; where there is none, the error is caught.
  abbrev pub move_away : ℕ → Option Directory → Option Directory × Phase
  move_away k none = (none, next_attempt k)
  move_away k (some d) = (none, clearing k)

  abbrev pub check_owner : Option Directory → Option Directory × Phase
  check_owner dir = if is_own (current dir) then (dir, removing) else (dir, released)

  -- A call that succeeds, or fails in a way that the code expects.
  unfoldable pub call : ℕ → Option Directory → Phase → Option Directory × Phase
  call now dir (start k) = make_directory k dir
  call now dir writing = write_temporary now dir
  call now dir (renaming at') = rename_temporary at' dir
  call now dir (reading k) = judge k now dir
  call now dir (evicting k) = move_away k dir
  call now dir (clearing k) = (dir, next_attempt k)
  call now dir releasing = check_owner dir
  call now dir removing = (none, released)
  call now dir held = (dir, held)
  call now dir (failed message) = (dir, failed message)
  call now dir released = (dir, released)

  abbrev pub is_settled : Phase → Bool
  is_settled held = true
  is_settled (failed message) = true
  is_settled released = true
  is_settled _ = false

  abbrev pub with_fault : Option String → ℕ → Option Directory → Phase → Option Directory × Phase
  with_fault none now dir p = call now dir p
  with_fault (some message) now dir p = if is_settled p then (dir, p) else (dir, failed message)

  -- A turn of the runner.
  unfoldable pub step : Turn → Option Directory × Phase → Option Directory × Phase
  unfolding call
  step t (dir, p) = with_fault t.fault t.now (t.others dir) p

  unfoldable pub run : List Turn → Option Directory × Phase → Option Directory × Phase
  unfolding step
  run [] s = s
  run (t ∷ ts) s = run ts (step t s)
