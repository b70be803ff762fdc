-- ===== src/Tests/Accounts.antt =====
-- Audit files and leases at concrete inputs.
use quilons_sentrycode.Common.{
  ℕ, ◌++◌, ◌≡◌, ◌≢◌, refl, sym, ◌∙◌, true, false, String, List, [], ◌∷◌, map, Option, none, some,
  here, there, arith,
}
use quilons_sentrycode.Common.Result.{ok}
use quilons_sentrycode.Core.Json.{Json, Fields, obj, str, bool, end, field, stringify}
use quilons_sentrycode.Core.Platform.{Platform, stable_id}
use quilons_sentrycode.Enterprise.Audit.{
  AuditFile, absent, lines, intact, unsigned_event, signed_event, append_audit_event,
  read_audit_events, parse_lines, verify_audit_chain, verify_from, event_hash, previous_hash,
  accepts,
}
use quilons_sentrycode.Enterprise.Audit.Append.{append_audit_event-intact}
use quilons_sentrycode.Enterprise.Audit.Commitment.{content_of, Apart, verify_audit_chain-commits}
use quilons_sentrycode.Execution.RunnerLease.{
  Directory, start, held, failed, releasing, released, Turn, is_settled, run, call, current,
  owned_elsewhere, unable, is_fresh, LeaseRecord,
}
use quilons_sentrycode.Execution.RunnerLease.Acquisition.{
  quiet, own_record, run-acquires, run-releases,
}
use quilons_sentrycode.Execution.RunnerLease.Termination.{run-settles}
use quilons_sentrycode.Tests.Samples.{host}

abbrev spelled_out : Json → String
spelled_out v = "?"

abbrev detail : Fields
detail = field "ok" (bool true) end

abbrev first : Fields
first =
    signed_event host none
      (unsigned_event host spelled_out "scan.completed" "now" "ci" detail (str "GENESIS"))

-- A host that reads each line as the first event.
abbrev reader : Platform
reader = record host { parse_json = λ line. some (obj first) }

abbrev one_line : AuditFile
one_line = lines (stringify (obj first) ∷ [])

only : Apart reader (obj first ∷ []) (obj first ∷ [])
only b b' (here e) (here e') h = sym e ∙ e'
only b b' (here e) (there t) h = elim t [ ]
only b b' (there t) m h = elim t [ ]

one_line_intact : verify_audit_chain reader none one_line ≡ ok intact
unfolding append_audit_event read_audit_events verify_audit_chain verify_from accepts previous_hash
    signed_event unsigned_event event_hash stable_id
one_line_intact =
    append_audit_event-intact reader none none spelled_out "scan.completed" "now" "ci" detail absent
      one_line first (λ hash. refl) refl refl refl

verify_audit_chain-commits_example :
    map content_of (obj first ∷ []) ≡ map content_of (obj first ∷ [])
unfolding read_audit_events parse_lines
verify_audit_chain-commits_example =
    verify_audit_chain-commits reader none one_line one_line (obj first ∷ []) (obj first ∷ []) refl
      refl one_line_intact one_line_intact refl refl only

abbrev a_holds : Option Directory
a_holds =
    some (record { temporary = []; owner_file = some (record { owner = "a"; heartbeat_at = 100 }) })

run-acquires_example :
    let after =
      run "b" 50
        (quiet 149 ∷ quiet 150 ∷ quiet 151 ∷ quiet 152 ∷ quiet 153 ∷ quiet 154 ∷ quiet 155 ∷ [])
        (a_holds, start 0) in
    (is_fresh "b" 50 (current "b" 50 a_holds) 150 ≡ true
      → after ≡ (a_holds, failed owned_elsewhere))
    × (is_fresh "b" 50 (current "b" 50 a_holds) 150 ≡ false
        → (after.1 ≡ held) × ((at' : ℕ) × (current "b" 50 after.0 ≡ own_record "b" 50 at')))
run-acquires_example = run-acquires "b" 50 a_holds 149 150 151 152 153 154 155

run-releases_example :
    let after = run "b" 50 (quiet 1 ∷ quiet 2 ∷ []) (a_holds, releasing) in
    ((r : LeaseRecord)
      → current "b" 50 a_holds ≡ some r
      → (r.owner ≡ "b" → after ≡ (none, released)) × (r.owner ≢ "b" → after ≡ (a_holds, released)))
    × (current "b" 50 a_holds ≡ none → after ≡ (a_holds, released))
run-releases_example = run-releases "b" 50 a_holds 1 2

abbrev five : List Turn
five = quiet 1 ∷ quiet 2 ∷ quiet 3 ∷ quiet 4 ∷ quiet 5 ∷ []

run-settles_example :
    is_settled "b" 50 (run "b" 50 (five ++ (five ++ (five ++ five))) (a_holds, start 0)).1 ≡ true
run-settles_example = run-settles "b" 50 (five ++ (five ++ (five ++ five))) a_holds (omega arith)

-- Between the read of a stale record and the removal of the directory, another runner takes the
-- lease over; the fresh lease is removed, and both runners hold it.
abbrev overtaking : List Turn
overtaking =
    quiet 200
    ∷ quiet 201
    ∷ record {
      others = λ dir. some (record {
        temporary = [];
        owner_file = some (record { owner = "c"; heartbeat_at = 202 });
      });
      now = 202;
      fault = none;
    }
    ∷ quiet 203
    ∷ quiet 204
    ∷ quiet 205
    ∷ quiet 206
    ∷ []

overtaken : (run "b" 50 overtaking (a_holds, start 0)).1 ≡ held
unfolding run call
overtaken = refl

-- A stale lease that is there again before every attempt takes all twenty calls.
abbrev haunted : Turn
haunted = record { others = λ dir. a_holds; now = 200; fault = none }

abbrev haunted_five : List Turn
haunted_five = haunted ∷ haunted ∷ haunted ∷ haunted ∷ haunted ∷ []

worst_case :
    (is_settled "b" 50
        (run "b" 50
          (haunted_five
            ++ (haunted_five ++ (haunted_five ++ (haunted ∷ haunted ∷ haunted ∷ haunted ∷ []))))
          (a_holds, start 0)).1
      ≡ false)
    × ((run "b" 50
          (haunted_five ++ (haunted_five ++ (haunted_five ++ haunted_five)))
          (a_holds, start 0)).1
        ≡ failed unable)
unfolding run call
worst_case = (refl, refl)
