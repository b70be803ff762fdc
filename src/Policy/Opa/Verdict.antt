-- ===== src/Policy/Opa/Verdict.antt =====
-- When OPA has a say, and what it can say.
use quilons_sentrycode.Common.{
  ◌≡◌, refl, ◌⊎◌, inl, inr, true, false, String, Option, none, some, arith, ℤ, pos, negsuc, zero,
  suc, Bool-cases, is_empty, string_eq,
}
use quilons_sentrycode.Common.Result.{Result, ok, err, >>=-eq-ok, throw_if-eq-ok}
use quilons_sentrycode.Core.Enums.{Decision}
use quilons_sentrycode.Core.Json.{Json, str, bool, obj, text}
use quilons_sentrycode.Core.Platform.{Platform}
use quilons_sentrycode.Core.Config.{OpaConfig}
use quilons_sentrycode.Policy.Opa.{
  ProcessResult, property, value_in, decision_of, decide_spelled, parse_stdout, interpret,
  result_of, finished, evaluate_opa,
}

-- A JSON value that spells a decision.
abbrev pub Spells : Json → Decision → Type 0
Spells (str s) d = decision_of s ≡ some d
Spells (bool true) d = d ≡ Decision.pass
Spells (bool false) d = d ≡ Decision.fail
Spells (obj fs) d = (s : String) × (text "decision" fs ≡ some s) × (decision_of s ≡ some d)
Spells _ d = ⊥

interpret-Spells :
    (query : String) (v : Option Json) (d : Decision)
    → interpret query v ≡ ok d
    → (j : Json) × (v ≡ some j) × Spells j d
unfolding interpret
interpret-Spells query none d h = cc
interpret-Spells query (some (str s)) d h = (str s, refl, ground arith)
interpret-Spells query (some (bool true)) d h = (bool true, refl, cc)
interpret-Spells query (some (bool false)) d h = (bool false, refl, cc)
interpret-Spells query (some (obj fs)) d h = (obj fs, refl, spelled (text "decision" fs) refl h)
  where
    spelled :
        (o : Option String)
        → text "decision" fs ≡ o
        → decide_spelled o ≡ ok d
        → (s : String) × (text "decision" fs ≡ some s) × (decision_of s ≡ some d)
    spelled none e k = cc
    spelled (some s) e k = (s, e, ground arith)
interpret-Spells query (some _) d h = cc

-- A decision that the query's first expression spells, printed by a process that exited with 0.
pub record Printed (host : Platform) (run : Result ProcessResult) (d : Decision) : Type 0 where
  pub process : ProcessResult
  pub resolved : run ≡ ok process
  pub exited : process.exit_code ≡ pos 0
  pub json : Json
  pub parsed : host.parse_json process.stdout ≡ some json
  pub value : Json
  pub found : value_in (property "result" (some json)) ≡ some value
  pub spelled : Spells value d

finished-eq-ok :
    (run : Result ProcessResult) (r : ProcessResult)
    → finished run ≡ ok r
    → (run ≡ ok r) × (r.exit_code ≡ pos 0)
unfolding finished
finished-eq-ok (err m) r h = cc
finished-eq-ok (ok q) r h = by_code q.exit_code refl
  where
    by_code :
        (code : ℤ)
        → q.exit_code ≡ code
        → (◌≡◌ {A = Result ProcessResult} (ok q) (ok r)) × (r.exit_code ≡ pos 0)
    by_code (pos zero) e = ground arith
    by_code (pos (suc n)) e = absurd (ground arith)
    by_code (negsuc n) e = absurd (ground arith)

result_of-eq-ok : (v : Json) (o : Option Json) → result_of v ≡ ok o → o ≡ property "result" (some v)
unfolding result_of
result_of-eq-ok Json.null o h = cc
result_of-eq-ok _ o h = cc

parse_stdout-eq-ok :
    (host : Platform) (s : String) (v : Json)
    → parse_stdout host s ≡ ok v
    → host.parse_json s ≡ some v
parse_stdout-eq-ok host s v h = ground arith

-- OPA has no say only where it is disabled; otherwise its decision is what a successful run of the
-- process printed, and every other outcome is an error.
pub evaluate_opa-Printed :
    (host : Platform) (config : OpaConfig) (run : Result ProcessResult) (o : Option Decision)
    → evaluate_opa host config run ≡ ok o
    → ((config.enabled ≡ false) × (o ≡ none))
      ⊎ ((config.enabled ≡ true) × ((d : Decision) × (o ≡ some d) × Printed host run d))
unfolding evaluate_opa
evaluate_opa-Printed host config run o h = elim (Bool-cases config.enabled) [
  | inr off ↦ inl (off, ground arith)
  | inl on ↦
      let h0 = rw on at h in
      let (files, h1) = throw_if-eq-ok (is_empty config.policy_files) _ _ h0 in
      let (r, ended, h2) = >>=-eq-ok (finished run) _ h1 in
      let (v, parsed, h3) = >>=-eq-ok (parse_stdout host r.stdout) _ h2 in
      let (first, found, h4) = >>=-eq-ok (result_of v) _ h3 in
      let (d, told, h5) =
        >>=-eq-ok (interpret config.query (value_in first)) (λ e. ok (some e)) h4 in
      let (j, at', spells) = interpret-Spells config.query (value_in first) d told in
      inr (
        on,
        (
          d,
          cc (h5),
          record {
            process = r;
            resolved = (finished-eq-ok run r ended).0;
            exited = (finished-eq-ok run r ended).1;
            json = v;
            parsed = parse_stdout-eq-ok host r.stdout v parsed;
            value = j;
            found = rw (← result_of-eq-ok v first found) at';
            spelled = spells;
          },
        ),
      )
]
