-- ===== src/Enterprise/Audit/Append.antt =====
-- What an appended event does to the chain.
use quilons_sentrycode.Common.{
  ℕ, suc, ◌≡◌, refl, ap, subst, ◌∙◌, sym, true, String, List, [], ◌∷◌, ◌++◌, Option, none, some,
  arith, string_eq, ==_refl,
}
use quilons_sentrycode.Common.Result.{Result, ok, ◌>>=◌, >>=-eq-ok}
use quilons_sentrycode.Core.Json.{
  Json, Fields, null, bool, num, str, arr, obj, other_num, get, text, stringify,
}
use quilons_sentrycode.Core.Platform.{Platform}
use quilons_sentrycode.Enterprise.Audit.{
  SigningKey, VerifyingKey, AuditFile, absent, unreadable, lines, parse_lines, parsed_line,
  read_audit_events, lines_of, intact, previous_hash, hash_or_genesis, event_hash, unsigned_event,
  with_field, with_signature, signature_of, signed_event, append_audit_event, base_of, accepts,
  check_event, verify_from, verify_audit_chain,
}
use quilons_sentrycode.Enterprise.Audit.Chain.{Links, check_event-Links, verify_from-cons}

parse_lines-append :
    (host : Platform) (ls : List String) (es : List Json) (l : String) (e : Json)
    → parse_lines host ls ≡ ok es
    → host.parse_json l ≡ some e
    → parse_lines host (ls ++ l ∷ []) ≡ ok (es ++ e ∷ [])
unfolding parse_lines
parse_lines-append host [] es l e h k =
    subst (λ os. parse_lines host (l ∷ []) ≡ ok (os ++ e ∷ [])) (ok-injective h) (rw k)
  where
    ok-injective : {xs ys : List Json} → ◌≡◌ {A = Result (List Json)} (ok xs) (ok ys) → xs ≡ ys
    ok-injective g = cc
parse_lines-append host (m ∷ ls) es l e h k =
    let (first, one, h1) = >>=-eq-ok (parsed_line (host.parse_json m)) _ h in
    let (rest, others, h2) = >>=-eq-ok (parse_lines host ls) _ h1 in
    let more = parse_lines-append host ls rest l e others k in rw (one, more) (cc (h2))

text-get : (k s : String) (fs : Fields) → text k fs ≡ some s → get k fs ≡ some (str s)
text-get k s fs h = by_value (get k fs) refl
  where
    by_value : (o : Option Json) → get k fs ≡ o → get k fs ≡ some (str s)
    by_value none e = ground arith
    by_value (some (str t)) e = ground arith
    by_value (some null) e = ground arith
    by_value (some (bool b)) e = ground arith
    by_value (some (num n)) e = ground arith
    by_value (some (other_num t)) e = ground arith
    by_value (some (arr xs)) e = ground arith
    by_value (some (obj gs)) e = ground arith

module _ (host : Platform) (key : VerifyingKey) where
  pub hash_or_genesis-Links :
      (previous : String) (event : Json) (hash : String)
      → Links host key previous event hash
      → hash_or_genesis event ≡ str hash
  hash_or_genesis-Links previous event hash l =
      rw (l.is_object, text-get "hash" _ l.content l.hashed, l.next) refl

  -- An intact chain ends in a hash, from which whatever follows it is verified.
  verify_from-append :
      (previous : String) (i : ℕ) (es : List Json)
      → verify_from host key previous i es ≡ ok intact
      → (q : String) × (j : ℕ) × (previous_hash (str previous) es ≡ str q)
        × ((more : List Json)
            → verify_from host key previous i (es ++ more) ≡ verify_from host key q j more)
  unfolding verify_from previous_hash
  verify_from-append previous i [] h = (previous, i, refl, λ more. refl)
  verify_from-append previous i (e ∷ es) h =
      let (hash, checked, h1) = verify_from-cons host key previous i e es h in
      let l = check_event-Links host key previous e hash checked in
      let (q, j, ends, more) = verify_from-append hash (suc i) es h1 in
      (
        q,
        j,
        ap (λ v. previous_hash v es) (hash_or_genesis-Links previous e hash l) ∙ ends,
        λ rest. rw checked (more rest),
      )

  -- The verifying key accepts what the signing key writes.
  abbrev pub Accepts : SigningKey → Type 0
  Accepts sign = (hash : String) → accepts key hash (signature_of sign hash) ≡ ok true

  new_event :
      (sign : SigningKey) (show : Json → String) (t a actor : String) (detail : Fields) (q : String)
      → Accepts sign
      → let base = unsigned_event host show t a actor detail (str q) in
        check_event host key q (obj (signed_event host sign base))
        ≡ ok (some (event_hash host base))
  unfolding check_event signed_event unsigned_event base_of get
  new_event sign show t a actor detail q good =
      let base = unsigned_event host show t a actor detail (str q) in
      by_signature (signature_of sign (event_hash host base)) (good (event_hash host base))
    where
      by_signature :
          (o : Option Json)
          → let base = unsigned_event host show t a actor detail (str q) in
            accepts key (event_hash host base) o ≡ ok true
            → check_event host key q
                (obj (with_signature (with_field base "hash" (str (event_hash host base))) o))
              ≡ ok (some (event_hash host base))
      by_signature none k = rw (==_refl q, k, ==_refl)
      by_signature (some s) k = rw (==_refl q, k, ==_refl)

  last_event :
      (sign : SigningKey) (show : Json → String) (t a actor : String) (detail : Fields) (q : String)
      (j : ℕ)
      → Accepts sign
      → verify_from host key q j
          (obj (signed_event host sign (unsigned_event host show t a actor detail (str q))) ∷ [])
        ≡ ok intact
  unfolding verify_from
  last_event sign show t a actor detail q j good =
      rw (new_event sign show t a actor detail q good) refl

  appended_lines :
      (file : AuditFile) (existing : List Json) (line : String) (event : Json)
      → read_audit_events host file ≡ ok existing
      → host.parse_json line ≡ some event
      → read_audit_events host (lines (lines_of file ++ line ∷ [])) ≡ ok (existing ++ event ∷ [])
  unfolding read_audit_events
  appended_lines absent existing line event h k =
      parse_lines-append host [] existing line event (unfold parse_lines in h) k
  appended_lines (unreadable m) existing line event h k = absurd (cc)
  appended_lines (lines ls) existing line event h k =
      parse_lines-append host ls existing line event h k

  pub append_audit_event-intact :
      (sign : SigningKey) (show : Json → String) (type' at' actor : String) (detail : Fields)
      (file after : AuditFile) (event : Fields)
      → Accepts sign
      → append_audit_event host show sign type' at' actor detail file ≡ ok (event, after)
      → host.parse_json (stringify (obj event)) ≡ some (obj event)
      → verify_audit_chain host key file ≡ ok intact
      → verify_audit_chain host key after ≡ ok intact
  unfolding append_audit_event verify_audit_chain
  append_audit_event-intact sign show t a actor detail file after event good h parses valid =
      let (existing, read, h1) = >>=-eq-ok (read_audit_events host file) _ h in
      let chain : verify_from host key "GENESIS" 0 existing ≡ ok intact = rw read at valid in
      let (q, j, ends, more) = verify_from-append "GENESIS" 0 existing chain in
      let new = signed_event host sign (unsigned_event host show t a actor detail (str q)) in
      let (same, files) = pair-injective (rw ends at h1) in
      let reads =
        appended_lines file existing (stringify (obj new)) (obj new) read
          (subst (λ e. host.parse_json (stringify (obj e)) ≡ some (obj e)) (sym same) parses) in
      subst
        (λ f.
          (read_audit_events host f >>= λ events. verify_from host key "GENESIS" 0 events)
          ≡ ok intact)
        files (rw (reads, more (obj new ∷ [])) (last_event sign show t a actor detail q j good))
    where
      pair-injective :
          {e e' : Fields} {f f' : AuditFile}
          → ◌≡◌ {A = Result (Fields × AuditFile)} (ok (e, f)) (ok (e', f'))
          → (e ≡ e') × (f ≡ f')
      pair-injective g = (cc, cc)
