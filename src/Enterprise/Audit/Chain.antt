-- ===== src/Enterprise/Audit/Chain.antt =====
-- Chains that verify, event by event.
use quilons_sentrycode.Common.{
  ℕ, suc, ◌≡◌, refl, inl, inr, ◌&&◌, String, List, ◌∷◌, Option, none, some, arith, Bool-cases,
  string_eq, option_beq, option_beq_iff,
}
use quilons_sentrycode.Common.Result.{ok, >>=-eq-ok}
use quilons_sentrycode.Core.Json.{Json, Fields, null, obj, get, text}
use quilons_sentrycode.Core.Platform.{Platform}
use quilons_sentrycode.Enterprise.Audit.{
  VerifyingKey, intact, broken, event_hash, base_of, accepts, next_hash, check_event, verify_from,
}

module _ (host : Platform) (key : VerifyingKey) where
  -- An event that goes on from a hash, and passes.
  pub record Links (previous : String) (event : Json) (hash : String) : Type 0 where
    pub content : Fields
    pub is_object : event ≡ obj content
    pub linked : text "previousHash" content ≡ some previous
    pub hashed : text "hash" content ≡ some (event_hash host (base_of content))
    pub next : hash ≡ event_hash host (base_of content)

  pub check_event-Links :
      (previous : String) (event : Json) (hash : String)
      → check_event host key previous event ≡ ok (some hash)
      → Links previous event hash
  unfolding check_event
  check_event-Links previous (obj fs) hash h =
      let digest = event_hash host (base_of fs) in
      elim (Bool-cases (
        option_beq (text "previousHash" fs) (some previous)
        && option_beq (text "hash" fs) (some digest))) [
          | inl good ↦
              let (passed, checked, h1) =
                >>=-eq-ok (accepts key digest (get "signature" fs))
                  (λ good'. ok (next_hash digest good')) (rw good at h) in
              record {
                content = fs;
                is_object = refl;
                linked = (option_beq_iff _ _).0 (ground arith);
                hashed = (option_beq_iff _ _).0 (ground arith);
                next = ground arith;
              }
          | inr bad ↦ absurd (ground arith)
        ]
  check_event-Links previous null hash h = absurd (cc)
  check_event-Links previous _ hash h = absurd (cc)

  pub verify_from-cons :
      (previous : String) (i : ℕ) (event : Json) (events : List Json)
      → verify_from host key previous i (event ∷ events) ≡ ok intact
      → (hash : String) × (check_event host key previous event ≡ ok (some hash))
        × (verify_from host key hash (suc i) events ≡ ok intact)
  unfolding verify_from
  verify_from-cons previous i event events h =
      let (o, checked, h1) = >>=-eq-ok (check_event host key previous event) _ h in
      later o checked h1
    where
      later :
          (o : Option String)
          → check_event host key previous event ≡ ok o
          → (elim o [ none ↦ ok (broken i) | some hash ↦ verify_from host key hash (suc i) events ])
            ≡ ok intact
          → (hash : String) × (check_event host key previous event ≡ ok (some hash))
            × (verify_from host key hash (suc i) events ≡ ok intact)
      later none e k = absurd (cc)
      later (some hash) e k = (hash, e, k)
