-- ===== src/Consumers/Enqueue/Matches.antt =====
-- What the record of a queued message says.
use quilons_sentrycode.Common.{
  ◌≡◌, subst, ◌⊎◌, inl, inr, true, false, ◌&&◌, List, [], ◌∷◌, arith, Bool-cases, ◌==◌, string_eq,
  eq_iff, is_blank,
}
use quilons_sentrycode.Common.Result.{Result, ok, >>=-eq-ok, throw_if-eq-ok}
use quilons_sentrycode.Core.Json.{obj}
use quilons_sentrycode.Consumers.Delivery.{ConsumerDeliveryRecord}
use quilons_sentrycode.Consumers.Enqueue.{
  ConsumerDeliveryMessage, ConsumerDeliveryEnqueueResult, is_object, validate_message,
  canonical_json, identity_matches, assert_idempotent_match, check_match,
  enqueue_consumer_deliveries,
}

-- A message with all that it needs.
pub record Complete (m : ConsumerDeliveryMessage) : Type 0 where
  pub consumer : is_blank m.consumer_id ≡ false
  pub adapter : is_blank m.adapter_id ≡ false
  pub contract : is_blank m.adapter_contract_version ≡ false
  pub message : is_blank m.message_id ≡ false
  pub tenant : is_blank m.tenant ≡ false
  pub project : is_blank m.project ≡ false
  pub finding : is_blank m.finding_id ≡ false
  pub run : is_blank m.run_id ≡ false
  pub object : is_object m.payload ≡ true

-- A record that says what the message says; the payloads have the same canonical text.
pub record SaysSame (r : ConsumerDeliveryRecord) (m : ConsumerDeliveryMessage) : Type 0 where
  pub consumer : r.consumer_id ≡ m.consumer_id
  pub adapter : r.adapter_id ≡ m.adapter_id
  pub contract : r.adapter_contract_version ≡ m.adapter_contract_version
  pub tenant : r.tenant ≡ m.tenant
  pub project : r.project ≡ m.project
  pub finding : r.finding_id ≡ m.finding_id
  pub run : r.run_id ≡ m.run_id
  pub payload : canonical_json (obj r.payload) ≡ canonical_json m.payload

-- Results for messages, one for each: the record is new, or it was there and says the same.
abbrev pub Queued : List ConsumerDeliveryMessage → List ConsumerDeliveryEnqueueResult → Type 0
Queued [] [] = Unit
Queued (m ∷ ms) (r ∷ rs) = (Complete m × ((r.created ≡ true) ⊎ SaysSame r.record' m)) × Queued ms rs
Queued _ _ = ⊥

validate_message-Complete : (m : ConsumerDeliveryMessage) → validate_message m ≡ ok tt → Complete m
unfolding validate_message
validate_message-Complete m h =
    let (c, h1) = throw_if-eq-ok (is_blank m.consumer_id) _ _ h in
    let (a, h2) = throw_if-eq-ok (is_blank m.adapter_id) _ _ h1 in
    let (v, h3) = throw_if-eq-ok (is_blank m.adapter_contract_version) _ _ h2 in
    let (i, h4) = throw_if-eq-ok (is_blank m.message_id) _ _ h3 in
    let (t, h5) = throw_if-eq-ok (is_blank m.tenant) _ _ h4 in
    let (p, h6) = throw_if-eq-ok (is_blank m.project) _ _ h5 in
    let (f, h7) = throw_if-eq-ok (is_blank m.finding_id) _ _ h6 in
    let (r, h8) = throw_if-eq-ok (is_blank m.run_id) _ _ h7 in
    record {
      consumer = c;
      adapter = a;
      contract = v;
      message = i;
      tenant = t;
      project = p;
      finding = f;
      run = r;
      object = elim (Bool-cases (is_object m.payload)) [
        | inl yes' ↦ yes'
        | inr no' ↦ absurd (ground (arith, h8, no'))
      ];
    }

match-SaysSame :
    (r : ConsumerDeliveryRecord) (m : ConsumerDeliveryMessage)
    → assert_idempotent_match r m ≡ ok tt
    → SaysSame r m
unfolding assert_idempotent_match
match-SaysSame r m h =
    elim (Bool-cases
      (identity_matches r m && canonical_json (obj r.payload) == canonical_json m.payload)) [
        | inl same ↦ record {
          consumer = (eq_iff r.consumer_id m.consumer_id).0 (ground arith);
          adapter = (eq_iff r.adapter_id m.adapter_id).0 (ground arith);
          contract =
              (eq_iff r.adapter_contract_version m.adapter_contract_version).0 (ground arith);
          tenant = (eq_iff r.tenant m.tenant).0 (ground arith);
          project = (eq_iff r.project m.project).0 (ground arith);
          finding = (eq_iff r.finding_id m.finding_id).0 (ground arith);
          run = (eq_iff r.run_id m.run_id).0 (ground arith);
          payload =
              (eq_iff (canonical_json (obj r.payload)) (canonical_json m.payload)).0 (ground arith);
        }
        | inr other ↦ absurd (ground arith)
      ]

module _ {State : Type 0}
    (enqueue : ConsumerDeliveryMessage
      → State
      → Result (State × ConsumerDeliveryEnqueueResult)) where
  check_match-eq-ok :
      (result : ConsumerDeliveryEnqueueResult) (m : ConsumerDeliveryMessage)
      → check_match enqueue result m ≡ ok tt
      → (result.created ≡ true) ⊎ SaysSame result.record' m
  check_match-eq-ok result m h = elim (Bool-cases result.created) [
    | inl new ↦ inl new
    | inr old ↦ inr (match-SaysSame result.record' m (rw old at h))
  ]

  unit-eq : (u : Unit {0}) (r : Result (Unit {0})) → r ≡ ok u → r ≡ ok tt
  unit-eq u r h = h

  -- When the messages are queued, each is complete, and its record is new or says what the message
  -- says, with a payload of the same canonical text.
  pub enqueue_consumer_deliveries-Queued :
      (ms : List ConsumerDeliveryMessage) (s s' : State) (rs : List ConsumerDeliveryEnqueueResult)
      → enqueue_consumer_deliveries enqueue ms s ≡ ok (s', rs)
      → Queued ms rs
  unfolding enqueue_consumer_deliveries
  enqueue_consumer_deliveries-Queued [] s s' rs h = subst (Queued []) (second h) tt
    where
      second :
          ◌≡◌ {A = Result (State × List ConsumerDeliveryEnqueueResult)} (ok (s, [])) (ok (s', rs))
          → [] ≡ rs
      second g = cc
  enqueue_consumer_deliveries-Queued (m ∷ ms) s s' rs h =
      let (u, valid, h1) = >>=-eq-ok (validate_message m) _ h in
      let (one, put, h2) = >>=-eq-ok (enqueue m s) _ h1 in
      let (v, matched, h3) = >>=-eq-ok (check_match enqueue one.1 m) _ h2 in
      let (rest, others, h4) = >>=-eq-ok (enqueue_consumer_deliveries enqueue ms one.0) _ h3 in
      subst (Queued (m ∷ ms)) (second one rest h4) (
        (
          validate_message-Complete m (unit-eq u (validate_message m) valid),
          check_match-eq-ok one.1 m (unit-eq v (check_match enqueue one.1 m) matched),
        ),
        enqueue_consumer_deliveries-Queued ms one.0 rest.0 rest.1 others,
      )
    where
      second :
          (one : State × ConsumerDeliveryEnqueueResult)
          (rest : State × List ConsumerDeliveryEnqueueResult)
          → ◌≡◌ {A = Result (State × List ConsumerDeliveryEnqueueResult)}
              (ok (rest.0, one.1 ∷ rest.1))
              (ok (s', rs))
          → one.1 ∷ rest.1 ≡ rs
      second one rest g = cc
