-- ===== src/Consumers/Outbox.antt =====
-- The queue of `listPendingConsumerDeliveries` and `recordConsumerDeliveryAttempt` in
-- src/application/postgres.ts, as a table whose rows stand in the order of the query. `at_most` is
-- the database's order of timestamps and `clock` its `now()`.
use quilons_sentrycode.Common.{
  ℕ, suc, zero, ◌+◌, ◌≤◌, ◌<◌, ◌≡◌, ap, subst, ◌∙◌, sym, Bool, true, false, not, ◌&&◌, String, List,
  [], ◌∷◌, map, filter, length, Option, none, some, if◌then◌else◌, ◌==◌, string_eq, ltb, arith,
  Bool-cases, inl, inr, ◌⊎◌, ==_refl,
}
use quilons_sentrycode.Common.Result.{Result, ok}
use quilons_sentrycode.Consumers.Delivery.{
  ConsumerDeliveryStatus, ConsumerDeliveryRecord, Attempt, success, failure, DeliveryQuery,
  DeliveryStore,
}

abbrev pub is_delivered : ConsumerDeliveryStatus → Bool
is_delivered ConsumerDeliveryStatus.delivered = true
is_delivered _ = false

abbrev pub has_key : String → String → ConsumerDeliveryRecord → Bool
has_key consumer_id message_id r = r.consumer_id == consumer_id && r.message_id == message_id

pub ok-injective :
    {xs ys : List ConsumerDeliveryRecord}
    → ◌≡◌ {A = Result (List ConsumerDeliveryRecord)} (ok xs) (ok ys)
    → xs ≡ ys
ok-injective h = cc

-- `LIMIT`.
unfoldable pub take {ℓ} : {A : Type ℓ} → ℕ → List A → List A
take zero xs = []
take (suc n) [] = []
take (suc n) (x ∷ xs) = x ∷ take n xs

module _ (at_most : String → String → Bool) (clock : String) where
  abbrev pub is_due : Option String → String → Bool
  is_due none now = true
  is_due (some t) now = at_most t now

  abbrev pub is_waiting : DeliveryQuery → ConsumerDeliveryRecord → Bool
  is_waiting q r =
      r.consumer_id == q.consumer_id
      && r.tenant == q.tenant
      && r.project == q.project
      && not (is_delivered r.status)
      && ltb r.attempt_count q.max_attempts
      && is_due r.next_attempt_at q.now

  unfoldable pub pending_rows :
      DeliveryQuery → List ConsumerDeliveryRecord → List ConsumerDeliveryRecord
  unfolding take
  pending_rows q rows = take q.limit (filter (is_waiting q) rows)

  abbrev pub attempted_row : Attempt → ConsumerDeliveryRecord → ConsumerDeliveryRecord
  attempted_row (success code) r = record r {
    status = ConsumerDeliveryStatus.delivered;
    attempt_count = suc r.attempt_count;
    response_status = some code;
    last_attempt_at = some clock;
    next_attempt_at = none;
    last_error = none;
    delivered_at = some clock;
    updated_at = clock;
  }
  attempted_row (failure message next) r = record r {
    status = ConsumerDeliveryStatus.failed;
    attempt_count = suc r.attempt_count;
    response_status = none;
    last_attempt_at = some clock;
    next_attempt_at = some next;
    last_error = some message;
    updated_at = clock;
  }

  abbrev pub updated_row :
      String → String → Attempt → ConsumerDeliveryRecord → ConsumerDeliveryRecord
  updated_row consumer_id message_id a r =
      if has_key consumer_id message_id r && not (is_delivered r.status)
      then attempted_row a r
      else r

  unfoldable pub record_attempt :
      String → String → Attempt → List ConsumerDeliveryRecord → List ConsumerDeliveryRecord
  record_attempt consumer_id message_id a rows = map (updated_row consumer_id message_id a) rows

  unfoldable pub waiting_rows : DeliveryQuery → List ConsumerDeliveryRecord → ℕ
  waiting_rows q rows = length (filter (is_waiting q) rows)

  -- A row that is recorded as delivered waits no longer, and the others wait as they did.
  updated-waiting :
      (q : DeliveryQuery) (c m : String) (code : ℕ) (r : ConsumerDeliveryRecord)
      → is_waiting q (updated_row c m (success code) r)
        ≡ (is_waiting q r && not (has_key c m r && not (is_delivered r.status)))
  updated-waiting q c m code r = elim (Bool-cases (has_key c m r && not (is_delivered r.status))) [
    | inl hit ↦ rw hit (ground arith)
    | inr miss ↦ rw miss (ground arith)
  ]

  abbrev bit : Bool → ℕ
  bit true = 1
  bit false = 0

  waiting-cons :
      (q : DeliveryQuery) (r : ConsumerDeliveryRecord) (rows : List ConsumerDeliveryRecord)
      → waiting_rows q (r ∷ rows) ≡ bit (is_waiting q r) + waiting_rows q rows
  unfolding waiting_rows
  waiting-cons q r rows = elim (Bool-cases (is_waiting q r)) [
    | inl waits ↦ rw waits (omega arith)
    | inr rests ↦ rw rests (omega arith)
  ]

  bit-and : (b c : Bool) → bit (b && c) ≤ bit b
  bit-and true true = omega arith
  bit-and true false = omega arith
  bit-and false c = omega arith

  bit-updated :
      (q : DeliveryQuery) (c m : String) (code : ℕ) (r : ConsumerDeliveryRecord)
      → bit (is_waiting q (updated_row c m (success code) r)) ≤ bit (is_waiting q r)
  bit-updated q c m code r =
      subst (λ b. bit b ≤ bit (is_waiting q r)) (sym (updated-waiting q c m code r))
        (bit-and (is_waiting q r) (not (has_key c m r && not (is_delivered r.status))))

  pub count-keeps :
      (q : DeliveryQuery) (c m : String) (code : ℕ) (rows : List ConsumerDeliveryRecord)
      → waiting_rows q (record_attempt c m (success code) rows) ≤ waiting_rows q rows
  unfolding record_attempt
  count-keeps q c m code [] = omega arith
  count-keeps q c m code (r ∷ rows) = omega (
    arith,
    waiting-cons q r rows,
    waiting-cons q (updated_row c m (success code) r) (map (updated_row c m (success code)) rows),
    bit-updated q c m code r,
    count-keeps q c m code rows,
  )

  delivered-rests :
      (q : DeliveryQuery) (code : ℕ) (r : ConsumerDeliveryRecord)
      → is_waiting q r ≡ true
      → is_waiting q (updated_row r.consumer_id r.message_id (success code) r) ≡ false
  delivered-rests q code r waits =
      updated-waiting q r.consumer_id r.message_id code r
      ∙ ground (arith, ==_refl r.consumer_id, ==_refl r.message_id)

  pub count-leaves :
      (q : DeliveryQuery) (code : ℕ) (rows : List ConsumerDeliveryRecord)
      (r : ConsumerDeliveryRecord) (rs : List ConsumerDeliveryRecord)
      → pending_rows q rows ≡ r ∷ rs
      → waiting_rows q (record_attempt r.consumer_id r.message_id (success code) rows)
        < waiting_rows q rows
  unfolding record_attempt pending_rows
  count-leaves q code [] r rs h = absurd (nothing q.limit h)
    where
      nothing : (n : ℕ) → take n [] ≡ r ∷ rs → ⊥
      nothing zero e = cc
      nothing (suc n) e = cc
  count-leaves q code (x ∷ rows) r rs h =
      by_first (Bool-cases (is_waiting q x)) (λ e. count-leaves q code rows r rs e)
    where
      updated : ConsumerDeliveryRecord → ConsumerDeliveryRecord
      updated = updated_row r.consumer_id r.message_id (success code)

      heads : (n : ℕ) (ys : List ConsumerDeliveryRecord) → take n (x ∷ ys) ≡ r ∷ rs → x ≡ r
      heads zero ys e = absurd (cc)
      heads (suc n) ys e = cc

      rests : x ≡ r → is_waiting q x ≡ true → is_waiting q (updated x) ≡ false
      rests same waits =
          subst
            (λ y. is_waiting q (updated_row y.consumer_id y.message_id (success code) x) ≡ false)
            same (delivered-rests q code x waits)

      by_first :
          ((is_waiting q x ≡ true) ⊎ (is_waiting q x ≡ false))
          → (pending_rows q rows ≡ r ∷ rs
              → waiting_rows q (record_attempt r.consumer_id r.message_id (success code) rows)
                < waiting_rows q rows)
          → waiting_rows q (record_attempt r.consumer_id r.message_id (success code) (x ∷ rows))
            < waiting_rows q (x ∷ rows)
      by_first (inl waits) next =
          let same = heads q.limit (filter (is_waiting q) rows) (rw waits at h) in
          let gone : bit (is_waiting q (updated x)) ≡ 0 = ap bit (rests same waits) in
          let there' : bit (is_waiting q x) ≡ 1 = ap bit waits in
          omega (
            arith,
            waiting-cons q x rows,
            waiting-cons q (updated x) (map updated rows),
            gone,
            there',
            count-keeps q r.consumer_id r.message_id code rows,
          )
      by_first (inr rests') next = omega (
        arith,
        waiting-cons q x rows,
        waiting-cons q (updated x) (map updated rows),
        bit-updated q r.consumer_id r.message_id code x,
        next (rw rests' at h),
      )

  -- The table keeps what a delivery relies on.
  unfoldable pub outbox : DeliveryStore (List ConsumerDeliveryRecord)
  outbox = record {
    list_pending = λ q rows. ok (pending_rows q rows);
    record_attempt = λ c m a rows. ok (record_attempt c m a rows);
    waiting = waiting_rows;
    delivered_leaves = λ q s s' r rs code listed stored.
        subst (λ x. waiting_rows q x < waiting_rows q s) (ok-injective stored)
          (count-leaves q code s r rs (ok-injective listed));
    delivered_keeps = λ q s s' c m code stored.
        subst (λ x. waiting_rows q x ≤ waiting_rows q s) (ok-injective stored)
          (count-keeps q c m code s);
  }
