-- ===== src/Consumers/Delivery/Counts.antt =====
-- What a delivery counts.
use quilons_sentrycode.Common.{
  ℕ, suc, ◌+◌, ◌≤◌, ◌≡◌, refl, ◌∙◌, sym, ap, subst, ◌⊎◌, inl, inr, String, List, [], ◌∷◌, length,
  Option, none, some, arith, ◌<>◌,
}
use quilons_sentrycode.Common.Result.{Result, ok, err, >>=-eq-ok}
use quilons_sentrycode.Core.Json.{Json, Fields, str, num}
use quilons_sentrycode.Core.Platform.{Platform}
use quilons_sentrycode.Enterprise.Audit.{AuditFile, append_audit_event}
use quilons_sentrycode.Consumers.Delivery.{
  ConsumerDeliveryRecord, success, failure, DeliveryStore, DeliveryJob, DeliveryState, audit_prefix,
  audit_detail, after_audit, audited, recorded, published, try_one, thrown, catch_one, caught,
  deliver_batch,
}

pub ok-injective : {A : Type 0} {a b : A} → ◌≡◌ {A = Result A} (ok a) (ok b) → a ≡ b
ok-injective h = cc

-- Two states with the same counts and the same store.
pub record SameCounts {State : Type 0} (s s' : DeliveryState State) : Type 0 where
  pub store : s'.store ≡ s.store
  pub attempted : s'.attempted ≡ s.attempted
  pub delivered : s'.delivered_count ≡ s.delivered_count
  pub failed : s'.failed_count ≡ s.failed_count
  pub batch_failed : s'.batch_failed ≡ s.batch_failed

module _ (host : Platform) (show : Json → String) {State : Type 0} (store : DeliveryStore State)
    (publish : ℕ → Fields → Result ℕ) (job : DeliveryJob) where
  -- A message that was delivered and recorded so.
  pub record Clean (r : ConsumerDeliveryRecord) (s s' : DeliveryState State) : Type 0 where
    pub code : ℕ
    pub recorded' :
        store.record_attempt r.consumer_id r.message_id (success code) s.store ≡ ok s'.store
    pub attempted : s'.attempted ≡ s.attempted
    pub delivered : s'.delivered_count ≡ suc s.delivered_count
    pub failed : s'.failed_count ≡ s.failed_count
    pub batch_failed : s'.batch_failed ≡ s.batch_failed

  -- A message in whose delivery something threw; `more` is what that adds to the failures.
  pub record Thrown (more : ℕ) (s s' : DeliveryState State) : Type 0 where
    pub attempted : s'.attempted ≡ s.attempted
    pub delivered_least : s.delivered_count ≤ s'.delivered_count
    pub delivered_most : s'.delivered_count ≤ suc s.delivered_count
    pub failed : s'.failed_count ≡ s.failed_count + more
    pub batch_failed : s'.batch_failed ≡ s.batch_failed + more

  audited-SameCounts :
      (event : String) (detail : Fields) (s : DeliveryState State)
      → SameCounts s (audited host show store publish job event detail s).0
  unfolding audited
  audited-SameCounts event detail s = by_result (
      append_audit_event host show job.signing_key (audit_prefix job.audit_event_prefix <> event)
        (job.audit_time s.calls) job.actor detail s.audit_log)
    where
      by_result :
          (result : Result (Fields × AuditFile))
          → SameCounts s (after_audit host show store publish job s result).0
      by_result (err message) = record {
        store = refl;
        attempted = refl;
        delivered = refl;
        failed = refl;
        batch_failed = refl;
      }
      by_result (ok (e, file)) = record {
        store = refl;
        attempted = refl;
        delivered = refl;
        failed = refl;
        batch_failed = refl;
      }

  -- What the body of `try` did, by how it ended.
  abbrev Tried :
      ConsumerDeliveryRecord → DeliveryState State → DeliveryState State × Option String → Type 0
  Tried r s (s', none) = Clean r s s'
  Tried r s (s', some message) = Thrown 0 s s'

  recorded-Tried :
      (r : ConsumerDeliveryRecord) (code : ℕ) (s : DeliveryState State) (result : Result State)
      → store.record_attempt r.consumer_id r.message_id (success code) s.store ≡ result
      → Tried r s (recorded host show store publish job r code s result)
  recorded-Tried r code s (err message) h = record {
    attempted = refl;
    delivered_least = omega arith;
    delivered_most = omega arith;
    failed = omega arith;
    batch_failed = omega arith;
  }
  recorded-Tried r code s (ok st) h =
      let before = record s { store = st; delivered_count = suc s.delivered_count } in
      let detail = audit_detail r ("responseStatus", num code) in
      by_end (audited host show store publish job ".delivered" detail before)
        (audited-SameCounts ".delivered" detail before)
    where
      by_end :
          (a : DeliveryState State × Option String)
          → SameCounts (record s { store = st; delivered_count = suc s.delivered_count }) a.0
          → Tried r s a
      by_end (s', none) same = record {
        code = code;
        recorded' = h ∙ ap ok (sym same.store);
        attempted = same.attempted;
        delivered = same.delivered;
        failed = same.failed;
        batch_failed = same.batch_failed;
      }
      by_end (s', some message) same = record {
        attempted = same.attempted;
        delivered_least = omega (arith, same.delivered);
        delivered_most = omega (arith, same.delivered);
        failed = omega (arith, same.failed);
        batch_failed = omega (arith, same.batch_failed);
      }

  published-Tried :
      (r : ConsumerDeliveryRecord) (s : DeliveryState State) (result : Result ℕ)
      → Tried r s (published host show store publish job r s result)
  published-Tried r s (err message) = record {
    attempted = refl;
    delivered_least = omega arith;
    delivered_most = omega arith;
    failed = omega arith;
    batch_failed = omega arith;
  }
  published-Tried r s (ok code) =
      recorded-Tried r code s
        (store.record_attempt r.consumer_id r.message_id (success code) s.store) refl

  caught-Tried :
      (r : ConsumerDeliveryRecord) (s s' : DeliveryState State)
      (a : DeliveryState State × Option String)
      → Tried r s a
      → caught host show store publish job r a ≡ ok s'
      → Clean r s s' ⊎ Thrown 1 s s'
  unfolding catch_one
  caught-Tried r s s' (s1, none) t h = inl (subst (Clean r s) (ok-injective h) t)
  caught-Tried r s s' (s1, some message) t h =
      let (st, recorded', h1) =
        >>=-eq-ok
          (store.record_attempt r.consumer_id r.message_id
            (failure message (host.to_iso_string (job.now + job.retry_delay_ms))) s1.store)
          _ h in
      let before = record s1 {
        store = st;
        failed_count = suc s1.failed_count;
        batch_failed = suc s1.batch_failed;
      } in
      let detail = audit_detail r ("error", str message) in
      inr (
        by_end st (audited host show store publish job ".delivery_failed" detail before)
          (audited-SameCounts ".delivery_failed" detail before) h1)
    where
      by_end :
          (st : State) (a : DeliveryState State × Option String)
          → SameCounts
              (record s1 {
                store = st;
                failed_count = suc s1.failed_count;
                batch_failed = suc s1.batch_failed;
              })
              a.0
          → thrown host show store publish job a ≡ ok s'
          → Thrown 1 s s'
      by_end st (s2, none) same e = subst (Thrown 1 s) (ok-injective e) (record {
        attempted = same.attempted ∙ t.attempted;
        delivered_least = omega (arith, same.delivered, t.delivered_least);
        delivered_most = omega (arith, same.delivered, t.delivered_most);
        failed = omega (arith, same.failed, t.failed);
        batch_failed = omega (arith, same.batch_failed, t.batch_failed);
      })
      by_end st (s2, some m) same e = absurd (cc)

  -- One message of a page.
  pub delivered_one :
      (r : ConsumerDeliveryRecord) (s s' : DeliveryState State)
      → caught host show store publish job r (try_one host show store publish job r s) ≡ ok s'
      → Clean r s s' ⊎ Thrown 1 s s'
  unfolding try_one
  delivered_one r s s' h =
      elim (caught-Tried r (record s { calls = suc s.calls }) s' _
        (published-Tried r (record s { calls = suc s.calls }) (publish s.calls r.payload)) h) [
          | inl c ↦ inl (record {
            code = c.code;
            recorded' = c.recorded';
            attempted = c.attempted;
            delivered = c.delivered;
            failed = c.failed;
            batch_failed = c.batch_failed;
          })
          | inr t ↦ inr (record {
            attempted = t.attempted;
            delivered_least = t.delivered_least;
            delivered_most = t.delivered_most;
            failed = t.failed;
            batch_failed = t.batch_failed;
          })
        ]

  -- What a page of messages adds to the counts.
  pub record Counted (n : ℕ) (s s' : DeliveryState State) : Type 0 where
    pub attempted : s'.attempted ≡ s.attempted
    pub delivered_least : s.delivered_count ≤ s'.delivered_count
    pub failed_least : s.failed_count ≤ s'.failed_count
    pub delivered_most : s'.delivered_count ≤ s.delivered_count + n
    pub failed_most : s'.failed_count ≤ s.failed_count + n
    pub covered : s.delivered_count + s.failed_count + n ≤ s'.delivered_count + s'.failed_count

  pub deliver_batch-Counted :
      (rs : List ConsumerDeliveryRecord) (s s' : DeliveryState State)
      → deliver_batch host show store publish job rs s ≡ ok s'
      → Counted (length rs) s s'
  unfolding deliver_batch
  deliver_batch-Counted [] s s' h = subst (Counted 0 s) (ok-injective h) (record {
    attempted = refl;
    delivered_least = omega arith;
    failed_least = omega arith;
    delivered_most = omega arith;
    failed_most = omega arith;
    covered = omega arith;
  })
  deliver_batch-Counted (r ∷ rs) s s' h =
      let (s1, one, h1) =
        >>=-eq-ok (caught host show store publish job r (try_one host show store publish job r s)) _
          h in
      let c = deliver_batch-Counted rs s1 s' h1 in
      elim (delivered_one r s s1 one) [
        | inl o ↦ record {
          attempted = c.attempted ∙ o.attempted;
          delivered_least = omega (arith, c.delivered_least, o.delivered);
          failed_least = omega (arith, c.failed_least, o.failed);
          delivered_most = omega (arith, c.delivered_most, o.delivered);
          failed_most = omega (arith, c.failed_most, o.failed);
          covered = omega (arith, c.covered, o.delivered, o.failed);
        }
        | inr o ↦ record {
          attempted = c.attempted ∙ o.attempted;
          delivered_least = omega (arith, c.delivered_least, o.delivered_least);
          failed_least = omega (arith, c.failed_least, o.failed);
          delivered_most = omega (arith, c.delivered_most, o.delivered_most);
          failed_most = omega (arith, c.failed_most, o.failed);
          covered = omega (arith, c.covered, o.delivered_least, o.failed);
        }
      ]

  -- The counts agree: nothing is counted as delivered or failed that was not attempted, and what was
  -- attempted is counted at least once.
  abbrev pub Balanced : DeliveryState State → Type 0
  Balanced s =
      (s.delivered_count ≤ s.attempted)
      × (s.failed_count ≤ s.attempted)
      × (s.attempted ≤ s.delivered_count + s.failed_count)
