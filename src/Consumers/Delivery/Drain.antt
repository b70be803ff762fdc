-- ===== src/Consumers/Delivery/Drain.antt =====
-- When the rounds of a delivery end.
use quilons_sentrycode.Common.{
  ℕ, suc, zero, ◌≤◌, ◌<◌, ◌≡◌, refl, ◌∙◌, subst, ◌⊎◌, inl, inr, true, ◌||◌, String, List, [], ◌∷◌,
  length, Option, some, is_some, arith, Bool-cases, ltb,
}
use quilons_sentrycode.Common.Result.{Result, ok, err, >>=-eq-ok}
use quilons_sentrycode.Core.Json.{Json, Fields}
use quilons_sentrycode.Core.Platform.{Platform}
use quilons_sentrycode.Enterprise.Audit.{AuditFile}
use quilons_sentrycode.Consumers.Delivery.{
  ConsumerDeliveryRecord, DeliveryStore, DeliveryJob, DeliveryState, query_of, batch_size, try_one,
  caught, deliver_batch, open_batch, after_batch, drain, initial_state, checked,
  deliver_pending_consumer_deliveries,
}
use quilons_sentrycode.Consumers.Delivery.Counts.{Clean, Thrown, delivered_one, ok-injective}

module _ (host : Platform) (show : Json → String) {State : Type 0} (store : DeliveryStore State)
    (publish : ℕ → Fields → Result ℕ) (job : DeliveryJob) where
  -- A page only adds to the failures, and adds none only where each message is recorded as
  -- delivered; then none waits that did not.
  deliver_batch-waiting :
      (rs : List ConsumerDeliveryRecord) (s s' : DeliveryState State)
      → deliver_batch host show store publish job rs s ≡ ok s'
      → (s.batch_failed < s'.batch_failed)
        ⊎ ((s'.batch_failed ≡ s.batch_failed)
            × (store.waiting (query_of host job) s'.store
                ≤ store.waiting (query_of host job) s.store))
  unfolding deliver_batch
  deliver_batch-waiting [] s s' h =
      subst
        (λ x.
          (s.batch_failed < x.batch_failed)
          ⊎ ((x.batch_failed ≡ s.batch_failed)
              × (store.waiting (query_of host job) x.store
                  ≤ store.waiting (query_of host job) s.store)))
        (ok-injective h) (inr (refl, omega arith))
  deliver_batch-waiting (r ∷ rs) s s' h =
      let (s1, one, h1) =
        >>=-eq-ok (caught host show store publish job r (try_one host show store publish job r s)) _
          h in
      joined s1 (delivered_one host show store publish job r s s1 one)
        (deliver_batch-waiting rs s1 s' h1)
    where
      joined :
          (s1 : DeliveryState State)
          → Clean host show store publish job r s s1 ⊎ Thrown host show store publish job 1 s s1
          → (s1.batch_failed < s'.batch_failed)
            ⊎ ((s'.batch_failed ≡ s1.batch_failed)
                × (store.waiting (query_of host job) s'.store
                    ≤ store.waiting (query_of host job) s1.store))
          → (s.batch_failed < s'.batch_failed)
            ⊎ ((s'.batch_failed ≡ s.batch_failed)
                × (store.waiting (query_of host job) s'.store
                    ≤ store.waiting (query_of host job) s.store))
      joined s1 (inl o) (inl more) = inl (omega (arith, o.batch_failed, more))
      joined s1 (inl o) (inr (same, fewer)) =
          let keeps =
            store.delivered_keeps (query_of host job) s.store s1.store r.consumer_id r.message_id
              o.code o.recorded' in
          inr (same ∙ o.batch_failed, omega (arith, keeps, fewer))
      joined s1 (inr t) (inl more) = inl (omega (arith, t.batch_failed, more))
      joined s1 (inr t) (inr (same, fewer)) = inl (omega (arith, t.batch_failed, same))

  -- A page without a failure leaves fewer messages waiting.
  page-waiting :
      (r : ConsumerDeliveryRecord) (rs : List ConsumerDeliveryRecord) (s s' : DeliveryState State)
      → store.list_pending (query_of host job) s.store ≡ ok (r ∷ rs)
      → deliver_batch host show store publish job (r ∷ rs) s ≡ ok s'
      → s'.batch_failed ≤ s.batch_failed
      → store.waiting (query_of host job) s'.store < store.waiting (query_of host job) s.store
  unfolding deliver_batch
  page-waiting r rs s s' listed h none' =
      let (s1, one, h1) =
        >>=-eq-ok (caught host show store publish job r (try_one host show store publish job r s)) _
          h in
      joined s1 (delivered_one host show store publish job r s s1 one)
        (deliver_batch-waiting rs s1 s' h1)
    where
      joined :
          (s1 : DeliveryState State)
          → Clean host show store publish job r s s1 ⊎ Thrown host show store publish job 1 s s1
          → (s1.batch_failed < s'.batch_failed)
            ⊎ ((s'.batch_failed ≡ s1.batch_failed)
                × (store.waiting (query_of host job) s'.store
                    ≤ store.waiting (query_of host job) s1.store))
          → store.waiting (query_of host job) s'.store < store.waiting (query_of host job) s.store
      joined s1 (inl o) (inl more) = absurd (omega (arith, o.batch_failed, more, none'))
      joined s1 (inl o) (inr (same, fewer)) =
          let leaves =
            store.delivered_leaves (query_of host job) s.store s1.store r rs o.code listed
              o.recorded' in
          omega (arith, leaves, fewer)
      joined s1 (inr t) (inl more) = absurd (omega (arith, t.batch_failed, more, none'))
      joined s1 (inr t) (inr (same, fewer)) = absurd (omega (arith, t.batch_failed, same, none'))

  -- The rounds end: one more of them than messages wait is enough.
  drain-ends :
      (rounds : ℕ) (s : DeliveryState State)
      → store.waiting (query_of host job) s.store < rounds
      → is_some (drain host show store publish job rounds s) ≡ true
  unfolding drain
  drain-ends zero s h = absurd (omega (arith, h))
  drain-ends (suc n) s h =
      by_page (store.list_pending (query_of host job) s.store) refl
        (λ s' fewer. drain-ends n s' fewer)
    where
      ended :
          (r : ConsumerDeliveryRecord) (rs : List ConsumerDeliveryRecord)
          (b : Result (DeliveryState State))
          → store.list_pending (query_of host job) s.store ≡ ok (r ∷ rs)
          → deliver_batch host show store publish job
              (r ∷ rs)
              (open_batch host show store publish job (length (r ∷ rs)) s)
            ≡ b
          → ((s' : DeliveryState State)
              → store.waiting (query_of host job) s'.store < n
              → is_some (drain host show store publish job n s') ≡ true)
          → is_some (
              after_batch host show store publish job
                (length (r ∷ rs))
                (λ s'. drain host show store publish job n s')
                b)
            ≡ true
      ended r rs (err m) listed e next = refl
      ended r rs (ok s') listed e next =
          elim (Bool-cases (ltb 0 s'.batch_failed || ltb (length (r ∷ rs)) (batch_size job))) [
            | inl last ↦ rw last refl
            | inr more ↦ rw more (
                next s' (
                  omega (
                    arith,
                    h,
                    page-waiting r rs (open_batch host show store publish job (length (r ∷ rs)) s)
                        s' listed e (ground arith),
                  )))
          ]

      by_page :
          (o : Result (List ConsumerDeliveryRecord))
          → store.list_pending (query_of host job) s.store ≡ o
          → ((s' : DeliveryState State)
              → store.waiting (query_of host job) s'.store < n
              → is_some (drain host show store publish job n s') ≡ true)
          → is_some (elim o as (λ _. Option (Result (DeliveryState State))) [
            | err message ↦ some (err message)
            | ok [] ↦ some (ok s)
            | ok (r ∷ rs) ↦
                after_batch host show store publish job
                  (length (r ∷ rs))
                  (λ x. drain host show store publish job n x)
                  (deliver_batch host show store publish job
                    (r ∷ rs)
                    (open_batch host show store publish job (length (r ∷ rs)) s))
          ])
            ≡ true
      by_page (err m) e next = refl
      by_page (ok []) e next = refl
      by_page (ok (r ∷ rs)) e next = ended r rs _ e refl next

  -- A delivery ends, with a result or an error, in one round more than messages wait when it starts.
  pub deliver_pending_consumer_deliveries-ends :
      (rounds : ℕ) (st : State) (file : AuditFile)
      → store.waiting (query_of host job) st < rounds
      → is_some (deliver_pending_consumer_deliveries host show store publish job rounds st file)
        ≡ true
  unfolding deliver_pending_consumer_deliveries
  deliver_pending_consumer_deliveries-ends rounds st file h =
      by_check (checked host show store publish job)
    where
      by_check :
          (c : Result (Unit {0}))
          → is_some (elim c as (λ _. Option (Result (DeliveryState State))) [
            | err message ↦ some (err message)
            | ok done ↦
                drain host show store publish job rounds
                  (initial_state host show store publish job st file)
          ])
            ≡ true
      by_check (err m) = refl
      by_check (ok u) = drain-ends rounds (initial_state host show store publish job st file) h
