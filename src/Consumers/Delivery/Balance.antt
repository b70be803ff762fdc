-- ===== src/Consumers/Delivery/Balance.antt =====
-- How the counts of a delivery go together.
use quilons_sentrycode.Common.{
  ℕ, suc, zero, ◌≡◌, refl, subst, inl, inr, ◌||◌, String, List, [], ◌∷◌, length, Option, some,
  arith, Bool-cases, ltb,
}
use quilons_sentrycode.Common.Result.{Result, ok, err}
use quilons_sentrycode.Core.Json.{Json, Fields}
use quilons_sentrycode.Core.Platform.{Platform}
use quilons_sentrycode.Enterprise.Audit.{AuditFile}
use quilons_sentrycode.Consumers.Delivery.{
  ConsumerDeliveryRecord, DeliveryStore, DeliveryJob, DeliveryState, query_of, batch_size,
  deliver_batch, open_batch, after_batch, drain, initial_state, checked,
  deliver_pending_consumer_deliveries,
}
use quilons_sentrycode.Consumers.Delivery.Counts.{deliver_batch-Counted, Balanced}

module _ (host : Platform) (show : Json → String) {State : Type 0} (store : DeliveryStore State)
    (publish : ℕ → Fields → Result ℕ) (job : DeliveryJob) where
  open_batch-Balanced :
      (rs : List ConsumerDeliveryRecord) (s s' : DeliveryState State)
      → Balanced host show store publish job s
      → deliver_batch host show store publish job rs
          (open_batch host show store publish job (length rs) s)
        ≡ ok s'
      → Balanced host show store publish job s'
  open_batch-Balanced rs s s' (d, f, a) h =
      let c =
        deliver_batch-Counted host show store publish job rs
          (open_batch host show store publish job (length rs) s) s' h in
      (
        omega (arith, d, c.attempted, c.delivered_most),
        omega (arith, f, c.attempted, c.failed_most),
        omega (arith, a, c.attempted, c.covered),
      )

  drain-Balanced :
      (rounds : ℕ) (s s' : DeliveryState State)
      → Balanced host show store publish job s
      → drain host show store publish job rounds s ≡ some (ok s')
      → Balanced host show store publish job s'
  unfolding drain
  drain-Balanced zero s s' b h = absurd (cc)
  drain-Balanced (suc n) s s' b h =
      by_page (store.list_pending (query_of host job) s.store) h
        (λ x bx hx. drain-Balanced n x s' bx hx)
    where
      some-injective :
          {x y : DeliveryState State}
          → ◌≡◌ {A = Option (Result (DeliveryState State))} (some (ok x)) (some (ok y))
          → x ≡ y
      some-injective g = cc

      ended :
          (n' : ℕ) (o : Result (DeliveryState State))
          → ((x : DeliveryState State) → o ≡ ok x → Balanced host show store publish job x)
          → ((x : DeliveryState State)
              → Balanced host show store publish job x
              → drain host show store publish job n x ≡ some (ok s')
              → Balanced host show store publish job s')
          → after_batch host show store publish job n'
              (λ x. drain host show store publish job n x)
              o
            ≡ some (ok s')
          → Balanced host show store publish job s'
      ended n' (err m) page next e = absurd (cc)
      ended n' (ok x) page next e =
          elim (Bool-cases (ltb 0 x.batch_failed || ltb n' (batch_size job))) [
            | inl last ↦
                subst (Balanced host show store publish job) (some-injective (rw last at e))
                  (page x refl)
            | inr more ↦ next x (page x refl) (rw more at e)
          ]

      by_page :
          (o : Result (List ConsumerDeliveryRecord))
          → elim o as (λ _. Option (Result (DeliveryState State))) [
            | err message ↦ some (err message)
            | ok [] ↦ some (ok s)
            | ok (r ∷ rs) ↦
                after_batch host show store publish job
                  (length (r ∷ rs))
                  (λ x. drain host show store publish job n x)
                  (deliver_batch host show store publish job
                    (r ∷ rs)
                    (open_batch host show store publish job (length (r ∷ rs)) s))
          ]
            ≡ some (ok s')
          → ((x : DeliveryState State)
              → Balanced host show store publish job x
              → drain host show store publish job n x ≡ some (ok s')
              → Balanced host show store publish job s')
          → Balanced host show store publish job s'
      by_page (err m) e next = absurd (cc)
      by_page (ok []) e next = subst (Balanced host show store publish job) (some-injective e) b
      by_page (ok (r ∷ rs)) e next =
          ended (length (r ∷ rs)) _ (λ x hx. open_batch-Balanced (r ∷ rs) s x b hx) next e

  -- When a delivery returns, it counts no more messages as delivered, and no more as failed, than it
  -- attempted, and it counts each that it attempted as one or the other.
  pub deliver_pending_consumer_deliveries-Balanced :
      (rounds : ℕ) (st : State) (file : AuditFile) (s' : DeliveryState State)
      → deliver_pending_consumer_deliveries host show store publish job rounds st file
        ≡ some (ok s')
      → Balanced host show store publish job s'
  unfolding deliver_pending_consumer_deliveries
  deliver_pending_consumer_deliveries-Balanced rounds st file s' h =
      by_check (checked host show store publish job) h
    where
      by_check :
          (c : Result (Unit {0}))
          → elim c as (λ _. Option (Result (DeliveryState State))) [
            | err message ↦ some (err message)
            | ok done ↦
                drain host show store publish job rounds
                  (initial_state host show store publish job st file)
          ]
            ≡ some (ok s')
          → Balanced host show store publish job s'
      by_check (err m) e = absurd (cc)
      by_check (ok u) e =
          drain-Balanced rounds (initial_state host show store publish job st file) s'
            (omega arith, omega arith, omega arith) e
