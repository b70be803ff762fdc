-- ===== src/Consumers/Delivery.antt =====
-- src/consumers/delivery.ts: the delivery of queued messages to one consumer, page by page, with its
-- audit trail. The queue is a store behind an interface, which src/application/store.ts names.
pub mod Counts
pub mod Drain
pub mod Balance
use quilons_sentrycode.Common.{
  ℕ, suc, zero, ◌+◌, ◌<◌, ◌≤◌, ◌≡◌, ◌||◌, String, List, [], ◌∷◌, length, Option, none, some,
  if◌then◌else◌, ltb, is_truthy, is_blank, trim, ◌<>◌,
}
use quilons_sentrycode.Common.Result.{Result, ok, err, ◌>>=◌, ◌>>◌, throw_if}
use quilons_sentrycode.Core.Json.{Json, Fields, str, num, fields}
use quilons_sentrycode.Core.Platform.{Platform}
use quilons_sentrycode.Enterprise.Audit.{SigningKey, AuditFile, append_audit_event}

pub data ConsumerDeliveryStatus : Type 0 where
  pending delivered failed : ConsumerDeliveryStatus

pub record ConsumerDeliveryRecord : Type 0 where
  pub consumer_id : String
  pub adapter_id : String
  pub adapter_contract_version : String
  pub message_id : String
  pub tenant : String
  pub project : String
  pub finding_id : String
  pub run_id : String
  pub payload : Fields
  pub status : ConsumerDeliveryStatus
  pub attempt_count : ℕ
  pub response_status : Option ℕ
  pub last_attempt_at : Option String
  pub next_attempt_at : Option String
  pub last_error : Option String
  pub delivered_at : Option String
  pub created_at : String
  pub updated_at : String

pub data Attempt : Type 0 where
  success : ℕ → Attempt
  failure : (error next_attempt_at : String) → Attempt

-- The arguments of `listPendingConsumerDeliveries`.
pub record DeliveryQuery : Type 0 where
  pub consumer_id : String
  pub tenant : String
  pub project : String
  pub max_attempts : ℕ
  pub now : String
  pub limit : ℕ

-- The calls of `ConsumerDeliveryStore` that the delivery makes, how many messages a query has
-- waiting, and what the delivery relies on.
pub record DeliveryStore (State : Type 0) : Type 0 where
  pub list_pending : DeliveryQuery → State → Result (List ConsumerDeliveryRecord)
  pub record_attempt : (consumer_id message_id : String) → Attempt → State → Result State
  pub waiting : DeliveryQuery → State → ℕ
  -- The first message of a page no longer waits, once it is recorded as delivered.
  pub delivered_leaves :
      (q : DeliveryQuery) (s s' : State) (r : ConsumerDeliveryRecord)
      (rs : List ConsumerDeliveryRecord) (code : ℕ)
      → list_pending q s ≡ ok (r ∷ rs)
      → record_attempt r.consumer_id r.message_id (success code) s ≡ ok s'
      → waiting q s' < waiting q s
  -- A message that is recorded as delivered lets no other one wait.
  pub delivered_keeps :
      (q : DeliveryQuery) (s s' : State) (consumer_id message_id : String) (code : ℕ)
      → record_attempt consumer_id message_id (success code) s ≡ ok s'
      → waiting q s' ≤ waiting q s

-- What one invocation is given. `audit_time` is the time at each call of the audit trail.
pub record DeliveryJob : Type 0 where
  pub consumer_id : String
  pub tenant : String
  pub project : String
  pub max_attempts : ℕ
  pub retry_delay_ms : ℕ
  pub batch_size : Option ℕ
  pub audit_event_prefix : Option String
  pub signing_key : SigningKey
  pub actor : String
  pub now : ℕ
  pub audit_time : ℕ → String

-- Its variables; `calls` numbers the calls of the publisher and of the audit trail.
pub record DeliveryState (State : Type 0) : Type 0 where
  pub store : State
  pub audit_log : AuditFile
  pub calls : ℕ
  pub attempted : ℕ
  pub delivered_count : ℕ
  pub failed_count : ℕ
  pub batch_failed : ℕ

abbrev pub batch_size : DeliveryJob → ℕ
batch_size job = elim job.batch_size [ none ↦ 100 | some n ↦ n ]

-- `args.auditEventPrefix?.trim() || 'consumer.delivery'`.
abbrev pub audit_prefix : Option String → String
audit_prefix none = "consumer.delivery"
audit_prefix (some p) = if is_truthy (trim p) then trim p else "consumer.delivery"

abbrev pub query_of : Platform → DeliveryJob → DeliveryQuery
query_of host job = record {
  consumer_id = job.consumer_id;
  tenant = job.tenant;
  project = job.project;
  max_attempts = job.max_attempts;
  now = host.to_iso_string job.now;
  limit = batch_size job;
}

abbrev pub audit_detail : ConsumerDeliveryRecord → (String × Json) → Fields
audit_detail r last = fields (
    ("consumerId", str r.consumer_id)
    ∷ ("adapterId", str r.adapter_id)
    ∷ ("adapterContractVersion", str r.adapter_contract_version)
    ∷ ("messageId", str r.message_id)
    ∷ ("findingId", str r.finding_id)
    ∷ ("runId", str r.run_id)
    ∷ ("tenant", str r.tenant)
    ∷ ("project", str r.project)
    ∷ last
    ∷ [])

module _ (host : Platform) (show : Json → String) {State : Type 0} (store : DeliveryStore State)
    (publish : ℕ → Fields → Result ℕ) (job : DeliveryJob) where
  abbrev pub after_audit :
      DeliveryState State → Result (Fields × AuditFile) → DeliveryState State × Option String
  after_audit s (err message) = (record s { calls = suc s.calls }, some message)
  after_audit s (ok (e, file)) = (record s { calls = suc s.calls; audit_log = file }, none)

  -- `appendAuditEvent`, and the error where it throws.
  unfoldable pub audited :
      String → Fields → DeliveryState State → DeliveryState State × Option String
  audited event detail s = after_audit s (
      append_audit_event host show job.signing_key (audit_prefix job.audit_event_prefix <> event)
        (job.audit_time s.calls) job.actor detail s.audit_log)

  abbrev pub recorded :
      ConsumerDeliveryRecord
      → ℕ
      → DeliveryState State
      → Result State
      → DeliveryState State × Option String
  recorded r code s (err message) = (s, some message)
  recorded r code s (ok st) =
      audited ".delivered" (audit_detail r ("responseStatus", num code))
        (record s { store = st; delivered_count = suc s.delivered_count })

  abbrev pub published :
      ConsumerDeliveryRecord → DeliveryState State → Result ℕ → DeliveryState State × Option String
  published r s (err message) = (s, some message)
  published r s (ok code) =
      recorded r code s (store.record_attempt r.consumer_id r.message_id (success code) s.store)

  -- The body of `try`: what it did, and the error that ended it.
  unfoldable pub try_one :
      ConsumerDeliveryRecord → DeliveryState State → DeliveryState State × Option String
  unfolding audited
  try_one r s = published r (record s { calls = suc s.calls }) (publish s.calls r.payload)

  abbrev pub thrown : DeliveryState State × Option String → Result (DeliveryState State)
  thrown (s, none) = ok s
  thrown (s, some message) = err message

  -- The body of `catch`.
  unfoldable pub catch_one :
      ConsumerDeliveryRecord → String → DeliveryState State → Result (DeliveryState State)
  catch_one r message s =
      store.record_attempt r.consumer_id r.message_id
        (failure message (host.to_iso_string (job.now + job.retry_delay_ms))) s.store
      >>= λ st. thrown (
          audited ".delivery_failed" (audit_detail r ("error", str message)) (record s {
            store = st;
            failed_count = suc s.failed_count;
            batch_failed = suc s.batch_failed;
          }))

  abbrev pub caught :
      ConsumerDeliveryRecord → DeliveryState State × Option String → Result (DeliveryState State)
  caught r (s, none) = ok s
  caught r (s, some message) = catch_one r message s

  unfoldable pub deliver_batch :
      List ConsumerDeliveryRecord → DeliveryState State → Result (DeliveryState State)
  deliver_batch [] s = ok s
  deliver_batch (r ∷ rs) s = caught r (try_one r s) >>= λ s'. deliver_batch rs s'

  abbrev pub open_batch : ℕ → DeliveryState State → DeliveryState State
  open_batch n s = record s { batch_failed = 0; attempted = s.attempted + n }

  -- The end of a round, with how the rounds go on.
  abbrev pub after_batch :
      ℕ
      → (DeliveryState State → Option (Result (DeliveryState State)))
      → Result (DeliveryState State)
      → Option (Result (DeliveryState State))
  after_batch n next (err message) = some (err message)
  after_batch n next (ok s) =
      if ltb 0 s.batch_failed || ltb n (batch_size job) then some (ok s) else next s

  -- `while (true)`, with the number of rounds that are left; none is for too few of them.
  unfoldable pub drain : ℕ → DeliveryState State → Option (Result (DeliveryState State))
  drain zero s = none
  drain (suc rounds) s = elim (store.list_pending (query_of host job) s.store) [
    | err message ↦ some (err message)
    | ok [] ↦ some (ok s)
    | ok (r ∷ rs) ↦
        after_batch (length (r ∷ rs)) (λ s'. drain rounds s')
          (deliver_batch (r ∷ rs) (open_batch (length (r ∷ rs)) s))
  ]

  abbrev pub initial_state : State → AuditFile → DeliveryState State
  initial_state st file = record {
    store = st;
    audit_log = file;
    calls = 0;
    attempted = 0;
    delivered_count = 0;
    failed_count = 0;
    batch_failed = 0;
  }

  abbrev pub checked : Result (Unit {0})
  checked = do
    throw_if (is_blank job.consumer_id) "consumerId is required"
    throw_if (ltb (batch_size job) 1) "consumer delivery batchSize must be a positive integer"

  unfoldable pub deliver_pending_consumer_deliveries :
      ℕ → State → AuditFile → Option (Result (DeliveryState State))
  deliver_pending_consumer_deliveries rounds st file = elim checked [
    | err message ↦ some (err message)
    | ok done ↦ drain rounds (initial_state st file)
  ]
