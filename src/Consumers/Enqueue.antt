-- ===== src/Consumers/Enqueue.antt =====
-- src/consumers/delivery.ts: putting messages into the queue, once each.
pub mod Matches
use quilons_sentrycode.Common.{
  Bool, true, false, not, ◌&&◌, String, List, [], ◌∷◌, map, sort, text_leb, join, is_blank,
  if◌then◌else◌, ◌==◌, string_eq, ◌<>◌,
}
use quilons_sentrycode.Common.Result.{Result, ok, ◌>>=◌, ◌>>◌, throw_if}
use quilons_sentrycode.Core.Json.{
  Json, Items, Fields, null, bool, num, other_num, str, arr, obj, nil, cons, end, field, quote,
  stringify,
}
use quilons_sentrycode.Consumers.Delivery.{ConsumerDeliveryRecord}

pub record ConsumerDeliveryMessage : Type 0 where
  pub consumer_id : String
  pub adapter_id : String
  pub adapter_contract_version : String
  pub message_id : String
  pub tenant : String
  pub project : String
  pub finding_id : String
  pub run_id : String
  pub payload : Json

pub record ConsumerDeliveryEnqueueResult : Type 0 where
  pub record' : ConsumerDeliveryRecord
  pub created : Bool

abbrev pub require : String → String → Result (Unit {0})
require value label = throw_if (is_blank value) (label <> " is required")

abbrev pub is_object : Json → Bool
is_object (obj fs) = true
is_object _ = false

unfoldable pub validate_message : ConsumerDeliveryMessage → Result (Unit {0})
validate_message m = do
  require m.consumer_id "consumerId"
  require m.adapter_id "adapterId"
  require m.adapter_contract_version "adapterContractVersion"
  require m.message_id "messageId"
  require m.tenant "tenant"
  require m.project "project"
  require m.finding_id "findingId"
  require m.run_id "runId"
  throw_if (not (is_object m.payload)) "payload must be an object"

abbrev pub by_key : String × String → String × String → Bool
by_key a b = text_leb a.0 b.0

abbrev pub braced : List (String × String) → String
braced members =
    "{" <> (join "," (map (λ m. quote m.0 <> (":" <> m.1)) (sort by_key members)) <> "}")

unfoldable mutual
  -- `canonicalJson`: an object's members by their keys.
  pub canonical_json : Json → String
  canonical_json (arr xs) = "[" <> (join "," (canonical_items xs) <> "]")
  canonical_json (obj fs) = braced (canonical_members fs)
  canonical_json null = stringify null
  canonical_json (bool b) = stringify (bool b)
  canonical_json (num n) = stringify (num n)
  canonical_json (other_num s) = stringify (other_num s)
  canonical_json (str s) = stringify (str s)

  pub canonical_items : Items → List String
  canonical_items nil = []
  canonical_items (cons x xs) = canonical_json x ∷ canonical_items xs

  pub canonical_members : Fields → List (String × String)
  canonical_members end = []
  canonical_members (field k v fs) = (k, canonical_json v) ∷ canonical_members fs

unfoldable pub identity_matches : ConsumerDeliveryRecord → ConsumerDeliveryMessage → Bool
identity_matches r m =
    r.consumer_id == m.consumer_id
    && r.adapter_id == m.adapter_id
    && r.adapter_contract_version == m.adapter_contract_version
    && r.tenant == m.tenant
    && r.project == m.project
    && r.finding_id == m.finding_id
    && r.run_id == m.run_id

abbrev pub collision : ConsumerDeliveryMessage → String
collision m =
    "Consumer delivery idempotency collision for " <> (m.consumer_id <> ("/" <> m.message_id))

unfoldable pub assert_idempotent_match :
    ConsumerDeliveryRecord → ConsumerDeliveryMessage → Result (Unit {0})
unfolding identity_matches
assert_idempotent_match r m =
    throw_if
      (not (identity_matches r m && canonical_json (obj r.payload) == canonical_json m.payload))
      (collision m)

module _ {State : Type 0}
    (enqueue : ConsumerDeliveryMessage
      → State
      → Result (State × ConsumerDeliveryEnqueueResult)) where
  abbrev pub check_match :
      ConsumerDeliveryEnqueueResult → ConsumerDeliveryMessage → Result (Unit {0})
  check_match result m = if result.created then ok tt else assert_idempotent_match result.record' m

  unfoldable pub enqueue_consumer_deliveries :
      List ConsumerDeliveryMessage → State → Result (State × List ConsumerDeliveryEnqueueResult)
  enqueue_consumer_deliveries [] s = ok (s, [])
  enqueue_consumer_deliveries (m ∷ ms) s =
      validate_message m
      >> (enqueue m s >>= λ one.
          check_match one.1 m
          >> (enqueue_consumer_deliveries ms one.0 >>= λ rest. ok (rest.0, one.1 ∷ rest.1)))
