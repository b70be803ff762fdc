-- ===== src/Tests/Deliveries.antt =====
-- A delivery of a queued message at a concrete queue.
use quilons_sentrycode.Common.{
  false, join, sort, Any, ◌↔◌, ◌≡◌, refl, ℕ, true, String, List, [], ◌∷◌, none, some, is_some,
  arith, text_leb, is_blank,
}
use quilons_sentrycode.Common.Result.{Result, ok, err}
use quilons_sentrycode.Core.Json.{quote, stringify, Json, Fields, str, obj, end, field}
use quilons_sentrycode.Enterprise.Audit.{absent, append_audit_event, read_audit_events}
use quilons_sentrycode.Consumers.Delivery.{
  ConsumerDeliveryStatus, ConsumerDeliveryRecord, DeliveryStore, DeliveryJob, DeliveryState,
  initial_state, drain, deliver_batch, try_one, deliver_pending_consumer_deliveries,
}
use quilons_sentrycode.Consumers.Delivery.Counts.{Balanced}
use quilons_sentrycode.Consumers.Delivery.Drain.{deliver_pending_consumer_deliveries-ends}
use quilons_sentrycode.Consumers.Delivery.Balance.{deliver_pending_consumer_deliveries-Balanced}
use quilons_sentrycode.Consumers.Outbox.{outbox, pending_rows, waiting_rows}
use quilons_sentrycode.Consumers.Enqueue.{
  ConsumerDeliveryMessage, ConsumerDeliveryEnqueueResult, validate_message,
  enqueue_consumer_deliveries, canonical_json, assert_idempotent_match,
}
use quilons_sentrycode.Consumers.Enqueue.Matches.{Queued, enqueue_consumer_deliveries-Queued}
use quilons_sentrycode.Consumers.Selection.{select_consumer_findings}
use quilons_sentrycode.Consumers.Selection.Criteria.{Meets, select_consumer_findings-Meets}
use quilons_sentrycode.Core.Enums.{Severity, Decision}
use quilons_sentrycode.Core.PolicyTypes.{AppliedFinding, ScanReport}
use quilons_sentrycode.Core.Config.{ConsumerConfig}
use quilons_sentrycode.Tests.Samples.{host, finding, scan}

abbrev queued : ConsumerDeliveryRecord
queued = record {
  consumer_id = "cra";
  adapter_id = "cra";
  adapter_contract_version = "1.0.0";
  message_id = "m1";
  tenant = "t";
  project = "p";
  finding_id = "f1";
  run_id = "run-1";
  payload = field "a" (str "b") end;
  status = ConsumerDeliveryStatus.pending;
  attempt_count = 0;
  response_status = none;
  last_attempt_at = none;
  next_attempt_at = none;
  last_error = none;
  delivered_at = none;
  created_at = "2026-01-01";
  updated_at = "2026-01-01";
}

abbrev job : DeliveryJob
job = record {
  consumer_id = "cra";
  tenant = "t";
  project = "p";
  max_attempts = 3;
  retry_delay_ms = 1000;
  batch_size = none;
  audit_event_prefix = none;
  signing_key = none;
  actor = "ci";
  now = 5;
  audit_time = λ n. "now";
}

abbrev spelled_out : Json → String
spelled_out v = "?"

abbrev table : DeliveryStore (List ConsumerDeliveryRecord)
table = outbox text_leb "now"

abbrev accepted : ℕ → Fields → Result ℕ
accepted call payload = ok 202

deliver_pending_consumer_deliveries-ends_example :
    is_some (
      deliver_pending_consumer_deliveries host spelled_out table accepted job 2
        (queued ∷ [])
        absent)
    ≡ true
unfolding outbox waiting_rows
deliver_pending_consumer_deliveries-ends_example =
    deliver_pending_consumer_deliveries-ends host spelled_out table accepted job 2 (queued ∷ [])
      absent (omega arith)

abbrev after : DeliveryState (List ConsumerDeliveryRecord)
after =
    elim (deliver_pending_consumer_deliveries host spelled_out table accepted job 2 (queued ∷ [])
      absent) [
        | none ↦ initial_state host spelled_out table accepted job [] absent
        | some (err m) ↦ initial_state host spelled_out table accepted job [] absent
        | some (ok s) ↦ s
      ]

sent : after.delivered_count ≡ 1
unfolding deliver_pending_consumer_deliveries outbox is_blank drain pending_rows deliver_batch
    try_one append_audit_event read_audit_events
sent = refl

deliver_pending_consumer_deliveries-Balanced_example :
    Balanced host spelled_out table accepted job after
unfolding deliver_pending_consumer_deliveries outbox is_blank drain pending_rows deliver_batch
    try_one append_audit_event read_audit_events
deliver_pending_consumer_deliveries-Balanced_example =
    deliver_pending_consumer_deliveries-Balanced host spelled_out table accepted job 2 (queued ∷ [])
      absent after refl

abbrev message : ConsumerDeliveryMessage
message = record {
  consumer_id = "cra";
  adapter_id = "cra";
  adapter_contract_version = "1.0.0";
  message_id = "m1";
  tenant = "t";
  project = "p";
  finding_id = "f1";
  run_id = "run-1";
  payload = obj (field "a" (str "b") end);
}

abbrev there_already : ConsumerDeliveryEnqueueResult
there_already = record { record' = queued; created = false }

abbrev find_queued : ConsumerDeliveryMessage → ℕ → Result (ℕ × ConsumerDeliveryEnqueueResult)
find_queued m s = ok (s, there_already)

enqueue_consumer_deliveries-Queued_example : Queued (message ∷ []) (there_already ∷ [])
unfolding enqueue_consumer_deliveries validate_message is_blank assert_idempotent_match
    canonical_json join sort quote stringify
enqueue_consumer_deliveries-Queued_example =
    enqueue_consumer_deliveries-Queued find_queued (message ∷ []) 0 0 (there_already ∷ []) refl

abbrev pub applied_one : AppliedFinding
applied_one = record { finding = finding; waived = false; waiver_id = none }

abbrev pub one_report : ScanReport
one_report = record {
  run_id = "run-1";
  started_at = "";
  completed_at = "";
  repository = scan.repository;
  scanners = [];
  policy = record {
    decision = Decision.fail;
    findings = applied_one ∷ [];
    counts = [];
    waived_count = 0;
    reasons = [];
    effective_policy = none;
    audit = [];
  };
  evidence = [];
  execution = none;
}

abbrev pub profile : ConsumerConfig
profile = record {
  consumer_id = "cra";
  adapter = "cra";
  enabled = true;
  endpoint = "";
  token_env = "";
  timeout_ms = 1;
  max_attempts = 1;
  retry_delay_ms = 1;
  scan_profile = record {
    required_scanners = [];
    evidence_types = [];
    severities = Severity.high ∷ [];
    finding_types = "secret" ∷ [];
  };
  context = [];
}

abbrev pub unchanged : String → String
unchanged s = s

select_consumer_findings-Meets_example :
    Any (λ b. b ≡ applied_one) (select_consumer_findings unchanged one_report profile) ↔ (
      Any (λ b. b ≡ applied_one) one_report.policy.findings
      × Meets unchanged one_report applied_one profile)
select_consumer_findings-Meets_example =
    select_consumer_findings-Meets unchanged one_report profile applied_one
