-- ===== src/Ingestion.antt =====
-- The ingestion service (services/ingestion/ingestion_core/ingest.py and models.py,
-- services/ingestion/app/main.py) and the producer that it sends with
-- (packages/common/aegis_common/kafka/producer.py). `none` is an exception.
pub mod Batch
mod Tests
use aegis_soc.Common.{
  ℕ, suc, ◌+◌, String, ◌<>◌, Bool, true, false, not, ◌&&◌, Option, none, some, List, [], ◌∷◌, ◌++◌,
  if◌then◌else◌, str_eq, truthy, keep, length,
}
use aegis_soc.Common.Dict.{Dict, lookup}
use aegis_soc.Common.Json.{Fields, Value, end, field, get}
use aegis_soc.Messaging.Bus.{EventBus, publish}
use aegis_soc.Messaging.Idempotency.{IdempotencyStore, seen_before}
use aegis_soc.Schema.{TelemetrySource, source_value}

pub record RawEnvelope : Type 0 where
  pub event_id : Option String
  pub tenant_id : String
  pub source : TelemetrySource
  pub timestamp : Option ℕ
  pub received_at : ℕ
  pub payload : Fields

-- the three values of `status`
pub data Status : Type 0 where
  accepted duplicate dead_lettered : Status

pub record IngestResult : Type 0 where
  pub event_id : String
  pub status : Status
  pub topic : Option String
  pub reason : Option String

pub record BatchIngestResult : Type 0 where
  pub accepted_count : ℕ
  pub duplicates : ℕ
  pub dead_lettered_count : ℕ
  pub results : List IngestResult

-- What is not the program's own: SHA-256 as `stable_hash` cuts it, and the texts of a timestamp and of
-- the sorted items of a dict in an f-string.
pub record Texts : Type 0 where
  pub stable_hash : String → String
  pub timestamp_text : Option ℕ → String
  pub sorted_items : Fields → String

unfoldable pub compute_event_id : Texts → RawEnvelope → String
unfolding source_value
compute_event_id x e =
    let source = source_value e.source in
    let computed =
      source
      <> "-"
      <> x.stable_hash (
          e.tenant_id
          <> ":"
          <> source
          <> ":"
          <> x.timestamp_text e.timestamp
          <> ":"
          <> x.sorted_items e.payload) in
    elim e.event_id [ none ↦ computed | some id ↦ if truthy id then id else computed ]

-- what is sent: an envelope under its id, or the value of a dead letter
pub data Message : Type 0 where
  event : String → RawEnvelope → Message
  dead_letter : (original_topic : String) → RawEnvelope → (error : String) → Message

-- `AegisProducer`: whether it is connected to Kafka, what Kafka acknowledged, and the file bus
pub record Producer : Type 0 where
  pub has_kafka : Bool
  pub acknowledged : List (String × Message)
  pub bus : EventBus Message

abbrev pub topic_raw_events : String
topic_raw_events = "aegis.raw.events"

abbrev pub topic_raw_dlq : String
topic_raw_dlq = "aegis.raw.dlq"

-- `send`, where `accepts` says whether Kafka acknowledges a message
unfoldable pub send : (String → Message → Bool) → String → Message → Producer → Option Producer
unfolding publish
send accepts topic message p =
    if p.has_kafka
    then (if accepts topic message
        then some (record p { acknowledged = p.acknowledged ++ ((topic, message) ∷ []) })
        else none)
    else some (record p { bus = publish topic message p.bus })

unfoldable pub send_dlq :
    (String → Message → Bool)
    → (dlq_topic original_topic : String) → RawEnvelope
    → (error : String) → Producer
    → Option Producer
unfolding send
send_dlq accepts dlq_topic original_topic envelope error p =
    send accepts dlq_topic (dead_letter original_topic envelope error) p

-- the reason why a record is malformed
unfoldable pub validate_envelope : RawEnvelope → Option String
unfolding get
validate_envelope e = elim e.payload [
  | end ↦ some "empty_payload"
  | field k v fs ↦ elim (get "event_type" (field k v fs)) [
    | some _ ↦ none
    | none ↦ elim (get "EventID" (field k v fs)) [
      | some _ ↦ none
      | none ↦ some "missing_event_type_discriminator"
    ]
  ]
]

-- the producer and the idempotency store
pub record Service : Type 0 where
  pub producer : Producer
  pub idempotency : IdempotencyStore

-- what follows a send
abbrev pub sent : IngestResult → Service → Option Producer → Option IngestResult × Service
sent result s none = (none, s)
sent result s (some p) = (some result, record s { producer = p })

module _ (x : Texts) (accepts : String → Message → Bool) where
  -- the part of `process_envelope` for an id that was not seen
  unfoldable pub route : String → RawEnvelope → Service → Option IngestResult × Service
  unfolding validate_envelope send send_dlq
  route event_id envelope s = elim (validate_envelope envelope) [
    | some reason ↦
        sent
          (record {
            event_id = event_id;
            status = dead_lettered;
            topic = some topic_raw_dlq;
            reason = some reason;
          })
          s (send_dlq accepts topic_raw_dlq topic_raw_events envelope reason s.producer)
    | none ↦
        sent
          (record {
            event_id = event_id;
            status = accepted;
            topic = some topic_raw_events;
            reason = none;
          })
          s (send accepts topic_raw_events (event event_id envelope) s.producer)
  ]

  -- `now` is the time that the store reads
  unfoldable pub process_envelope : ℕ → RawEnvelope → Service → Option IngestResult × Service
  unfolding compute_event_id seen_before route
  process_envelope now given s =
      let event_id = compute_event_id x given in
      let envelope = record given { event_id = some event_id } in
      let (seen, store) = seen_before now event_id s.idempotency in
      let marked : Service = record s { idempotency = store } in
      if seen
      then (
        some (record {
          event_id = event_id;
          status = duplicate;
          topic = none;
          reason = some "already_ingested";
        }),
        marked,
      )
      else route event_id envelope marked

  -- the loop of `ingest_batch`; an envelope comes with the time of its call
  unfoldable pub process_all :
      List (ℕ × RawEnvelope) → Service → Option (List IngestResult) × Service
  unfolding process_envelope
  process_all [] s = (some [], s)
  process_all ((now, envelope) ∷ events) s =
      let (result, after) = process_envelope now envelope s in
      elim result [
        | none ↦ (none, after)
        | some r ↦
            let (results, last) = process_all events after in
            ((elim results [ none ↦ none | some l ↦ some (r ∷ l) ]), last)
      ]

-- `r.status == status`
abbrev pub has_status : Status → IngestResult → Bool
has_status accepted r = elim r.status [ accepted ↦ true | _ ↦ false ]
has_status duplicate r = elim r.status [ duplicate ↦ true | _ ↦ false ]
has_status dead_lettered r = elim r.status [ dead_lettered ↦ true | _ ↦ false ]

-- the result of `ingest_batch`
unfoldable pub batch_result : List IngestResult → BatchIngestResult
batch_result results = record {
  accepted_count = length (keep (has_status accepted) results);
  duplicates = length (keep (has_status duplicate) results);
  dead_lettered_count = length (keep (has_status dead_lettered) results);
  results = results;
}

module _ (x : Texts) (accepts : String → Message → Bool) where
  unfoldable pub ingest_batch :
      List (ℕ × RawEnvelope) → Service → Option BatchIngestResult × Service
  unfolding process_all batch_result
  ingest_batch events s =
      let (results, after) = process_all x accepts events s in
      ((elim results [ none ↦ none | some l ↦ some (batch_result l) ]), after)
