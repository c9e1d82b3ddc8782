-- ===== src/Ingestion/Tests.antt =====
-- The theorems on ingestion at concrete inputs: an envelope, the same again, and an empty one.
use aegis_soc.Common.{
  ℕ, ◌+◌, String, ◌≡◌, refl, Bool, true, false, none, some, List, [], ◌∷◌, length,
}
use aegis_soc.Common.Json.{str, end, field}
use aegis_soc.Schema.{TelemetrySource}
use aegis_soc.Ingestion.{
  RawEnvelope, duplicate, BatchIngestResult, Texts, compute_event_id, Message, Service,
  topic_raw_events, topic_raw_dlq, process_envelope, ingest_batch,
}
use aegis_soc.Ingestion.Batch.{on_topic, ingest_batch-counts, second_is_duplicate, after_calls}

abbrev texts : Texts
texts = record { stable_hash = λ s. s; timestamp_text = λ t. "None"; sorted_items = λ p. "" }

abbrev logon : RawEnvelope
logon = record {
  event_id = some "e1";
  tenant_id = "default";
  source = TelemetrySource.sysmon;
  timestamp = none;
  received_at = 0;
  payload = field "event_type" (str "logon") end;
}

abbrev empty : RawEnvelope
empty = record logon { event_id = some "e2"; payload = end }

abbrev accepts : String → Message → Bool
accepts topic m = true

abbrev broken : String → Message → Bool
broken topic m = false

abbrev service : Service
service = record {
  producer = record {
    has_kafka = true;
    acknowledged = [];
    bus = record { topics = []; offsets = [] };
  };
  idempotency = record { ttl_seconds = 60; seen_keys = [] };
}

abbrev batch : List (ℕ × RawEnvelope)
batch = (1, logon) ∷ (2, logon) ∷ (3, empty) ∷ []

abbrev after : Service
after = (ingest_batch texts accepts batch service).1

abbrev result : BatchIngestResult
result = elim (ingest_batch texts accepts batch service).0 [
  | none ↦ record { accepted_count = 0; duplicates = 0; dead_lettered_count = 0; results = [] }
  | some r ↦ r
]

run : ingest_batch texts accepts batch service ≡ (some result, after)
unfolding ingest_batch
run = refl

ingest_batch-counts_example :
    (result.accepted_count + result.duplicates + result.dead_lettered_count ≡ length batch)
    × (on_topic topic_raw_events after.producer
        ≡ on_topic topic_raw_events service.producer + result.accepted_count)
    × (on_topic topic_raw_dlq after.producer
        ≡ on_topic topic_raw_dlq service.producer + result.dead_lettered_count)
ingest_batch-counts_example = ingest_batch-counts texts accepts batch service after result run

-- envelopes that come between, at their times
abbrev others : List (ℕ × RawEnvelope)
others = (2, logon) ∷ (3, record logon { event_id = some "evt-2" }) ∷ []

second_is_duplicate_example :
    let t = after_calls texts broken others (process_envelope texts broken 1 logon service).1 in
    process_envelope texts broken 4 logon t ≡ (
      some (record {
        event_id = compute_event_id texts logon;
        status = duplicate;
        topic = none;
        reason = some "already_ingested";
      }),
      t,
    )
second_is_duplicate_example = second_is_duplicate texts broken 1 4 logon logon others service refl

-- The first call raised: nothing was sent for the id.
lost :
    ((process_envelope texts broken 1 logon service).0 ≡ none)
    × (on_topic topic_raw_events (process_envelope texts broken 1 logon service).1.producer ≡ 0)
unfolding process_envelope on_topic
lost = (refl, refl)
