-- ===== src/Ingestion/Batch.antt =====
-- What a batch sends, and what a second call with an id does.
use aegis_soc.Common.{
  ℕ, suc, ◌+◌, String, ◌≡◌, refl, sym, ◌∙◌, inl, inr, Bool, ◌⊎◌, Option, none, some, List, [], ◌∷◌,
  ◌++◌, arith, if◌then◌else◌, str_eq, str_eq_iff, str_eq_refl, keep, length, length-append,
  Bool-cases, Option-cases,
}
use aegis_soc.Common.Dict.{lookup, lookup-insert}
use mathlib.Core.Path.{subst}
use aegis_soc.Messaging.Bus.{json, publish, lines_of}
use aegis_soc.Messaging.Idempotency.Once.{lookup-append}
use aegis_soc.Messaging.Idempotency.{IdempotencyStore, seen_before}
use aegis_soc.Ingestion.{
  RawEnvelope, accepted, duplicate, dead_lettered, IngestResult, BatchIngestResult, Texts,
  compute_event_id, Message, event, Producer, topic_raw_events, topic_raw_dlq, send, send_dlq,
  validate_envelope, Service, sent, route, process_envelope, process_all, has_status, batch_result,
  ingest_batch,
}

-- how many messages a topic has, in Kafka and in the file
unfoldable pub on_topic : String → Producer → ℕ
on_topic topic p =
    length (keep (λ m. str_eq m.0 topic) p.acknowledged)
    + length (lines_of (lookup topic p.bus.topics))

keep_snoc :
    {A : Type 0} (t : A → Bool) (l : List A) (a : A)
    → length (keep t (l ++ (a ∷ []))) ≡ length (keep t l) + (if t a then 1 else 0)
keep_snoc t [] a = ground arith
keep_snoc t (b ∷ l) a = ground (arith, keep_snoc t l a)

some_injective : {A : Type 0} {a b : A} → some a ≡ some b → a ≡ b
some_injective e = cc e

on_topic-publish :
    (topic other : String) (m : Message) (p : Producer)
    → on_topic other (record p { bus = publish topic m p.bus })
      ≡ on_topic other p + (if str_eq topic other then 1 else 0)
unfolding on_topic publish
on_topic-publish topic other m p =
    let lines = lines_of (lookup topic p.bus.topics) in
    let after = lookup-insert topic other (lines ++ (json m ∷ [])) p.bus.topics in
    elim (Bool-cases (str_eq topic other)) [
      | inl same ↦
          let is : topic ≡ other = (str_eq_iff topic other).0 same in
          rw (on_topic, publish, after, same)
            (subst
              (λ t.
                length (keep (λ n. str_eq n.0 other) p.acknowledged)
                  + length (lines_of (lookup topic p.bus.topics) ++ (json m ∷ []))
                ≡ length (keep (λ n. str_eq n.0 other) p.acknowledged)
                  + length (lines_of (lookup t p.bus.topics))
                  + 1)
              is (omega (arith, length-append lines (json m ∷ []))))
      | inr different ↦ rw (on_topic, publish, after, different) (omega arith)
    ]

module _ (accepts : String → Message → Bool) where
  send-on_topic :
      (topic other : String) (m : Message) (p q : Producer)
      → send accepts topic m p ≡ some q
      → on_topic other q ≡ on_topic other p + (if str_eq topic other then 1 else 0)
  unfolding send on_topic
  send-on_topic topic other m p q h = elim (Bool-cases p.has_kafka) [
    | inl kafka ↦ elim (Bool-cases (accepts topic m)) [
      | inl taken ↦
          subst (λ r. on_topic other r ≡ on_topic other p + (if str_eq topic other then 1 else 0))
            (some_injective (rw (send, kafka, taken) at h))
            (omega (arith, keep_snoc (λ n. str_eq n.0 other) p.acknowledged (topic, m)))
      | inr refused ↦ absurd (cc (rw (send, kafka, refused) at h))
    ]
    | inr bus ↦
        subst (λ r. on_topic other r ≡ on_topic other p + (if str_eq topic other then 1 else 0))
          (some_injective (rw (send, bus) at h)) (on_topic-publish topic other m p)
  ]

module _ (x : Texts) (accepts : String → Message → Bool) where
  -- the messages that a result adds to the two topics
  abbrev pub raw_of : IngestResult → ℕ
  raw_of r = if has_status accepted r then 1 else 0

  abbrev pub dead_of : IngestResult → ℕ
  dead_of r = if has_status dead_lettered r then 1 else 0

  -- What one envelope adds, where its result is returned.
  abbrev Adds : Option IngestResult × Service → Producer → Type 0
  Adds (none, after) p = Unit
  Adds (some r, after) p =
      (on_topic topic_raw_events after.producer ≡ on_topic topic_raw_events p + raw_of r)
      × (on_topic topic_raw_dlq after.producer ≡ on_topic topic_raw_dlq p + dead_of r)

  sent-Adds :
      (r : IngestResult) (topic : String) (m : Message) (s : Service)
      → (if str_eq topic topic_raw_events then 1 else 0) ≡ raw_of r
      → (if str_eq topic topic_raw_dlq then 1 else 0) ≡ dead_of r
      → Adds (sent r s (send accepts topic m s.producer)) s.producer
  sent-Adds r topic m s raw dead = elim (Option-cases (send accepts topic m s.producer)) [
    | inl raised ↦ rw (Adds, raised) tt
    | inr (p, is) ↦
        rw (Adds, is)
          (
            omega (arith, send-on_topic accepts topic topic_raw_events m s.producer p is, raw),
            omega (arith, send-on_topic accepts topic topic_raw_dlq m s.producer p is, dead),
          )
  ]

  route-Adds :
      (event_id : String) (e : RawEnvelope) (s : Service)
      → Adds (route x accepts event_id e s) s.producer
  unfolding route send_dlq
  route-Adds event_id e s = elim (Option-cases (validate_envelope e)) [
    | inl fine ↦ rw (route, fine) (sent-Adds _ topic_raw_events _ s refl refl)
    | inr (reason, is) ↦ rw (route, is) (sent-Adds _ topic_raw_dlq _ s refl refl)
  ]

  process_envelope-Adds :
      (now : ℕ) (e : RawEnvelope) (s : Service)
      → Adds (process_envelope x accepts now e s) s.producer
  unfolding process_envelope
  process_envelope-Adds now e s =
      let event_id = compute_event_id x e in
      let (seen, store) = seen_before now event_id s.idempotency in
      let marked : Service = record s { idempotency = store } in
      elim (Bool-cases seen) [
        | inl again ↦ rw (process_envelope, again) (omega arith, omega arith)
        | inr first ↦
            rw (process_envelope, first)
              (route-Adds event_id (record e { event_id = some event_id }) marked)
      ]

  -- What a batch adds, where its results are returned.
  abbrev AddsAll : ℕ → Option (List IngestResult) × Service → Service → Type 0
  AddsAll n (none, after) s = Unit
  AddsAll n (some l, after) s =
      (length (keep (has_status accepted) l)
          + length (keep (has_status duplicate) l)
          + length (keep (has_status dead_lettered) l)
        ≡ n)
      × (on_topic topic_raw_events after.producer
          ≡ on_topic topic_raw_events s.producer + length (keep (has_status accepted) l))
      × (on_topic topic_raw_dlq after.producer
          ≡ on_topic topic_raw_dlq s.producer + length (keep (has_status dead_lettered) l))

  add_one :
      (r : IngestResult) (n : ℕ) (rest : Option (List IngestResult) × Service) (s t : Service)
      → Adds (some r, t) s.producer
      → AddsAll n rest t
      → AddsAll (suc n) ((elim rest.0 [ none ↦ none | some l ↦ some (r ∷ l) ]), rest.1) s
  add_one r n (none, last) s t one all_ = tt
  add_one r n (some l, last) s t one all_ = elim (status_cases r) [
    | inl is ↦ (
      ground (arith, is, one, all_),
      ground (arith, is, one, all_),
      ground (arith, is, one, all_),
    )
    | inr (inl is) ↦ (
      ground (arith, is, one, all_),
      ground (arith, is, one, all_),
      ground (arith, is, one, all_),
    )
    | inr (inr is) ↦ (
      ground (arith, is, one, all_),
      ground (arith, is, one, all_),
      ground (arith, is, one, all_),
    )
  ]
    where
      status_cases :
          (q : IngestResult)
          → (q.status ≡ accepted) ⊎ ((q.status ≡ duplicate) ⊎ (q.status ≡ dead_lettered))
      status_cases q =
          elim q.status as (λ v. (v ≡ accepted) ⊎ ((v ≡ duplicate) ⊎ (v ≡ dead_lettered))) [
            | accepted ↦ inl refl
            | duplicate ↦ inr (inl refl)
            | dead_lettered ↦ inr (inr refl)
          ]

  process_all-AddsAll :
      (events : List (ℕ × RawEnvelope)) (s : Service)
      → AddsAll (length events) (process_all x accepts events s) s
  unfolding process_all
  process_all-AddsAll [] s = (refl, omega arith, omega arith)
  process_all-AddsAll ((now, e) ∷ events) s =
      let done = process_envelope x accepts now e s in
      let one = process_envelope-Adds now e s in
      elim (Option-cases done.0) [
        | inl raised ↦ rw (process_all, raised) tt
        | inr (r, is) ↦
            rw (process_all, is)
              (add_one r (length events) (process_all x accepts events done.1) s done.1
                (rw (Adds, is) at one) (process_all-AddsAll events done.1))
      ]

  -- what holds of the result of a batch of `n` envelopes
  Counts : ℕ → Producer → Option BatchIngestResult × Service → Type 0
  Counts n p (none, after) = Unit
  Counts n p (some r, after) =
      (r.accepted_count + r.duplicates + r.dead_lettered_count ≡ n)
      × (on_topic topic_raw_events after.producer ≡ on_topic topic_raw_events p + r.accepted_count)
      × (on_topic topic_raw_dlq after.producer ≡ on_topic topic_raw_dlq p + r.dead_lettered_count)

  ingest_batch-Counts :
      (events : List (ℕ × RawEnvelope)) (s : Service)
      → Counts (length events) s.producer (ingest_batch x accepts events s)
  unfolding ingest_batch batch_result Counts
  ingest_batch-Counts events s =
      let all_ = process_all-AddsAll events s in
      elim (Option-cases (process_all x accepts events s).0) [
        | inl raised ↦ rw (Counts, ingest_batch, raised) tt
        | inr (l, is) ↦ rw (Counts, ingest_batch, is) (rw (AddsAll, is) at all_)
      ]

  -- Where no exception is raised: the counts of the result of `ingest_batch` add up to the number of
  -- envelopes, the topic of raw events has grown by as many messages as were accepted, and the
  -- dead-letter topic by as many as were dead-lettered; nothing is sent for a duplicate.
  pub ingest_batch-counts :
      (events : List (ℕ × RawEnvelope)) (s after : Service) (r : BatchIngestResult)
      → ingest_batch x accepts events s ≡ (some r, after)
      → (r.accepted_count + r.duplicates + r.dead_lettered_count ≡ length events)
        × (on_topic topic_raw_events after.producer
            ≡ on_topic topic_raw_events s.producer + r.accepted_count)
        × (on_topic topic_raw_dlq after.producer
            ≡ on_topic topic_raw_dlq s.producer + r.dead_lettered_count)
  unfolding Counts
  ingest_batch-counts events s after r run =
      subst (Counts (length events) s.producer) run (ingest_batch-Counts events s)

  route-store :
      (event_id : String) (e : RawEnvelope) (s : Service)
      → (route x accepts event_id e s).1.idempotency ≡ s.idempotency
  unfolding route
  route-store event_id e s = elim (Option-cases (validate_envelope e)) [
    | inl fine ↦
        rw (route, fine)
          (sent-store _ s (send accepts topic_raw_events (event event_id e) s.producer))
    | inr (reason, is) ↦
        rw (route, is)
          (sent-store _ s (send_dlq accepts topic_raw_dlq topic_raw_events e reason s.producer))
  ]
    where
      sent-store :
          (r : IngestResult) (t : Service) (o : Option Producer)
          → (sent r t o).1.idempotency ≡ t.idempotency
      sent-store r t none = refl
      sent-store r t (some p) = refl

  seen_before-marks :
      (now : ℕ) (key : String) (store : IdempotencyStore)
      → (v : ℕ) × (lookup key (seen_before now key store).1.seen_keys ≡ some v)
  unfolding seen_before
  seen_before-marks now key store = elim (Option-cases (lookup key store.seen_keys)) [
    | inl absent ↦ (
      now,
      rw (seen_before, absent)
          (lookup-append key key now store.seen_keys ∙ ground (arith, absent, str_eq_refl key)),
    )
    | inr (v, found) ↦ (v, rw (seen_before, found) found)
  ]

  -- `process_envelope` leaves its id in the store, an exception included.
  marks_id :
      (now : ℕ) (e : RawEnvelope) (s : Service)
      → (v : ℕ) × (lookup
            (compute_event_id x e)
            (process_envelope x accepts now e s).1.idempotency.seen_keys
          ≡ some v)
  unfolding process_envelope
  marks_id now e s =
      let key = compute_event_id x e in
      let store = (seen_before now key s.idempotency).1 in
      let marked : Service = record s { idempotency = store } in
      let (v, found) = seen_before-marks now key s.idempotency in
      elim (Bool-cases (seen_before now key s.idempotency).0) [
        | inl again ↦ (v, rw (process_envelope, again) found)
        | inr first ↦ (
          v,
          rw (process_envelope, first, route-store key (record e { event_id = some key }) marked)
              found,
        )
      ]

  seen_is_duplicate :
      (later v : ℕ) (d : RawEnvelope) (t : Service)
      → lookup (compute_event_id x d) t.idempotency.seen_keys ≡ some v
      → process_envelope x accepts later d t ≡ (
        some (record {
          event_id = compute_event_id x d;
          status = duplicate;
          topic = none;
          reason = some "already_ingested";
        }),
        t,
      )
  unfolding process_envelope seen_before
  seen_is_duplicate later v d t found = rw (process_envelope, seen_before, found) refl

  -- A call keeps the ids of the store.
  seen_before-keeps :
      (now v : ℕ) (key k : String) (store : IdempotencyStore)
      → lookup k store.seen_keys ≡ some v
      → lookup k (seen_before now key store).1.seen_keys ≡ some v
  unfolding seen_before
  seen_before-keeps now v key k store found = elim (Option-cases (lookup key store.seen_keys)) [
    | inl absent ↦
        rw (seen_before, absent) (lookup-append k key now store.seen_keys ∙ ground (arith, found))
    | inr (u, there) ↦ rw (seen_before, there) found
  ]

  process_envelope-keeps :
      (now v : ℕ) (k : String) (e : RawEnvelope) (s : Service)
      → lookup k s.idempotency.seen_keys ≡ some v
      → lookup k (process_envelope x accepts now e s).1.idempotency.seen_keys ≡ some v
  unfolding process_envelope
  process_envelope-keeps now v k e s found =
      let key = compute_event_id x e in
      let store = (seen_before now key s.idempotency).1 in
      let kept = seen_before-keeps now v key k s.idempotency found in
      elim (Bool-cases (seen_before now key s.idempotency).0) [
        | inl again ↦ rw (process_envelope, again) kept
        | inr first ↦
            rw
              (
                process_envelope,
                first,
                route-store key (record e { event_id = some key })
                    (record s { idempotency = store }),
              )
              kept
      ]

  -- the service after calls with these envelopes, those that raise included
  abbrev pub after_calls : List (ℕ × RawEnvelope) → Service → Service
  after_calls [] s = s
  after_calls ((now, e) ∷ l) s = after_calls l (process_envelope x accepts now e s).1

  after_calls-keeps :
      (l : List (ℕ × RawEnvelope)) (v : ℕ) (k : String) (s : Service)
      → lookup k s.idempotency.seen_keys ≡ some v
      → lookup k (after_calls l s).idempotency.seen_keys ≡ some v
  after_calls-keeps [] v k s found = found
  after_calls-keeps ((now, e) ∷ l) v k s found =
      after_calls-keeps l v k (process_envelope x accepts now e s).1
        (process_envelope-keeps now v k e s found)

  -- After a call of `process_envelope` with an envelope, whatever came of it, an exception included,
  -- and after any further calls with any envelopes, a call with an envelope of the same id says that
  -- it is a duplicate and changes nothing, neither the topics nor the store. No clean-up of the
  -- store is among the calls.
  pub second_is_duplicate :
      (now later : ℕ) (e d : RawEnvelope) (between : List (ℕ × RawEnvelope)) (s : Service)
      → compute_event_id x d ≡ compute_event_id x e
      → let t = after_calls between (process_envelope x accepts now e s).1 in
        process_envelope x accepts later d t ≡ (
          some (record {
            event_id = compute_event_id x d;
            status = duplicate;
            topic = none;
            reason = some "already_ingested";
          }),
          t,
        )
  second_is_duplicate now later e d between s same =
      let (v, found) = marks_id now e s in
      let first = (process_envelope x accepts now e s).1 in
      let t = after_calls between first in
      seen_is_duplicate later v d t (
        subst (λ k. lookup k t.idempotency.seen_keys ≡ some v) (sym same)
          (after_calls-keeps between v (compute_event_id x e) first found))
