-- ===== src/Messaging/Tests.antt =====
-- The bus and the idempotency store at concrete inputs.
use aegis_soc.Common.{ℕ, ◌+◌, ◌≤◌, ◌≡◌, refl, some, List, [], ◌∷◌, arith, length, take, drop}
use aegis_soc.Common.Dict.{lookup}
use aegis_soc.Messaging.Bus.{EventBus, json, read_offset, poll, lag}
use aegis_soc.Messaging.Bus.Delivery.{Holds, poll-next, drain, drain-all}
use aegis_soc.Messaging.Idempotency.{IdempotencyStore}
use aegis_soc.Messaging.Idempotency.Once.{Call, handled, times_handled, handled_once}

abbrev bus : EventBus ℕ
bus = record {
  topics = ("alerts", json 7 ∷ json 8 ∷ json 9 ∷ []) ∷ [];
  offsets = ("alerts__triage", some 1) ∷ [];
}

abbrev records : List ℕ
records = 7 ∷ 8 ∷ 9 ∷ []

bus-Holds : Holds "alerts" records bus
unfolding lookup
bus-Holds = refl

poll-next_example :
    (after : EventBus ℕ) × (poll "alerts" "triage" 2 bus
      ≡ some (take 2 (drop (read_offset "alerts" "triage" bus) records), after))
    × (after.topics ≡ bus.topics)
    × (read_offset "alerts" "triage" after
        ≡ read_offset "alerts" "triage" bus
          + length (take 2 (drop (read_offset "alerts" "triage" bus) records)))
poll-next_example = poll-next "alerts" "triage" 2 records bus bus-Holds (omega arith)

few_left : length (drop (read_offset "alerts" "triage" bus) records) ≤ 2
unfolding read_offset lookup
few_left = omega arith

drain-all_example :
    (after : EventBus ℕ) × (drain 2 "alerts" "triage" 1 bus
      ≡ some (drop (read_offset "alerts" "triage" bus) records, after))
    × (lag "alerts" "triage" after ≡ 0)
drain-all_example = drain-all 2 "alerts" "triage" 1 records bus bus-Holds (omega arith) few_left

abbrev calls : List Call
calls = Call.message 5 "e1" ∷ Call.cleanup 6 ∷ Call.message 8 "e1" ∷ []

abbrev store : IdempotencyStore
store = record { ttl_seconds = 100; seen_keys = [] }

handled_once_example : times_handled "e1" (handled calls store) ≤ 1
handled_once_example =
    handled_once "e1" 5 8 calls store
      (omega arith, omega arith, (omega arith, omega arith, (omega arith, omega arith, tt)))
      (omega arith)
