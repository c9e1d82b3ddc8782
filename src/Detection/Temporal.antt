-- ===== src/Detection/Temporal.antt =====
-- The features of an entity's recent events (services/detection/detection_core/temporal.py).
use aegis_soc.Common.{
  ℕ, ◌+◌, ◌-◌, String, Bool, true, false, Option, none, some, List, [], ◌∷◌, ◌++◌, map,
  if◌then◌else◌, ltb, truthy, length,
}
use aegis_soc.Common.Dict.{Dict, lookup, insert, has_key}
use aegis_soc.Common.Floats.{Floats}
use aegis_soc.Common.Sets.{union}
use aegis_soc.Schema.Events.{CanonicalEvent}

-- `_Entry`
pub record Entry : Type 0 where
  pub timestamp : ℕ
  pub event_type : String
  pub technique_ids : List String

-- `TemporalFeatureTracker`; its windows are of `window_seconds`, in the unit of the timestamps
pub record Tracker : Type 0 where
  pub window_seconds : ℕ
  pub by_host : Dict (List Entry)
  pub first_seen : Dict ℕ

-- the dict that `observe` returns
pub record Features : Type 0 where
  pub entity : String
  pub event_count_window : ℕ
  pub distinct_event_types_window : ℕ
  pub distinct_techniques_window : ℕ
  -- whether the event is earlier than the first, and the distance of the two
  pub time_since_first_seen : Bool × ℕ

-- `self._by_host[host]`
unfoldable pub window_of : String → Dict (List Entry) → List Entry
unfolding lookup
window_of host by_host = elim (lookup host by_host) [ none ↦ [] | some l ↦ l ]

-- `_prune`
unfoldable pub prune : (window_seconds now : ℕ) → List Entry → List Entry
prune window_seconds now [] = []
prune window_seconds now (e ∷ window) =
    let rest = prune window_seconds now window in
    if ltb (e.timestamp + window_seconds) now then rest else e ∷ window

-- the union of the sets of techniques
unfoldable pub techniques_of : List Entry → List String
unfolding union
techniques_of [] = []
techniques_of (e ∷ window) = union (techniques_of window) e.technique_ids

-- `event.host or event.user or "unknown"`
abbrev pub text_or : Option String → String → String
text_or none other = other
text_or (some t) other = if truthy t then t else other

module _ (f : Floats) where
  unfoldable pub observe : CanonicalEvent f → Tracker → Features × Tracker
  unfolding lookup insert window_of prune union techniques_of
  observe event tracker =
      let host = text_or event.host (text_or event.user "unknown") in
      let first : ℕ = elim (lookup host tracker.first_seen) [
        | none ↦ event.timestamp
        | some t ↦ t
      ] in
      let entry : Entry = record {
        timestamp = event.timestamp;
        event_type = event.event_type;
        technique_ids = event.technique_ids;
      } in
      let window =
        prune tracker.window_seconds event.timestamp
          (window_of host tracker.by_host ++ (entry ∷ [])) in
      (
        record {
          entity = host;
          event_count_window = length window;
          distinct_event_types_window = length (union [] (map (λ e. e.event_type) window));
          distinct_techniques_window = length (techniques_of window);
          time_since_first_seen =
              if ltb event.timestamp first
              then (true, first - event.timestamp)
              else (false, event.timestamp - first);
        },
        record tracker {
          by_host = insert host window tracker.by_host;
          first_seen =
              if has_key host tracker.first_seen
              then tracker.first_seen
              else insert host event.timestamp tracker.first_seen;
        },
      )
