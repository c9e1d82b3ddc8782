-- ===== src/Detection/Correlation.antt =====
-- The correlation engine (services/detection/detection_core/correlation.py). The values of an
-- event's fields are texts, and times are numbers of seconds.
pub mod InOrder
use aegis_soc.Common.{
  ℕ, ◌+◌, String, ◌<>◌, Bool, true, false, Option, none, some, List, [], ◌∷◌, ◌++◌, map,
  if◌then◌else◌, ltb, leb, str_eq, truthy, contains, length,
}
use aegis_soc.Common.Dict.{Dict, lookup, insert}

-- what the engine reads of a `CanonicalEvent`; `attribute` is `getattr(event, name, None)`
pub record Event : Type 0 where
  pub timestamp : ℕ
  pub event_id : String
  pub attribute : String → Option String

-- `WindowEntry`
pub record WindowEntry : Type 0 where
  pub timestamp : ℕ
  pub event_id : String
  pub group_values : List (Option String)
  pub field_value : Option String

-- the dict under a rule's key `correlation`; a key that is left out is `none`
pub record Correlation : Type 0 where
  pub type : Option String
  pub group_by : Option (List String)
  pub window_seconds : Option ℕ
  pub distinct_field : Option String
  pub min_count : Option ℕ
  pub min_distinct : Option ℕ

-- a rule; `correlation` is `none` where it is missing or empty
pub record Rule : Type 0 where
  pub id : Option String
  pub correlation : Option Correlation

-- the dict `evidence`
pub data Evidence : Type 0 where
  no_evidence : Evidence
  threshold : (count min_count window_seconds : ℕ) → Evidence
  distinct_count : (count min_distinct : ℕ) → List String → (window_seconds : ℕ) → Evidence

-- `matched`, the evidence, and its key `event_ids`, which only a match has
abbrev pub Result : Type 0
Result = Bool × Evidence × Option (List String)

-- `d.get(k, y)`
abbrev pub get_or {ℓ} : {A : Type ℓ} → A → Option A → A
get_or y none = y
get_or y (some x) = x

-- `self._windows[key]` of the `defaultdict`
unfoldable pub window_of : String → Dict (List WindowEntry) → List WindowEntry
unfolding lookup
window_of key windows = get_or [] (lookup key windows)

-- `_prune`
unfoldable pub prune : (window_seconds now : ℕ) → List WindowEntry → List WindowEntry
prune window_seconds now [] = []
prune window_seconds now (e ∷ window) =
    let rest = prune window_seconds now window in
    if ltb (e.timestamp + window_seconds) now then rest else e ∷ window

-- the set of the field values that are not `None`, as a list without repetition
unfoldable pub distinct_values : List WindowEntry → List String
distinct_values [] = []
distinct_values (e ∷ window) =
    let rest = distinct_values window in
    elim e.field_value [ none ↦ rest | some v ↦ if contains rest v then rest else v ∷ rest ]

-- `getattr(event, distinct_field, None) if distinct_field else None`
abbrev pub field_value_of : Option String → Event → Option String
field_value_of none event = none
field_value_of (some name) event = if truthy name then event.attribute name else none

unfoldable pub entry_of : Correlation → Event → WindowEntry
entry_of c event = record {
  timestamp = event.timestamp;
  event_id = event.event_id;
  group_values = map event.attribute (get_or [] c.group_by);
  field_value = field_value_of c.distinct_field event;
}

-- the branches on the type of the correlation
unfoldable pub judge : Correlation → List WindowEntry → Bool × Evidence
unfolding distinct_values
judge c window =
    let window_seconds = get_or 300 c.window_seconds in
    if str_eq (get_or "" c.type) "threshold"
    then (
      leb (get_or 1 c.min_count) (length window),
      threshold (length window) (get_or 1 c.min_count) window_seconds,
    )
    else if str_eq (get_or "" c.type) "distinct_count"
    then (
      leb (get_or 1 c.min_distinct) (length (distinct_values window)),
      distinct_count (length (distinct_values window)) (get_or 1 c.min_distinct)
          (distinct_values window) window_seconds,
    )
    else (false, no_evidence)

-- `f"{rule_id}::{group_values}"`, with Python's text of a tuple as `repr`
abbrev pub group_key : (List (Option String) → String) → String → List (Option String) → String
group_key repr rule_id group_values = rule_id <> "::" <> repr group_values

-- the key of an event's window
unfoldable pub key_of : (List (Option String) → String) → Rule → Correlation → Event → String
key_of repr rule c event =
    group_key repr (get_or "unknown" rule.id) (map event.attribute (get_or [] c.group_by))

unfoldable pub evaluate :
    (List (Option String) → String)
    → Rule
    → Event
    → Dict (List WindowEntry)
    → Result × Dict (List WindowEntry)
unfolding window_of prune entry_of judge key_of insert
evaluate repr rule event windows = elim rule.correlation [
  | none ↦ ((false, no_evidence, none), windows)
  | some c ↦
      let key = key_of repr rule c event in
      let window =
        prune (get_or 300 c.window_seconds) event.timestamp
          (window_of key windows ++ (entry_of c event ∷ [])) in
      let (matched, evidence) = judge c window in
      (
        (matched, evidence, if matched then some (map (λ e. e.event_id) window) else none),
        insert key window windows,
      )
]
