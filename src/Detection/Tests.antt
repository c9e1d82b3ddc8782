-- ===== src/Detection/Tests.antt =====
-- The correlation engine at concrete inputs: two failed logins of one user within a minute.
use aegis_soc.Common.{String, ◌≡◌, refl, Option, none, some, List, [], ◌∷◌, ◌++◌, arith, keep}
use aegis_soc.Common.Dict.{Dict, lookup}
use aegis_soc.Detection.Correlation.{
  Event, WindowEntry, Correlation, Rule, window_of, entry_of, judge, key_of, evaluate,
}
use aegis_soc.Detection.Correlation.InOrder.{IsInOrder, is_recent, evaluate_recent}

abbrev repr : List (Option String) → String
repr values = "values"

abbrev attempts : Correlation
attempts = record {
  type = some "threshold";
  group_by = some ("user" ∷ []);
  window_seconds = some 60;
  distinct_field = none;
  min_count = some 2;
  min_distinct = none;
}

abbrev rule : Rule
rule = record { id = some "brute-force"; correlation = some attempts }

abbrev event : Event
event = record { timestamp = 130; event_id = "e2"; attribute = λ name. some "sam" }

abbrev earlier : WindowEntry
earlier = record {
  timestamp = 100;
  event_id = "e1";
  group_values = some "sam" ∷ [];
  field_value = none;
}

abbrev windows : Dict (List WindowEntry)
windows = ("brute-force::values", earlier ∷ []) ∷ []

windows-IsInOrder : IsInOrder 100 (window_of (key_of repr rule attempts event) windows)
unfolding window_of key_of lookup
windows-IsInOrder = (omega arith, tt, tt)

evaluate_recent_example :
    ((evaluate repr rule event windows).0.0
      ≡ (judge attempts (
          keep (is_recent 60 130) (
            window_of (key_of repr rule attempts event) windows
            ++ (entry_of attempts event ∷ [])))).0)
    × (window_of (key_of repr rule attempts event) (evaluate repr rule event windows).1
        ≡ keep
            (is_recent 60 130)
            (window_of (key_of repr rule attempts event) windows ++ (entry_of attempts event ∷ [])))
    × IsInOrder 130 (
        keep
          (is_recent 60 130)
          (window_of (key_of repr rule attempts event) windows ++ (entry_of attempts event ∷ [])))
evaluate_recent_example =
    evaluate_recent repr rule attempts event windows 100 refl windows-IsInOrder (omega arith)
