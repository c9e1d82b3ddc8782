-- ===== src/Detection/Sigma.antt =====
-- The rules' single-event part (services/detection/detection_core/sigma.py). `none` is an exception
-- that the method does not catch.
pub mod Blocks
use text.Mathlib.Text.{starts_with}
use aegis_soc.Common.{
  ℕ, String, Bool, true, false, not, ◌||◌, ◌&&◌, Option, none, some, List, [], ◌∷◌, map,
  if◌then◌else◌, str_eq, contains, any, occurs, ◌==◌,
}
use aegis_soc.Common.Dict.{Dict, lookup, insert, has_key}
use aegis_soc.Common.Floats.{Floats, ge}
use aegis_soc.Common.Json.{
  Value, null, bool, num, str, arr, obj, Fields, end, field, Items, no_items, item, get, put,
}
use aegis_soc.Common.Strings.{Strings}
use aegis_soc.Schema.Events.{CanonicalEvent}
use aegis_soc.Detection.Correlation.{Correlation}

-- a rule; its `detection` without the key `condition`, and that key
pub record SigmaRule : Type 0 where
  pub id : Option String
  pub title : Option String
  pub level : Option String
  pub severity : Option String
  pub description : Option String
  pub technique_ids : List String
  pub blocks : Dict Value
  pub condition : Option String
  pub correlation : Option Correlation

-- What is not the program's own: the methods on texts, `getattr` of the event's model where it has
-- the attribute, `float(v)` where it raises no TypeError or ValueError, and `eval` where it raises
-- nothing.
pub record Runtime (f : Floats) : Type 0 where
  pub strings : Strings
  pub attribute : CanonicalEvent f → String → Option Value
  pub number : Value → Option f.Float
  pub eval : String → Dict Bool → Option Bool

-- `FIELD_ALIASES`
abbrev pub field_aliases : Dict String
field_aliases =
    ("image", "process")
    ∷ ("parent_image", "parent_process")
    ∷ ("target_filename", "file_path")
    ∷ ("dns_query", "domain")
    ∷ ("attachment_name", "file_path")
    ∷ ("attachment_hash", "file_hash")
    ∷ ("mitre_techniques", "technique_ids")
    ∷ ("technique_id", "technique_ids")
    ∷ []

-- `RAW_FIELD_ALIASES`
abbrev pub raw_field_aliases : Dict String
raw_field_aliases =
    ("zeek_log_type", "log_type") ∷ ("k8s_resource", "resource") ∷ ("k8s_verb", "verb") ∷ []

-- `d.get(k, k)`
unfoldable pub alias_for : String → Dict String → String
unfolding lookup
alias_for k d = elim (lookup k d) [ none ↦ k | some v ↦ v ]

-- `bool(v)`
unfoldable pub is_truthy : Value → Bool
is_truthy null = false
is_truthy (bool b) = b
is_truthy (num n) = not (n == 0)
is_truthy (str s) = not (str_eq s "")
is_truthy (arr no_items) = false
is_truthy (arr (item v vs)) = true
is_truthy (obj end) = false
is_truthy (obj (field k v fs)) = true

-- `v in (None, "", [])`
unfoldable pub is_blank : Value → Bool
is_blank null = true
is_blank (str s) = str_eq s ""
is_blank (arr no_items) = true
is_blank _ = false

-- `(v or {}).get(k)`, where `none` is the AttributeError of what is no dict
unfoldable pub get_in : String → Option Value → Option (Option Value)
unfolding get is_truthy
get_in k none = some none
get_in k (some (obj fs)) = some (get k fs)
get_in k (some v) = if is_truthy v then none else some none

abbrev pub or_null : Option Value → Value
or_null none = null
or_null (some v) = v

abbrev pub items_of : Items → List Value
items_of no_items = []
items_of (item v vs) = v ∷ items_of vs

-- `expected if isinstance(expected, list) else [expected]`
unfoldable pub expected_list : Value → List Value
expected_list (arr vs) = items_of vs
expected_list v = v ∷ []

module _ (s : Strings) where
  -- `key.replace("_", "").lower()`
  abbrev pub folded : String → String
  folded key = s.lower (s.without_underscores key)

  -- the loop of `_raw_lookup`
  unfoldable pub fuzzy_get : String → Fields → Value
  fuzzy_get target end = null
  fuzzy_get target (field key value fs) = elim (str_eq (folded key) target) [
    | true ↦ value
    | false ↦ fuzzy_get target fs
  ]

  unfoldable pub raw_lookup : Fields → String → Value
  unfolding get fuzzy_get
  raw_lookup raw key = elim (get key raw) [ some value ↦ value | none ↦ fuzzy_get (folded key) raw ]

  -- `str(v).lower()`
  abbrev pub lower_text : Value → String
  lower_text v = s.lower (s.text_of v)

  -- `_to_bool`
  unfoldable pub to_bool : Value → Bool
  unfolding is_truthy
  to_bool (bool b) = b
  to_bool (str t) = contains ("true" ∷ "1" ∷ "yes" ∷ []) (s.lower (s.strip t))
  to_bool v = is_truthy v

  abbrev pub bool_eq : Bool → Bool → Bool
  bool_eq a b = if a then b else not b

  -- `any(str(needle).lower() in actual_strs for needle in expected_list)`, and the same with `==`
  abbrev pub any_listed : Items → List Value → Bool
  any_listed actual expected =
      any (λ needle. contains (map lower_text (items_of actual)) (lower_text needle)) expected

  abbrev pub any_text : (String → String → Bool) → Value → List Value → Bool
  any_text test actual expected =
      any (λ needle. test (lower_text needle) (lower_text actual)) expected

  unfoldable pub match_contains : Value → List Value → Bool
  match_contains (arr vs) expected = any_listed vs expected
  match_contains actual expected = any_text occurs actual expected

  unfoldable pub match_equal : Value → List Value → Bool
  unfolding to_bool
  match_equal (arr vs) expected = any_listed vs expected
  match_equal (bool b) expected = any (λ needle. bool_eq (to_bool needle) b) expected
  match_equal actual expected = any_text str_eq actual expected

module _ (f : Floats) (r : Runtime f) where
  -- `_get_field`
  unfoldable pub get_field : CanonicalEvent f → String → Option Value
  unfolding get get_in alias_for is_blank raw_lookup
  get_field event name =
      let key = r.strings.lower name in
      if str_eq key "dns_query_length"
      then some (num (elim event.domain [ none ↦ 0 | some d ↦ r.strings.len d ]))
      else if str_eq key "alert_category"
      then (elim (get_in "category" (get "alert" event.raw)) [
        | none ↦ none
        | some v ↦ some (or_null v)
      ])
      else if str_eq key "alert_severity"
      then (elim (get_in "severity" (get "alert" event.raw)) [
        | none ↦ none
        | some v ↦ some (or_null v)
      ])
      else let value = or_null (r.attribute event (alias_for key field_aliases)) in
        some (
          if is_blank value
          then raw_lookup r.strings event.raw (alias_for key raw_field_aliases)
          else value)

  -- the comparisons `gt`, `lt`, `gte` and `lte` of two numbers
  unfoldable pub compare_numbers : String → f.Float → f.Float → Bool
  compare_numbers modifier a b =
      if str_eq modifier "gt"
      then f.lt b a
      else if str_eq modifier "lt"
      then f.lt a b
      else if str_eq modifier "gte"
      then ge f a b
      else f.le a b

  -- the branch on numbers; an empty list of expected values is an IndexError
  unfoldable pub match_number : String → Value → List Value → Option Bool
  unfolding compare_numbers
  match_number modifier actual [] = elim (r.number actual) [ none ↦ some false | some _ ↦ none ]
  match_number modifier actual (expected ∷ _) = elim (r.number actual) [
    | none ↦ some false
    | some a ↦ elim (r.number expected) [
      | none ↦ some false
      | some b ↦ some (compare_numbers modifier a b)
    ]
  ]

  unfoldable pub match_present : Value → List Value → String → Option Bool
  unfolding match_contains match_equal match_number
  match_present actual expected modifier =
      if str_eq modifier "contains"
      then some (match_contains r.strings actual expected)
      else if str_eq modifier "endswith"
      then some (any_text r.strings (λ t a. r.strings.ends_with a t) actual expected)
      else if str_eq modifier "startswith"
      then some (any_text r.strings (λ t a. starts_with a t) actual expected)
      else if contains ("gt" ∷ "lt" ∷ "gte" ∷ "lte" ∷ []) modifier
      then match_number modifier actual expected
      else some (match_equal r.strings actual expected)

  -- `_match_value`
  unfoldable pub match_value : Value → Value → String → Option Bool
  unfolding expected_list match_present
  match_value null expected modifier = some false
  match_value actual expected modifier = match_present actual (expected_list expected) modifier

  -- `_evaluate_block`, of a dict
  unfoldable pub evaluate_fields : CanonicalEvent f → Fields → Fields → Option (Bool × Fields)
  unfolding get_field match_value put
  evaluate_fields event end evidence = some (true, evidence)
  evaluate_fields event (field raw_key expected block) evidence =
      let name = r.strings.partition_bar raw_key in
      elim (get_field event name) [
        | none ↦ none
        | some actual ↦ elim (match_value actual expected (r.strings.after_bar raw_key)) [
          | none ↦ none
          | some false ↦ some (false, end)
          | some true ↦ evaluate_fields event block (put name actual evidence)
        ]
      ]

  unfoldable pub evaluate_block : Value → CanonicalEvent f → Option (Bool × Fields)
  unfolding evaluate_fields
  evaluate_block (obj block) event = evaluate_fields event block end
  evaluate_block _ event = some (false, end)

  -- `all(v for k, v in results.items() if not k.startswith("filter"))`
  unfoldable pub all_selected : Dict Bool → Bool
  all_selected [] = true
  all_selected ((k, v) ∷ results) =
      (if starts_with k "filter" then true else v) && all_selected results

  -- `_evaluate_condition`
  unfoldable pub evaluate_condition : String → Dict Bool → Bool
  unfolding lookup all_selected
  evaluate_condition condition results =
      let stripped = r.strings.strip condition in
      if str_eq stripped ""
      then (elim (lookup "selection" results) [ none ↦ false | some b ↦ b ])
      else (elim (r.eval stripped results) [ none ↦ all_selected results | some b ↦ b ])

  -- the loop over the blocks, with `results` and `evidence`
  unfoldable pub evaluate_blocks :
      CanonicalEvent f → Dict Value → Dict Bool → Fields → Option (Dict Bool × Fields)
  unfolding evaluate_block insert put
  evaluate_blocks event [] results evidence = some (results, evidence)
  evaluate_blocks event ((name, block) ∷ blocks) results evidence =
      elim (evaluate_block block event) [
        | none ↦ none
        | some (matched, found) ↦
            evaluate_blocks event blocks (insert name matched results)
              (if matched then put name (obj found) evidence else evidence)
      ]

  -- `results.setdefault("correlation", True)`
  abbrev pub with_correlation : Dict Bool → Dict Bool
  with_correlation results =
      if has_key "correlation" results then results else insert "correlation" true results

  unfoldable pub match_single : SigmaRule → CanonicalEvent f → Option (Bool × Fields)
  unfolding evaluate_blocks evaluate_condition lookup insert
  match_single rule event =
      let condition : String = elim rule.condition [ none ↦ "selection" | some c ↦ c ] in
      elim (evaluate_blocks event rule.blocks [] end) [
        | none ↦ none
        | some (results, evidence) ↦ some (
          evaluate_condition condition (with_correlation results),
          field "matched_blocks" (obj evidence) (field "condition" (str condition) end),
        )
      ]
