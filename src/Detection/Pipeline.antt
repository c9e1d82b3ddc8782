-- ===== src/Detection/Pipeline.antt =====
-- The pipeline for one event (services/detection/detection_core/pipeline.py). `none` is a ValueError
-- of a rule's severity, which nothing catches; what changed before it stays.
pub mod Alerts
mod Tests
use text.Mathlib.Text.{starts_with}
use aegis_soc.Common.{
  ℕ, zero, suc, String, ◌<>◌, Bool, true, false, ◌||◌, Option, none, some, List, [], ◌∷◌, ◌++◌, map,
  if◌then◌else◌, str_eq, truthy, any, length,
}
use aegis_soc.Common.Dict.{Dict}
use aegis_soc.Common.Floats.{Floats, ge}
use aegis_soc.Common.Json.{
  Value, null, num, str, arr, Items, no_items, item, Fields, end, field, update,
}
use aegis_soc.Common.Sets.{union, sorted_set}
use aegis_soc.Policy.Taxonomy.{Severity, informational, low, medium, high, critical}
use aegis_soc.Schema.{source_value}
use aegis_soc.Schema.Events.{CanonicalEvent, DetectionHit, RiskScores, Alert}
use aegis_soc.Graph.Store.{File}
use aegis_soc.Detection.Correlation as Correlation
use aegis_soc.Detection.Dedup.{Clusters, Request, assign}
use aegis_soc.Detection.Ensemble.{
  severity_weight, rule_score_from_hits, intel_score_from_matches, combine, severity_from_score,
  build_feature_vector, ml_score, heuristic_score, join,
}
use aegis_soc.Detection.GraphFeatures.{
  Indicators, GraphFeatures, compute_graph_features, graph_score_from_features,
}
use aegis_soc.Detection.Sigma.{SigmaRule, Runtime, match_single}
use aegis_soc.Detection.Temporal.{Tracker, observe, text_or}

-- `DetectionState`, with the file of the graph store
pub record State (f : Floats) : Type 0 where
  pub rules : List SigmaRule
  pub windows : Dict (List Correlation.WindowEntry)
  pub tracker : Tracker
  pub clusters : Clusters f

-- `reload_rules`, of the rules that `load_rules` reads from the files
unfoldable pub reload_rules : {f : Floats} → List SigmaRule → State f → ℕ × State f
reload_rules rules state = (length rules, record state { rules = rules })

-- What is not the program's own: the texts of a tuple and of the features in an f-string, the hour of
-- a timestamp, the confidences of the dicts under the key `intel_hits`, and the order of a set.
pub record World (f : Floats) : Type 0 where
  pub runtime : Runtime f
  pub indicators : Indicators
  pub repr : List (Option String) → String
  pub describe : GraphFeatures f → String
  pub hour : ℕ → ℕ
  pub intel_hits : Fields → List (Option f.Float)
  pub order : List String → List String

-- `Severity(value)`
unfoldable pub severity_of_value : String → Option Severity
severity_of_value value =
    if str_eq value "informational"
    then some informational
    else if str_eq value "low"
    then some low
    else if str_eq value "medium"
    then some medium
    else if str_eq value "high"
    then some high
    else if str_eq value "critical"
    then some critical
    else none

unfoldable pub items : List String → Items
items [] = no_items
items (s ∷ l) = item (str s) (items l)

-- the dict that the correlation returns
unfoldable pub correlation_fields : Correlation.Evidence → Option (List String) → Fields
unfolding items update
correlation_fields evidence event_ids =
    let base : Fields = elim evidence [
      | Correlation.no_evidence ↦ end
      | Correlation.threshold count min_count window ↦ field "type" (str "threshold") (
          field "count" (num count)
            (field "min_count" (num min_count) (field "window_seconds" (num window) end)))
      | Correlation.distinct_count count min_distinct values window ↦
          field "type" (str "distinct_count") (
            field "distinct_count" (num count) (
              field "min_distinct" (num min_distinct)
                (field "values" (arr (items values)) (field "window_seconds" (num window) end))))
    ] in
    elim event_ids [
      | none ↦ base
      | some ids ↦ update base (field "event_ids" (arr (items ids)) end)
    ]

-- `d.get(k, y)`
abbrev pub or_default {ℓ} : {A : Type ℓ} → A → Option A → A
or_default y none = y
or_default y (some x) = x

-- `rule.get("level") or rule.get("severity") or "medium"`
abbrev pub level_of : SigmaRule → String
level_of rule = text_or rule.level (text_or rule.severity "medium")

module _ (f : Floats) (w : World f) where
  -- What the correlation engine reads of the event, whose attributes are texts there: a port, which is
  -- a number, counts as missing. The repository's correlation rule reads none.
  abbrev pub seen_by_engine : CanonicalEvent f → Correlation.Event
  seen_by_engine event = record {
    timestamp = event.timestamp;
    event_id = event.event_id;
    attribute =
        λ name. (elim (w.runtime.attribute event name) [ some (str s) ↦ some s | _ ↦ none ]);
  }

  -- what a rule says of the event: the evidence and the ids of the events, where it matches
  unfoldable pub verdict_of :
      SigmaRule
      → CanonicalEvent f
      → Dict (List Correlation.WindowEntry)
      → Option (Fields × List String) × Dict (List Correlation.WindowEntry)
  unfolding match_single Correlation.evaluate correlation_fields update
  verdict_of rule event windows = elim (match_single f w.runtime rule event) [
    | none ↦ (none, windows)
    | some (false, evidence) ↦ (none, windows)
    | some (true, evidence) ↦ elim rule.correlation [
      | none ↦ (some (evidence, event.event_id ∷ []), windows)
      | some c ↦
          let ((matched, found, ids), after) =
            Correlation.evaluate w.repr (record { id = rule.id; correlation = rule.correlation })
              (seen_by_engine event) windows in
          (
            if matched
                then some (
                  update evidence (correlation_fields found ids),
                  or_default (event.event_id ∷ []) ids,
                )
                else none,
            after,
          )
    ]
  ]

  -- `uuid` is the id of the hit
  unfoldable pub hit_of :
      String → SigmaRule → CanonicalEvent f → Severity → Fields → List String → DetectionHit f
  unfolding severity_weight
  hit_of uuid rule event severity evidence event_ids = record {
    detection_id = uuid;
    rule_id = or_default "unknown" rule.id;
    rule_name = or_default (or_default "unknown" rule.id) rule.title;
    severity = severity;
    technique_ids = rule.technique_ids;
    event_ids = event_ids;
    entity_ids = map (λ e. e.id) event.entities;
    score = severity_weight f severity;
    description = or_default "" rule.description;
    tenant_id = event.tenant_id;
    timestamp = event.timestamp;
    evidence = evidence;
  }

  -- the loop over the rules
  unfoldable pub run_rules :
      (ℕ → String)
      → ℕ
      → List SigmaRule
      → CanonicalEvent f
      → Dict (List Correlation.WindowEntry)
      → Option (List (DetectionHit f)) × Dict (List Correlation.WindowEntry)
  unfolding verdict_of severity_of_value hit_of
  run_rules uuid n [] event windows = (some [], windows)
  run_rules uuid n (rule ∷ rules) event windows =
      let (verdict, after) = verdict_of rule event windows in
      elim verdict [
        | none ↦ run_rules uuid n rules event after
        | some (evidence, event_ids) ↦ elim (severity_of_value (level_of rule)) [
          | none ↦ (none, after)
          | some severity ↦
              let (hits, last) = run_rules uuid (suc n) rules event after in
              (
                (elim hits [
                  | none ↦ none
                  | some l ↦ some (hit_of (uuid n) rule event severity evidence event_ids ∷ l)
                ]),
                last,
              )
        ]
      ]

  -- `MIN_ALERT_SCORE`
  abbrev pub min_alert_score : f.Float
  min_alert_score = f.milli 300

  unfoldable pub techniques_of_hits : List (DetectionHit f) → List String
  techniques_of_hits [] = []
  techniques_of_hits (h ∷ hits) = h.technique_ids ++ techniques_of_hits hits

  abbrev pub title_of : List (DetectionHit f) → CanonicalEvent f → String
  title_of [] event = "Anomalous activity on " <> or_host event.host event.user
    where
      or_host : Option String → Option String → String
      or_host (some h) user = if truthy h then h else or_default "None" user
      or_host none user = or_default "None" user
  title_of (h ∷ _) event = h.rule_name

  -- the scores of the event with its hits, and the reasons of the heuristic
  unfoldable pub risk_of :
      List (DetectionHit f)
      → CanonicalEvent f
      → GraphFeatures f
      → (distinct_techniques event_count : ℕ) → RiskScores f × List String
  unfolding heuristic_score graph_score_from_features intel_score_from_matches rule_score_from_hits
      build_feature_vector ml_score combine
  risk_of hits event features distinct_techniques event_count =
      let (heuristic_val, reasons) =
        heuristic_score f w.runtime.strings (w.hour event.timestamp) event in
      let ml_val = ml_score f (
        build_feature_vector f event.asset_criticality features.degree features.rare_edge_score
          features.path_length (length event.intel_matches) distinct_techniques event_count) in
      (
        combine f (rule_score_from_hits f (map (λ h. h.severity) hits)) heuristic_val
            (graph_score_from_features f features)
            (intel_score_from_matches f (w.intel_hits event.enrichment)) ml_val
            (any (λ r. starts_with r "benign_admin_context:") reasons),
        reasons,
      )

  -- the arguments of `assign`
  unfoldable pub request_of :
      List (DetectionHit f)
      → CanonicalEvent f
      → GraphFeatures f
      → RiskScores f
      → List String
      → Request f
  unfolding severity_from_score join techniques_of_hits sorted_set source_value union
  request_of hits event features risk reasons = record {
    title = title_of hits event;
    description = join "; " (
        map (λ h. h.description) hits
        ++ (reasons ++ (("graph_features=" <> w.describe features) ∷ [])));
    severity = severity_from_score f risk.calibrated_score;
    risk = risk;
    technique_ids = sorted_set (event.technique_ids ++ techniques_of_hits hits);
    entity_ids = map (λ e. e.id) event.entities;
    event_ids = event.event_id ∷ [];
    detection_ids = map (λ h. h.detection_id) hits;
    tenant_id = event.tenant_id;
    tags = w.order (union (source_value event.source ∷ []) (map (λ h. h.rule_id) hits));
  }

  -- `hits or risk.calibrated_score >= MIN_ALERT_SCORE`
  abbrev pub raises_alert : List (DetectionHit f) → RiskScores f → Bool
  raises_alert [] risk = ge f risk.calibrated_score min_alert_score
  raises_alert (h ∷ hits) risk = true

  -- the part of `process_event` below the rules
  unfoldable pub conclude :
      (alert_id cluster_id : String)
      → (now : ℕ) → File f
      → CanonicalEvent f
      → List (DetectionHit f)
      → State f
      → Option (Alert f) × State f
  unfolding observe compute_graph_features risk_of request_of assign
  conclude alert_id cluster_id now graph event hits state =
      let (temporal, tracker) = observe f event state.tracker in
      let features = compute_graph_features f w.indicators w.runtime.strings w.order graph event in
      let (risk, reasons) =
        risk_of hits event features temporal.distinct_techniques_window
          temporal.event_count_window in
      let seen : State f = record state { tracker = tracker } in
      if raises_alert hits risk
      then (let (alert, clusters) =
            assign f w.order alert_id cluster_id now (request_of hits event features risk reasons)
              state.clusters in
          (some alert, record seen { clusters = clusters }))
      else (none, seen)

  -- `now` is the clock's reading in `assign`, and the texts are the calls of `uuid4`
  unfoldable pub process_event :
      (ℕ → String)
      → (alert_id cluster_id : String) → (now : ℕ) → File f
      → CanonicalEvent f
      → State f
      → Option (List (DetectionHit f) × Option (Alert f)) × State f
  unfolding run_rules conclude
  process_event uuid alert_id cluster_id now graph event state =
      let (result, windows) = run_rules uuid 0 state.rules event state.windows in
      let ruled : State f = record state { windows = windows } in
      elim result [
        | none ↦ (none, ruled)
        | some hits ↦
            let (alert, after) = conclude alert_id cluster_id now graph event hits ruled in
            (some (hits, alert), after)
      ]
