-- ===== src/Detection/Pipeline/Tests.antt =====
-- The theorems on clusters, rules and the pipeline at concrete inputs.
use aegis_soc.Common.{
  ℕ, String, ◌≡◌, refl, ◌↔◌, true, false, ◌&&◌, Option, none, some, List, [], ◌∷◌, map, contains,
  str_eq,
}
use mathlib.Core.List.{Memᴰ}
use aegis_soc.Common.Dict.{lookup, values}
use aegis_soc.Common.Json.{Value, str, obj, Fields, end, field}
use aegis_soc.Common.Sets.{union}
use aegis_soc.Common.Strings.{Strings}
use aegis_soc.Common.Thousandths.{thousandths, thousandths-IsOrder}
use aegis_soc.Policy.Taxonomy.{Severity}
use aegis_soc.Schema.{TelemetrySource, NodeType}
use aegis_soc.Schema.Events.{CanonicalEvent, DetectionHit, RiskScores, Alert}
use aegis_soc.Graph.Store.{File, missing}
use aegis_soc.Detection.Dedup.{is_skipped, overlap, Cluster, Clusters, find_match, get_alert}
use aegis_soc.Detection.Dedup.Best.{score, IsEligible, find_match-best}
use aegis_soc.Detection.Dedup.Growth.{IsKeyed, Keeps}
use aegis_soc.Detection.Pipeline.{State, World, process_event}
use aegis_soc.Detection.Pipeline.Alerts.{process_event-Keeps, process_event-alerts}
use aegis_soc.Detection.Sigma.{Runtime, SigmaRule, evaluate_block}
use aegis_soc.Detection.Sigma.Blocks.{AllMatch, evaluate_block_iff}

abbrev risk : ℕ → RiskScores thousandths
risk n = record {
  rule_score = n;
  heuristic_score = n;
  graph_score = n;
  intel_score = n;
  ml_score = n;
  ensemble_score = n;
  calibrated_score = n;
}

abbrev alert : Alert thousandths
alert = record {
  alert_id = "a1";
  tenant_id = "default";
  title = "t";
  description = "d";
  severity = Severity.low;
  status = "open";
  risk = risk 300;
  technique_ids = [];
  entity_ids = "host" ∷ [];
  event_ids = [];
  detection_ids = [];
  cluster_id = some "c1";
  case_id = none;
  created_at = 0;
  updated_at = 0;
  priority = 30;
  tags = [];
  provenance = [];
}

abbrev cluster : Cluster thousandths
cluster = record {
  cluster_id = "c1";
  alert = alert;
  entity_ids = "host" ∷ [];
  technique_ids = [];
  last_updated = 0;
}

abbrev clusters : Clusters thousandths
clusters = ("c1", cluster) ∷ []

cluster-IsEligible : IsEligible thousandths thousandths-IsOrder 100 (union ("host" ∷ []) []) cluster
unfolding is_skipped overlap
cluster-IsEligible = (refl, refl)

find_match-best_example :
    (c : Cluster thousandths) × (find_match thousandths ("host" ∷ []) [] 100 clusters ≡ some c)
    × Memᴰ c (values clusters)
    × IsEligible thousandths thousandths-IsOrder 100 (union ("host" ∷ []) []) c
    × (thousandths.lt
          (score thousandths thousandths-IsOrder 100 (union ("host" ∷ []) []) c)
          (score thousandths thousandths-IsOrder 100 (union ("host" ∷ []) []) cluster)
        ≡ false)
unfolding overlap
find_match-best_example =
    find_match-best thousandths thousandths-IsOrder 100 ("host" ∷ []) [] clusters cluster
      (Memᴰ.head refl) cluster-IsEligible refl

abbrev in_order : List String → List String
in_order l = l

clusters-IsKeyed : IsKeyed clusters
unfolding lookup
clusters-IsKeyed = (refl, refl, tt)

abbrev strings : Strings
strings = record {
  lower = λ t. t;
  strip = λ t. t;
  without_underscores = λ t. t;
  ends_with = λ t u. str_eq t u;
  partition_bar = λ t. t;
  after_bar = λ t. "";
  len = λ t. 0;
  text_of = λ v. (elim v [ str t ↦ t | _ ↦ "" ]);
}

abbrev event : CanonicalEvent thousandths
event = record {
  event_id = "e1";
  tenant_id = "default";
  timestamp = 100;
  ingested_at = none;
  source = TelemetrySource.sysmon;
  source_confidence = 800;
  event_type = "logon";
  severity = Severity.high;
  host = some "h";
  user = some "u";
  process = none;
  process_id = none;
  parent_process = none;
  parent_process_id = none;
  command_line = none;
  file_path = none;
  file_hash = none;
  src_ip = none;
  dst_ip = none;
  src_port = none;
  dst_port = none;
  domain = none;
  url = none;
  email_from = none;
  email_to = none;
  email_subject = none;
  cloud_account = none;
  cloud_resource = none;
  k8s_namespace = none;
  k8s_pod = none;
  registry_key = none;
  technique_ids = [];
  tags = [];
  raw = end;
  entities =
      record { type = NodeType.host; id = "host"; display_name = none; attributes = end } ∷ [];
  provenance = none;
  asset_criticality = 500;
  intel_matches = [];
  enrichment = end;
}

abbrev attribute : CanonicalEvent thousandths → String → Option Value
attribute e name = elim (str_eq name "event_type") [ true ↦ some (str e.event_type) | false ↦ none ]

abbrev runtime : Runtime thousandths
runtime = record {
  strings = strings;
  attribute = attribute;
  number = λ v. none;
  eval = λ condition results. lookup condition results;
}

abbrev selection : Fields
selection = field "event_type" (str "logon") end

evaluate_block_iff_example :
    ((e : Fields) × (evaluate_block thousandths runtime (obj selection) event ≡ some (true, e)))
    ↔ AllMatch thousandths runtime event selection
evaluate_block_iff_example = evaluate_block_iff thousandths runtime event selection

abbrev rule : SigmaRule
rule = record {
  id = some "r1";
  title = some "Logon";
  level = some "high";
  severity = none;
  description = some "a logon";
  technique_ids = "T1078" ∷ [];
  blocks = ("selection", obj selection) ∷ [];
  condition = some "selection";
  correlation = none;
}

abbrev world : World thousandths
world = record {
  runtime = runtime;
  indicators = record { is_ip = λ t. false; is_hash = λ t. false; stable_hash = λ t. t };
  repr = λ l. "";
  describe = λ g. "";
  hour = λ t. 12;
  intel_hits = λ e. [];
  order = in_order;
}

abbrev state : State thousandths
state = record {
  rules = rule ∷ [];
  windows = [];
  tracker = record { window_seconds = 300; by_host = []; first_seen = [] };
  clusters = clusters;
}

abbrev no_graph : File thousandths
no_graph = missing

abbrev after : State thousandths
after = (process_event thousandths world (λ n. "hit") "a2" "c2" 100 no_graph event state).1

process_event-Keeps_example :
    IsKeyed after.clusters
    × ((d : Cluster thousandths) × (lookup "c1" after.clusters ≡ some d)
        × Keeps thousandths "host" cluster d)
unfolding lookup
process_event-Keeps_example =
    process_event-Keeps thousandths thousandths-IsOrder world "host" (λ l. refl) "a2" "c2" 100
      no_graph event (λ n. "hit") state clusters-IsKeyed refl "c1" cluster refl

abbrev hit : DetectionHit thousandths
hit = record {
  detection_id = "hit";
  rule_id = "r1";
  rule_name = "Logon";
  severity = Severity.high;
  technique_ids = "T1078" ∷ [];
  event_ids = "e1" ∷ [];
  entity_ids = "host" ∷ [];
  score = 800;
  description = "a logon";
  tenant_id = "default";
  timestamp = 100;
  evidence =
      field "matched_blocks" (obj (field "selection" (obj selection) end))
        (field "condition" (str "selection") end);
}

abbrev returned : Option (Alert thousandths)
returned =
    elim (process_event thousandths world (λ n. "hit") "a2" "c2" 100 no_graph event state).0 [
      | none ↦ none
      | some (hits, alert_) ↦ alert_
    ]

run :
    process_event thousandths world (λ n. "hit") "a2" "c2" 100 no_graph event state
    ≡ (some (hit ∷ [], returned), after)
unfolding process_event
run = refl

process_event-alerts_example :
    (a : Alert thousandths) × (returned ≡ some a)
    × ((i : String) × (get_alert thousandths i after.clusters ≡ some a))
    × ((contains (map (λ e. e.id) event.entities) "host" && contains a.entity_ids "host")
        ≡ contains (map (λ e. e.id) event.entities) "host")
unfolding lookup
process_event-alerts_example =
    process_event-alerts thousandths thousandths-IsOrder world "host" (λ l. refl) "a2" "c2" 100
      no_graph event (λ n. "hit") state clusters-IsKeyed refl hit [] returned after run
