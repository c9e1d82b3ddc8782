-- ===== src/Graph/Tests.antt =====
-- The theorems on the graph at concrete inputs.
use aegis_soc.Common.{
  String, ◌≡◌, refl, ◌⊎◌, inl, inr, true, ◌||◌, none, some, List, [], ◌∷◌, map, arith, ◌≤◌, length,
  contains,
}
use mathlib.Core.List.Memᴰ
use aegis_soc.Common.Json.{end}
use aegis_soc.Common.Thousandths.{thousandths}
use aegis_soc.Policy.Taxonomy.{Severity}
use aegis_soc.Schema.{TelemetrySource, NodeType}
use aegis_soc.Schema.Events.{CanonicalEvent, EntityRef}
use aegis_soc.Graph.Store.{TimeTexts, StoredEdge, File, missing, read, document}
use aegis_soc.Graph.Store.Valid.{IsValid}
use aegis_soc.Graph.Search as Search
use aegis_soc.Graph.Search.KnownBad as KnownBad
use aegis_soc.Graph.Queries.{Step, forward, reverse, attack_path, path_length_to_known_bad}
use aegis_soc.Graph.Queries.Paths.{
  IsTrail, attack_path_returns, attack_path_shortest, path_length_nearest,
}
use aegis_soc.Graph.Builder.{draft_edges, apply_event_to_graph}
use aegis_soc.Graph.Builder.Closed.{is_node, apply_event-IsValid}

abbrev clock : TimeTexts
clock = record { isoformat = λ n. "t"; json_time = λ n. "t" }

abbrev entity : NodeType → String → EntityRef
entity type id = record { type = type; id = id; display_name = none; attributes = end }

abbrev event : CanonicalEvent thousandths
event = record {
  event_id = "e1";
  tenant_id = "default";
  timestamp = 100;
  ingested_at = none;
  source = TelemetrySource.sysmon;
  source_confidence = 800;
  event_type = "logon";
  severity = Severity.high;
  host = some "h";
  user = some "u";
  process = none;
  process_id = none;
  parent_process = none;
  parent_process_id = none;
  command_line = none;
  file_path = none;
  file_hash = none;
  src_ip = none;
  dst_ip = none;
  src_port = none;
  dst_port = none;
  domain = none;
  url = none;
  email_from = none;
  email_to = none;
  email_subject = none;
  cloud_account = none;
  cloud_resource = none;
  k8s_namespace = none;
  k8s_pod = none;
  registry_key = none;
  technique_ids = [];
  tags = [];
  raw = end;
  entities =
      entity NodeType.user "user"
      ∷ entity NodeType.host "host"
      ∷ entity NodeType.process "shell"
      ∷ [];
  provenance = none;
  asset_criticality = 500;
  intel_matches = [];
  enrichment = end;
}

abbrev edge : String → String → String → StoredEdge thousandths
edge kind src dst = record {
  edge_id = "id";
  edge_type = kind;
  src_id = src;
  dst_id = dst;
  tenant_id = "default";
  first_seen = "t";
  last_seen = "t";
  count = 1;
  confidence = 800;
  sources = [];
  properties = end;
  provenance_ids = [];
  labels = [];
  observations = [];
}

abbrev logon : StoredEdge thousandths
logon = edge "logged_in_to" "user" "host"

abbrev run : StoredEdge thousandths
run = edge "executed" "shell" "host"

abbrev file : File thousandths
file = document (record {
  nodes = [];
  edges = ("user|logged_in_to|host", logon) ∷ ("shell|executed|host", run) ∷ [];
})

abbrev trail : List (Step thousandths)
trail = forward logon ∷ reverse run ∷ []

trail-IsTrail : IsTrail thousandths (read thousandths file) "user" trail "shell"
unfolding read
trail-IsTrail = (
  (logon, Memᴰ.head refl, inl (refl, refl)),
  ((run, Memᴰ.tail (Memᴰ.head refl), inr (refl, refl)), refl),
)

attack_path_returns_example :
    (attack_path thousandths "user" "shell" 6 file ≡ Search.not_found)
    ⊎ ((p : List (Step thousandths)) × (attack_path thousandths "user" "shell" 6 file
          ≡ Search.found p)
        × IsTrail thousandths (read thousandths file) "user" p "shell"
        × (length p ≤ 6))
attack_path_returns_example = attack_path_returns thousandths "user" "shell" 6 file

attack_path_shortest_example :
    (p : List (Step thousandths)) × (attack_path thousandths "user" "shell" 6 file ≡ Search.found p)
    × IsTrail thousandths (read thousandths file) "user" p "shell"
    × (length p ≤ 2)
attack_path_shortest_example =
    attack_path_shortest thousandths "user" "shell" 6 file trail trail-IsTrail (omega arith)

attack_path_run : attack_path thousandths "user" "shell" 6 file ≡ Search.found trail
unfolding attack_path
attack_path_run = refl

attack_path_too_deep : attack_path thousandths "user" "shell" 1 file ≡ Search.not_found
unfolding attack_path
attack_path_too_deep = refl

path_length_nearest_example :
    (u : String) × (p : List (Step thousandths)) × (path_length_to_known_bad thousandths "user"
        ("shell" ∷ [])
        4
        file
      ≡ KnownBad.distance (length p))
    × (contains ("shell" ∷ []) u ≡ true)
    × IsTrail thousandths (read thousandths file) "user" p u
    × (length p ≤ 2)
path_length_nearest_example =
    path_length_nearest thousandths "user" ("shell" ∷ []) 4 file "shell" trail refl trail-IsTrail
      (omega arith)

abbrev no_file : File thousandths
no_file = missing

missing-IsValid : IsValid no_file
unfolding read
missing-IsValid = record { nodes_ok = refl; edges_ok = refl }

apply_event-IsValid_example :
    let (counts, after) = apply_event_to_graph thousandths clock "t" (λ n. "id") event no_file in
    IsValid after
    × (is_node thousandths "shell" after ≡ (
        contains (map (λ e. e.id) event.entities) "shell" || is_node thousandths "shell" no_file))
    × (counts.0 ≡ length event.entities)
    × (counts.1 ≡ length (draft_edges thousandths event))
apply_event-IsValid_example =
    apply_event-IsValid thousandths clock "t" (λ n. "id") event no_file "shell" missing-IsValid
