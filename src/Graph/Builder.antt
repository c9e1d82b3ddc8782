-- ===== src/Graph/Builder.antt =====
-- The graph builder (services/graph_builder/graph_core/writer.py, services/graph_builder/app/main.py).
-- The ids of the new edges come from a supply `uuid`.

pub mod Endpoints
pub mod Closed
use aegis_soc.Common.{
  ℕ, zero, suc, String, Bool, true, false, ◌&&◌, ◌||◌, Option, none, some, List, [], ◌∷◌, ◌++◌, map,
  if◌then◌else◌, str_eq, contains, length, keep, head?,
}
use aegis_soc.Common.Floats.{Floats}
use aegis_soc.Common.Json.{Fields, Value, null, num, str, end, field, update, opt_str, get_or}
use aegis_soc.Policy.Taxonomy.{Severity}
use aegis_soc.Schema.{
  NodeType, EdgeType, source_value, node_type_value, authenticated_to, logged_in_to, spawned,
  executed, accessed, created, modified, connected_to, resolved_to, downloaded, emailed,
  mapped_to_technique, severity_value,
}
use aegis_soc.Schema.Events.{CanonicalEvent, EntityRef, GraphNode, GraphEdge}
use aegis_soc.Graph.Store.{TimeTexts, File, upsert_node, upsert_edge}

-- `LOGON_EVENT_TYPES` and `NETWORK_EVENT_TYPES`
abbrev pub logon_event_types : List String
logon_event_types = "logon" ∷ "logon_failure" ∷ "special_privileges_assigned" ∷ []

abbrev pub network_event_types : List String
network_event_types =
    "network_connection" ∷ "network_alert" ∷ "zeek_conn" ∷ "firewall_connection" ∷ []

-- `e.type == node_type`, of the enum's values
abbrev pub has_type : NodeType → EntityRef → Bool
has_type node_type e = str_eq (node_type_value e.type) (node_type_value node_type)

-- `_all_entities` and `_find_entity`
unfoldable pub all_entities : List EntityRef → NodeType → List EntityRef
unfolding node_type_value
all_entities entities node_type = keep (has_type node_type) entities

unfoldable pub find_entity : List EntityRef → NodeType → Option EntityRef
unfolding node_type_value
find_entity [] node_type = none
find_entity (e ∷ entities) node_type = elim (has_type node_type e) [
  | true ↦ some e
  | false ↦ find_entity entities node_type
]

-- `x or y`
abbrev pub or_entity : Option EntityRef → Option EntityRef → Option EntityRef
or_entity none y = y
or_entity (some x) y = some x

-- `l[-1]` of a list that is not empty
unfoldable pub last_entity : List EntityRef → Option EntityRef
last_entity [] = none
last_entity (e ∷ l) = or_entity (last_entity l) (some e)

abbrev pub opt_num : Option ℕ → Value
opt_num none = null
opt_num (some n) = num n

module _ (f : Floats) where
  abbrev pub provenance_ids : CanonicalEvent f → List String
  provenance_ids event = elim event.provenance [ none ↦ [] | some p ↦ p.raw_event_id ∷ [] ]

  unfoldable pub build_node : EntityRef → CanonicalEvent f → GraphNode f
  unfolding node_type_value update
  build_node entity event = record {
    node_id = entity.id;
    node_type = entity.type;
    tenant_id = event.tenant_id;
    labels = node_type_value entity.type ∷ [];
    properties = update (field "display_name" (opt_str entity.display_name) end) entity.attributes;
    first_seen = event.timestamp;
    last_seen = event.timestamp;
    count = 1;
    confidence = event.source_confidence;
    sources = event.source ∷ [];
    provenance_ids = provenance_ids event;
  }

  unfoldable pub build_edge :
      EntityRef → EntityRef → EdgeType → CanonicalEvent f → Fields → String → GraphEdge f
  build_edge src dst edge_type event props uuid = record {
    edge_id = uuid;
    edge_type = edge_type;
    src_id = src.id;
    dst_id = dst.id;
    tenant_id = event.tenant_id;
    first_seen = event.timestamp;
    last_seen = event.timestamp;
    count = 1;
    confidence = event.source_confidence;
    sources = event.source ∷ [];
    properties = props;
    provenance_ids = provenance_ids event;
    labels = event.event_type ∷ [];
  }

  unfoldable pub observation_for : TimeTexts → CanonicalEvent f → Fields
  unfolding source_value severity_value
  observation_for w event = field "event_id" (str event.event_id) (
      field "event_type" (str event.event_type) (
        field "timestamp" (str (w.isoformat event.timestamp)) (
          field "source" (str (source_value event.source))
            (field "severity" (str (severity_value event.severity)) end))))

  -- an edge that waits for its id
  abbrev pub Draft : Type 0
  Draft = EntityRef × EntityRef × EdgeType × Fields

  abbrev pub between : Option EntityRef → Option EntityRef → EdgeType → Fields → List Draft
  between (some a) (some b) edge_type props = (a, b, edge_type, props) ∷ []
  between _ _ edge_type props = []

  -- the edges of a logon
  unfoldable pub logon_edges : CanonicalEvent f → Option EntityRef → Option EntityRef → List Draft
  logon_edges event user host =
      (if contains logon_event_types event.event_type
        then between user host authenticated_to
            (field "logon_type" (get_or "LogonType" null event.raw) end)
        else [])
      ++ between user host logged_in_to end

  -- entities come in the order process, parent process
  unfoldable pub process_edges : CanonicalEvent f → Option EntityRef → List EntityRef → List Draft
  process_edges event host [] = []
  process_edges event host (p ∷ []) = between host (some p) executed end
  process_edges event host (child ∷ parent ∷ _) =
      between (some parent) (some child) spawned
        (field "command_line" (opt_str event.command_line) end)

  -- an edge from one entity to each of a list
  unfoldable pub to_each : Option EntityRef → List EntityRef → EdgeType → List Draft
  to_each actor [] edge_type = []
  to_each actor (e ∷ entities) edge_type =
      between actor (some e) edge_type end ++ to_each actor entities edge_type

  -- the edges to the files
  unfoldable pub file_edges :
      CanonicalEvent f → (primary host : Option EntityRef) → List EntityRef → List Draft
  unfolding to_each
  file_edges event primary host files =
      (if str_eq event.event_type "process_access" then to_each primary files accessed else [])
      ++ (if str_eq event.event_type "file_create"
          then to_each (or_entity primary host) files created
          else if contains ("file_modify" ∷ "file_delete" ∷ []) event.event_type
          then to_each (or_entity primary host) files modified
          else [])

  unfoldable pub connection_edges :
      CanonicalEvent f → (host : Option EntityRef) → List EntityRef → List Draft
  connection_edges event host (a ∷ []) =
      if contains network_event_types event.event_type
      then between host (some a) connected_to (field "dst_port" (opt_num event.dst_port) end)
      else []
  connection_edges event host (a ∷ b ∷ []) =
      between (some a) (some b) connected_to (field "dst_port" (opt_num event.dst_port) end)
  connection_edges event host _ = []

  unfoldable pub network_edges :
      CanonicalEvent f → (host domain : Option EntityRef) → List EntityRef → List Draft
  unfolding last_entity connection_edges
  network_edges event host domain ips =
      connection_edges event host ips ++ between domain (last_entity ips) resolved_to end

  -- what `derive_graph_updates` finds among the entities, and the drafts of its edges
  unfoldable pub draft_edges : CanonicalEvent f → List Draft
  unfolding find_entity all_entities logon_edges process_edges file_edges network_edges to_each
  draft_edges event =
      let entities = event.entities in
      let user = find_entity entities NodeType.user in
      let host = find_entity entities NodeType.host in
      let processes = all_entities entities NodeType.process in
      let primary = head? processes in
      let url = find_entity entities NodeType.url in
      logon_edges event user host
      ++ (process_edges event host processes
          ++ (file_edges event primary host (all_entities entities NodeType.file)
              ++ (network_edges event host (find_entity entities NodeType.domain)
                    (all_entities entities NodeType.ip)
                  ++ (between (or_entity primary (or_entity user host)) url
                        (elim primary [ some _ ↦ downloaded | none ↦ accessed ]) end
                      ++ (between primary (find_entity entities NodeType.registry_key) modified end
                          ++ (between (find_entity entities NodeType.email) user emailed end
                              ++ (between primary (find_entity entities NodeType.hash) created end
                                  ++ to_each (or_entity primary (or_entity host user))
                                      (all_entities entities NodeType.attack_technique)
                                      mapped_to_technique)))))))

  -- the drafts, each with an id of its own
  unfoldable pub draw_edges : CanonicalEvent f → (ℕ → String) → ℕ → List Draft → List (GraphEdge f)
  unfolding build_edge
  draw_edges event uuid n [] = []
  draw_edges event uuid n ((src, dst, edge_type, props) ∷ drafts) =
      build_edge src dst edge_type event props (uuid n) ∷ draw_edges event uuid (suc n) drafts

  unfoldable pub derive_graph_updates :
      (ℕ → String) → CanonicalEvent f → List (GraphNode f) × List (GraphEdge f)
  unfolding build_node draft_edges draw_edges
  derive_graph_updates uuid event =
      (map (λ e. build_node e event) event.entities, draw_edges event uuid 0 (draft_edges event))

module _ (f : Floats) (w : TimeTexts) where
  -- the loops of `apply_event_to_graph`
  unfoldable pub upsert_nodes : String → Fields → List (GraphNode f) → File f → File f
  unfolding upsert_node
  upsert_nodes now obs [] file = file
  upsert_nodes now obs (node ∷ nodes) file =
      upsert_nodes now obs nodes (upsert_node f w now node (some obs) file)

  unfoldable pub upsert_edges : Fields → List (GraphEdge f) → File f → File f
  unfolding upsert_edge
  upsert_edges obs [] file = file
  upsert_edges obs (edge ∷ edges) file =
      upsert_edges obs edges (upsert_edge f w edge (some obs) file)

  -- with the two counts of the result
  unfoldable pub apply_event_to_graph :
      String → (ℕ → String) → CanonicalEvent f → File f → (ℕ × ℕ) × File f
  unfolding derive_graph_updates observation_for upsert_nodes upsert_edges
  apply_event_to_graph now uuid event file =
      let (nodes, edges) = derive_graph_updates f uuid event in
      let obs = observation_for f w event in
      ((length nodes, length edges), upsert_edges obs edges (upsert_nodes now obs nodes file))
