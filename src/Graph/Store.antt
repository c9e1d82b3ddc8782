-- ===== src/Graph/Store.antt =====
-- The nodes and edges of the file-backed store, and the operations that change them
-- (packages/common/aegis_common/graphstore/memory.py). Times are stored as texts: `isoformat` is
-- that of a datetime, `json_time` the one that pydantic writes.
pub mod Valid
use aegis_soc.Common.{
  ℕ, suc, ◌+◌, ◌-◌, String, ◌<>◌, Bool, true, false, ◌||◌, Option, none, some, List, [], ◌∷◌, ◌++◌,
  map, if◌then◌else◌, str_eq, length, drop,
}
use aegis_soc.Common.Dict.{Dict, lookup, insert, values}
use aegis_soc.Common.Floats.{Floats}
use aegis_soc.Common.Json.{Fields, end, field, update}
use aegis_soc.Common.Sets.{sorted_set}
use aegis_soc.Schema.{source_value, node_type_value, edge_type_value}
use aegis_soc.Schema.Events.{GraphNode, GraphEdge}

pub record TimeTexts : Type 0 where
  pub isoformat : ℕ → String
  pub json_time : ℕ → String

-- an entry of `data["nodes"]`
pub record StoredNode (f : Floats) : Type 0 where
  pub node_id : String
  pub node_type : String
  pub tenant_id : String
  pub labels : List String
  pub properties : Fields
  pub first_seen : String
  pub last_seen : String
  pub count : ℕ
  pub confidence : f.Float
  pub sources : List String
  pub provenance_ids : List String
  pub observations : List Fields
  pub updated_at : String

-- an entry of `data["edges"]`
pub record StoredEdge (f : Floats) : Type 0 where
  pub edge_id : String
  pub edge_type : String
  pub src_id : String
  pub dst_id : String
  pub tenant_id : String
  pub first_seen : String
  pub last_seen : String
  pub count : ℕ
  pub confidence : f.Float
  pub sources : List String
  pub properties : Fields
  pub provenance_ids : List String
  pub labels : List String
  pub observations : List Fields

-- the document
pub record Data (f : Floats) : Type 0 where
  pub nodes : Dict (StoredNode f)
  pub edges : Dict (StoredEdge f)

-- the file at `self.path`
pub data File (f : Floats) : Type 0 where
  missing : File f
  malformed : File f
  document : Data f → File f

-- `MAX_OBSERVATIONS`
abbrev pub max_observations : ℕ
max_observations = 25

-- `if observation: obs.append(observation); del obs[:-MAX_OBSERVATIONS]`
unfoldable pub observe : Option Fields → List Fields → List Fields
observe none obs = obs
observe (some end) obs = obs
observe (some (field k v fs)) obs =
    let l = obs ++ (field k v fs ∷ []) in drop (length l - max_observations) l

-- `[observation] if observation else []`
unfoldable pub first_observation : Option Fields → List Fields
first_observation none = []
first_observation (some end) = []
first_observation (some (field k v fs)) = field k v fs ∷ []

module _ (f : Floats) where
  unfoldable pub read : File f → Data f
  read missing = record { nodes = []; edges = [] }
  read malformed = record { nodes = []; edges = [] }
  read (document data_) = data_

  -- `_write`
  unfoldable pub write : Data f → File f
  write data_ = document data_

  unfoldable pub edge_key : GraphEdge f → String
  unfolding edge_type_value
  edge_key edge = edge.src_id <> "|" <> edge_type_value edge.edge_type <> "|" <> edge.dst_id

module _ (f : Floats) (w : TimeTexts) where
  -- the entry of a node that is new, and of one that is known
  unfoldable pub new_node : String → GraphNode f → Option Fields → StoredNode f
  unfolding first_observation source_value node_type_value
  new_node now node observation = record {
    node_id = node.node_id;
    node_type = node_type_value node.node_type;
    tenant_id = node.tenant_id;
    labels = node.labels;
    properties = node.properties;
    first_seen = w.json_time node.first_seen;
    last_seen = w.json_time node.last_seen;
    count = node.count;
    confidence = node.confidence;
    sources = map source_value node.sources;
    provenance_ids = node.provenance_ids;
    observations = first_observation observation;
    updated_at = now;
  }

  unfoldable pub known_node : String → GraphNode f → Option Fields → StoredNode f → StoredNode f
  unfolding observe sorted_set update source_value
  known_node now node observation existing = record existing {
    last_seen = w.isoformat node.last_seen;
    count = existing.count + 1;
    properties = update existing.properties node.properties;
    sources = sorted_set (existing.sources ++ map source_value node.sources);
    observations = observe observation existing.observations;
    updated_at = now;
  }

  -- the entry that an upsert leaves under the node's id
  unfoldable pub node_entry :
      String → GraphNode f → Option Fields → Dict (StoredNode f) → StoredNode f
  unfolding lookup new_node known_node
  node_entry now node observation nodes = elim (lookup node.node_id nodes) [
    | none ↦ new_node now node observation
    | some existing ↦ known_node now node observation existing
  ]

  -- the text `now` is that of the call of `utcnow`
  unfoldable pub upsert_node : String → GraphNode f → Option Fields → File f → File f
  unfolding read write insert node_entry
  upsert_node now node observation file =
      let data_ = read f file in
      write f (record data_ {
        nodes = insert node.node_id (node_entry now node observation data_.nodes) data_.nodes;
      })

  -- the same for edges
  unfoldable pub new_edge : GraphEdge f → Option Fields → StoredEdge f
  unfolding first_observation source_value edge_type_value
  new_edge edge observation = record {
    edge_id = edge.edge_id;
    edge_type = edge_type_value edge.edge_type;
    src_id = edge.src_id;
    dst_id = edge.dst_id;
    tenant_id = edge.tenant_id;
    first_seen = w.json_time edge.first_seen;
    last_seen = w.json_time edge.last_seen;
    count = edge.count;
    confidence = edge.confidence;
    sources = map source_value edge.sources;
    properties = edge.properties;
    provenance_ids = edge.provenance_ids;
    labels = edge.labels;
    observations = first_observation observation;
  }

  unfoldable pub known_edge : GraphEdge f → Option Fields → StoredEdge f → StoredEdge f
  unfolding observe sorted_set update source_value
  known_edge edge observation existing = record existing {
    last_seen = w.isoformat edge.last_seen;
    count = existing.count + 1;
    properties = update existing.properties edge.properties;
    sources = sorted_set (existing.sources ++ map source_value edge.sources);
    observations = observe observation existing.observations;
  }

  unfoldable pub edge_entry : GraphEdge f → Option Fields → Dict (StoredEdge f) → StoredEdge f
  unfolding lookup edge_key new_edge known_edge
  edge_entry edge observation edges = elim (lookup (edge_key f edge) edges) [
    | none ↦ new_edge edge observation
    | some existing ↦ known_edge edge observation existing
  ]

  unfoldable pub upsert_edge : GraphEdge f → Option Fields → File f → File f
  unfolding read write insert edge_key edge_entry
  upsert_edge edge observation file =
      let data_ = read f file in
      write f (record data_ {
        edges = insert (edge_key f edge) (edge_entry edge observation data_.edges) data_.edges;
      })

module _ (f : Floats) where
  unfoldable pub get_node : String → File f → Option (StoredNode f)
  unfolding read lookup
  get_node node_id file = lookup node_id (read f file).nodes

  -- `e["src_id"] == node_id or e["dst_id"] == node_id`
  abbrev pub touches : String → StoredEdge f → Bool
  touches node_id e = str_eq e.src_id node_id || str_eq e.dst_id node_id
