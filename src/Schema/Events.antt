-- ===== src/Schema/Events.antt =====
-- The events and the graph's nodes and edges (packages/common/aegis_common/schema/events.py).
-- Times are numbers of seconds.
use aegis_soc.Common.{ℕ, String, Option, List}
use aegis_soc.Common.Floats.{Floats}
use aegis_soc.Common.Json.{Fields}
use aegis_soc.Policy.Taxonomy.{Severity}
use aegis_soc.Schema.{TelemetrySource, NodeType, EdgeType}

pub record Provenance : Type 0 where
  pub raw_event_id : String
  pub topic : Option String
  pub offset : Option ℕ
  pub source : TelemetrySource
  pub ingested_at : ℕ

pub record EntityRef : Type 0 where
  pub type : NodeType
  pub id : String
  pub display_name : Option String
  pub attributes : Fields

pub record CanonicalEvent (f : Floats) : Type 0 where
  pub event_id : String
  pub tenant_id : String
  pub timestamp : ℕ
  pub ingested_at : Option ℕ
  pub source : TelemetrySource
  pub source_confidence : f.Float
  pub event_type : String
  pub severity : Severity
  pub host : Option String
  pub user : Option String
  pub process : Option String
  pub process_id : Option ℕ
  pub parent_process : Option String
  pub parent_process_id : Option ℕ
  pub command_line : Option String
  pub file_path : Option String
  pub file_hash : Option String
  pub src_ip : Option String
  pub dst_ip : Option String
  pub src_port : Option ℕ
  pub dst_port : Option ℕ
  pub domain : Option String
  pub url : Option String
  pub email_from : Option String
  pub email_to : Option String
  pub email_subject : Option String
  pub cloud_account : Option String
  pub cloud_resource : Option String
  pub k8s_namespace : Option String
  pub k8s_pod : Option String
  pub registry_key : Option String
  pub technique_ids : List String
  pub tags : List String
  pub raw : Fields
  pub entities : List EntityRef
  pub provenance : Option Provenance
  pub asset_criticality : f.Float
  pub intel_matches : List String
  pub enrichment : Fields

pub record GraphNode (f : Floats) : Type 0 where
  pub node_id : String
  pub node_type : NodeType
  pub tenant_id : String
  pub labels : List String
  pub properties : Fields
  pub first_seen : ℕ
  pub last_seen : ℕ
  pub count : ℕ
  pub confidence : f.Float
  pub sources : List TelemetrySource
  pub provenance_ids : List String

pub record GraphEdge (f : Floats) : Type 0 where
  pub edge_id : String
  pub edge_type : EdgeType
  pub src_id : String
  pub dst_id : String
  pub tenant_id : String
  pub first_seen : ℕ
  pub last_seen : ℕ
  pub count : ℕ
  pub confidence : f.Float
  pub sources : List TelemetrySource
  pub properties : Fields
  pub provenance_ids : List String
  pub labels : List String

pub record DetectionHit (f : Floats) : Type 0 where
  pub detection_id : String
  pub rule_id : String
  pub rule_name : String
  pub severity : Severity
  pub technique_ids : List String
  pub event_ids : List String
  pub entity_ids : List String
  pub score : f.Float
  pub description : String
  pub tenant_id : String
  pub timestamp : ℕ
  pub evidence : Fields

pub record RiskScores (f : Floats) : Type 0 where
  pub rule_score : f.Float
  pub heuristic_score : f.Float
  pub graph_score : f.Float
  pub intel_score : f.Float
  pub ml_score : f.Float
  pub ensemble_score : f.Float
  pub calibrated_score : f.Float

pub record Alert (f : Floats) : Type 0 where
  pub alert_id : String
  pub tenant_id : String
  pub title : String
  pub description : String
  pub severity : Severity
  pub status : String
  pub risk : RiskScores f
  pub technique_ids : List String
  pub entity_ids : List String
  pub event_ids : List String
  pub detection_ids : List String
  pub cluster_id : Option String
  pub case_id : Option String
  pub created_at : ℕ
  pub updated_at : ℕ
  pub priority : ℕ
  pub tags : List String
  pub provenance : List String
