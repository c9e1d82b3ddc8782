-- ===== src/Schema.antt =====
-- The vocabulary of telemetry and of the entity graph
-- (packages/common/aegis_common/schema/events.py).
pub mod Events
use aegis_soc.Common.{String, Bool, true, false, Option, none, some, List, [], ◌∷◌, str_eq}
use aegis_soc.Common.Dict.{Dict, lookup}
use aegis_soc.Policy.Taxonomy.{Severity, informational, low, medium, high, critical}

pub data TelemetrySource : Type 0 where
  sysmon windows zeek suricata firewall dns edr active_directory cloudtrail kubernetes email :
      TelemetrySource
  threat_intel synthetic : TelemetrySource

-- `source.value`
unfoldable pub source_value : TelemetrySource → String
source_value sysmon = "sysmon"
source_value windows = "windows"
source_value zeek = "zeek"
source_value suricata = "suricata"
source_value firewall = "firewall"
source_value dns = "dns"
source_value edr = "edr"
source_value active_directory = "active_directory"
source_value cloudtrail = "cloudtrail"
source_value kubernetes = "kubernetes"
source_value TelemetrySource.email = "email"
source_value threat_intel = "threat_intel"
source_value synthetic = "synthetic"

-- the members, in the order of the class
abbrev pub telemetry_sources : List TelemetrySource
telemetry_sources =
    sysmon ∷ windows ∷ zeek ∷ suricata ∷ firewall ∷ dns ∷ edr ∷ active_directory ∷ cloudtrail
    ∷ kubernetes ∷ TelemetrySource.email ∷ threat_intel ∷ synthetic ∷ []

-- `TELEMETRY_SOURCE_ALIASES`
abbrev pub telemetry_source_aliases : Dict String
telemetry_source_aliases =
    ("ad_auth", "active_directory")
    ∷ ("ad", "active_directory")
    ∷ ("windows_security", "windows")
    ∷ ("firewall_dns", "dns")
    ∷ ("network_firewall", "firewall")
    ∷ []

-- `TelemetrySource(value)`, where `none` is the ValueError
unfoldable pub source_of_value : List TelemetrySource → String → Option TelemetrySource
source_of_value [] value = none
source_of_value (s ∷ l) value = elim (str_eq (source_value s) value) [
  | true ↦ some s
  | false ↦ source_of_value l value
]

unfoldable pub resolve_telemetry_source : String → TelemetrySource
unfolding lookup source_of_value
resolve_telemetry_source value =
    let normalized : String = elim (lookup value telemetry_source_aliases) [
      | none ↦ value
      | some v ↦ v
    ] in
    elim (source_of_value telemetry_sources normalized) [ none ↦ synthetic | some s ↦ s ]

pub data NodeType : Type 0 where
  user host process file ip domain url hash registry_key alert detection_rule email : NodeType
  cloud_resource k8s_workload attack_technique incident : NodeType

-- `node_type.value`
unfoldable pub node_type_value : NodeType → String
node_type_value user = "User"
node_type_value host = "Host"
node_type_value process = "Process"
node_type_value file = "File"
node_type_value ip = "IP"
node_type_value domain = "Domain"
node_type_value url = "URL"
node_type_value hash = "Hash"
node_type_value registry_key = "RegistryKey"
node_type_value alert = "Alert"
node_type_value detection_rule = "DetectionRule"
node_type_value NodeType.email = "Email"
node_type_value cloud_resource = "CloudResource"
node_type_value k8s_workload = "K8sWorkload"
node_type_value attack_technique = "AttackTechnique"
node_type_value incident = "Incident"

pub data EdgeType : Type 0 where
  logged_in_to spawned executed connected_to resolved_to downloaded modified : EdgeType
  authenticated_to created accessed emailed triggered related_to observed_in : EdgeType
  mapped_to_technique : EdgeType

-- `edge_type.value`
unfoldable pub edge_type_value : EdgeType → String
edge_type_value logged_in_to = "logged_in_to"
edge_type_value spawned = "spawned"
edge_type_value executed = "executed"
edge_type_value connected_to = "connected_to"
edge_type_value resolved_to = "resolved_to"
edge_type_value downloaded = "downloaded"
edge_type_value modified = "modified"
edge_type_value authenticated_to = "authenticated_to"
edge_type_value created = "created"
edge_type_value accessed = "accessed"
edge_type_value emailed = "emailed"
edge_type_value triggered = "triggered"
edge_type_value related_to = "related_to"
edge_type_value observed_in = "observed_in"
edge_type_value mapped_to_technique = "mapped_to_technique"

-- `severity.value`
unfoldable pub severity_value : Severity → String
severity_value informational = "informational"
severity_value low = "low"
severity_value medium = "medium"
severity_value high = "high"
severity_value critical = "critical"
