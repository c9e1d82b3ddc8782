-- ===== src/Detection/Dedup.antt =====
-- The clusters of alerts (services/detection/detection_core/dedup.py). Times are numbers of
-- seconds; the order in which Python lists a set is the argument `order`. An alert is shared with its
-- cluster, so the cluster holds it.
pub mod Best
pub mod Growth
use aegis_soc.Common.{
  ℕ, ◌+◌, ◌*◌, String, ◌<>◌, Bool, true, false, ◌||◌, Option, none, some, List, [], ◌∷◌, ◌++◌, map,
  if◌then◌else◌, ltb, contains, length, keep, occurs,
}
use aegis_soc.Common.Dict.{Dict, lookup, insert, values}
use aegis_soc.Common.Floats.{Floats, ge, of_int}
use aegis_soc.Common.Sets.{union, add_to}
use aegis_soc.Policy.Taxonomy.{Severity}
use aegis_soc.Schema.Events.{Alert, RiskScores}

pub record Cluster (f : Floats) : Type 0 where
  pub cluster_id : String
  pub alert : Alert f
  pub entity_ids : List String
  pub technique_ids : List String
  pub last_updated : ℕ

-- `AlertClusterStore`
abbrev pub Clusters : Floats → Type 0
Clusters f = Dict (Cluster f)

-- `CLUSTER_WINDOW`, 45 minutes
abbrev pub cluster_window : ℕ
cluster_window = 2700

-- the keyword arguments of `assign`
pub record Request (f : Floats) : Type 0 where
  pub title : String
  pub description : String
  pub severity : Severity
  pub risk : RiskScores f
  pub technique_ids : List String
  pub entity_ids : List String
  pub event_ids : List String
  pub detection_ids : List String
  pub tenant_id : String
  pub tags : List String

-- `s & t`
abbrev pub intersection : List String → List String → List String
intersection s t = keep (contains t) s

-- `set(l)`
unfoldable pub set_of : List String → List String
unfolding union
set_of l = union [] l

module _ (f : Floats) where
  -- `OVERLAP_THRESHOLD`
  abbrev pub overlap_threshold : f.Float
  overlap_threshold = f.milli 150

  unfoldable pub overlap : List String → List String → f.Float
  unfolding union
  overlap existing combined =
      f.div (of_int f (length (intersection existing combined)))
        (of_int f (length (union existing combined)))

  -- `cluster.entity_ids | cluster.technique_ids`
  abbrev pub existing_of : Cluster f → List String
  existing_of c = union c.entity_ids c.technique_ids

  -- what the loop passes over
  unfoldable pub is_skipped : (now : ℕ) → List String → Cluster f → Bool
  unfolding union
  is_skipped now combined c =
      ltb (c.last_updated + cluster_window) now
      || ((elim (existing_of c) [ [] ↦ true | _ ∷ _ ↦ false ])
          || (elim combined [ [] ↦ true | _ ∷ _ ↦ false ]))

  -- the loop, with `best` and `best_score`
  unfoldable pub scan_clusters :
      (now : ℕ) → List String → List (Cluster f) → Option (Cluster f) → f.Float → Option (Cluster f)
  unfolding is_skipped overlap union
  scan_clusters now combined [] best best_score = best
  scan_clusters now combined (c ∷ clusters) best best_score = elim (is_skipped now combined c) [
    | true ↦ scan_clusters now combined clusters best best_score
    | false ↦
        let score = overlap (existing_of c) combined in
        elim (ge f score overlap_threshold) [
          | false ↦ scan_clusters now combined clusters best best_score
          | true ↦ elim (f.lt best_score score) [
            | true ↦ scan_clusters now combined clusters (some c) score
            | false ↦ scan_clusters now combined clusters best best_score
          ]
        ]
  ]

  -- `_find_match`
  unfoldable pub find_match :
      (entity_ids technique_ids : List String) → ℕ → Clusters f → Option (Cluster f)
  unfolding scan_clusters union
  find_match entity_ids technique_ids now clusters =
      scan_clusters now (union entity_ids technique_ids) (values clusters) none (f.milli 0)

  -- `int(risk.calibrated_score * 100)`
  abbrev pub priority_of : RiskScores f → ℕ
  priority_of risk = f.to_int (f.mul risk.calibrated_score (of_int f 100))

  -- the alert of a new cluster; `alert_id` and `cluster_id` are the two calls of `uuid4`
  unfoldable pub new_alert : (alert_id cluster_id : String) → ℕ → Request f → Alert f
  new_alert alert_id cluster_id now req = record {
    alert_id = alert_id;
    tenant_id = req.tenant_id;
    title = req.title;
    description = req.description;
    severity = req.severity;
    status = "open";
    risk = req.risk;
    technique_ids = req.technique_ids;
    entity_ids = req.entity_ids;
    event_ids = req.event_ids;
    detection_ids = req.detection_ids;
    cluster_id = some cluster_id;
    case_id = none;
    created_at = now;
    updated_at = now;
    priority = priority_of req.risk;
    tags = req.tags;
    provenance = [];
  }

  unfoldable pub new_cluster : (alert_id cluster_id : String) → ℕ → Request f → Cluster f
  unfolding new_alert set_of
  new_cluster alert_id cluster_id now req = record {
    cluster_id = cluster_id;
    alert = new_alert alert_id cluster_id now req;
    entity_ids = set_of req.entity_ids;
    technique_ids = set_of req.technique_ids;
    last_updated = now;
  }

  -- `list(set(l) | set(m))`
  abbrev pub merged_ids : (List String → List String) → List String → List String → List String
  merged_ids order l m = order (union (set_of l) m)

  -- the alert that a request is merged into
  unfoldable pub merged_alert : (List String → List String) → ℕ → Request f → Alert f → Alert f
  unfolding union set_of
  merged_alert order now req alert =
      let is_worse = f.lt alert.risk.calibrated_score req.risk.calibrated_score in
      record alert {
        entity_ids = merged_ids order alert.entity_ids req.entity_ids;
        technique_ids = merged_ids order alert.technique_ids req.technique_ids;
        event_ids = merged_ids order alert.event_ids req.event_ids;
        detection_ids = merged_ids order alert.detection_ids req.detection_ids;
        updated_at = now;
        risk = if is_worse then req.risk else alert.risk;
        severity = if is_worse then req.severity else alert.severity;
        priority = if is_worse then priority_of req.risk else alert.priority;
        description =
            if occurs req.description alert.description
            then alert.description
            else alert.description <> "\n---\n" <> req.description;
      }

  unfoldable pub merged_cluster :
      (List String → List String) → ℕ → Request f → Cluster f → Cluster f
  unfolding merged_alert union
  merged_cluster order now req c = record c {
    alert = merged_alert order now req c.alert;
    entity_ids = union c.entity_ids req.entity_ids;
    technique_ids = union c.technique_ids req.technique_ids;
    last_updated = now;
  }

  unfoldable pub assign :
      (List String → List String)
      → (alert_id cluster_id : String) → ℕ
      → Request f
      → Clusters f
      → Alert f × Clusters f
  unfolding find_match set_of new_cluster merged_cluster insert
  assign order alert_id cluster_id now req clusters =
      elim (find_match (set_of req.entity_ids) (set_of req.technique_ids) now clusters) [
        | none ↦
            let c = new_cluster alert_id cluster_id now req in
            (c.alert, insert cluster_id c clusters)
        | some c ↦
            let d = merged_cluster order now req c in (d.alert, insert c.cluster_id d clusters)
      ]

  -- `get`
  unfoldable pub get_alert : String → Clusters f → Option (Alert f)
  unfolding lookup
  get_alert cluster_id clusters = elim (lookup cluster_id clusters) [
    | none ↦ none
    | some c ↦ some c.alert
  ]

  unfoldable pub all_alerts : Clusters f → List (Alert f)
  all_alerts clusters = map (λ c. c.alert) (values clusters)
