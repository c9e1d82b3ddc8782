-- ===== src/Case/Merge.antt =====
-- An alert that lands opens a case or is merged into that of its cluster (`upsert_case_from_alert`
-- and the readers of services/case_management/case_core/repository.py).
pub mod Growth
use aegis_soc.Common.{
  ℕ, String, ◌<>◌, Bool, true, false, Option, none, some, List, [], ◌∷◌, ◌++◌, if◌then◌else◌,
  truthy, keep, contains, ltb,
}
use aegis_soc.Common.Dict.{Dict, lookup, insert, values}
use aegis_soc.Common.Floats.{Floats}
use aegis_soc.Common.Order.{sorted}
use aegis_soc.Case.Records.{TimelineEntry, Case, Alert, AlertRecord, Tables}
use aegis_soc.Common.Sets.{sorted_set}
use aegis_soc.Case.Repository.{
  severity_rank, timeline_entry, or_else, opened_case, add_case, save_case, get_case,
  get_case_by_cluster,
}

module _ (f : Floats) where
  -- the alert's own row, new or changed
  unfoldable pub landed_row : ℕ → Alert f → Option (AlertRecord f) → AlertRecord f
  landed_row now alert none = record {
    alert_id = alert.alert_id;
    tenant_id = or_else "default" alert.tenant_id;
    cluster_id = alert.cluster_id;
    case_id = none;
    title = or_else "Untitled alert" alert.title;
    severity = or_else "medium" alert.severity;
    calibrated_score = or_else (f.milli 0) alert.calibrated_score;
    payload = alert;
    created_at = now;
    updated_at = now;
  }
  landed_row now alert (some landed) = record landed {
    severity = or_else landed.severity alert.severity;
    calibrated_score = or_else landed.calibrated_score alert.calibrated_score;
    payload = alert;
    updated_at = now;
  }

  -- the case after the merge
  unfoldable pub merged : ℕ → Alert f → Case f → Case f
  unfolding sorted_set severity_rank
  merged now alert c =
      let score = or_else (f.milli 0) alert.calibrated_score in
      record c {
        alert_ids = sorted_set (c.alert_ids ++ (alert.alert_id ∷ []));
        entity_ids = sorted_set (c.entity_ids ++ or_else [] alert.entity_ids);
        technique_ids = sorted_set (c.technique_ids ++ or_else [] alert.technique_ids);
        risk_score = if f.lt c.risk_score score then score else c.risk_score;
        severity =
            if ltb (severity_rank c.severity) (severity_rank (or_else "medium" alert.severity))
            then or_else c.severity alert.severity
            else c.severity;
        timeline =
            c.timeline
            ++ (record (timeline_entry now "alert_merged"
                  ("Alert " <> alert.alert_id <> " merged into case")) {
                    alert_id = some alert.alert_id;
                  }
                ∷ []);
        updated_at = now;
      }

  -- `await get_case_by_cluster(session, cluster_id) if cluster_id else None`
  unfoldable pub case_of_cluster : Option String → Tables f → Option (Option (Case f))
  unfolding get_case_by_cluster
  case_of_cluster none t = some none
  case_of_cluster (some c) t = if truthy c then get_case_by_cluster f c t else some none

  -- `landed.case_id = case.case_id`, with the flush of the alert's row
  unfoldable pub land : ℕ → Alert f → Case f → Tables f → Tables f
  unfolding landed_row lookup insert
  land now alert c t = record t {
    alerts =
        insert alert.alert_id
          (record (landed_row now alert (lookup alert.alert_id t.alerts)) {
            case_id = some c.case_id;
          })
          t.alerts;
  }

  -- `upsert_case_from_alert`; `none` is an exception, which the transaction around it undoes
  unfoldable pub upsert_case_from_alert :
      String → ℕ → Alert f → Tables f → Option (Case f × Tables f)
  unfolding case_of_cluster opened_case add_case merged save_case land
  upsert_case_from_alert uuid now alert t = elim (case_of_cluster alert.cluster_id t) [
    | none ↦ none
    | some found ↦ elim found [
      | none ↦ elim (add_case f (opened_case f uuid now alert) t) [
        | none ↦ none
        | some u ↦
            some (opened_case f uuid now alert, land now alert (opened_case f uuid now alert) u)
      ]
      | some c ↦ some (
        merged now alert c,
        land now alert (merged now alert c) (save_case f (merged now alert c) t),
      )
    ]
  ]

  unfoldable pub get_alert_record : String → Tables f → Option (AlertRecord f)
  unfolding lookup
  get_alert_record alert_id t = lookup alert_id t.alerts

  unfoldable pub get_alerts_for_case : Case f → Tables f → List (AlertRecord f)
  get_alerts_for_case c t = keep (λ r. contains c.alert_ids r.alert_id) (values t.alerts)

  unfoldable pub get_timeline : String → Tables f → List TimelineEntry
  unfolding get_case sorted
  get_timeline case_id t = elim (get_case f case_id t) [
    | none ↦ []
    | some c ↦ sorted (λ e. e.timestamp) c.timeline
  ]
