-- ===== src/Case/Tests.antt =====
-- The case service at concrete inputs: an alert that opens a case, and one that is merged into it.
use aegis_soc.Common.{
  ◌≤◌, ◌≡◌, ◌≢◌, String, refl, true, ◌&&◌, false, Option, none, some, [], ◌∷◌, ltb, contains,
  length,
}
use aegis_soc.Common.Dict.{lookup, insert}
use aegis_soc.Common.Thousandths.{thousandths, thousandths-IsOrder}
use aegis_soc.Case.Records.{Case, Alert, AlertRecord, Tables}
use aegis_soc.Case.Repository.{valid_statuses, severity_rank, cluster_cases, opened_case}
use aegis_soc.Case.Merge.{case_of_cluster, upsert_case_from_alert}
use aegis_soc.Case.Merge.Growth.{merge_keeps}
use aegis_soc.Case.Service.{upsert_from_alert}
use aegis_soc.Case.Service.Clusters.{
  Reachable, start, next, landed, empty_tables, cluster_has_one_case, status_is_valid,
}

abbrev alert : Alert thousandths
alert = record {
  alert_id = "alert-1";
  tenant_id = none;
  cluster_id = some "cluster-1";
  title = some "Beacon";
  severity = some "high";
  calibrated_score = some 700;
  entity_ids = some ("host-1" ∷ []);
  technique_ids = none;
  tags = none;
}

abbrev opened : Tables thousandths
opened = (upsert_from_alert thousandths "case-1" 10 alert (empty_tables thousandths)).1

abbrev reach_opened : Reachable thousandths opened
reach_opened = next start (landed "case-1" 10 alert)

cluster_has_one_case_example :
    (length (cluster_cases thousandths "cluster-1" opened.cases) ≤ 1)
    × ((found : Option (Case thousandths)) × (case_of_cluster thousandths (some "cluster-1") opened
          ≡ some found))
cluster_has_one_case_example = cluster_has_one_case "cluster-1" reach_opened refl

abbrev first_case : Case thousandths
first_case = opened_case thousandths "case-1" 10 alert

first_case-stored : lookup "case-1" opened.cases ≡ some first_case
unfolding upsert_from_alert opened_case lookup insert
first_case-stored = refl

status_is_valid_example :
    (first_case.case_id ≡ "case-1") × (contains valid_statuses first_case.status ≡ true)
status_is_valid_example = status_is_valid "case-1" first_case reach_opened first_case-stored

first_case-found : case_of_cluster thousandths alert.cluster_id opened ≡ some (some first_case)
unfolding case_of_cluster upsert_from_alert opened_case
first_case-found = refl

merge_keeps_example :
    (d : Case thousandths) × (u : Tables thousandths) × (upsert_case_from_alert thousandths "case-2"
        20 alert opened
      ≡ some (d, u))
    × (d.case_id ≡ first_case.case_id)
    × (lookup first_case.case_id u.cases ≡ some d)
    × ((k : String) → k ≢ first_case.case_id → lookup k u.cases ≡ lookup k opened.cases)
    × (contains d.alert_ids alert.alert_id ≡ true)
    × ((r : AlertRecord thousandths) × (lookup alert.alert_id u.alerts ≡ some r)
        × (r.case_id ≡ some first_case.case_id))
    × ((contains first_case.alert_ids "alert-1" && contains d.alert_ids "alert-1")
        ≡ contains first_case.alert_ids "alert-1")
    × ((contains first_case.entity_ids "alert-1" && contains d.entity_ids "alert-1")
        ≡ contains first_case.entity_ids "alert-1")
    × ((contains first_case.technique_ids "alert-1" && contains d.technique_ids "alert-1")
        ≡ contains first_case.technique_ids "alert-1")
    × (ltb d.risk_score first_case.risk_score ≡ false)
    × (severity_rank first_case.severity ≤ severity_rank d.severity)
merge_keeps_example =
    merge_keeps thousandths thousandths-IsOrder "case-2" 20 alert opened first_case "alert-1"
      first_case-found
