-- ===== src/Case/Merge/Growth.antt =====
-- A merge loses nothing of the case.
use aegis_soc.Common.{
  ℕ, ◌≤◌, String, ◌≡◌, ◌≢◌, refl, inl, inr, true, false, ◌&&◌, Option, none, some, List, [], ◌∷◌,
  ◌++◌, arith, if◌then◌else◌, str_eq_iff, contains, Bool-cases, ltb,
}
use aegis_soc.Common.Dict.{lookup, lookup-insert, lookup-insert_self}
use aegis_soc.Common.Floats.{Floats, IsOrder}
use aegis_soc.Common.Sets.{sorted_set, contains-sorted_set, contains-append}
use aegis_soc.Case.Records.{Case, Alert, AlertRecord, Tables}
use aegis_soc.Case.Repository.{severity_rank, or_else, save_case}
use aegis_soc.Case.Merge.{merged, land, case_of_cluster, upsert_case_from_alert}

kept :
    (x : String) (l m : List String)
    → (contains l x && contains (sorted_set (l ++ m)) x) ≡ contains l x
kept x l m = rw (contains-sorted_set x (l ++ m), contains-append x l m) (ground arith)

added : (a : String) (l : List String) → contains (sorted_set (l ++ (a ∷ []))) a ≡ true
added a l =
    rw (contains-sorted_set a (l ++ (a ∷ [])), contains-append a l (a ∷ []))
      (ground (arith, str_eq_iff a a))

not_less : (f : Floats) (o : IsOrder f) (a b : f.Float) → f.lt (if f.lt a b then b else a) a ≡ false
not_less f o a b = elim (Bool-cases (f.lt a b)) [
  | inl less ↦ rw less (o.asymm a b less)
  | inr more ↦ rw more (o.irrefl a)
]

rank-grows :
    (s : String) (o : Option String)
    → severity_rank s
      ≤ severity_rank
          (if ltb (severity_rank s) (severity_rank (or_else "medium" o)) then or_else s o else s)
rank-grows s none = elim (Bool-cases (ltb (severity_rank s) (severity_rank "medium"))) [
  | inl more ↦ rw more (omega arith)
  | inr less ↦ rw less (omega arith)
]
rank-grows s (some t) = elim (Bool-cases (ltb (severity_rank s) (severity_rank t))) [
  | inl more ↦ rw more (ground (arith, more))
  | inr less ↦ rw less (omega arith)
]

-- Where an alert is merged into the case `c` of its cluster: the case that is returned is the one that
-- the table then holds under the id of `c`, and no other case is changed; the alert is one of the case's alerts
-- and its row names the case; an alert, an entity or a technique `x` that was in the case is there
-- still; the risk score is not less than it was, as floats without NaN are compared; and the
-- severity does not rank lower.
pub merge_keeps :
    (f : Floats) (o : IsOrder f) (uuid : String) (now : ℕ) (alert : Alert f) (t : Tables f)
    (c : Case f) (x : String)
    → case_of_cluster f alert.cluster_id t ≡ some (some c)
    → (d : Case f) × (u : Tables f) × (upsert_case_from_alert f uuid now alert t ≡ some (d, u))
      × (d.case_id ≡ c.case_id)
      × (lookup c.case_id u.cases ≡ some d)
      × ((k : String) → k ≢ c.case_id → lookup k u.cases ≡ lookup k t.cases)
      × (contains d.alert_ids alert.alert_id ≡ true)
      × ((r : AlertRecord f) × (lookup alert.alert_id u.alerts ≡ some r)
          × (r.case_id ≡ some c.case_id))
      × ((contains c.alert_ids x && contains d.alert_ids x) ≡ contains c.alert_ids x)
      × ((contains c.entity_ids x && contains d.entity_ids x) ≡ contains c.entity_ids x)
      × ((contains c.technique_ids x && contains d.technique_ids x) ≡ contains c.technique_ids x)
      × (f.lt d.risk_score c.risk_score ≡ false)
      × (severity_rank c.severity ≤ severity_rank d.severity)
unfolding upsert_case_from_alert merged land save_case
merge_keeps f o uuid now alert t c x one =
    rw (upsert_case_from_alert, one)
      (
        merged f now alert c,
        _,
        refl,
        refl,
        lookup-insert_self c.case_id _ t.cases,
        (λ k other. ground (
          arith,
          lookup-insert c.case_id k (merged f now alert c) t.cases,
          str_eq_iff c.case_id k,
          other,
        )),
        added alert.alert_id c.alert_ids,
        (_, lookup-insert_self alert.alert_id _ t.alerts, refl),
        kept x c.alert_ids (alert.alert_id ∷ []),
        kept x c.entity_ids (or_else [] alert.entity_ids),
        kept x c.technique_ids (or_else [] alert.technique_ids),
        not_less f o c.risk_score (or_else (f.milli 0) alert.calibrated_score),
        rank-grows c.severity alert.severity,
      )
