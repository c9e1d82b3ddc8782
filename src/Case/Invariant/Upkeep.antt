-- ===== src/Case/Invariant/Upkeep.antt =====
-- Each operation keeps the invariant.
use mathlib.Core.Path.{subst}
use aegis_soc.Common.{
  ℕ, String, ◌≡◌, ◌⊎◌, refl, sym, ap, ◌∙◌, inl, inr, true, false, Option, none, some, List, [], ◌∷◌,
  arith, str_eq, str_eq_iff, truthy, length, contains, Bool-cases, Option-cases,
}
use aegis_soc.Common.Dict.{lookup}
use aegis_soc.Common.Floats.{Floats}
use aegis_soc.Auth.Web.{Response, body, http_error}
use aegis_soc.Auth.Roles.{TokenPayload}
use aegis_soc.Case.Records.{Case, Alert, Tables, CreateCaseRequest, FeedbackRequest}
use aegis_soc.Case.Repository.{
  valid_statuses, create_case as repo_create, requested_case, opened_case, add_case, in_cluster,
  cluster_cases, get_case_by_cluster, with_status, with_assignee, with_feedback, update_status,
  assign_case, record_feedback,
}
use aegis_soc.Case.Merge.{merged, case_of_cluster, land, upsert_case_from_alert}
use aegis_soc.Case.Service.{create_case, upsert_from_alert}
use aegis_soc.Case.Invariant.{count, first-lookup, some-same, IsWell, add-IsWell, save-IsWell}

module _ {f : Floats} where
  pub update_status-IsWell :
      (now : ℕ) (k status : String) (reason : Option String) (t : Tables f)
      → contains valid_statuses status ≡ true
      → IsWell t.cases
      → IsWell (update_status f now k status reason t).1.cases
  unfolding update_status with_status
  update_status-IsWell now k status reason t valid h = elim (Option-cases (lookup k t.cases)) [
    | inl absent ↦ rw (update_status, absent) h
    | inr (c, found) ↦
        rw (update_status, found)
          (save-IsWell k c (with_status f now status reason c) t found refl refl valid h)
  ]

  pub assign_case-IsWell :
      (now : ℕ) (k assignee : String) (t : Tables f)
      → IsWell t.cases
      → IsWell (assign_case f now k assignee t).1.cases
  unfolding assign_case with_assignee
  assign_case-IsWell now k assignee t h = elim (Option-cases (lookup k t.cases)) [
    | inl absent ↦ rw (assign_case, absent) h
    | inr (c, found) ↦
        rw (assign_case, found)
          (save-IsWell k c (with_assignee f now assignee c) t found refl refl
            (h.row k c found).status h)
  ]

  feedback-status :
      (now : ℕ) (req : FeedbackRequest) (c : Case f)
      → contains valid_statuses c.status ≡ true
      → contains valid_statuses (with_feedback f now req c).status ≡ true
  unfolding with_feedback
  feedback-status now req c valid = elim (Bool-cases (str_eq req.verdict "false_positive")) [
    | inl refuted ↦ rw (with_feedback, refuted) refl
    | inr other ↦ rw (with_feedback, other) valid
  ]

  pub record_feedback-IsWell :
      (uuid : String) (now : ℕ) (k : String) (req : FeedbackRequest) (t : Tables f)
      → IsWell t.cases
      → IsWell (record_feedback f uuid now k req t).1.cases
  unfolding record_feedback with_feedback
  record_feedback-IsWell uuid now k req t h = elim (Option-cases (lookup k t.cases)) [
    | inl absent ↦ rw (record_feedback, absent) h
    | inr (c, found) ↦
        rw (record_feedback, found)
          (save-IsWell k c (with_feedback f now req c) t found refl refl
            (feedback-status now req c (h.row k c found).status) h)
  ]

  pub create_case-IsWell :
      (user : Response TokenPayload) (uuid : String) (now : ℕ) (req : CreateCaseRequest)
      (t : Tables f)
      → IsWell t.cases
      → IsWell (create_case f user uuid now req t).1.cases
  unfolding create_case add_case requested_case
  create_case-IsWell (http_error _ _) uuid now req t h = h
  create_case-IsWell (body _) uuid now req t h = elim (Option-cases (lookup uuid t.cases)) [
    | inl fresh ↦
        rw (create_case, repo_create, add_case, fresh)
          (add-IsWell uuid (requested_case f uuid now req) t.cases fresh
            (record { key = refl; status = refl }) (λ s real hit. cc) h)
    | inr (c, used) ↦ rw (create_case, repo_create, add_case, used) h
  ]

  -- The lookup of a cluster: no case, one case, or an exception, which the invariant excludes.
  pub cluster-lookup :
      (s : String) (t : Tables f)
      → truthy s ≡ true
      → IsWell t.cases
      → ((case_of_cluster f (some s) t ≡ some none) × (count (in_cluster f s) t.cases ≡ 0))
        ⊎ ((c : Case f) × (case_of_cluster f (some s) t ≡ some (some c))
            × (lookup c.case_id t.cases ≡ some c))
  unfolding case_of_cluster get_case_by_cluster cluster_cases
  cluster-lookup s t real h = go (cluster_cases f s t.cases) refl
    where
      go :
          (l : List (Case f))
          → cluster_cases f s t.cases ≡ l
          → ((case_of_cluster f (some s) t ≡ some none) × (count (in_cluster f s) t.cases ≡ 0))
            ⊎ ((c : Case f) × (case_of_cluster f (some s) t ≡ some (some c))
                × (lookup c.case_id t.cases ≡ some c))
      go [] e = inl (rw (case_of_cluster, real, get_case_by_cluster, e) refl, ap length e)
      go (c ∷ []) e =
          let (k, found) = first-lookup (in_cluster f s) c [] t.cases h.distinct e in
          inr (
            c,
            rw (case_of_cluster, real, get_case_by_cluster, e) refl,
            ap (λ j. lookup j t.cases) (h.row k c found).key ∙ found,
          )
      go (c ∷ b ∷ l) e = absurd (omega (arith, h.unique s real, ap length e))

  -- A new case of a cluster that had none.
  open-IsWell :
      (uuid : String) (now : ℕ) (alert : Alert f) (t : Tables f)
      → IsWell t.cases
      → ((s : String)
          → truthy s ≡ true
          → in_cluster f s (opened_case f uuid now alert) ≡ true
          → count (in_cluster f s) t.cases ≡ 0)
      → case_of_cluster f alert.cluster_id t ≡ some none
      → IsWell (upsert_from_alert f uuid now alert t).1.cases
  unfolding upsert_from_alert opened_case
  open-IsWell uuid now alert t h own none_found = elim (Option-cases (lookup uuid t.cases)) [
    | inl fresh ↦
        rw (upsert_from_alert, upsert_case_from_alert, none_found, add_case, fresh, land)
          (add-IsWell uuid (opened_case f uuid now alert) t.cases fresh
            (record { key = refl; status = refl }) own h)
    | inr (c, used) ↦ rw (upsert_from_alert, upsert_case_from_alert, none_found, add_case, used) h
  ]

  merge-IsWell :
      (uuid : String) (now : ℕ) (alert : Alert f) (t : Tables f) (c : Case f)
      → IsWell t.cases
      → case_of_cluster f alert.cluster_id t ≡ some (some c)
      → lookup c.case_id t.cases ≡ some c
      → IsWell (upsert_from_alert f uuid now alert t).1.cases
  unfolding upsert_from_alert land merged
  merge-IsWell uuid now alert t c h one found =
      rw (upsert_from_alert, upsert_case_from_alert, one, land)
        (save-IsWell c.case_id c (merged f now alert c) t found refl refl
          (h.row c.case_id c found).status h)

  -- The cluster of a case that an alert opens is the alert's.
  opened-cluster :
      (uuid : String) (now : ℕ) (alert : Alert f) (s : String)
      → in_cluster f s (opened_case f uuid now alert) ≡ true
      → alert.cluster_id ≡ some s
  unfolding opened_case
  opened-cluster uuid now alert s hit = named alert.cluster_id hit
    where
      named :
          (o : Option String) → (elim o [ none ↦ false | some d ↦ str_eq d s ]) ≡ true → o ≡ some s
      named none h = cc
      named (some d) h = ap some ((str_eq_iff d s).0 h)

  pub upsert-IsWell :
      (uuid : String) (now : ℕ) (alert : Alert f) (t : Tables f)
      → IsWell t.cases
      → IsWell (upsert_from_alert f uuid now alert t).1.cases
  unfolding case_of_cluster
  upsert-IsWell uuid now alert t h = elim (Option-cases alert.cluster_id) [
    | inl alone ↦
        open-IsWell uuid now alert t h
          (λ s real hit. cc (sym alone ∙ opened-cluster uuid now alert s hit))
          (rw (alone, case_of_cluster) refl)
    | inr (d, named) ↦ elim (Bool-cases (truthy d)) [
      | inl real ↦ elim (cluster-lookup d t real h) [
        | inl (none_found, zero_) ↦
            open-IsWell uuid now alert t h
              (λ s _ hit.
                subst (λ x. count (in_cluster f x) t.cases ≡ 0)
                  (some-same d s alert.cluster_id named (opened-cluster uuid now alert s hit))
                  zero_)
              (rw named none_found)
        | inr (c, one, found) ↦ merge-IsWell uuid now alert t c h (rw named one) found
      ]
      | inr empty ↦
          open-IsWell uuid now alert t h
            (λ s real hit.
              let same : d ≡ s =
                some-same d s alert.cluster_id named (opened-cluster uuid now alert s hit) in
              absurd (cc (sym empty ∙ ap truthy same ∙ real)))
            (rw (named, case_of_cluster, empty) refl)
    ]
  ]
