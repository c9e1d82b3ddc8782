-- ===== src/Case/Service/Clusters.antt =====
-- In every state that the endpoints reach, a cluster has one case, and a case a valid status.
use aegis_soc.Common.{
  ℕ, ◌≤◌, String, ◌≡◌, inl, inr, true, Option, none, some, [], arith, truthy, length, contains,
  Bool-cases,
}
use aegis_soc.Common.Dict.{lookup}
use aegis_soc.Common.Floats.{Floats}
use aegis_soc.Auth.Web.{Response, body, http_error}
use aegis_soc.Auth.Roles.{TokenPayload}
use aegis_soc.Case.Records.{Case, Alert, Tables, CreateCaseRequest, FeedbackRequest}
use aegis_soc.Case.Repository.{valid_statuses, cluster_cases}
use aegis_soc.Case.Merge.{case_of_cluster}
use aegis_soc.Case.Service.{create_case, patch_status, assign, submit_feedback, upsert_from_alert}
use aegis_soc.Case.Invariant.{IsWell}
use aegis_soc.Case.Invariant.Upkeep.{
  update_status-IsWell, assign_case-IsWell, record_feedback-IsWell, create_case-IsWell,
  cluster-lookup, upsert-IsWell,
}

-- One call of an endpoint that changes the tables, with any user, arguments, identifiers and times.
pub data Step (f : Floats) (t : Tables f) : Tables f → Type 0 where
  create :
      (user : Response TokenPayload) (uuid : String) (now : ℕ) (req : CreateCaseRequest)
      → Step f t (create_case f user uuid now req t).1
  status :
      (user : Response TokenPayload) (now : ℕ) (case_id status_ : String) (reason : Option String)
      → Step f t (patch_status f user now case_id status_ reason t).1
  assigned :
      (user : Response TokenPayload) (now : ℕ) (case_id assignee : String)
      → Step f t (assign f user now case_id assignee t).1
  feedback :
      (user : Response TokenPayload) (uuid : String) (now : ℕ) (case_id : String)
      (req : FeedbackRequest)
      → Step f t (submit_feedback f user uuid now case_id req t).1
  landed :
      (uuid : String) (now : ℕ) (alert : Alert f)
      → Step f t (upsert_from_alert f uuid now alert t).1

abbrev pub empty_tables : (f : Floats) → Tables f
empty_tables f = record { cases = []; feedback = []; alerts = [] }

-- the states that the service can be in
pub data Reachable (f : Floats) : Tables f → Type 0 where
  start : Reachable f (empty_tables f)
  next : {t u : Tables f} → Reachable f t → Step f t u → Reachable f u

module _ {f : Floats} where
  Step-IsWell : {t u : Tables f} → Step f t u → IsWell t.cases → IsWell u.cases
  unfolding patch_status assign submit_feedback
  Step-IsWell {t} (create user uuid now req) h = create_case-IsWell user uuid now req t h
  Step-IsWell {t} (status (http_error _ _) now k s r) h = h
  Step-IsWell {t} (status (body _) now k s r) h = elim (Bool-cases (contains valid_statuses s)) [
    | inl valid ↦ rw (patch_status, valid) (update_status-IsWell now k s r t valid h)
    | inr invalid ↦ rw (patch_status, invalid) h
  ]
  Step-IsWell {t} (assigned (http_error _ _) now k a) h = h
  Step-IsWell {t} (assigned (body _) now k a) h = assign_case-IsWell now k a t h
  Step-IsWell {t} (feedback (http_error _ _) uuid now k req) h = h
  Step-IsWell {t} (feedback (body _) uuid now k req) h = record_feedback-IsWell uuid now k req t h
  Step-IsWell {t} (landed uuid now alert) h = upsert-IsWell uuid now alert t h

  Reachable-IsWell : {t : Tables f} → Reachable f t → IsWell t.cases
  unfolding lookup
  Reachable-IsWell start = record {
    distinct = tt;
    row = λ k c e. cc;
    unique = λ s real. omega arith;
  }
  Reachable-IsWell (next r s) = Step-IsWell s (Reachable-IsWell r)

  -- In every state that the endpoints reach: a cluster that is not the empty text has at most one
  -- case, so that the lookup of an alert's cluster raises nothing.
  pub cluster_has_one_case :
      {t : Tables f} (s : String)
      → Reachable f t
      → truthy s ≡ true
      → (length (cluster_cases f s t.cases) ≤ 1)
        × ((found : Option (Case f)) × (case_of_cluster f (some s) t ≡ some found))
  unfolding cluster_cases
  cluster_has_one_case {t} s r real =
      let h = Reachable-IsWell r in
      (
        h.unique s real,
        elim (cluster-lookup s t real h) [
          | inl (none_found, _) ↦ (none, none_found)
          | inr (c, one, _) ↦ (some c, one)
        ],
      )

  -- In every state that the endpoints reach, a case in the table stands under its own identifier and
  -- has one of the valid statuses.
  pub status_is_valid :
      {t : Tables f} (k : String) (c : Case f)
      → Reachable f t
      → lookup k t.cases ≡ some c
      → (c.case_id ≡ k) × (contains valid_statuses c.status ≡ true)
  status_is_valid k c r found =
      let row = (Reachable-IsWell r).row k c found in (row.key, row.status)
