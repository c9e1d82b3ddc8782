-- ===== src/Case/Service.antt =====
-- The endpoints of the case service (services/case_management/app/main.py). `user` is what the
-- dependency of the endpoint made of the request's headers.
pub mod Clusters
use aegis_soc.Common.{
  ℕ, String, Bool, true, false, not, Option, none, some, List, if◌then◌else◌, contains, map, ltb,
}
use aegis_soc.Common.Floats.{Floats}
use aegis_soc.Auth.Web.{Response, body, http_error}
use aegis_soc.Auth.Roles.{TokenPayload}
use aegis_soc.Case.Records.{
  TimelineEntry, Case, Feedback, Alert, Tables, CreateCaseRequest, FeedbackRequest,
  CaseSearchParams,
}
use aegis_soc.Case.Repository as Repo
use aegis_soc.Case.Merge

-- `if x is None: raise HTTPException(404)`
abbrev pub or_404 : {A : Type 0} → Option A → Response A
or_404 none = http_error 404 "case_not_found"
or_404 (some a) = body a

-- an exception undoes the transaction, and the answer is a 500
abbrev pub committed : {A T : Type 0} → T → Option (A × T) → Response A × T
committed t none = (http_error 500 "Internal Server Error", t)
committed t (some (a, u)) = (body a, u)

abbrev found : {A T : Type 0} → Option A × T → Response A × T
found (o, t) = (or_404 o, t)

module _ (f : Floats) where
  unfoldable pub create_case :
      Response TokenPayload
      → String
      → ℕ
      → CreateCaseRequest
      → Tables f
      → Response (Case f) × Tables f
  unfolding Repo.create_case
  create_case (http_error s d) uuid now req t = (http_error s d, t)
  create_case (body _) uuid now req t = committed t (Repo.create_case f uuid now req t)

  unfoldable pub list_cases :
      Response TokenPayload
      → (String → String → Bool)
      → CaseSearchParams
      → Tables f
      → Response (List (Case f))
  unfolding Repo.search_cases
  list_cases (http_error s d) ilike params t = http_error s d
  list_cases (body _) ilike params t =
      if ltb 200 params.limit
      then http_error 422 "limit"
      else body (Repo.search_cases f ilike params t)

  unfoldable pub get_case : Response TokenPayload → String → Tables f → Response (Case f)
  unfolding Repo.get_case
  get_case (http_error s d) case_id t = http_error s d
  get_case (body _) case_id t = or_404 (Repo.get_case f case_id t)

  unfoldable pub patch_status :
      Response TokenPayload
      → ℕ
      → (case_id status : String) → Option String
      → Tables f
      → Response (Case f) × Tables f
  unfolding Repo.update_status
  patch_status (http_error s d) now case_id status reason t = (http_error s d, t)
  patch_status (body _) now case_id status reason t =
      if not (contains Repo.valid_statuses status)
      then (http_error 422 "invalid_status", t)
      else found (Repo.update_status f now case_id status reason t)

  unfoldable pub assign :
      Response TokenPayload
      → ℕ
      → (case_id assignee : String) → Tables f
      → Response (Case f) × Tables f
  unfolding Repo.assign_case
  assign (http_error s d) now case_id assignee t = (http_error s d, t)
  assign (body _) now case_id assignee t = found (Repo.assign_case f now case_id assignee t)

  unfoldable pub submit_feedback :
      Response TokenPayload
      → String
      → ℕ
      → String
      → FeedbackRequest
      → Tables f
      → Response Feedback × Tables f
  unfolding Repo.record_feedback
  submit_feedback (http_error s d) uuid now case_id req t = (http_error s d, t)
  submit_feedback (body _) uuid now case_id req t =
      found (Repo.record_feedback f uuid now case_id req t)

  unfoldable pub timeline :
      Response TokenPayload → String → Tables f → Response (List TimelineEntry)
  unfolding Merge.get_timeline
  timeline (http_error s d) case_id t = http_error s d
  timeline (body _) case_id t = body (Merge.get_timeline f case_id t)

  unfoldable pub internal_case_alerts : String → Tables f → Response (List (Alert f))
  unfolding Repo.get_case Merge.get_alerts_for_case
  internal_case_alerts case_id t = elim (Repo.get_case f case_id t) [
    | none ↦ http_error 404 "case_not_found"
    | some c ↦ body (map (λ r. r.payload) (Merge.get_alerts_for_case f c t))
  ]

  unfoldable pub upsert_from_alert : String → ℕ → Alert f → Tables f → Response (Case f) × Tables f
  unfolding Merge.upsert_case_from_alert
  upsert_from_alert uuid now alert t = committed t (Merge.upsert_case_from_alert f uuid now alert t)
