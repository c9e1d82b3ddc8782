-- ===== src/Approval/Service.antt =====
-- The endpoints of the approval service (services/approval/app/main.py). `user` is what the
-- dependency of the endpoint made of the request's headers.
pub mod Gate
pub mod Mirror
use aegis_soc.Common.{
  ℕ, String, Bool, true, false, not, ◌&&◌, ◌||◌, Option, none, some, List, if◌then◌else◌, ltb,
  str_eq, map,
}
use aegis_soc.Auth.Web.{Response, body, http_error}
use aegis_soc.Auth.Roles.{TokenPayload, role_satisfies}
use aegis_soc.Approval.Records.{CreateApprovalRequest, Approval, Execution, Rollback, World}
use aegis_soc.Approval.Monad.{
  App, Error, value_error, attribute_error, integrity_error, Outcome, ok, raised,
}
use aegis_soc.Approval.AuditClient.{AuditSink}
use aegis_soc.Approval.Adapters.{PyText, adapters}
use aegis_soc.Approval.Repository.{
  create_approval, get_approval, list_approvals, decide_approval, execute_action, list_executions,
  rollback_execution,
}

abbrev pub Endpoint : Type 0 → Type 0
Endpoint A = World → Response A × World

-- `async with session.begin()`: an exception undoes the writes to the tables, and not what has
-- been sent to the audit sink.
unfoldable pub transaction : {A : Type 0} → App A → App A
transaction m w =
    let (r, u) = m w in
    elim r [
      | ok a ↦ (ok a, u)
      | raised e ↦ (raised e, record w { delivered = u.delivered; lost = u.lost })
    ]

-- `except ValueError` gives a 409; any other exception leaves the endpoint as a 500.
abbrev pub error_response {ℓ} : {A : Type ℓ} → Error → Response A
error_response (value_error message) = http_error 409 message
error_response attribute_error = http_error 500 "Internal Server Error"
error_response integrity_error = http_error 500 "Internal Server Error"

abbrev pub found_or_404 : {A : Type 0} → Outcome (Option A) → Response A
found_or_404 (ok (some a)) = body a
found_or_404 (ok none) = http_error 404 "approval_not_found"
found_or_404 (raised e) = error_response e

-- no `except` here: every exception is a 500
abbrev pub created : {A : Type 0} → Outcome A → Response A
created (ok a) = body a
created (raised e) = http_error 500 "Internal Server Error"

-- what the request's validation asks of `decision`: the pattern ^(approved|rejected)$
abbrev pub is_decision : String → Bool
is_decision d = str_eq d "approved" || str_eq d "rejected"

module _ (py : PyText) where
  -- POST /api/v1/approvals
  unfoldable pub create_request : String → ℕ → CreateApprovalRequest → AuditSink → Endpoint Approval
  unfolding transaction create_approval
  create_request uuid now req audit w =
      let (r, u) = transaction (create_approval py uuid now req audit) w in (created r, u)

  -- POST /api/v1/approvals/{approval_id}/execute
  unfoldable pub execute :
      Response TokenPayload
      → (uuid hex : String) → ℕ
      → (approval_id executed_by : String) → AuditSink
      → Endpoint Execution
  unfolding transaction execute_action
  execute (http_error s d) uuid hex now approval_id executed_by audit w = (http_error s d, w)
  execute (body _) uuid hex now approval_id executed_by audit w =
      let (r, u) = transaction (execute_action py uuid hex now approval_id executed_by audit) w in
      (found_or_404 r, u)

  -- GET /api/v1/adapters
  unfoldable pub list_adapters : List String
  unfolding adapters
  list_adapters = map (λ e. e.0) (adapters py)

-- GET /api/v1/approvals, whose `status` is "pending" if it is left out
unfoldable pub list_pending :
    Response TokenPayload → Option String → Option String → ℕ → World → Response (List Approval)
unfolding list_approvals
list_pending (http_error s d) status case_id limit w = http_error s d
list_pending (body _) status case_id limit w =
    if ltb 200 limit
    then http_error 422 "limit"
    else elim (list_approvals status case_id limit w).0 [
      | ok l ↦ body l
      | raised e ↦ http_error 500 "Internal Server Error"
    ]

-- GET /api/v1/approvals/{approval_id}
unfoldable pub get_approval_by_id : Response TokenPayload → String → World → Response Approval
unfolding get_approval
get_approval_by_id (http_error s d) approval_id w = http_error s d
get_approval_by_id (body _) approval_id w = found_or_404 (get_approval approval_id w).0

-- the guard that only the approval of a disruptive action meets
abbrev pub needs_senior : String → Approval → TokenPayload → Bool
needs_senior decision existing user =
    str_eq decision "approved"
    && (existing.disruptive && not (role_satisfies user.role "senior_analyst"))

-- `decide` after the lookup. `begins` says whether `session.begin()` is accepted on a session
-- whose transaction the lookup has begun already.
unfoldable pub decide_existing :
    (begins : Bool)
    → TokenPayload
    → ℕ
    → (approval_id decision rationale : String) → AuditSink
    → Approval
    → Endpoint Approval
unfolding transaction decide_approval
decide_existing begins user now approval_id decision rationale audit existing w =
    if needs_senior decision existing user
    then (http_error 403 "requires_role>=senior_analyst to approve a disruptive action", w)
    else if begins
    then (let (r, u) =
          transaction (decide_approval now approval_id user.username decision rationale audit) w in
        (found_or_404 r, u))
    else (http_error 500 "Internal Server Error", w)

-- POST /api/v1/approvals/{approval_id}/decide
unfoldable pub decide :
    (begins : Bool)
    → Response TokenPayload
    → ℕ
    → (approval_id decision rationale : String) → AuditSink
    → Endpoint Approval
unfolding get_approval decide_existing
decide begins (http_error s d) now approval_id decision rationale audit w = (http_error s d, w)
decide begins (body user) now approval_id decision rationale audit w =
    if not (is_decision decision)
    then (http_error 422 "decision", w)
    else elim (found_or_404 (get_approval approval_id w).0) [
      | http_error s d ↦ (http_error s d, w)
      | body existing ↦
          decide_existing begins user now approval_id decision rationale audit existing w
    ]

-- GET /api/v1/approvals/{approval_id}/executions
unfoldable pub executions : Response TokenPayload → String → World → Response (List Execution)
unfolding list_executions
executions (http_error s d) approval_id w = http_error s d
executions (body _) approval_id w = created (list_executions approval_id w).0

-- POST /api/v1/approvals/{approval_id}/rollback
unfoldable pub rollback :
    Response TokenPayload
    → String
    → ℕ
    → (approval_id initiated_by reason : String) → AuditSink
    → Endpoint Rollback
unfolding transaction rollback_execution
rollback (http_error s d) uuid now approval_id initiated_by reason audit w = (http_error s d, w)
rollback (body _) uuid now approval_id initiated_by reason audit w =
    let (r, u) =
      transaction (rollback_execution uuid now approval_id initiated_by reason audit) w in
    (found_or_404 r, u)
