-- ===== src/Approval/Repository.antt =====
-- The approval repository (services/approval/approval_core/repository.py). A call of `uuid.uuid4`
-- and the time that the call reads are arguments; the readings of one call are one time.
use mathlib.Core.List.{reverse}
use aegis_soc.Common.{
  ℕ, String, ◌<>◌, Bool, true, false, Option, none, some, List, [], ◌∷◌, ◌++◌, if◌then◌else◌,
  str_eq, truthy, truthy?, any, take, keep, head?,
}
use aegis_soc.Common.Dict.{lookup, insert, values}
use aegis_soc.Common.Json.{Value, bool, num, str, obj, end, field, get, get_or, opt_str}
use aegis_soc.Common.Order.{sort_desc}
use aegis_soc.Approval.Records.{
  Status, status_text, CreateApprovalRequest, Approval, AdapterResult, RollbackResult, Execution,
  Rollback, World,
}
use aegis_soc.Approval.Monad.{
  App, ok, raised, value_error, integrity_error, pure, raise, gets, lift, modify, ◌>>=◌, ◌>>◌,
  or_none,
}
use aegis_soc.Approval.AuditClient.{AuditSink, send, build_event}
use aegis_soc.Approval.Adapters.{PyText, Context, run_adapter, rollback_action}

-- `session.get(ApprovalRequestORM, approval_id)`
unfoldable pub get_approval : String → App (Option Approval)
get_approval approval_id = gets λ w. lookup approval_id w.approvals

-- `session.add` of a new row, and the flush that refuses a primary key that is in use
unfoldable pub add_approval : Approval → App (Unit {0})
add_approval row w = elim (lookup row.approval_id w.approvals) [
  | some _ ↦ (raised integrity_error, w)
  | none ↦ (ok tt, record w { approvals = insert row.approval_id row w.approvals })
]

unfoldable pub add_execution : Execution → App (Unit {0})
add_execution e w =
    if any (λ x. str_eq x.execution_id e.execution_id) w.executions
    then (raised integrity_error, w)
    else (ok tt, record w { executions = w.executions ++ (e ∷ []) })

unfoldable pub add_rollback : Rollback → App (Unit {0})
add_rollback r w =
    if any (λ x. str_eq x.rollback_id r.rollback_id) w.rollbacks
    then (raised integrity_error, w)
    else (ok tt, record w { rollbacks = w.rollbacks ++ (r ∷ []) })

-- The flush of a changed row.
unfoldable pub save_approval : Approval → App (Unit {0})
save_approval row = modify λ v. record v { approvals = insert row.approval_id row v.approvals }

module _ (py : PyText) where
  -- the row that `create_approval` builds
  unfoldable pub new_approval : String → ℕ → CreateApprovalRequest → Approval
  new_approval uuid now req = record {
    approval_id = uuid;
    tenant_id = req.tenant_id;
    action_id = req.action_id;
    case_id = req.case_id;
    action_class = req.action_class;
    title = if truthy req.title then req.title else py.title_of req.action_class;
    description = req.description;
    disruptive = req.disruptive;
    dry_run = req.dry_run;
    requested_by = req.requested_by;
    status = Status.pending;
    decided_by = none;
    decision = none;
    rationale = none;
    decided_at = none;
    payload = req.payload;
    created_at = now;
    updated_at = now;
  }

  unfoldable pub create_approval : String → ℕ → CreateApprovalRequest → AuditSink → App Approval
  unfolding new_approval add_approval send build_event
  create_approval uuid now req audit = do
    let row = new_approval uuid now req
    add_approval row
    send audit (
        build_event req.requested_by "system" "approval_requested" "approval" row.approval_id
          (field "action_id" (str req.action_id) (
            field "case_id" (str req.case_id) (
              field "action_class" (str req.action_class)
                (field "disruptive" (bool req.disruptive) end))))
          req.tenant_id)
    pure row

-- `if case_id: ... where(case_id == case_id)`
abbrev pub matches_case : Option String → Approval → Bool
matches_case none a = true
matches_case (some c) a = if truthy c then str_eq a.case_id c else true

-- the `WHERE` clauses of `list_approvals`
abbrev pub selects : Option String → Option String → Approval → Bool
selects status case_id a =
    if truthy? status
    then elim status [
      | none ↦ true
      | some s ↦ if str_eq (status_text a.status) s then matches_case case_id a else false
    ]
    else matches_case case_id a

unfoldable pub list_approvals : Option String → Option String → ℕ → App (List Approval)
unfolding status_text
list_approvals status case_id limit = gets λ w.
    take limit (sort_desc (λ a. a.created_at) (keep (selects status case_id) (values w.approvals)))

-- The row after the decision.
unfoldable pub decided : ℕ → String → String → String → Approval → Approval
decided now decided_by decision rationale a = record a {
  status = if str_eq decision "approved" then Status.approved else Status.rejected;
  decision = some decision;
  decided_by = some decided_by;
  rationale = some rationale;
  decided_at = some now;
  updated_at = now;
}

-- `status != "pending"`, as a test
abbrev pub is_pending : Status → Bool
is_pending Status.pending = true
is_pending _ = false

abbrev pub is_approved : Status → Bool
is_approved Status.approved = true
is_approved _ = false

unfoldable pub decide_approval :
    ℕ → (approval_id decided_by decision rationale : String) → AuditSink → App (Option Approval)
unfolding get_approval decided save_approval send build_event status_text
decide_approval now approval_id decided_by decision rationale audit = do
  found ← get_approval approval_id
  or_none found λ a.
      if is_pending a.status
      then (do
        let row = decided now decided_by decision rationale a
        save_approval row
        send audit (
            build_event decided_by "user" ("approval_" <> decision) "approval" approval_id
              (field "rationale" (str rationale) (
                field "action_class" (str row.action_class)
                  (field "case_id" (str row.case_id) end)))
              row.tenant_id)
        pure (some row))
      else raise (
          value_error
            ("approval already in terminal/decided state '" <> status_text a.status <> "'"))

-- The dict of an adapter as JSON, in an audit event.
unfoldable pub result_json : AdapterResult → Value
result_json r = obj (
    field "adapter" (str r.adapter) (
      field "external_system" (str r.external_system) (
        field "external_ref" (opt_str r.external_ref) (
          field "status" (str r.status) (
            field "message" (str r.message) (
              field "rollback_supported" (bool r.rollback_supported) (
                field "rollback_token" (opt_str r.rollback_token)
                  (field "simulated_at" (num r.simulated_at) end))))))))

unfoldable pub rollback_json : RollbackResult → Value
rollback_json r = obj (
    field "status" (str r.status) (
      field "message" (str r.message) (
        field "external_ref" (opt_str r.external_ref)
          (field "simulated_at" (num r.simulated_at) end))))

-- the row that `execute_action` adds
unfoldable pub new_execution :
    String → ℕ → (approval_id executed_by : String) → Approval → AdapterResult → Execution
new_execution uuid now approval_id executed_by a result = record {
  execution_id = uuid;
  approval_id = approval_id;
  action_class = a.action_class;
  adapter = result.adapter;
  dry_run = true;
  status = result.status;
  result = result;
  rollback_token = result.rollback_token;
  executed_by = executed_by;
  executed_at = now;
}

-- the dict `ctx` of `execute_action`
unfoldable pub context : Approval → Context
unfolding get
context a = record {
  case_id = a.case_id;
  title = a.title;
  parameters = get_or "parameters" (obj end) a.payload;
}

module _ (py : PyText) where
  -- `uuid` names the execution, and `hex` is what the adapter draws
  unfoldable pub execute_action :
      (uuid hex : String)
      → ℕ
      → (approval_id executed_by : String) → AuditSink
      → App (Option Execution)
  unfolding get_approval run_adapter context new_execution add_execution save_approval send
      build_event status_text
  execute_action uuid hex now approval_id executed_by audit = do
    found ← get_approval approval_id
    or_none found λ a.
        if is_approved a.status
        then (do
          result ← lift (run_adapter py a.action_class hex now (context a))
          let execution = new_execution uuid now approval_id executed_by a result
          add_execution execution
          save_approval (record a { status = Status.executed; updated_at = now })
          send audit (
              build_event executed_by "system" "action_executed_dry_run" "approval" approval_id
                (field "execution_id" (str execution.execution_id) (
                  field "adapter" (str execution.adapter)
                    (field "result" (result_json result) end)))
                a.tenant_id)
          pure (some execution))
        else raise (
            value_error (
              "cannot execute approval in status '"
              <> status_text a.status
              <> "' -- must be 'approved'"))

-- the executions of one approval
abbrev pub executions_of : String → World → List Execution
executions_of approval_id w = keep (λ e. str_eq e.approval_id approval_id) w.executions

unfoldable pub get_latest_execution : String → App (Option Execution)
get_latest_execution approval_id =
    gets λ w. head? (sort_desc (λ e. e.executed_at) (executions_of approval_id w))

unfoldable pub list_executions : String → App (List Execution)
list_executions approval_id =
    gets λ w. reverse (sort_desc (λ e. e.executed_at) (executions_of approval_id w))

-- the row that `rollback_execution` adds
unfoldable pub new_rollback :
    String → ℕ → (approval_id initiated_by reason : String) → Execution → RollbackResult → Rollback
new_rollback uuid now approval_id initiated_by reason e result = record {
  rollback_id = uuid;
  execution_id = e.execution_id;
  approval_id = approval_id;
  initiated_by = initiated_by;
  reason = reason;
  status = result.status;
  result = result;
  rolled_back_at = now;
}

-- the approval after a rollback: only a success moves it
unfoldable pub after_rollback : ℕ → RollbackResult → Approval → Approval
after_rollback now result a =
    if str_eq result.status "success"
    then record a { status = Status.rolled_back; updated_at = now }
    else a

unfoldable pub rollback_execution :
    String → ℕ → (approval_id initiated_by reason : String) → AuditSink → App (Option Rollback)
unfolding get_approval get_latest_execution rollback_action new_rollback add_rollback after_rollback
    save_approval send build_event
rollback_execution uuid now approval_id initiated_by reason audit = do
  found ← get_approval approval_id
  or_none found λ a. do
    latest ← get_latest_execution approval_id
    elim latest [
      | none ↦
          raise (value_error "no execution record found for this approval; nothing to roll back")
      | some e ↦ do
        let result = rollback_action e.action_class e.rollback_token e.result now
        let row = new_rollback uuid now approval_id initiated_by reason e result
        add_rollback row
        save_approval (after_rollback now result a)
        send audit (
            build_event initiated_by "user" "action_rolled_back" "approval" approval_id
              (field "execution_id" (str e.execution_id)
                (field "reason" (str reason) (field "result" (rollback_json result) end)))
              a.tenant_id)
        pure (some row)
    ]
