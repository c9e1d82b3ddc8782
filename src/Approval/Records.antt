-- ===== src/Approval/Records.antt =====
-- The rows and requests of the approval service (services/approval/approval_core/models.py and
-- schemas.py). Times are numbers of microseconds.
use aegis_soc.Common.{ℕ, String, Bool, Option, List}
use aegis_soc.Common.Dict.{Dict}
use aegis_soc.Common.Json.{Fields}

-- the values that the column `status` is given
pub data Status : Type 0 where
  pending approved rejected executed rolled_back : Status

-- `status` as the text in the column
unfoldable pub status_text : Status → String
status_text Status.pending = "pending"
status_text Status.approved = "approved"
status_text Status.rejected = "rejected"
status_text Status.executed = "executed"
status_text Status.rolled_back = "rolled_back"

-- `CreateApprovalRequest`
pub record CreateApprovalRequest : Type 0 where
  pub action_id : String
  pub case_id : String
  pub action_class : String
  pub title : String
  pub description : String
  pub disruptive : Bool
  pub dry_run : Bool
  pub requested_by : String
  pub tenant_id : String
  pub payload : Fields

-- `ApprovalRequestORM`
pub record Approval : Type 0 where
  pub approval_id : String
  pub tenant_id : String
  pub action_id : String
  pub case_id : String
  pub action_class : String
  pub title : String
  pub description : String
  pub disruptive : Bool
  pub dry_run : Bool
  pub requested_by : String
  pub status : Status
  pub decided_by : Option String
  pub decision : Option String
  pub rationale : Option String
  pub decided_at : Option ℕ
  pub payload : Fields
  pub created_at : ℕ
  pub updated_at : ℕ

-- The dict that an adapter or `rollback_action` returns. A key that is left out and a key at
-- `None` are both `none`: the program reads them by `get`.
pub record AdapterResult : Type 0 where
  pub adapter : String
  pub external_system : String
  pub external_ref : Option String
  pub status : String
  pub message : String
  pub rollback_supported : Bool
  pub rollback_token : Option String
  pub simulated_at : ℕ

-- the dict that `rollback_action` returns
pub record RollbackResult : Type 0 where
  pub status : String
  pub message : String
  pub external_ref : Option String
  pub simulated_at : ℕ

-- `ExecutionRecordORM`
pub record Execution : Type 0 where
  pub execution_id : String
  pub approval_id : String
  pub action_class : String
  pub adapter : String
  pub dry_run : Bool
  pub status : String
  pub result : AdapterResult
  pub rollback_token : Option String
  pub executed_by : String
  pub executed_at : ℕ

-- `RollbackRecordORM`
pub record Rollback : Type 0 where
  pub rollback_id : String
  pub execution_id : String
  pub approval_id : String
  pub initiated_by : String
  pub reason : String
  pub status : String
  pub result : RollbackResult
  pub rolled_back_at : ℕ

-- The event that `build_event` makes.
pub record AuditMessage : Type 0 where
  pub tenant_id : String
  pub actor : String
  pub actor_type : String
  pub action : String
  pub resource_type : String
  pub resource_id : String
  pub details : Fields
  pub evidence_refs : List String

-- The three tables, with the approvals by their primary key, and what the audit sink was sent:
-- the events that arrived, and those that were lost and only logged.
pub record World : Type 0 where
  pub approvals : Dict Approval
  pub executions : List Execution
  pub rollbacks : List Rollback
  pub delivered : List AuditMessage
  pub lost : List AuditMessage
