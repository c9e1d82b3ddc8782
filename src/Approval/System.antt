-- ===== src/Approval/System.antt =====
-- The approval service as a state machine: any calls of the repository, in any order, with any
-- arguments, fresh identifiers and clock readings, and any behaviour of the audit sink.
pub mod Transitions
pub mod Safety
use aegis_soc.Common.{ℕ, String, []}
use aegis_soc.Approval.Records.{CreateApprovalRequest, World}
use aegis_soc.Approval.AuditClient.{AuditSink}
use aegis_soc.Approval.Adapters.{PyText}
use aegis_soc.Approval.Repository.{
  create_approval, decide_approval, execute_action, rollback_execution,
}

abbrev pub empty_world : World
empty_world = record { approvals = []; executions = []; rollbacks = []; delivered = []; lost = [] }

-- One repository call, which may also have raised.
pub data Step (py : PyText) (w : World) : World → Type 0 where
  create :
      (uuid : String) (now : ℕ) (req : CreateApprovalRequest) (audit : AuditSink)
      → Step py w (create_approval py uuid now req audit w).1
  decide :
      (now : ℕ) (approval_id decided_by decision rationale : String) (audit : AuditSink)
      → Step py w (decide_approval now approval_id decided_by decision rationale audit w).1
  execute :
      (uuid hex : String) (now : ℕ) (approval_id executed_by : String) (audit : AuditSink)
      → Step py w (execute_action py uuid hex now approval_id executed_by audit w).1
  rollback :
      (uuid : String) (now : ℕ) (approval_id initiated_by reason : String) (audit : AuditSink)
      → Step py w (rollback_execution uuid now approval_id initiated_by reason audit w).1

pub data Steps (py : PyText) (w : World) : World → Type 0 where
  here : Steps py w w
  next : {u v : World} → Steps py w u → Step py u v → Steps py w v

-- the states that the service can be in
abbrev pub Reachable : PyText → World → Type 0
Reachable py w = Steps py empty_world w
