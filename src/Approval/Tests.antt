-- ===== src/Approval/Tests.antt =====
-- The approval service at concrete inputs: one disruptive request, from its creation to its
-- rollback.
use aegis_soc.Common.{◌≤◌, String, ◌≡◌, ◌≢◌, ◌⊎◌, refl, true, false, some, arith, length}
use aegis_soc.Common.Dict.{lookup, insert}
use aegis_soc.Common.Json.{end}
use aegis_soc.Auth.Web.{body}
use aegis_soc.Auth.Roles.{TokenPayload, role_satisfies}
use aegis_soc.Approval.Records.{Status, CreateApprovalRequest, Approval, World}
use aegis_soc.Approval.AuditClient.{AuditSink}
use aegis_soc.Approval.Adapters.{PyText}
use aegis_soc.Approval.Repository.{
  new_approval, create_approval, decided, decide_approval, execute_action, executions_of,
  rollback_execution,
}
use aegis_soc.Approval.Lifecycle.{Agrees, runs}
use aegis_soc.Approval.System.{empty_world, create, decide, execute, here, next, Reachable}
use aegis_soc.Approval.System.Safety.{
  Reachable-IsValid, reachable_row-Agrees, executed_once_after_approval,
}
use aegis_soc.Approval.System.Transitions.{Evolves, Settled, step-Evolves, decision_is_final}
use aegis_soc.Approval.Service.{decide as decide_endpoint}
use aegis_soc.Approval.Service.Gate.{decide_gate}
use aegis_soc.Approval.Service.Mirror.{
  DecisionWritten, ExecutionWritten, RollbackWritten, Mirrors, SameRun, calls_are_mirrored,
  audit_failure_is_harmless,
}

abbrev py : PyText
py = record { str_of = λ v. "value"; title_of = λ s. s }

abbrev sink : AuditSink
sink = AuditSink.http (λ m. true)

abbrev dead_sink : AuditSink
dead_sink = AuditSink.in_process (λ m. false)

abbrev request : CreateApprovalRequest
request = record {
  action_id = "action-1";
  case_id = "case-1";
  action_class = "isolate_host_recommend";
  title = "Isolate host";
  description = "";
  disruptive = true;
  dry_run = true;
  requested_by = "policy";
  tenant_id = "default";
  payload = end;
}

abbrev requested : World
requested = (create_approval py "a1" 10 request sink empty_world).1

abbrev approved : World
approved = (decide_approval 20 "a1" "sam" "approved" "sound" sink requested).1

abbrev executed_world : World
executed_world = (execute_action py "e1" "0123456789" 30 "a1" "sam" sink approved).1

abbrev reach_requested : Reachable py requested
reach_requested = next here (create "a1" 10 request sink)

abbrev reach_approved : Reachable py approved
reach_approved = next reach_requested (decide 20 "a1" "sam" "approved" "sound" sink)

abbrev reach_executed : Reachable py executed_world
reach_executed = next reach_approved (execute "e1" "0123456789" 30 "a1" "sam" sink)

abbrev pending_row : Approval
pending_row = new_approval py "a1" 10 request

abbrev approved_row : Approval
approved_row = decided 20 "sam" "approved" "sound" pending_row

requested-row : lookup "a1" requested.approvals ≡ some pending_row
unfolding create_approval new_approval lookup insert
requested-row = refl

approved-row : lookup "a1" approved.approvals ≡ some approved_row
unfolding create_approval decide_approval decided new_approval lookup insert
approved-row = refl

approved_row-decided : approved_row.status ≢ Status.pending
unfolding decided
approved_row-decided = ground arith

executed-runs : 1 ≤ length (executions_of "a1" executed_world)
unfolding create_approval decide_approval execute_action insert
executed-runs = omega arith

executed_once_after_approval_example :
    (length (executions_of "a1" executed_world) ≡ 1)
    × ((a : Approval) × (lookup "a1" executed_world.approvals ≡ some a)
        × (a.decision ≡ some "approved")
        × ((a.status ≡ Status.executed) ⊎ (a.status ≡ Status.rolled_back)))
executed_once_after_approval_example =
    executed_once_after_approval "a1" reach_executed executed-runs

step-Evolves_example :
    (b : Approval) × (lookup "a1" executed_world.approvals ≡ some b) × Evolves approved_row b
step-Evolves_example =
    step-Evolves "a1" approved_row reach_approved (execute "e1" "0123456789" 30 "a1" "sam" sink)
      approved-row

decision_is_final_example :
    (b : Approval) × (lookup "a1" executed_world.approvals ≡ some b) × Settled approved_row b
decision_is_final_example =
    decision_is_final "a1" approved_row (Reachable-IsValid reach_approved)
      (next here (execute "e1" "0123456789" 30 "a1" "sam" sink)) approved-row approved_row-decided

reachable_row-Agrees_example :
    (approved_row.approval_id ≡ "a1")
    × Agrees approved_row.status approved_row.decision
    × (length (executions_of "a1" approved) ≡ runs approved_row.status)
reachable_row-Agrees_example = reachable_row-Agrees "a1" approved_row reach_approved approved-row

abbrev senior : TokenPayload
senior = record { sub = "sam"; username = "sam"; role = "senior_analyst"; tenant_id = "default" }

pending_row-disruptive : pending_row.disruptive ≡ true
unfolding new_approval
pending_row-disruptive = refl

pending_row-undecided : pending_row.status ≢ Status.approved
unfolding new_approval
pending_row-undecided = ground arith

approved_row-approved : approved_row.status ≡ Status.approved
unfolding decided
approved_row-approved = refl

decided-row :
    lookup "a1"
      (decide_endpoint true (body senior) 20 "a1" "approved" "sound" sink requested).1.approvals
    ≡ some approved_row
unfolding decide_endpoint create_approval lookup insert role_satisfies
decided-row = refl

abbrev approve_text : String
approve_text = "approved"

decide_gate_example :
    (u : TokenPayload) × (body senior ≡ body u)
    × (role_satisfies u.role "senior_analyst" ≡ true)
    × (pending_row.status ≡ Status.pending)
    × (approve_text ≡ "approved")
decide_gate_example =
    decide_gate true (body senior) 20 "a1" approve_text "sound" sink requested pending_row
      approved_row requested-row pending_row-disruptive pending_row-undecided decided-row
      approved_row-approved

calls_are_mirrored_example :
    Mirrors
      (DecisionWritten "a1" "approved" requested)
      "a1"
      "sam"
      requested
      (decide_approval 20 "a1" "sam" "approved" "sound" dead_sink requested)
    × Mirrors
        (ExecutionWritten "a1" requested)
        "a1"
        "sam"
        requested
        (execute_action py "e1" "0123456789" 20 "a1" "sam" dead_sink requested)
    × Mirrors
        (RollbackWritten "a1" requested)
        "a1"
        "sam"
        requested
        (rollback_execution "e1" 20 "a1" "sam" "sound" dead_sink requested)
calls_are_mirrored_example =
    calls_are_mirrored py "e1" "0123456789" 20 "a1" "sam" "approved" "sound" dead_sink requested

audit_failure_is_harmless_example :
    SameRun
      (create_approval py "a2" 40 request sink requested)
      (create_approval py "a2" 40 request dead_sink requested)
    × SameRun
        (decide_approval 40 "a1" "sam" "approved" "sound" sink requested)
        (decide_approval 40 "a1" "sam" "approved" "sound" dead_sink requested)
    × SameRun
        (execute_action py "a2" "0123456789" 40 "a1" "sam" sink requested)
        (execute_action py "a2" "0123456789" 40 "a1" "sam" dead_sink requested)
    × SameRun
        (rollback_execution "a2" 40 "a1" "sam" "sound" sink requested)
        (rollback_execution "a2" 40 "a1" "sam" "sound" dead_sink requested)
audit_failure_is_harmless_example =
    audit_failure_is_harmless py "a2" "0123456789" 40 request "a1" "sam" "approved" "sound" sink
      dead_sink requested
