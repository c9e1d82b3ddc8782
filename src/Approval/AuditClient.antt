-- ===== src/Approval/AuditClient.antt =====
-- The audit sink (services/approval/approval_core/audit_client.py). Whether a post, or a call of
-- the callback, goes through is up to the sink's other end.
use aegis_soc.Common.{String, Bool, [], ◌∷◌, ◌++◌, if◌then◌else◌}
use aegis_soc.Common.Json.{Fields}
use aegis_soc.Approval.Records.{AuditMessage}
use aegis_soc.Approval.Monad.{App, modify}

-- `HTTPAuditSink` or `InProcessAuditSink`: true at the events whose post, or callback, succeeds
pub data AuditSink : Type 0 where
  http : (AuditMessage → Bool) → AuditSink
  in_process : (AuditMessage → Bool) → AuditSink

-- `send` of either class: every exception is caught and logged
unfoldable pub send : AuditSink → AuditMessage → App (Unit {0})
send (AuditSink.http post) event = modify λ w.
    if post event
    then record w { delivered = w.delivered ++ (event ∷ []) }
    else record w { lost = w.lost ++ (event ∷ []) }
send (AuditSink.in_process callback) event = modify λ w.
    if callback event
    then record w { delivered = w.delivered ++ (event ∷ []) }
    else record w { lost = w.lost ++ (event ∷ []) }

unfoldable pub build_event :
    (actor actor_type action resource_type resource_id : String) → Fields → String → AuditMessage
build_event actor actor_type action resource_type resource_id details tenant_id = record {
  tenant_id = tenant_id;
  actor = actor;
  actor_type = actor_type;
  action = action;
  resource_type = resource_type;
  resource_id = resource_id;
  details = details;
  evidence_refs = [];
}
