-- ===== src/Approval/Service/Mirror.antt =====
-- Every change is mirrored to the audit sink, and the sink's failures change nothing.
use mathlib.Core.Path.{subst}
use aegis_soc.Common.{
  ℕ, String, ◌≡◌, ◌⊎◌, refl, ap, inl, inr, Option, none, some, [], ◌∷◌, ◌++◌, arith, Option-cases,
  Bool-cases, head?, any, str_eq, List, false, if◌then◌else◌, sym,
}
use aegis_soc.Common.Dict.{Dict, lookup, insert, lookup-insert_self}
use aegis_soc.Common.Order.{sort_desc}
use aegis_soc.Approval.Records.{
  Status, CreateApprovalRequest, Approval, Execution, Rollback, RollbackResult, AuditMessage, World,
}
use aegis_soc.Approval.Monad.{App, Error, integrity_error, Outcome, ok, raised, pure, ◌>>=◌, ◌>>◌}
use aegis_soc.Approval.AuditClient.{AuditSink, send}
use aegis_soc.Approval.Adapters.{PyText, run_adapter, rollback_action}
use aegis_soc.Approval.Repository.{
  create_approval, decide_approval, execute_action, rollback_execution, after_rollback, is_pending,
  is_approved, context, executions_of, add_execution, add_rollback, save_approval, new_execution,
  new_rollback,
}
use aegis_soc.Approval.Lifecycle.Steps.{Outcome-cases}

-- the same three tables
abbrev pub SameTables : World → World → Type 0
SameTables u v =
    (u.approvals ≡ v.approvals) × (u.executions ≡ v.executions) × (u.rollbacks ≡ v.rollbacks)

-- the same result, and the same tables
abbrev pub SameRun : {A : Type 0} → Outcome A × World → Outcome A × World → Type 0
SameRun (r, u) (s, v) = (r ≡ s) × SameTables u v

create-SameRun :
    (py : PyText) (uuid : String) (now : ℕ) (req : CreateApprovalRequest) (s t : AuditSink)
    (w : World)
    → SameRun (create_approval py uuid now req s w) (create_approval py uuid now req t w)
unfolding create_approval
create-SameRun py uuid now req s t w = ground arith

decide-SameRun :
    (now : ℕ) (k by decision rationale : String) (s t : AuditSink) (w : World)
    → SameRun
        (decide_approval now k by decision rationale s w)
        (decide_approval now k by decision rationale t w)
unfolding decide_approval
decide-SameRun now k by decision rationale s t w = ground arith

execute-SameRun :
    (py : PyText) (uuid hex : String) (now : ℕ) (k by : String) (s t : AuditSink) (w : World)
    → SameRun (execute_action py uuid hex now k by s w) (execute_action py uuid hex now k by t w)
unfolding execute_action
execute-SameRun py uuid hex now k by s t w = elim (Option-cases (lookup k w.approvals)) [
  | inl absent ↦ ground (arith, absent)
  | inr (a, found) ↦ elim (Outcome-cases (run_adapter py a.action_class hex now (context a))) [
    | inl (e, r) ↦ ground (arith, found, r)
    | inr (result, r) ↦ ground (arith, found, r)
  ]
]

rollback-SameRun :
    (uuid : String) (now : ℕ) (k by reason : String) (s t : AuditSink) (w : World)
    → SameRun
        (rollback_execution uuid now k by reason s w)
        (rollback_execution uuid now k by reason t w)
unfolding rollback_execution
rollback-SameRun uuid now k by reason s t w = ground arith

-- one event was sent, and it arrived or was lost
abbrev pub Sent : World → World → AuditMessage → Type 0
Sent w u m =
    ((u.delivered ≡ w.delivered ++ (m ∷ [])) × (u.lost ≡ w.lost))
    ⊎ ((u.delivered ≡ w.delivered) × (u.lost ≡ w.lost ++ (m ∷ [])))

-- What a call that returns a row says of the three tables after it.
abbrev pub Writes : Type 0 → Type 1
Writes A = A → Dict Approval → List Execution → List Rollback → Type 0

-- A call about approval `k` by `actor` that returned a row has written it, and has sent one event
-- about it; one that returned nothing or raised has changed nothing, and has sent nothing.
abbrev pub Mirrors :
    {A : Type 0} → Writes A → String → String → World → Outcome (Option A) × World → Type 0
Mirrors stored k actor w (ok (some x), u) =
    ((m : AuditMessage) × (m.resource_id ≡ k) × (m.actor ≡ actor) × Sent w u m)
    × stored x u.approvals u.executions u.rollbacks
Mirrors stored k actor w (ok none, u) = u ≡ w
Mirrors stored k actor w (raised _, u) = u ≡ w

-- The decided row is in the table, under the id of the approval, and the other tables are the same.
abbrev pub DecisionWritten : String → String → World → Writes Approval
DecisionWritten k decision w row approvals executions rollbacks =
    (a : Approval) × (lookup k w.approvals ≡ some a)
    × (lookup a.approval_id approvals ≡ some row)
    × (row.decision ≡ some decision)
    × (is_pending row.status ≡ false)
    × (executions ≡ w.executions)
    × (rollbacks ≡ w.rollbacks)

-- The execution is the new last one, and the approval is marked as executed.
abbrev pub ExecutionWritten : String → World → Writes Execution
ExecutionWritten k w row approvals executions rollbacks =
    (a : Approval) × (lookup k w.approvals ≡ some a)
    × ((b : Approval) × (lookup a.approval_id approvals ≡ some b) × (b.status ≡ Status.executed))
    × (executions ≡ w.executions ++ (row ∷ []))
    × (rollbacks ≡ w.rollbacks)

-- The rollback is the new last one, and the approval is marked as rolled back where it succeeded.
abbrev pub RollbackWritten : String → World → Writes Rollback
RollbackWritten k w row approvals executions rollbacks =
    (a : Approval) × (lookup k w.approvals ≡ some a)
    × ((b : Approval) × (lookup a.approval_id approvals ≡ some b)
        × (b.status ≡ (if str_eq row.status "success" then Status.rolled_back else a.status)))
    × (executions ≡ w.executions)
    × (rollbacks ≡ w.rollbacks ++ (row ∷ []))

send-ok : (audit : AuditSink) (m : AuditMessage) (w : World) → (send audit m w).0 ≡ ok tt
unfolding send
send-ok (AuditSink.http post) m w = refl
send-ok (AuditSink.in_process callback) m w = refl

send-Sent :
    (audit : AuditSink) (m : AuditMessage) (w v : World)
    → v.delivered ≡ w.delivered
    → v.lost ≡ w.lost
    → Sent w (send audit m v).1 m
unfolding send
send-Sent audit m w v d l = ground arith

-- Sending changes no table.
send-SameTables :
    (audit : AuditSink) (m : AuditMessage) (v : World) → SameTables (send audit m v).1 v
unfolding send
send-SameTables audit m v = ground arith

-- the end of a call that succeeds
send_then-Mirrors :
    {A : Type 0} (stored : Writes A) (audit : AuditSink) (m : AuditMessage) (x : A) (w v : World)
    → v.delivered ≡ w.delivered
    → v.lost ≡ w.lost
    → stored x v.approvals v.executions v.rollbacks
    → Mirrors stored m.resource_id m.actor w ((send audit m >> pure (some x)) v)
send_then-Mirrors stored audit m x w v d l written =
    let (a, e, r) = send-SameTables audit m v in
    rw (send-ok audit m v, ◌>>=◌) ((m, refl, refl, send-Sent audit m w v d l), rw (a, e, r) written)

-- An insertion is refused and changes nothing, or succeeds with the tables `v` and sends nothing.
abbrev Adds : World → World → Outcome (Unit {0}) × World → Type 0
Adds w v r =
    ((e : Error) × (r ≡ (raised e, w)))
    ⊎ ((r ≡ (ok tt, v)) × (v.delivered ≡ w.delivered) × (v.lost ≡ w.lost))

add_execution-Adds :
    (e : Execution) (w : World)
    → Adds w (record w { executions = w.executions ++ (e ∷ []) }) (add_execution e w)
unfolding add_execution
add_execution-Adds e w =
    elim (Bool-cases (any (λ x. str_eq x.execution_id e.execution_id) w.executions)) [
      | inl taken ↦ inl (integrity_error, rw taken)
      | inr fresh ↦ inr (rw fresh, refl, refl)
    ]

add_rollback-Adds :
    (r : Rollback) (w : World)
    → Adds w (record w { rollbacks = w.rollbacks ++ (r ∷ []) }) (add_rollback r w)
unfolding add_rollback
add_rollback-Adds r w =
    elim (Bool-cases (any (λ x. str_eq x.rollback_id r.rollback_id) w.rollbacks)) [
      | inl taken ↦ inl (integrity_error, rw taken)
      | inr fresh ↦ inr (rw fresh, refl, refl)
    ]

-- the end of a call that inserts a row, writes the approval, and sends an event
add_then-Mirrors :
    {A : Type 0} (stored : Writes A) (add : App (Unit {0})) (a : Approval) (audit : AuditSink)
    (m : AuditMessage) (x : A) (w v : World)
    → Adds w v (add w)
    → stored x (insert a.approval_id a v.approvals) v.executions v.rollbacks
    → Mirrors stored m.resource_id m.actor w
        ((add >> (save_approval a >> (send audit m >> pure (some x)))) w)
unfolding save_approval
add_then-Mirrors stored add a audit m x w v (inl (e, refused)) written =
    rw (refused, ◌>>=◌) (ap (λ r. r.1) refused)
add_then-Mirrors stored add a audit m x w v (inr (added, d, l)) written =
    subst
      (λ r.
        Mirrors stored m.resource_id m.actor w
          ((◌>>=◌ (λ _. r) λ _. (save_approval a >> (send audit m >> pure (some x)))) w))
      (sym added) (send_then-Mirrors stored audit m x w (save_approval a v).1 d l written)

after_rollback-status :
    (now : ℕ) (result : RollbackResult) (a : Approval)
    → (after_rollback now result a).status
      ≡ (if str_eq result.status "success" then Status.rolled_back else a.status)
unfolding after_rollback
after_rollback-status now result a = ground arith

after_rollback-id :
    (now : ℕ) (result : RollbackResult) (a : Approval)
    → (after_rollback now result a).approval_id ≡ a.approval_id
unfolding after_rollback
after_rollback-id now result a = ground arith

after_rollback-stored :
    (now : ℕ) (result : RollbackResult) (a : Approval) (d : Dict Approval)
    → lookup a.approval_id
        (insert (after_rollback now result a).approval_id (after_rollback now result a) d)
      ≡ some (after_rollback now result a)
after_rollback-stored now result a d =
    subst
      (λ k.
        lookup k (insert (after_rollback now result a).approval_id (after_rollback now result a) d)
        ≡ some (after_rollback now result a))
      (after_rollback-id now result a)
      (lookup-insert_self (after_rollback now result a).approval_id _ d)

module _ (k by : String) (audit : AuditSink) (w : World) where
  decide-Mirrors :
      (now : ℕ) (decision rationale : String)
      → Mirrors
          (DecisionWritten k decision w)
          k
          by
          w
          (decide_approval now k by decision rationale audit w)
  unfolding decide_approval
  decide-Mirrors now decision rationale = elim (Option-cases (lookup k w.approvals)) [
    | inl absent ↦ rw (absent, decide_approval) refl
    | inr (a, found) ↦ elim (Bool-cases (is_pending a.status)) [
      | inl p ↦
          rw (found, decide_approval, p)
            (send_then-Mirrors (DecisionWritten k decision w) audit _ _ w _ refl refl (
              a,
              found,
              lookup-insert_self a.approval_id _ w.approvals,
              refl,
              ground arith,
              refl,
              refl,
            ))
      | inr p ↦ rw (found, decide_approval, p) refl
    ]
  ]

  execute-Mirrors :
      (py : PyText) (uuid hex : String) (now : ℕ)
      → Mirrors (ExecutionWritten k w) k by w (execute_action py uuid hex now k by audit w)
  unfolding execute_action
  execute-Mirrors py uuid hex now = elim (Option-cases (lookup k w.approvals)) [
    | inl absent ↦ rw (absent, execute_action) refl
    | inr (a, found) ↦ elim (Bool-cases (is_approved a.status)) [
      | inl p ↦ elim (Outcome-cases (run_adapter py a.action_class hex now (context a))) [
        | inl (e, r) ↦ rw (found, execute_action, p, r) refl
        | inr (result, r) ↦
            let e = new_execution uuid now k by a result in
            rw (found, execute_action, p, r)
              (add_then-Mirrors (ExecutionWritten k w) (add_execution e) _ audit _ e w _
                (add_execution-Adds e w)
                (a, found, (_, lookup-insert_self a.approval_id _ w.approvals, refl), refl, refl))
      ]
      | inr p ↦ rw (found, execute_action, p) refl
    ]
  ]

  rollback-Mirrors :
      (uuid : String) (now : ℕ) (reason : String)
      → Mirrors (RollbackWritten k w) k by w (rollback_execution uuid now k by reason audit w)
  unfolding rollback_execution
  rollback-Mirrors uuid now reason = elim (Option-cases (lookup k w.approvals)) [
    | inl absent ↦ rw (absent, rollback_execution) refl
    | inr (a, found) ↦
        elim (Option-cases (head? (sort_desc (λ x. x.executed_at) (executions_of k w)))) [
          | inl nothing ↦ rw (found, rollback_execution, ◌>>=◌, nothing) refl
          | inr (e, latest) ↦
              let result = rollback_action e.action_class e.rollback_token e.result now in
              let row = new_rollback uuid now k by reason e result in
              rw (found, rollback_execution, ◌>>=◌, latest)
                (add_then-Mirrors (RollbackWritten k w) (add_rollback row) _ audit _ row w _
                  (add_rollback-Adds row w)
                  (
                    a,
                    found,
                    (
                      after_rollback now result a,
                      after_rollback-stored now result a w.approvals,
                      after_rollback-status now result a,
                    ),
                    refl,
                    refl,
                  ))
        ]
  ]

-- A decision, an execution and a rollback are each all or nothing. A call that returns a row has
-- sent exactly one event, which names the approval and the caller and either arrived or was lost, and
-- has written its change: the decided row stands in the table in place of the approval's; an
-- execution or a rollback is the new last row of its table, and the approval's row says that it is
-- executed, or rolled back where the rollback succeeded; and the other tables are the same. A call
-- that returns nothing, or raises, has changed no table and sent no event.
pub calls_are_mirrored :
    (py : PyText) (uuid hex : String) (now : ℕ) (k by decision text : String) (audit : AuditSink)
    (w : World)
    → Mirrors (DecisionWritten k decision w) k by w (decide_approval now k by decision text audit w)
      × Mirrors (ExecutionWritten k w) k by w (execute_action py uuid hex now k by audit w)
      × Mirrors (RollbackWritten k w) k by w (rollback_execution uuid now k by text audit w)
calls_are_mirrored py uuid hex now k by decision text audit w = (
  decide-Mirrors k by audit w now decision text,
  execute-Mirrors k by audit w py uuid hex now,
  rollback-Mirrors k by audit w uuid now text,
)

-- Whatever the audit sinks `s` and `t` do with the events, an approval request, a decision, an
-- execution and a rollback give the same result and leave the same tables with either.
pub audit_failure_is_harmless :
    (py : PyText) (uuid hex : String) (now : ℕ) (req : CreateApprovalRequest)
    (k by decision text : String) (s t : AuditSink) (w : World)
    → SameRun (create_approval py uuid now req s w) (create_approval py uuid now req t w)
      × SameRun
          (decide_approval now k by decision text s w)
          (decide_approval now k by decision text t w)
      × SameRun (execute_action py uuid hex now k by s w) (execute_action py uuid hex now k by t w)
      × SameRun
          (rollback_execution uuid now k by text s w)
          (rollback_execution uuid now k by text t w)
audit_failure_is_harmless py uuid hex now req k by decision text s t w = (
  create-SameRun py uuid now req s t w,
  decide-SameRun now k by decision text s t w,
  execute-SameRun py uuid hex now k by s t w,
  rollback-SameRun uuid now k by text s t w,
)
