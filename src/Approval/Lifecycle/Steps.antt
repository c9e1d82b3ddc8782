-- ===== src/Approval/Lifecycle/Steps.antt =====
-- Every repository call keeps the invariant of the tables.
use aegis_soc.Common.{
  ℕ, String, ◌≡◌, refl, inl, inr, true, none, some, Option, sym, ap, ◌∙◌, List, [], ◌∷◌, arith,
  str_eq, str_eq_iff, length, head?, ◌⊎◌, ◌++◌, Option-cases, Bool-cases,
}
use mathlib.Core.Path.{subst}
use aegis_soc.Common.Dict.{lookup, insert}
use aegis_soc.Common.Order.{sort_desc}
use aegis_soc.Approval.Records.{
  Status, CreateApprovalRequest, Approval, Execution, AdapterResult, RollbackResult, World,
}
use aegis_soc.Approval.AuditClient.{AuditSink}
use aegis_soc.Approval.Adapters.{PyText, Context, run_adapter, rollback_action}
use aegis_soc.Approval.Monad.{Outcome, ok, raised, Error}
use aegis_soc.Approval.Repository.{
  new_approval, create_approval, decided, decide_approval, context, execute_action,
  rollback_execution, is_approved, after_rollback, executions_of, new_execution,
}
use aegis_soc.Approval.Lifecycle.{
  Agrees, runs, runs?, IsRow, IsSound, IsValid, insert-IsSound, insert-IsSound_execution,
}

pub Outcome-cases :
    {A : Type 0} (o : Outcome A) → ((e : Error) × (o ≡ raised e)) ⊎ ((a : A) × (o ≡ ok a))
Outcome-cases (ok a) = inr (a, refl)
Outcome-cases (raised e) = inl (e, refl)

pub create_approval-IsValid :
    (py : PyText) (uuid : String) (now : ℕ) (req : CreateApprovalRequest) (audit : AuditSink)
    (w : World)
    → IsValid w
    → IsValid (create_approval py uuid now req audit w).1
unfolding create_approval
create_approval-IsValid py uuid now req audit w h = elim (Option-cases (lookup uuid w.approvals)) [
  | inl fresh ↦
      let row = new_approval py uuid now req in
      (ground (
        arith,
        fresh,
        insert-IsSound uuid row w.approvals w.executions (record { key = refl; agrees = refl })
            (rw fresh),
      ))
  | inr (a, taken) ↦ ground (arith, taken)
]

pub decided-IsRow :
    (now : ℕ) (by decision rationale k : String) (a : Approval)
    → IsRow k a
    → IsRow k (decided now by decision rationale a)
unfolding decided
decided-IsRow now by decision rationale k a h = elim (Bool-cases (str_eq decision "approved")) [
  | inl same ↦ ground (arith, str_eq_iff decision "approved")
  | inr other ↦ record {
    key = h.key;
    agrees = rw other (decision, refl, ground (arith, str_eq_iff decision "approved"));
  }
]

pub decide_approval-IsValid :
    (now : ℕ) (k by decision rationale : String) (audit : AuditSink) (w : World)
    → IsValid w
    → IsValid (decide_approval now k by decision rationale audit w).1
unfolding decide_approval
decide_approval-IsValid now k by decision rationale audit w h =
    elim (Option-cases (lookup k w.approvals)) [
      | inl absent ↦ rw (absent, decide_approval) h
      | inr (a, found) ↦ ground (
        arith,
        h.row k a found,
        decided-IsRow now by decision rationale k a (h.row k a found),
        insert-IsSound k (decided now by decision rationale a) w.approvals w.executions,
      )
    ]

approved-Agrees :
    (s : Status) (d : Option String) → is_approved s ≡ true → Agrees s d → d ≡ some "approved"
approved-Agrees Status.approved d r h = h
approved-Agrees _ d r h = cc

approved-runs : (s : Status) → is_approved s ≡ true → runs s ≡ 0
approved-runs Status.approved r = refl
approved-runs _ r = cc

run_adapter-cases :
    (py : PyText) (action_class hex : String) (now : ℕ) (ctx : Context)
    → ((e : Error) × (run_adapter py action_class hex now ctx ≡ raised e))
      ⊎ ((r : AdapterResult) × (run_adapter py action_class hex now ctx ≡ ok r))
run_adapter-cases py action_class hex now ctx =
    Outcome-cases (run_adapter py action_class hex now ctx)

-- An approval that has been approved and not yet run becomes executed by its first execution.
execute_found :
    (k : String) (a : Approval) (e : Execution) (now : ℕ) (w : World)
    → lookup k w.approvals ≡ some a
    → is_approved a.status ≡ true
    → e.approval_id ≡ k
    → e.dry_run ≡ true
    → IsValid w
    → IsSound
        (insert a.approval_id (record a { status = Status.executed; updated_at = now }) w.approvals)
        (w.executions ++ (e ∷ []))
execute_found k a e now w found ready own dry h =
    let r = h.row k a found in
    let row = record a { status = Status.executed; updated_at = now } in
    subst (λ x. IsSound (insert x row w.approvals) (w.executions ++ (e ∷ []))) (sym r.key)
      (insert-IsSound_execution k row e w.approvals w.executions
        (record { key = r.key; agrees = approved-Agrees a.status a.decision ready r.agrees })
        (rw found (approved-runs a.status ready)) refl own dry h)

pub execute_action-IsValid :
    (py : PyText) (uuid hex : String) (now : ℕ) (k by : String) (audit : AuditSink) (w : World)
    → IsValid w
    → IsValid (execute_action py uuid hex now k by audit w).1
unfolding execute_action
execute_action-IsValid py uuid hex now k by audit w h = elim (Option-cases (lookup k w.approvals)) [
  | inl absent ↦ rw (absent, execute_action) h
  | inr (a, found) ↦ elim (run_adapter-cases py a.action_class hex now (context a)) [
    | inl (e, r) ↦ ground (arith, r)
    | inr (result, r) ↦
        ground (arith, r, execute_found k a (new_execution uuid now k by a result) now w found)
  ]
]

head?-sort_desc_nil :
    (es : List Execution) → length es ≡ 0 → head? (sort_desc (λ e. e.executed_at) es) ≡ none
unfolding sort_desc
head?-sort_desc_nil [] h = refl
head?-sort_desc_nil (e ∷ es) h = absurd (omega arith)

-- An approval with an execution has run.
pub latest-has_run :
    (k : String) (a : Approval) (e : Execution) (w : World)
    → lookup k w.approvals ≡ some a
    → head? (sort_desc (λ x. x.executed_at) (executions_of k w)) ≡ some e
    → IsValid w
    → runs a.status ≡ 1
latest-has_run k a e w found latest h =
    has_one a.status
      (λ none_. cc (head?-sort_desc_nil (executions_of k w) (h.count k ∙ (ap runs? found ∙ none_))))
  where
    has_one : (s : Status) → (runs s ≡ 0 → runs s ≡ 1) → runs s ≡ 1
    has_one Status.executed f = refl
    has_one Status.rolled_back f = refl
    has_one _ f = f refl

ran-Agrees : (s : Status) (d : Option String) → runs s ≡ 1 → Agrees s d → d ≡ some "approved"
ran-Agrees Status.executed d r h = h
ran-Agrees Status.rolled_back d r h = h
ran-Agrees _ d r h = absurd (omega arith)

pub after_rollback-IsRow :
    (now : ℕ) (r : RollbackResult) (k : String) (a : Approval)
    → runs a.status ≡ 1
    → IsRow k a
    → IsRow k (after_rollback now r a) × (runs (after_rollback now r a).status ≡ 1)
unfolding after_rollback
after_rollback-IsRow now r k a ran h = ground (arith, ran-Agrees a.status a.decision ran h.agrees)

pub rollback_execution-IsValid :
    (uuid : String) (now : ℕ) (k by reason : String) (audit : AuditSink) (w : World)
    → IsValid w
    → IsValid (rollback_execution uuid now k by reason audit w).1
unfolding rollback_execution
rollback_execution-IsValid uuid now k by reason audit w h =
    elim (Option-cases (lookup k w.approvals)) [
      | inl absent ↦ rw (absent, rollback_execution) h
      | inr (a, found) ↦
          elim (Option-cases (head? (sort_desc (λ x. x.executed_at) (executions_of k w)))) [
            | inl nothing ↦ ground (arith, nothing)
            | inr (e, latest) ↦
                let ran = latest-has_run k a e w found latest h in
                let result = rollback_action e.action_class e.rollback_token e.result now in
                let row = after_rollback-IsRow now result k a ran (h.row k a found) in
                ground (
                  arith,
                  latest,
                  insert-IsSound k (after_rollback now result a) w.approvals w.executions row.0
                      (row.1 ∙ sym (ap runs? found ∙ ran)) h,
                )
          ]
    ]
