-- ===== src/Approval/System/Transitions.antt =====
-- Which changes of an approval a call can make.
use mathlib.Core.Path.{subst}
use aegis_soc.Common.{
  ℕ, String, ◌≡◌, ◌≢◌, ◌⊎◌, refl, sym, ap, ◌∙◌, inl, inr, true, none, some, arith, str_eq,
  str_eq_iff, Option-cases, head?, Bool-cases, Bool, false, if◌then◌else◌,
}
use aegis_soc.Common.Dict.{Dict, lookup, insert, lookup-insert}
use aegis_soc.Common.Order.{sort_desc}
use aegis_soc.Approval.Records.{
  Status, CreateApprovalRequest, Approval, Execution, RollbackResult, World,
}
use aegis_soc.Approval.AuditClient.{AuditSink}
use aegis_soc.Approval.Adapters.{PyText, run_adapter, rollback_action}
use aegis_soc.Approval.Repository.{
  new_approval, create_approval, decided, is_pending, decide_approval, is_approved, context,
  execute_action, executions_of, after_rollback, rollback_execution,
}
use aegis_soc.Approval.Lifecycle.{runs, IsValid}
use aegis_soc.Approval.Lifecycle.Steps.{Outcome-cases, latest-has_run, after_rollback-IsRow}
use aegis_soc.Approval.System.{
  Step, create, decide, execute, rollback, Steps, here, next, Reachable,
}
use aegis_soc.Approval.System.Safety.{Steps-IsValid, Reachable-IsValid}

-- The edges of the approval state machine.
pub data Edge : Status → Status → Type 0 where
  stay : {s : Status} → Edge s s
  approve : Edge Status.pending Status.approved
  reject : Edge Status.pending Status.rejected
  run : Edge Status.approved Status.executed
  undo : Edge Status.executed Status.rolled_back

-- the decision, with its author, reason and time
pub record SameDecision (a b : Approval) : Type 0 where
  pub decision : b.decision ≡ a.decision
  pub decided_by : b.decided_by ≡ a.decided_by
  pub rationale : b.rationale ≡ a.rationale
  pub decided_at : b.decided_at ≡ a.decided_at

-- `b` is a later state of the approval `a`: its status moved along an edge, and nothing changed
-- but the status, the decision with its author, reason and time, and the time of the last change.
-- After `pending` the decision is settled.
pub record Evolves (a b : Approval) : Type 0 where
  pub edge : Edge a.status b.status
  pub fixed : b ≡ record a {
    status = b.status;
    decided_by = b.decided_by;
    decision = b.decision;
    rationale = b.rationale;
    decided_at = b.decided_at;
    updated_at = b.updated_at;
  }
  pub settled : (a.status ≡ Status.pending) ⊎ SameDecision a b

abbrev pub Keeps : Dict Approval → Dict Approval → Type 0
Keeps d d' =
    (k : String) (a : Approval)
    → lookup k d ≡ some a
    → (b : Approval) × (lookup k d' ≡ some b) × Evolves a b

Evolves-refl : (a : Approval) → Evolves a a
Evolves-refl a = record {
  edge = stay;
  fixed = refl;
  settled =
      inr (record { decision = refl; decided_by = refl; rationale = refl; decided_at = refl });
}

Keeps-refl : (d : Dict Approval) → Keeps d d
Keeps-refl d k a e = (a, e, Evolves-refl a)

-- A write of a later state of the row that was there.
Keeps-insert :
    (j : String) (a b : Approval) (d : Dict Approval)
    → lookup j d ≡ some a
    → Evolves a b
    → Keeps d (insert j b d)
Keeps-insert j a b d found step k c at = elim (Bool-cases (str_eq j k)) [
  | inl same ↦
      let same_row : c ≡ a = ground (arith, str_eq_iff j k) in
      (b, lookup-insert j k b d ∙ ground arith, subst (λ x. Evolves x b) (sym same_row) step)
  | inr other ↦ (c, lookup-insert j k b d ∙ ground arith, Evolves-refl c)
]

Keeps-insert_new :
    (j : String) (b : Approval) (d : Dict Approval) → lookup j d ≡ none → Keeps d (insert j b d)
Keeps-insert_new j b d fresh k c at =
    (c, lookup-insert j k b d ∙ ground (arith, str_eq_iff j k), Evolves-refl c)

decided-Evolves :
    (now : ℕ) (by decision rationale : String) (a : Approval)
    → is_pending a.status ≡ true
    → Evolves a (decided now by decision rationale a)
unfolding decided
decided-Evolves now by decision rationale a p = record {
  edge = pending-edge a.status p;
  fixed = refl;
  settled = inl (from_pending a.status p);
}
  where
    from_pending : (s : Status) → is_pending s ≡ true → s ≡ Status.pending
    from_pending Status.pending h = refl
    from_pending _ h = cc

    choose : (c : Bool) → Edge Status.pending (if c then Status.approved else Status.rejected)
    choose true = approve
    choose false = reject

    pending-edge :
        (s : Status)
        → is_pending s ≡ true
        → Edge s (if str_eq decision "approved" then Status.approved else Status.rejected)
    pending-edge Status.pending h = choose (str_eq decision "approved")
    pending-edge _ h = cc

executed-Evolves :
    (now : ℕ) (a : Approval)
    → is_approved a.status ≡ true
    → Evolves a (record a { status = Status.executed; updated_at = now })
executed-Evolves now a p = record {
  edge = approved-edge a.status p;
  fixed = refl;
  settled =
      inr (record { decision = refl; decided_by = refl; rationale = refl; decided_at = refl });
}
  where
    approved-edge : (s : Status) → is_approved s ≡ true → Edge s Status.executed
    approved-edge Status.approved h = run
    approved-edge _ h = cc

rolled_back-Edge : (s : Status) → runs s ≡ 1 → Edge s Status.rolled_back
rolled_back-Edge Status.executed h = undo
rolled_back-Edge Status.rolled_back h = stay
rolled_back-Edge _ h = absurd (omega arith)

after_rollback-Evolves :
    (now : ℕ) (r : RollbackResult) (a : Approval)
    → runs a.status ≡ 1
    → Evolves a (after_rollback now r a)
unfolding after_rollback
after_rollback-Evolves now r a ran = elim (Bool-cases (str_eq r.status "success")) [
  | inl good ↦ rw good (record {
    edge = rolled_back-Edge a.status ran;
    fixed = refl;
    settled =
        inr (record { decision = refl; decided_by = refl; rationale = refl; decided_at = refl });
  })
  | inr bad ↦ rw bad (Evolves-refl a)
]

module _ (w : World) (h : IsValid w) where
  create-Keeps :
      (py : PyText) (uuid : String) (now : ℕ) (req : CreateApprovalRequest) (audit : AuditSink)
      → Keeps w.approvals (create_approval py uuid now req audit w).1.approvals
  unfolding create_approval
  create-Keeps py uuid now req audit k a at = elim (Option-cases (lookup uuid w.approvals)) [
    | inl fresh ↦
        ground
          (arith, Keeps-insert_new uuid (new_approval py uuid now req) w.approvals fresh k a at)
    | inr (b, taken) ↦ ground (arith, taken, Keeps-refl w.approvals k a at)
  ]

  decide-Keeps :
      (now : ℕ) (j by decision rationale : String) (audit : AuditSink)
      → Keeps w.approvals (decide_approval now j by decision rationale audit w).1.approvals
  unfolding decide_approval
  decide-Keeps now j by decision rationale audit k a at =
      elim (Option-cases (lookup j w.approvals)) [
        | inl absent ↦ ground (arith, absent, Keeps-refl w.approvals k a at)
        | inr (b, found) ↦
            (ground (
              arith,
              found,
              Keeps-refl w.approvals k a at,
              (h.row j b found).key,
              λ (p : is_pending b.status ≡ true).
                  Keeps-insert j b (decided now by decision rationale b) w.approvals found
                    (decided-Evolves now by decision rationale b p) k a at,
            ))
      ]

  execute-writes :
      (py : PyText) (uuid hex : String) (now : ℕ) (j by : String) (audit : AuditSink) (b : Approval)
      → lookup j w.approvals ≡ some b
      → let d = (execute_action py uuid hex now j by audit w).1.approvals in
        (d ≡ w.approvals)
        ⊎ ((is_approved b.status ≡ true)
            × (d ≡ insert j (record b { status = Status.executed; updated_at = now }) w.approvals))
  unfolding execute_action
  execute-writes py uuid hex now j by audit b found =
      elim (Outcome-cases (run_adapter py b.action_class hex now (context b))) [
        | inl (e, r) ↦ ground (arith, r)
        | inr (result, r) ↦ ground (arith, r, (h.row j b found).key)
      ]

  execute-Keeps :
      (py : PyText) (uuid hex : String) (now : ℕ) (j by : String) (audit : AuditSink)
      → Keeps w.approvals (execute_action py uuid hex now j by audit w).1.approvals
  unfolding execute_action
  execute-Keeps py uuid hex now j by audit k a at = elim (Option-cases (lookup j w.approvals)) [
    | inl absent ↦ ground (arith, absent, Keeps-refl w.approvals k a at)
    | inr (b, found) ↦ elim (execute-writes py uuid hex now j by audit b found) [
      | inl kept ↦ rw kept (a, at, Evolves-refl a)
      | inr (p, written) ↦ rw written (
          Keeps-insert j b (record b { status = Status.executed; updated_at = now }) w.approvals
            found (executed-Evolves now b p) k a at)
    ]
  ]

  rollback-writes :
      (uuid : String) (now : ℕ) (j by reason : String) (audit : AuditSink) (b : Approval)
      (e : Execution)
      → lookup j w.approvals ≡ some b
      → head? (sort_desc (λ x. x.executed_at) (executions_of j w)) ≡ some e
      → let d = (rollback_execution uuid now j by reason audit w).1.approvals in
        let result = rollback_action e.action_class e.rollback_token e.result now in
        (d ≡ w.approvals) ⊎ (d ≡ insert j (after_rollback now result b) w.approvals)
  unfolding rollback_execution
  rollback-writes uuid now j by reason audit b e found latest =
      let result = rollback_action e.action_class e.rollback_token e.result now in
      let ran = latest-has_run j b e w found latest h in
      ground (arith, latest, (after_rollback-IsRow now result j b ran (h.row j b found)).0.key)

  rollback-Keeps :
      (uuid : String) (now : ℕ) (j by reason : String) (audit : AuditSink)
      → Keeps w.approvals (rollback_execution uuid now j by reason audit w).1.approvals
  unfolding rollback_execution
  rollback-Keeps uuid now j by reason audit k a at = elim (Option-cases (lookup j w.approvals)) [
    | inl absent ↦ ground (arith, absent, Keeps-refl w.approvals k a at)
    | inr (b, found) ↦
        elim (Option-cases (head? (sort_desc (λ x. x.executed_at) (executions_of j w)))) [
          | inl nothing ↦ ground (arith, nothing, Keeps-refl w.approvals k a at)
          | inr (e, latest) ↦
              let result = rollback_action e.action_class e.rollback_token e.result now in
              let ran = latest-has_run j b e w found latest h in
              elim (rollback-writes uuid now j by reason audit b e found latest) [
                | inl kept ↦ rw kept (a, at, Evolves-refl a)
                | inr written ↦ rw written (
                    Keeps-insert j b (after_rollback now result b) w.approvals found
                      (after_rollback-Evolves now result b ran) k a at)
              ]
        ]
  ]

Step-Keeps : {py : PyText} {w u : World} → Step py w u → IsValid w → Keeps w.approvals u.approvals
Step-Keeps {py} {w} (create uuid now req audit) h = create-Keeps w h py uuid now req audit
Step-Keeps {w} (decide now k by d r audit) h = decide-Keeps w h now k by d r audit
Step-Keeps {py} {w} (execute uuid hex now k by audit) h =
    execute-Keeps w h py uuid hex now k by audit
Step-Keeps {w} (rollback uuid now k by r audit) h = rollback-Keeps w h uuid now k by r audit

-- From a reachable state any call, whether it returns or raises, keeps every approval: its status
-- stays or moves pending → approved, pending → rejected, approved → executed or
-- executed → rolled_back; no other column changes but the decision with its author, reason and
-- time, and the time of the last change; and the decision changes only while the approval is
-- pending.
pub step-Evolves :
    {py : PyText} {w u : World} (k : String) (a : Approval)
    → Reachable py w
    → Step py w u
    → lookup k w.approvals ≡ some a
    → (b : Approval) × (lookup k u.approvals ≡ some b) × Evolves a b
step-Evolves k a r s = Step-Keeps s (Reachable-IsValid r) k a

-- the statuses that a decided approval can still reach
pub data Reaches : Status → Status → Type 0 where
  same : {s : Status} → Reaches s s
  ran : Reaches Status.approved Status.executed
  ran_undone : Reaches Status.approved Status.rolled_back
  undone : Reaches Status.executed Status.rolled_back

pub record Settled (a b : Approval) : Type 0 where
  pub status : Reaches a.status b.status
  pub decision : SameDecision a b
  pub fixed :
      (b.action_class ≡ a.action_class) × (b.disruptive ≡ a.disruptive) × (b.payload ≡ a.payload)

Reaches-step : {r s t : Status} → r ≢ Status.pending → Reaches r s → Edge s t → Reaches r t
Reaches-step h same stay = same
Reaches-step h same approve = absurd (h refl)
Reaches-step h same reject = absurd (h refl)
Reaches-step h same run = ran
Reaches-step h same undo = undone
Reaches-step h ran stay = ran
Reaches-step h ran undo = ran_undone
Reaches-step h ran_undone stay = ran_undone
Reaches-step h undone stay = undone

not-back : {r s : Status} → r ≢ Status.pending → Reaches r s → s ≢ Status.pending
not-back h same e = h e
not-back h ran e = cc
not-back h ran_undone e = cc
not-back h undone e = cc

Settled-step :
    (a b c : Approval) → a.status ≢ Status.pending → Settled a b → Evolves b c → Settled a c
Settled-step a b c h s e = record {
  status = Reaches-step h s.status e.edge;
  decision = elim e.settled [
    | inl p ↦ absurd (not-back h s.status p)
    | inr d ↦ record {
      decision = d.decision ∙ s.decision.decision;
      decided_by = d.decided_by ∙ s.decision.decided_by;
      rationale = d.rationale ∙ s.decision.rationale;
      decided_at = d.decided_at ∙ s.decision.decided_at;
    }
  ];
  fixed = (
    ap (λ x. x.action_class) e.fixed ∙ s.fixed.0,
    ap (λ x. x.disruptive) e.fixed ∙ s.fixed.1,
    ap (λ x. x.payload) e.fixed ∙ s.fixed.2,
  );
}

-- From a valid state, over any number of calls: an approval that is no longer pending keeps its
-- decision with its author, reason and time, its action class, its `disruptive` mark and its
-- payload; a rejected one stays rejected, and the status of another only moves on along
-- approved → executed → rolled_back.
pub decision_is_final :
    {py : PyText} {w u : World} (k : String) (a : Approval)
    → IsValid w
    → Steps py w u
    → lookup k w.approvals ≡ some a
    → a.status ≢ Status.pending
    → (b : Approval) × (lookup k u.approvals ≡ some b) × Settled a b
decision_is_final k a v here at h = (
  a,
  at,
  record {
    status = same;
    decision = record { decision = refl; decided_by = refl; rationale = refl; decided_at = refl };
    fixed = (refl, refl, refl);
  },
)
decision_is_final k a v (next s t) at h =
    let (b, bat, settled) = decision_is_final k a v s at h in
    let (c, cat, evolved) = Step-Keeps t (Steps-IsValid s v) k b bat in
    (c, cat, Settled-step a b c h settled evolved)
