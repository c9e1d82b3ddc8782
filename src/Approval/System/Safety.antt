-- ===== src/Approval/System/Safety.antt =====
-- What holds of the tables in every reachable state.
use aegis_soc.Common.{
  ℕ, ◌≤◌, String, ◌≡◌, ◌⊎◌, inl, inr, refl, ap, ◌∙◌, Option, none, some, arith, length,
}
use aegis_soc.Common.Dict.{lookup}
use aegis_soc.Approval.Records.{Status, Approval, World}
use aegis_soc.Approval.Adapters.{PyText}
use aegis_soc.Approval.Repository.{executions_of}
use aegis_soc.Approval.Lifecycle.{Agrees, runs, runs?, IsValid}
use aegis_soc.Approval.Lifecycle.Steps.{
  create_approval-IsValid, decide_approval-IsValid, execute_action-IsValid,
  rollback_execution-IsValid,
}
use aegis_soc.Approval.System.{
  empty_world, Step, create, decide, execute, rollback, Steps, here, next, Reachable,
}

empty_world-IsValid : IsValid empty_world
unfolding lookup
empty_world-IsValid = record { row = λ k a e. cc; count = λ k. refl; dry = tt }

pub Step-IsValid : {py : PyText} {w u : World} → Step py w u → IsValid w → IsValid u
Step-IsValid {py} {w} (create uuid now req audit) h =
    create_approval-IsValid py uuid now req audit w h
Step-IsValid {py} {w} (decide now k by d r audit) h = decide_approval-IsValid now k by d r audit w h
Step-IsValid {py} {w} (execute uuid hex now k by audit) h =
    execute_action-IsValid py uuid hex now k by audit w h
Step-IsValid {py} {w} (rollback uuid now k by r audit) h =
    rollback_execution-IsValid uuid now k by r audit w h

pub Steps-IsValid : {py : PyText} {w u : World} → Steps py w u → IsValid w → IsValid u
Steps-IsValid here h = h
Steps-IsValid (next s t) h = Step-IsValid t (Steps-IsValid s h)

pub Reachable-IsValid : {py : PyText} {w : World} → Reachable py w → IsValid w
Reachable-IsValid r = Steps-IsValid r empty_world-IsValid

-- In every reachable state an approval that is in the table stands under its own identifier; its
-- decision agrees with its status (none while pending, "approved" once approved, executed or rolled
-- back, and another text if rejected); and it has one execution if it is executed or rolled back,
-- and none otherwise.
pub reachable_row-Agrees :
    {py : PyText} {w : World} (k : String) (a : Approval)
    → Reachable py w
    → lookup k w.approvals ≡ some a
    → (a.approval_id ≡ k)
      × Agrees a.status a.decision
      × (length (executions_of k w) ≡ runs a.status)
reachable_row-Agrees {w} k a r found =
    let h = Reachable-IsValid r in
    ((h.row k a found).key, (h.row k a found).agrees, h.count k ∙ ap runs? found)

one-has_run :
    (s : Status) (d : Option String)
    → runs s ≡ 1
    → Agrees s d
    → ((s ≡ Status.executed) ⊎ (s ≡ Status.rolled_back)) × (d ≡ some "approved")
one-has_run Status.executed d r h = (inl refl, h)
one-has_run Status.rolled_back d r h = (inr refl, h)
one-has_run _ d r h = absurd (omega arith)

runs?-one :
    (o : Option Approval) (n : ℕ)
    → n ≡ runs? o
    → 1 ≤ n
    → (a : Approval) × (o ≡ some a) × (runs a.status ≡ 1)
runs?-one none n e h = absurd (omega arith)
runs?-one (some a) n e h = (a, refl, runs-one a.status (omega arith))
  where
    runs-one : (s : Status) → 1 ≤ runs s → runs s ≡ 1
    runs-one Status.executed h = refl
    runs-one Status.rolled_back h = refl
    runs-one _ h = absurd (omega arith)

-- In every reachable state an approval identifier that has at least one execution has exactly
-- one, and it belongs to an approval that was decided "approved" and is now executed or rolled
-- back: nothing runs without an approval, and nothing runs twice.
pub executed_once_after_approval :
    {py : PyText} {w : World} (k : String)
    → Reachable py w
    → 1 ≤ length (executions_of k w)
    → (length (executions_of k w) ≡ 1)
      × ((a : Approval) × (lookup k w.approvals ≡ some a)
          × (a.decision ≡ some "approved")
          × ((a.status ≡ Status.executed) ⊎ (a.status ≡ Status.rolled_back)))
executed_once_after_approval {w} k r ran =
    let h = Reachable-IsValid r in
    let (a, found, one) =
      runs?-one (lookup k w.approvals) (length (executions_of k w)) (h.count k) ran in
    let (state, agreed) = one-has_run a.status a.decision one (h.row k a found).agrees in
    (rw (h.count k, found) one, (a, found, agreed, state))
