-- ===== src/Approval/Lifecycle.antt =====
-- The invariant of the approval tables, and its upkeep by the three kinds of table updates.
pub mod Steps
use aegis_soc.Common.{
  ℕ, String, ◌≡◌, ◌≢◌, true, Option, none, some, List, [], ◌∷◌, ◌++◌, arith, str_eq, str_eq_iff,
  length, keep, All, keep-append, length-append, All-append,
}
use aegis_soc.Common.Dict.{Dict, lookup, insert, lookup-insert}
use aegis_soc.Approval.Records.{Status, Approval, Execution, World}

-- What the columns `status` and `decision` may be together.
abbrev pub Agrees : Status → Option String → Type 0
Agrees Status.pending d = d ≡ none
Agrees Status.rejected d = (t : String) × (d ≡ some t) × (t ≢ "approved")
Agrees Status.approved d = d ≡ some "approved"
Agrees Status.executed d = d ≡ some "approved"
Agrees Status.rolled_back d = d ≡ some "approved"

-- How many executions an approval in this state has.
abbrev pub runs : Status → ℕ
runs Status.executed = 1
runs Status.rolled_back = 1
runs _ = 0

abbrev pub runs? : Option Approval → ℕ
runs? none = 0
runs? (some a) = runs a.status

abbrev pub of_approval : String → List Execution → List Execution
of_approval k es = keep (λ e. str_eq e.approval_id k) es

-- A row under its own key, its decision in agreement with its status.
pub record IsRow (k : String) (a : Approval) : Type 0 where
  pub key : a.approval_id ≡ k
  pub agrees : Agrees a.status a.decision

pub record IsSound (d : Dict Approval) (es : List Execution) : Type 0 where
  pub row : (k : String) (a : Approval) → lookup k d ≡ some a → IsRow k a
  pub count : (k : String) → length (of_approval k es) ≡ runs? (lookup k d)
  pub dry : All (λ e. e.dry_run ≡ true) es

abbrev pub IsValid : World → Type 0
IsValid w = IsSound w.approvals w.executions

-- Row `k` is written, and its number of executions does not change.
pub insert-IsSound :
    (k : String) (a : Approval) (d : Dict Approval) (es : List Execution)
    → IsRow k a
    → runs a.status ≡ runs? (lookup k d)
    → IsSound d es
    → IsSound (insert k a d) es
insert-IsSound k a d es r same h = record {
  row = λ j b e. let l = lookup-insert k j a d in ground (arith, l, h.row j b, str_eq_iff k j);
  count = λ j. ground (arith, lookup-insert k j a d, h.count j, str_eq_iff k j);
  dry = h.dry;
}

-- Row `k` is written together with its first execution.
pub insert-IsSound_execution :
    (k : String) (a : Approval) (e : Execution) (d : Dict Approval) (es : List Execution)
    → IsRow k a
    → runs? (lookup k d) ≡ 0
    → runs a.status ≡ 1
    → e.approval_id ≡ k
    → e.dry_run ≡ true
    → IsSound d es
    → IsSound (insert k a d) (es ++ (e ∷ []))
insert-IsSound_execution k a e d es r before after own dry h = record {
  row = λ j b p. let l = lookup-insert k j a d in ground (arith, l, h.row j b, str_eq_iff k j);
  count = λ j. ground (
    arith,
    lookup-insert k j a d,
    h.count j,
    str_eq_iff k j,
    str_eq_iff e.approval_id j,
    keep-append (λ x. str_eq x.approval_id j) es (e ∷ []),
    length-append (of_approval j es) (of_approval j (e ∷ [])),
  );
  dry = All-append (λ x. x.dry_run ≡ true) es (e ∷ []) h.dry (dry, tt);
}
