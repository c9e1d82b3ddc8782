-- ===== src/Policy/Recommend/Safety.antt =====
-- A recommendation is always made, and a disruptive one always waits for an approval.
use aegis_soc.Common.{
  String, ◌≡◌, ◌⊎◌, sym, inl, inr, Bool, true, false, ◌&&◌, Option, some, List, [], ◌∷◌, map, arith,
  if◌then◌else◌, str_eq, str_eq_iff, contains, Bool-cases, all,
}
use aegis_soc.Common.Dict.{Dict, lookup}
use aegis_soc.Common.Floats.{Floats}
use aegis_soc.Policy.Taxonomy.{
  ActionClass, action_value, action_classes, is_disruptive, Playbook, playbooks,
}
use aegis_soc.Policy.Bandit.{Bandit, arms, feature_dim}
use aegis_soc.Policy.Bandit.Process.{Process}
use aegis_soc.Policy.Bandit.Shapes.{CanScore}
use aegis_soc.Policy.Recommend.{Externals, Recommendation, Policy, allowed_arms}

-- One playbook, found for each of these.
abbrev Found : String → Type 0
Found o = (p : Playbook) × (lookup o playbooks ≡ some p)

-- A playbook's action is one of those that its objective allows, and these are action classes.
abbrev fits : String × Playbook → Bool
fits (o, p) =
    contains (allowed_arms o) (action_value p.action_class)
    && all (contains (map action_value action_classes)) (allowed_arms o)

pub all-contains :
    (p : String → Bool) (l : List String) (s : String)
    → all p l ≡ true
    → contains l s ≡ true
    → p s ≡ true
all-contains p [] s h e = cc
all-contains p (x ∷ l) s h e = elim (Bool-cases (str_eq x s)) [
  | inl same ↦ rw (sym ((str_eq_iff x s).0 same)) (ground (arith, h))
  | inr other ↦ all-contains p l s (ground (arith, h)) (ground (arith, e, other))
]

-- Every arm can be scored, for a context of the length that it has.
abbrev pub CanScoreAll : (f : Floats) → Externals f → Bandit f → Type 0
CanScoreAll f ext b = (a : String) → contains arms a ≡ true → CanScore f ext.inv b (feature_dim f) a

-- A risk below 0.25 is ignored; any other gets an action that the objective allows.
abbrev pub Fitting : (f : Floats) → f.Float → String → ActionClass → Type 0
Fitting f risk objective action =
    ((f.lt risk (f.milli 250) ≡ true) × (action ≡ ActionClass.ignore))
    ⊎ ((f.lt risk (f.milli 250) ≡ false)
        × (contains (allowed_arms objective) (action_value action) ≡ true))

-- what `choose` returns, for any risk
abbrev Chosen : (f : Floats) → f.Float → String → Option (ActionClass × Dict f.Float) → Type 0
Chosen f risk o result =
    (action : ActionClass) × (scores : Dict f.Float) × (result ≡ some (action, scores))
    × Fitting f risk o action

-- what holds of a recommendation for the objective `o`
abbrev pub Complies : (f : Floats) → f.Float → String → Recommendation f → Type 0
Complies f risk o r =
    (r.dry_run_default ≡ true)
    × Fitting f risk o r.action_class
    × (r.status ≡ (if is_disruptive r.action_class then "pending" else "auto_applied_dry_run"))
