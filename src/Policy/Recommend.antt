-- ===== src/Policy/Recommend.antt =====
-- The recommendation (services/response_policy/policy_core/recommend.py and store.py).
pub mod Safety
use aegis_soc.Common.{
  occurs, ℕ, String, Bool, true, false, Option, none, some, List, [], ◌∷◌, map, if◌then◌else◌,
  str_eq, truthy, ◌&&◌, keep,
}
use aegis_soc.Common.Dict.{Dict, lookup, insert, has_key, values}
use aegis_soc.Common.Floats.{Floats, ge, fmin}
use aegis_soc.Common.Order.{sort_desc}
use aegis_soc.Policy.Taxonomy.{
  Severity, ActionClass, action_value, action_classes, is_disruptive, Playbook, playbooks,
  allowed_actions,
}
use aegis_soc.Policy.Bandit.{◌>>=◌, Bandit, Vec, Mat, build_context, select, update}
use aegis_soc.Policy.Bandit.Process.{Process, get_bandit, persist_bandit}

-- `_OBJECTIVE_ALIASES`
abbrev pub objective_aliases : List (String × String)
objective_aliases =
    ("ransomware", "ransomware")
    ∷ ("phishing", "phishing")
    ∷ ("initial_access", "phishing")
    ∷ ("credential", "credential_access")
    ∷ ("lateral", "lateral_movement")
    ∷ ("command_and_control", "c2_beacon")
    ∷ ("c2", "c2_beacon")
    ∷ ("beacon", "c2_beacon")
    ∷ ("benign", "benign")
    ∷ ("recon", "recon")
    ∷ ("infrastructure", "c2_beacon")
    ∷ []

-- the loop over the aliases
unfoldable pub alias_of : String → List (String × String) → Option String
alias_of raw [] = none
alias_of raw ((needle, key) ∷ rest) = if occurs needle raw then some key else alias_of raw rest

-- What is not the program's own: `np.linalg.inv` (`none` where it raises), `s.lower().replace(" ", "_")`,
-- `s.replace("_", " ").title()`, and the text that an f-string makes of the numbers.
pub record Externals (f : Floats) : Type 0 where
  pub inv : Mat f → Option (Mat f)
  pub normalize : String → String
  pub title_of : String → String
  pub describe : String → f.Float → f.Float → Dict f.Float → String

-- `ActionRecommendation`
pub record Recommendation (f : Floats) : Type 0 where
  pub action_id : String
  pub case_id : String
  pub action_class : ActionClass
  pub title : String
  pub description : String
  pub impact_summary : String
  pub risk_if_executed : Severity
  pub disruptive : Bool
  pub dry_run_default : Bool
  pub playbook_id : Option String
  pub objective : String
  pub bandit_scores : Dict f.Float
  pub likely_objective_raw : String
  pub confidence : f.Float
  pub created_at : ℕ
  pub status : String

-- `_recommendations`, with the bandit of the process and its files
pub record Policy (f : Floats) : Type 0 where
  pub process : Process f
  pub recommendations : Dict (Recommendation f)

-- `ActionClass(value)`; `none` is its `ValueError`
unfoldable pub action_class_of : String → List ActionClass → Option ActionClass
unfolding action_value
action_class_of s [] = none
action_class_of s (a ∷ l) = if str_eq (action_value a) s then some a else action_class_of s l

abbrev some_or_empty : Option (List ActionClass) → List ActionClass
some_or_empty none = []
some_or_empty (some l) = l

-- the arms that an objective allows
unfoldable pub allowed_arms : String → List String
unfolding lookup action_value
allowed_arms objective = map action_value (some_or_empty (lookup objective allowed_actions))

module _ (f : Floats) (ext : Externals f) where
  unfoldable pub resolve_objective : String → f.Float → String
  unfolding alias_of lookup
  resolve_objective likely_objective risk_score =
      let raw = ext.normalize likely_objective in
      if has_key raw playbooks then raw else elim (alias_of raw objective_aliases) [
        | some key ↦ key
        | none ↦ if f.lt risk_score (f.milli 300) then "benign" else "recon"
      ]

  -- The action class and the scores: the three bands of the risk score.
  unfoldable pub choose :
      Bandit f → f.Float → Vec f → List String → Playbook → Option (ActionClass × Dict f.Float)
  unfolding select action_class_of
  choose bandit risk_score x allowed playbook =
      if f.lt risk_score (f.milli 250)
      then (do
        (_, scores) ← select f ext.inv bandit x allowed false
        some (ActionClass.ignore, scores))
      else if ge f risk_score (f.milli 550)
      then (do
        (_, scores) ← select f ext.inv bandit x allowed false
        some (playbook.action_class, scores))
      else do
        (chosen_arm, scores) ← select f ext.inv bandit x allowed true
        action_class ← action_class_of chosen_arm action_classes
        some (action_class, scores)

  -- `round(min(0.5 + 0.5 * risk_score, 0.99), 3)`
  unfoldable pub confidence : f.Float → f.Float
  confidence risk_score =
      f.round3 (fmin f (f.add (f.milli 500) (f.mul (f.milli 500) risk_score)) (f.milli 990))

  -- the record that `recommend_action` builds
  unfoldable pub build :
      (action_id case_id : String)
      → ℕ
      → f.Float
      → f.Float
      → (likely_objective objective : String) → Playbook
      → ActionClass
      → Dict f.Float
      → Recommendation f
  unfolding is_disruptive action_value confidence
  build action_id case_id now risk_score asset_criticality likely_objective objective playbook
        action_class scores =
      let disruptive = is_disruptive action_class in
      record {
        action_id = action_id;
        case_id = case_id;
        action_class = action_class;
        title =
            if str_eq (action_value action_class) (action_value playbook.action_class)
            then playbook.title
            else ext.title_of (action_value action_class);
        description = ext.describe objective risk_score asset_criticality scores;
        impact_summary =
            if disruptive
            then "Disruptive action: requires analyst/senior_analyst approval before any dry-run execution."
            else "Non-disruptive action: safe to record and notify without approval; still never auto-executed.";
        risk_if_executed = playbook.risk_if_executed;
        disruptive = disruptive;
        dry_run_default = true;
        playbook_id = playbook.playbook_id;
        objective = objective;
        bandit_scores = scores;
        likely_objective_raw = likely_objective;
        confidence = confidence risk_score;
        created_at = now;
        status = if disruptive then "pending" else "auto_applied_dry_run";
      }

  -- the recommendation that the bandit gives; `none` is an exception, here of a validation too:
  -- `confidence: float = Field(ge=0.0, le=1.0)`
  unfoldable pub recommended :
      (action_id case_id : String)
      → ℕ
      → f.Float
      → f.Float
      → (likely_objective objective : String) → Playbook
      → Bandit f
      → Option (Recommendation f)
  unfolding allowed_arms choose build build_context
  recommended action_id case_id now risk_score asset_criticality likely_objective objective playbook
        bandit =
      do
        let x = build_context f risk_score asset_criticality objective
        (action_class, scores) ← choose bandit risk_score x (allowed_arms objective) playbook
        let r =
            build action_id case_id now risk_score asset_criticality likely_objective objective
              playbook action_class scores
        if ge f r.confidence (f.milli 0) && f.le r.confidence (f.milli 1000) then some r else none

  -- what the rest of `recommend_action` does with the bandit, if there is one, and `register`
  abbrev pub registered :
      String
      → Policy f
      → (Bandit f → Option (Recommendation f))
      → Option (Bandit f) × Process f
      → Option (Recommendation f) × Policy f
  registered action_id p recommend (none, process) = (none, record p { process = process })
  registered action_id p recommend (some bandit, process) = elim (recommend bandit) [
    | none ↦ (none, record p { process = process })
    | some r ↦ (
      some r,
      record p { process = process; recommendations = insert action_id r p.recommendations },
    )
  ]

  -- `recommend_action`, and the state after it, an exception included
  unfoldable pub recommend_action :
      (action_id case_id : String)
      → ℕ
      → f.Float
      → f.Float
      → String
      → Policy f
      → Option (Recommendation f) × Policy f
  unfolding resolve_objective get_bandit recommended insert lookup
  recommend_action action_id case_id now risk_score asset_criticality likely_objective p =
      let objective = resolve_objective likely_objective risk_score in
      elim (lookup objective playbooks) [
        | none ↦ (none, p)
        | some playbook ↦
            registered action_id p
              (recommended action_id case_id now risk_score asset_criticality likely_objective
                objective playbook)
              (get_bandit f p.process)
      ]

-- `if x: values = [a for a in values if a.column == x]`
abbrev pub matches : Option String → String → Bool
matches none s = true
matches (some t) s = if truthy t then str_eq s t else true

module _ (f : Floats) where
  -- `record_outcome`: whether it returns, and the state after it, an exception included
  unfoldable pub record_outcome :
      String → f.Float → f.Float → String → f.Float → Policy f → Option (Unit {0}) × Policy f
  unfolding get_bandit update build_context lookup persist_bandit
  record_outcome action_class risk_score asset_criticality objective reward p =
      let (loaded, process) = get_bandit f p.process in
      elim loaded [
        | none ↦ (none, record p { process = process })
        | some bandit ↦
            if has_key action_class bandit.a_mat
            then (let (done, after) =
                  update f action_class (build_context f risk_score asset_criticality objective)
                    reward bandit in
                let changed : Process f = record process { global = some after } in
                elim (done >>= λ d. persist_bandit f changed) [
                  | none ↦ (none, record p { process = changed })
                  | some saved ↦ (some tt, record p { process = saved })
                ])
            else (some tt, record p { process = process })
      ]

  -- `list_all`, the newest first
  unfoldable pub list_all : Option String → Option String → Policy f → List (Recommendation f)
  unfolding sort_desc
  list_all case_id status p =
      sort_desc (λ r. r.created_at)
        (keep (λ r. matches status r.status)
          (keep (λ r. matches case_id r.case_id) (values p.recommendations)))

  -- `mark_status`
  unfoldable pub mark_status : String → String → Policy f → Policy f
  unfolding lookup insert
  mark_status action_id status p = elim (lookup action_id p.recommendations) [
    | none ↦ p
    | some r ↦ record p {
      recommendations = insert action_id (record r { status = status }) p.recommendations;
    }
  ]
