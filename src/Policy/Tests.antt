-- ===== src/Policy/Tests.antt =====
-- The response policy at concrete inputs. The floats are thousandths, and the scores are compared
-- as they are on numbers.
use aegis_soc.Common.{
  ℕ, ◌≤◌, String, ◌≡◌, refl, ◌∙◌, true, Option, none, some, length, List, [], ◌∷◌, map, contains,
}
use aegis_soc.Common.Dict.{Dict, lookup, has_key}
use aegis_soc.Common.Thousandths.{thousandths, thousandths-IsOrder}
use aegis_soc.Policy.Objectives.{
  objective_of, infer_objective, urgency, infer_objective-most_urgent,
}
use aegis_soc.Policy.Bandit.{
  Bandit, Episode, arms, candidates, select, new_bandit, build_context, warm_start, feature_dim,
}
use aegis_soc.Policy.Bandit.Shapes.{CanScore}
use aegis_soc.Policy.Bandit.Selection.{Outranks, select-best}
use aegis_soc.Policy.Bandit.Learning.{
  IsShaped, LearnsAll, about, count_of, new_bandit-IsShaped, new_bandit-arms, warm_start-counts,
}
use aegis_soc.Policy.Bandit.Process.{Process, get_bandit, load_feedback_log}
use aegis_soc.Policy.Bandit.Process.Start.{get_bandit-starts}
use aegis_soc.Policy.Recommend.{Externals, Policy}
use aegis_soc.Policy.Recommend.Safety.{all-contains}

abbrev tactics : Dict String
tactics = ("T1486", "impact") ∷ ("T1082", "discovery") ∷ []

abbrev techniques : List String
techniques = "T1082" ∷ "T1486" ∷ []

infer_objective-most_urgent_example :
    (contains
        (map (objective_of tactics) techniques)
        (infer_objective thousandths tactics techniques 100)
      ≡ true)
    × (urgency (infer_objective thousandths tactics techniques 100)
        ≤ urgency (objective_of tactics "T1486"))
infer_objective-most_urgent_example =
    infer_objective-most_urgent thousandths tactics techniques 100 "T1486" refl

abbrev bandit : Bandit thousandths
bandit = new_bandit thousandths

abbrev context : List ℕ
context = build_context thousandths 700 500 "phishing"

-- every matrix is taken for its own inverse, as the unit matrix is
abbrev inverse : List (List ℕ) → Option (List (List ℕ))
inverse m = some m

abbrev arms_tried : List String
arms_tried = "notify" ∷ "escalate" ∷ []

escalate-candidate : contains (candidates arms_tried) "escalate" ≡ true
unfolding candidates
escalate-candidate = refl

bandit-scored : (a : String) → contains arms a ≡ true → CanScore thousandths inverse bandit 10 a
bandit-scored a h =
    let ((m, is_m, square), (b, is_b, len), _) =
      new_bandit-IsShaped thousandths a (new_bandit-arms thousandths a ∙ h) in
    (m, m, b, is_m, refl, is_b, square, len)

tried-scored :
    (a : String)
    → contains (candidates arms_tried) a ≡ true
    → CanScore thousandths inverse bandit (length context) a
unfolding candidates arms build_context
tried-scored a h = bandit-scored a (all-contains (contains arms) arms_tried a refl h)

select-best_example :
    Outranks thousandths inverse bandit context true thousandths-IsOrder
      (candidates arms_tried)
      "escalate"
      (select thousandths inverse bandit context arms_tried true)
select-best_example =
    select-best thousandths inverse bandit context true thousandths-IsOrder arms_tried "escalate"
      tried-scored escalate-candidate

abbrev episode : Episode thousandths
episode = record {
  risk_score = 700;
  asset_criticality = 500;
  objective = "phishing";
  action_class = "notify";
  reward = 1000;
}

warm_start-counts_example :
    LearnsAll thousandths (episode ∷ []) bandit 0 (warm_start thousandths bandit (episode ∷ []))
warm_start-counts_example =
    warm_start-counts thousandths bandit (episode ∷ []) (new_bandit-IsShaped thousandths)

abbrev externals : Externals thousandths
externals = record {
  inv = inverse;
  normalize = λ s. s;
  title_of = λ s. s;
  describe = λ o r c scores. o;
}

-- a process that has its bandit
abbrev running : Process thousandths
running = record {
  global = some bandit;
  files = record { bandit_state = none; feedback_log = none; writable = true };
}

-- a process that has none yet, and a log of one episode
abbrev fresh : Process thousandths
fresh = record {
  global = none;
  files = record {
    bandit_state = none;
    feedback_log = some (some (episode ∷ []));
    writable = true;
  };
}

fresh-log : load_feedback_log thousandths fresh.files ≡ some (episode ∷ [])
unfolding load_feedback_log
fresh-log = refl

get_bandit-starts_example :
    (b : Bandit thousandths) × (after : Process thousandths) × (get_bandit thousandths fresh
      ≡ (some b, after))
    × (get_bandit thousandths after ≡ (some b, after))
    × IsShaped thousandths (feature_dim thousandths) b
    × ((arm : String)
        → contains arms arm ≡ true
        → (has_key arm b.a_mat ≡ true) × (count_of (lookup arm b.pulls) ≡ about arm (episode ∷ [])))
get_bandit-starts_example =
    get_bandit-starts thousandths fresh (episode ∷ []) refl refl fresh-log refl

abbrev policy : Policy thousandths
policy = record { process = running; recommendations = [] }
