-- ===== src/Policy/Bandit.antt =====
-- The contextual bandit (services/response_policy/policy_core/bandit.py).
pub mod Shapes
pub mod Selection
pub mod Process
pub mod Learning
use aegis_soc.Common.{
  ℕ, suc, zero, ◌+◌, String, Bool, true, false, Option, none, some, List, [], ◌∷◌, map,
  if◌then◌else◌, str_eq, length, ltb, ◌==◌,
}
use aegis_soc.Common.Dict.{Dict, lookup, insert, has_key}
use aegis_soc.Common.Floats.{Floats}
use aegis_soc.Policy.Taxonomy.{action_value, action_classes, objectives}

-- a step that may raise
infixl 5 ◌>>=◌
abbrev pub ◌>>=◌ {ℓ κ} : {A : Type ℓ} {B : Type κ} → Option A → (A → Option B) → Option B
none >>= g = none
some a >>= g = g a

-- `ARMS`
unfoldable pub arms : List String
unfolding action_value
arms = map action_value action_classes

-- `allowed_arms or ARMS`
unfoldable pub candidates : List String → List String
unfolding arms
candidates [] = arms
candidates (a ∷ l) = a ∷ l

module _ (f : Floats) where
  open f use {Float, milli, lt, add, mul, sqrt}

  abbrev pub Vec : Type 0
  Vec = List Float

  abbrev pub Mat : Type 0
  Mat = List Vec

  -- `x @ y` of two vectors; `none` is the `ValueError` of different lengths
  unfoldable pub dot : Vec → Vec → Option Float
  dot [] [] = some (milli 0)
  dot (x ∷ xs) (y ∷ ys) = do rest ← dot xs ys; some (add (mul x y) rest)
  dot _ _ = none

  -- `m @ y`
  unfoldable pub mat_vec : Mat → Vec → Option Vec
  unfolding dot
  mat_vec [] y = some []
  mat_vec (row ∷ m) y = do first ← dot row y; rest ← mat_vec m y; some (first ∷ rest)

  -- `np.outer(x, y)`
  unfoldable pub outer : Vec → Vec → Mat
  outer x y = map (λ a. map (mul a) y) x

  -- The sums of two vectors, and of two matrices; `none` is the `ValueError` of different shapes.
  -- (A vector of length one, which numpy repeats, is none of the program's.)
  unfoldable pub add_vec : Vec → Vec → Option Vec
  add_vec [] [] = some []
  add_vec (x ∷ xs) (y ∷ ys) = do rest ← add_vec xs ys; some (add x y ∷ rest)
  add_vec _ _ = none

  unfoldable pub add_mat : Mat → Mat → Option Mat
  unfolding add_vec
  add_mat [] [] = some []
  add_mat (r ∷ m) (s ∷ n) = do first ← add_vec r s; rest ← add_mat m n; some (first ∷ rest)
  add_mat _ _ = none

  -- `np.zeros(dim)`
  unfoldable pub zeros : ℕ → Vec
  zeros zero = []
  zeros (suc n) = milli 0 ∷ zeros n

  -- `x @ m`, of a matrix with rows of length `n`: the sum of its rows, each times an entry of `x`
  unfoldable pub sum_rows : ℕ → Vec → Mat → Option Vec
  unfolding zeros add_vec
  sum_rows n [] [] = some (zeros n)
  sum_rows n (x ∷ xs) (row ∷ m) = do rest ← sum_rows n xs m; add_vec (map (mul x) row) rest
  sum_rows n _ _ = none

  abbrev pub width : Mat → ℕ
  width [] = 0
  width (row ∷ m) = length row

  unfoldable pub vec_mat : Vec → Mat → Option Vec
  unfolding sum_rows
  vec_mat x m = sum_rows (width m) x m

  -- row `i` of the unit matrix, and its rows from `i` on
  unfoldable pub eye_row : ℕ → ℕ → Vec
  eye_row zero i = []
  eye_row (suc n) zero = milli 1000 ∷ zeros n
  eye_row (suc n) (suc i) = milli 0 ∷ eye_row n i

  unfoldable pub eye_rows : ℕ → ℕ → ℕ → Mat
  eye_rows n zero i = []
  eye_rows n (suc k) i = eye_row n i ∷ eye_rows n k (suc i)

  -- `np.eye(dim)`
  unfoldable pub eye : ℕ → Mat
  unfolding eye_rows eye_row zeros
  eye n = eye_rows n n 0

  -- `LinUCBBandit`: `A`, `b` and `pulls` are dicts over the arms
  pub record Bandit : Type 0 where
    pub alpha : Float
    pub a_mat : Dict Mat
    pub b_vec : Dict Vec
    pub pulls : Dict ℕ

  -- `FEATURE_DIM`
  abbrev pub feature_dim : ℕ
  feature_dim = 3 + length objectives

  -- a dict over the arms, with one value
  abbrev pub over_arms {ℓ} : {V : Type ℓ} → V → List String → Dict V
  over_arms v = map (λ arm. (arm, v))

  -- `LinUCBBandit()`
  unfoldable pub new_bandit : Bandit
  unfolding arms eye zeros
  new_bandit = record {
    alpha = milli 600;
    a_mat = over_arms (eye feature_dim) arms;
    b_vec = over_arms (zeros feature_dim) arms;
    pulls = over_arms 0 arms;
  }

  -- `build_context`
  unfoldable pub build_context : Float → Float → String → Vec
  build_context risk_score asset_criticality objective =
      milli 1000
      ∷ risk_score
      ∷ asset_criticality
      ∷ map (λ o. if str_eq objective o then milli 1000 else milli 0) objectives

  -- `score`; `inv` is `np.linalg.inv`, and `none` an exception: of a missing key, of a matrix that
  -- has no inverse, or of shapes that do not fit
  unfoldable pub score : (Mat → Option Mat) → Bandit → String → Vec → Bool → Option Float
  unfolding dot mat_vec vec_mat lookup
  score inv bandit arm x explore = do
    a ← lookup arm bandit.a_mat
    a_inv ← inv a
    b ← lookup arm bandit.b_vec
    theta ← mat_vec a_inv b
    mean ← dot theta x
    if explore
        then (do
          left ← vec_mat x a_inv
          square ← dot left x
          some (add mean (mul bandit.alpha (sqrt square))))
        else some mean

  -- `{arm: self.score(arm, x, explore=explore) for arm in candidates}`
  unfoldable pub scores_of :
      (Mat → Option Mat) → Bandit → Vec → Bool → List String → Option (Dict Float)
  unfolding score
  scores_of inv bandit x explore [] = some []
  scores_of inv bandit x explore (arm ∷ rest) = do
    s ← score inv bandit arm x explore
    others ← scores_of inv bandit x explore rest
    some ((arm, s) ∷ others)

  -- `max(scores, key=scores.get)`: the first arm that no later one beats
  unfoldable pub best_from : String × Float → Dict Float → String × Float
  best_from best [] = best
  best_from best (e ∷ rest) = best_from (if lt best.1 e.1 then e else best) rest

  -- `none` is the `ValueError` of `max` on an empty dict
  unfoldable pub best_of : Dict Float → Option String
  unfolding best_from
  best_of [] = none
  best_of (e ∷ rest) = some (best_from e rest).0

  -- `select`, among the candidates `allowed_arms or ARMS`
  unfoldable pub select :
      (Mat → Option Mat) → Bandit → Vec → List String → Bool → Option (String × Dict Float)
  unfolding scores_of best_of candidates
  select inv bandit x allowed explore = do
    scores ← scores_of inv bandit x explore (candidates allowed)
    best ← best_of scores
    some (best, scores)

  -- A method of the bandit that may raise: its result, and the bandit after it, an exception
  -- included.
  abbrev pub Run : Type 0 → Type 0
  Run A = Option A × Bandit

  -- `update`, line by line from the last: an exception leaves what the lines before it have changed
  unfoldable pub update_pulls : String → Bandit → Run (Unit {0})
  unfolding lookup insert
  update_pulls arm bandit = elim (lookup arm bandit.pulls) [
    | none ↦ (none, bandit)
    | some n ↦ (some tt, record bandit { pulls = insert arm (n + 1) bandit.pulls })
  ]

  unfoldable pub update_b : String → Vec → Float → Bandit → Run (Unit {0})
  unfolding lookup insert add_vec update_pulls
  update_b arm x reward bandit =
      elim (do b ← lookup arm bandit.b_vec; add_vec b (map (mul reward) x)) [
        | none ↦ (none, bandit)
        | some b ↦ update_pulls arm (record bandit { b_vec = insert arm b bandit.b_vec })
      ]

  unfoldable pub update : String → Vec → Float → Bandit → Run (Unit {0})
  unfolding lookup insert add_mat outer update_b
  update arm x reward bandit = elim (do a ← lookup arm bandit.a_mat; add_mat a (outer x x)) [
    | none ↦ (none, bandit)
    | some a ↦ update_b arm x reward (record bandit { a_mat = insert arm a bandit.a_mat })
  ]

  -- a logged episode
  pub record Episode : Type 0 where
    pub risk_score : Float
    pub asset_criticality : Float
    pub objective : String
    pub action_class : String
    pub reward : Float

  abbrev and_then : {A B : Type 0} → Run A → (A → Bandit → Run B) → Run B
  and_then (none, b) g = (none, b)
  and_then (some a, b) g = g a b

  -- the body of the loop of `warm_start`
  unfoldable pub learn : Episode → Bandit → ℕ → Run ℕ
  unfolding update build_context lookup
  learn ep bandit count =
      if has_key ep.action_class bandit.a_mat
      then and_then
          (update ep.action_class (build_context ep.risk_score ep.asset_criticality ep.objective)
            ep.reward bandit)
          (λ done after. (some (count + 1), after))
      else (some count, bandit)

  unfoldable pub learn_all : List Episode → Bandit → ℕ → Run ℕ
  unfolding learn
  learn_all [] bandit count = (some count, bandit)
  learn_all (ep ∷ episodes) bandit count =
      and_then (learn ep bandit count) (λ n after. learn_all episodes after n)

  -- `warm_start`
  unfoldable pub warm_start : Bandit → List Episode → Run ℕ
  unfolding learn_all
  warm_start bandit episodes = learn_all episodes bandit 0
