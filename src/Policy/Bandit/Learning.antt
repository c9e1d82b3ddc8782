-- ===== src/Policy/Bandit/Learning.antt =====
-- What learning does to the bandit.
use aegis_soc.Common.{
  ℕ, ◌+◌, String, ◌≡◌, refl, ap, ◌∙◌, inl, inr, true, Option, none, some, List, [], ◌∷◌, arith,
  if◌then◌else◌, str_eq, str_eq_iff, Bool-cases, contains, map, length,
}
use aegis_soc.Common.Dict.{lookup, insert, has_key, lookup-insert, has_key-insert}
use aegis_soc.Common.Floats.{Floats}
use aegis_soc.Policy.Bandit.{
  Bandit, Vec, Mat, Run, outer, build_context, new_bandit, update, update_b, update_pulls, arms,
  Episode, learn, learn_all, warm_start, feature_dim, eye, zeros,
}
use aegis_soc.Policy.Bandit.Shapes.{
  IsSquare, add_vec-returns, add_mat-returns, outer-IsSquare, length-map,
}

-- how many of the episodes are about an arm, and how many are about any arm that the bandit has
abbrev pub about : {f : Floats} → String → List (Episode f) → ℕ
about arm [] = 0
about arm (ep ∷ eps) = (if str_eq ep.action_class arm then 1 else 0) + about arm eps

abbrev pub known : {f : Floats} → Bandit f → List (Episode f) → ℕ
known b [] = 0
known b (ep ∷ eps) = (if has_key ep.action_class b.a_mat then 1 else 0) + known b eps

abbrev pub count_of : Option ℕ → ℕ
count_of none = 0
count_of (some n) = n

lookup-over_arms {ℓ κ} :
    {V : Type ℓ} {W : Type κ} (arm : String) (v : V) (w : W) (l : List String)
    → has_key arm (map (λ a. (a, w)) l) ≡ true
    → lookup arm (map (λ a. (a, v)) l) ≡ some v
unfolding lookup
lookup-over_arms arm v w [] h = cc h
lookup-over_arms arm v w (a ∷ l) h = ground (arith, lookup-over_arms arm v w l)

has_key-over_arms {ℓ} :
    {V : Type ℓ} (arm : String) (v : V) (l : List String)
    → has_key arm (map (λ a. (a, v)) l) ≡ contains l arm
unfolding lookup
has_key-over_arms arm v [] = refl
has_key-over_arms arm v (a ∷ l) = ground (arith, has_key-over_arms arm v l)

module _ (f : Floats) where
  -- An arm has a square matrix and a vector, of size `n`, and a count.
  abbrev pub IsArm : ℕ → Bandit f → String → Type 0
  IsArm n bandit arm =
      ((a : Mat f) × (lookup arm bandit.a_mat ≡ some a) × IsSquare f n a)
      × ((b : Vec f) × (lookup arm bandit.b_vec ≡ some b) × (length b ≡ n))
      × ((k : ℕ) × (lookup arm bandit.pulls ≡ some k))

  -- The matrices, the vectors and the counts are over the same arms and of size `n`.
  abbrev pub IsShaped : ℕ → Bandit f → Type 0
  IsShaped n bandit = (arm : String) → has_key arm bandit.a_mat ≡ true → IsArm n bandit arm

  -- what an update of `arm` has done to the bandit
  abbrev Learned : ℕ → String → Bandit f → Bandit f → Type 0
  Learned n arm before after =
      IsShaped n after
      × ((j : String) → has_key j after.a_mat ≡ has_key j before.a_mat)
      × ((j : String)
          → count_of (lookup j after.pulls)
            ≡ (if str_eq arm j then 1 else 0) + count_of (lookup j before.pulls))

  abbrev inserted : String → Mat f → Vec f → ℕ → Bandit f → Bandit f
  inserted arm a b k bandit = record bandit {
    a_mat = insert arm a bandit.a_mat;
    b_vec = insert arm b bandit.b_vec;
    pulls = insert arm (k + 1) bandit.pulls;
  }

  inserted-IsArm :
      (n : ℕ) (bandit : Bandit f) (arm j : String) (a : Mat f) (b : Vec f) (k : ℕ)
      → IsShaped n bandit
      → IsSquare f n a
      → length b ≡ n
      → has_key j (insert arm a bandit.a_mat) ≡ true
      → IsArm n (inserted arm a b k bandit) j
  inserted-IsArm n bandit arm j a b k shaped square len h =
      rw
        (
          lookup-insert arm j a bandit.a_mat,
          lookup-insert arm j b bandit.b_vec,
          lookup-insert arm j (k + 1) bandit.pulls,
        )
        (elim (Bool-cases (str_eq arm j)) [
          | inl same ↦ rw same ((a, refl, square), (b, refl, len), (k + 1, refl))
          | inr other ↦
              rw other (shaped j (ground (arith, h, other, has_key-insert arm j a bandit.a_mat)))
        ])

  inserted-Learned :
      (n : ℕ) (bandit : Bandit f) (arm : String) (a : Mat f) (b : Vec f) (k : ℕ)
      → IsShaped n bandit
      → has_key arm bandit.a_mat ≡ true
      → lookup arm bandit.pulls ≡ some k
      → IsSquare f n a
      → length b ≡ n
      → Learned n arm bandit (inserted arm a b k bandit)
  inserted-Learned n bandit arm a b k shaped h pulled square len = (
    λ j there. inserted-IsArm n bandit arm j a b k shaped square len there,
    λ j. ground (arith, h, has_key-insert arm j a bandit.a_mat, str_eq_iff arm j),
    λ j. ground (arith, pulled, lookup-insert arm j (k + 1) bandit.pulls, str_eq_iff arm j),
  )

  update-returns :
      (arm : String) (x : Vec f) (reward : f.Float) (bandit : Bandit f)
      → IsShaped (length x) bandit
      → has_key arm bandit.a_mat ≡ true
      → (after : Bandit f) × (update f arm x reward bandit ≡ (some tt, after))
        × Learned (length x) arm bandit after
  unfolding update update_b update_pulls
  update-returns arm x reward bandit shaped h =
      let ((a, is_a, square), (b, is_b, len), (k, is_k)) = shaped arm h in
      let scaled = map (f.mul reward) x in
      let outer_square = outer-IsSquare f x in
      let (a', is_sum, rows, cols) =
        add_mat-returns f (length x) a (outer f x x) (omega (arith, square.0, outer_square.0))
          square.1 outer_square.1 in
      let (b', is_step, len') =
        add_vec-returns f b scaled (omega (arith, len, length-map (f.mul reward) x)) in
      (
        inserted arm a' b' k bandit,
        rw (update, is_a, is_sum, update_b, is_b, is_step, update_pulls, is_k) refl,
        inserted-Learned (length x) bandit arm a' b' k shaped h is_k (rows ∙ square.0, cols)
            (len' ∙ len),
      )

  -- what `learn` does with one episode
  abbrev Learns : ℕ → Episode f → Bandit f → ℕ → Bandit f → Type 0
  Learns n ep before count after =
      (learn f ep before count
        ≡ (some ((if has_key ep.action_class before.a_mat then 1 else 0) + count), after))
      × IsShaped n after
      × ((j : String) → has_key j after.a_mat ≡ has_key j before.a_mat)
      × ((j : String)
          → has_key j before.a_mat ≡ true
          → count_of (lookup j after.pulls)
            ≡ (if str_eq ep.action_class j then 1 else 0) + count_of (lookup j before.pulls))

  learn-returns :
      (ep : Episode f) (bandit : Bandit f) (count : ℕ)
      → IsShaped (feature_dim f) bandit
      → (after : Bandit f) × Learns (feature_dim f) ep bandit count after
  unfolding learn build_context
  learn-returns ep bandit count shaped = elim (Bool-cases (has_key ep.action_class bandit.a_mat)) [
    | inl there ↦
        let x = build_context f ep.risk_score ep.asset_criticality ep.objective in
        let (after, is, (learned, same, pulls)) =
          update-returns ep.action_class x ep.reward bandit shaped there in
        (
          after,
          (
            rw (learn, there, is) (ap (λ n. (some n, after)) (omega arith)),
            learned,
            same,
            λ j h. pulls j,
          ),
        )
    | inr unknown ↦ (
      bandit,
      (
        rw (learn, unknown) (ap (λ n. (some n, bandit)) (omega arith)),
        shaped,
        λ j. refl,
        λ j h. ground (arith, h, unknown, str_eq_iff ep.action_class j),
      ),
    )
  ]

  known-same :
      (b c : Bandit f) (eps : List (Episode f))
      → ((j : String) → has_key j c.a_mat ≡ has_key j b.a_mat)
      → known c eps ≡ known b eps
  known-same b c [] h = refl
  known-same b c (ep ∷ eps) h = ground (arith, known-same b c eps h, h ep.action_class)

  -- what learning from all the episodes has done, to the bandit and the count
  abbrev pub LearnsAll : List (Episode f) → Bandit f → ℕ → Run f ℕ → Type 0
  LearnsAll eps before count result =
      (after : Bandit f) × (result ≡ (some (known before eps + count), after))
      × IsShaped (feature_dim f) after
      × ((j : String) → has_key j after.a_mat ≡ has_key j before.a_mat)
      × ((j : String)
          → has_key j before.a_mat ≡ true
          → count_of (lookup j after.pulls) ≡ about j eps + count_of (lookup j before.pulls))

  learn_all-returns :
      (eps : List (Episode f)) (bandit : Bandit f) (count : ℕ)
      → IsShaped (feature_dim f) bandit
      → LearnsAll eps bandit count (learn_all f eps bandit count)
  unfolding learn_all
  learn_all-returns [] bandit count shaped =
      (bandit, ap (λ n. (some n, bandit)) (omega arith), shaped, λ j. refl, λ j h. omega arith)
  learn_all-returns (ep ∷ eps) bandit count shaped =
      let (next, (is, shaped', same, pulls)) = learn-returns ep bandit count shaped in
      let more = (if has_key ep.action_class bandit.a_mat then 1 else 0) + count in
      let (after, run, shaped'', same', all_) = learn_all-returns eps next more shaped' in
      (
        after,
        rw (learn_all, is)
            (run ∙ ap (λ n. (some n, after)) (omega (arith, known-same bandit next eps same))),
        shaped'',
        λ j. same' j ∙ same j,
        λ j h. omega (arith, all_ j (same j ∙ h), pulls j h),
      )

  -- On a bandit whose matrices, vectors and counts are over the same arms and of the context's size,
  -- `warm_start` raises nothing. It returns the number of episodes whose action class is one of the
  -- arms, has raised the count of each arm by the number of episodes about it, and leaves a bandit of
  -- that form with the same arms.
  pub warm_start-counts :
      (bandit : Bandit f) (eps : List (Episode f))
      → IsShaped (feature_dim f) bandit
      → LearnsAll eps bandit 0 (warm_start f bandit eps)
  unfolding warm_start
  warm_start-counts bandit eps shaped = learn_all-returns eps bandit 0 shaped

  -- A fresh bandit has that form.
  pub new_bandit-IsShaped : IsShaped (feature_dim f) (new_bandit f)
  unfolding new_bandit lookup arms eye zeros
  new_bandit-IsShaped arm h = (
    (eye f (feature_dim f), lookup-over_arms arm _ _ arms h, (refl, refl)),
    (zeros f (feature_dim f), lookup-over_arms arm _ _ arms h, refl),
    (0, lookup-over_arms arm _ _ arms h),
  )

  pub new_bandit-arms : (arm : String) → has_key arm (new_bandit f).a_mat ≡ contains arms arm
  unfolding new_bandit arms eye zeros
  new_bandit-arms arm = has_key-over_arms arm _ arms
