-- ===== src/Policy/Bandit/Selection.antt =====
-- Which arm the bandit selects.
use mathlib.Core.Path.{subst}
use aegis_soc.Common.{
  String, ◌≡◌, refl, ap, inl, inr, Bool, true, false, Option, some, List, [], ◌∷◌, arith, str_eq,
  str_eq_iff, contains, Bool-cases, map, length,
}
use aegis_soc.Common.Dict.{Dict}
use aegis_soc.Common.Floats.{Floats, IsOrder}
use aegis_soc.Policy.Bandit.{
  ◌>>=◌, Bandit, Vec, Mat, score, scores_of, best_from, best_of, select, candidates,
}
use aegis_soc.Policy.Bandit.Shapes.{CanScore, score-returns}

-- the arms of a list of scores
abbrev pub keys {ℓ} : {V : Type ℓ} → Dict V → List String
keys = map (λ e. e.0)

module _ (f : Floats) (inv : Mat f → Option (Mat f)) (bandit : Bandit f) (x : Vec f)
    (explore : Bool) where
  -- Each entry holds the score of its arm.
  abbrev pub IsScored : Dict f.Float → Type 0
  IsScored [] = Unit
  IsScored ((arm, s) ∷ d) = (score f inv bandit arm x explore ≡ some s) × IsScored d

  -- Where every candidate can be scored, there is one score of each.
  pub scores_of-returns :
      (l : List String)
      → ((arm : String) → contains l arm ≡ true → CanScore f inv bandit (length x) arm)
      → (d : Dict f.Float) × (scores_of f inv bandit x explore l ≡ some d)
        × (keys d ≡ l)
        × IsScored d
  unfolding scores_of
  scores_of-returns [] can = ([], refl, refl, tt)
  scores_of-returns (arm ∷ l) can =
      let (s, e) =
        score-returns f inv bandit arm x explore (can arm (ground (arith, str_eq_iff arm arm))) in
      let (d, is, same, scored) = scores_of-returns l (λ a h. can a (ground (arith, h))) in
      rw (scores_of, e, is) ((arm, s) ∷ d, refl, ap (λ l. arm ∷ l) same, (e, scored))

  best_from-member :
      (best : String × f.Float) (rest : Dict f.Float)
      → contains (best.0 ∷ keys rest) (best_from f best rest).0 ≡ true
  unfolding best_from
  best_from-member best [] = ground (arith, str_eq_iff best.0 best.0)
  best_from-member best (e ∷ rest) =
      ground (arith, best_from-member e rest, best_from-member best rest)

  best_of-member :
      (d : Dict f.Float) (arm : String)
      → contains (keys d) arm ≡ true
      → (best : String) × (best_of f d ≡ some best) × (contains (keys d) best ≡ true)
  unfolding best_of
  best_of-member [] arm h = cc h
  best_of-member (e ∷ d) arm h = (_, refl, best_from-member e d)

  -- Where every candidate can be scored and there is one, `select` returns one of them.
  pub select-member :
      (allowed : List String) (arm : String)
      → ((a : String) → contains (candidates allowed) a ≡ true → CanScore f inv bandit (length x) a)
      → contains (candidates allowed) arm ≡ true
      → (best : String) × (scores : Dict f.Float) × (select f inv bandit x allowed explore
          ≡ some (best, scores))
        × (contains (candidates allowed) best ≡ true)
  unfolding select
  select-member allowed arm can h =
      let (d, is, same, scored) = scores_of-returns (candidates allowed) can in
      let (best, top, here) = best_of-member d arm (rw same h) in
      (best, d, rw (select, is, top) refl, rw (← same) here)

  -- The winner of the scan is one of the entries, and no entry has a greater score.
  module _ (o : IsOrder f) where
    Beats : f.Float → String → Type 0
    Beats s arm = (t : f.Float) × (score f inv bandit arm x explore ≡ some t) × (f.lt s t ≡ false)

    best_from-best :
        (best : String × f.Float) (rest : Dict f.Float)
        → score f inv bandit best.0 x explore ≡ some best.1
        → IsScored rest
        → let w = best_from f best rest in
          (contains (best.0 ∷ keys rest) w.0 ≡ true)
          × (score f inv bandit w.0 x explore ≡ some w.1)
          × (f.lt w.1 best.1 ≡ false)
          × ((arm : String) → contains (keys rest) arm ≡ true → Beats w.1 arm)
    unfolding best_from Beats
    best_from-best best [] is scored =
        (ground (arith, str_eq_iff best.0 best.0), is, o.irrefl best.1, λ arm h. cc h)
    best_from-best best ((a, s) ∷ rest) is scored = elim (Bool-cases (f.lt best.1 s)) [
      | inl better ↦
          let (here, won, top, all_) = best_from-best (a, s) rest scored.0 scored.1 in
          let w = best_from f (a, s) rest in
          rw (best_from, better)
            (
              ground (arith, here),
              won,
              o.trans_ge w.1 s best.1 top (o.asymm best.1 s better),
              λ arm h. elim (Bool-cases (str_eq a arm)) [
                | inl same ↦ rw (← (str_eq_iff a arm).0 same) (s, scored.0, top)
                | inr other ↦ all_ arm (ground (arith, other))
              ],
            )
      | inr worse ↦
          let (here, won, top, all_) = best_from-best best rest is scored.1 in
          let w = best_from f best rest in
          rw (best_from, worse)
            (
              ground (arith, here),
              won,
              top,
              λ arm h. elim (Bool-cases (str_eq a arm)) [
                | inl same ↦
                    rw (← (str_eq_iff a arm).0 same)
                      (s, scored.0, o.trans_ge w.1 best.1 s top worse)
                | inr other ↦ all_ arm (ground (arith, other))
              ],
            )
    ]

    -- what `select` returns for the candidates `l`
    abbrev pub Outranks : List String → String → Option (String × Dict f.Float) → Type 0
    Outranks l arm result =
        (best : String) × (scores : Dict f.Float) × (result ≡ some (best, scores))
        × (map (λ e. e.0) scores ≡ l)
        × (contains l best ≡ true)
        × ((s : f.Float) × (t : f.Float) × (score f inv bandit best x explore ≡ some s)
            × (score f inv bandit arm x explore ≡ some t)
            × (f.lt s t ≡ false))

    best_of-Outranks :
        (d : Dict f.Float) (arm : String)
        → IsScored d
        → contains (keys d) arm ≡ true
        → Outranks (keys d) arm (best_of f d >>= λ best. some (best, d))
    unfolding best_of Beats
    best_of-Outranks [] arm scored h = cc h
    best_of-Outranks ((a, s) ∷ d) arm scored h =
        let (here, won, top, all_) = best_from-best (a, s) d scored.0 scored.1 in
        let w = best_from f (a, s) d in
        elim (Bool-cases (str_eq a arm)) [
          | inl same ↦
              rw (← (str_eq_iff a arm).0 same)
                (w.0, (a, s) ∷ d, refl, refl, here, (w.1, s, won, scored.0, top))
          | inr other ↦
              let (t, is, less) = all_ arm (ground (arith, other)) in
              (w.0, (a, s) ∷ d, refl, refl, here, (w.1, t, won, is, less))
        ]

    -- Where scores are ordered as floats without NaN are, and every candidate (the allowed arms, or
    -- all arms if none is given) has a matrix whose inverse is a square matrix of the context's
    -- length and a vector of that length: `select` raises nothing, scores the candidates, and
    -- returns one of them, and no candidate `arm` has a greater score.
    pub select-best :
        (allowed : List String) (arm : String)
        → ((a : String)
            → contains (candidates allowed) a ≡ true
            → CanScore f inv bandit (length x) a)
        → contains (candidates allowed) arm ≡ true
        → Outranks (candidates allowed) arm (select f inv bandit x allowed explore)
    unfolding select
    select-best allowed arm can h =
        let (d, is, same, scored) = scores_of-returns (candidates allowed) can in
        let found : contains (keys d) arm ≡ true = rw same h in
        rw (select, is)
          (subst (λ l. Outranks l arm (best_of f d >>= λ best. some (best, d))) same
            (best_of-Outranks d arm scored found))
