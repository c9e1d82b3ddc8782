-- ===== src/Graph/Queries/Adjacency.antt =====
-- The adjacency holds each stored edge twice, once from either end.
use aegis_soc.Common.{
  ◌*◌, String, ◌≡◌, refl, ◌↔◌, ◌⊎◌, inl, inr, true, false, some, List, [], ◌∷◌, ◌++◌, arith, str_eq,
  str_eq_iff, contains, length, Bool-cases,
}
use mathlib.Core.Path.{subst}
use mathlib.Core.List.{Memᴰ}
use mathlib.Core.List.Memᴰ
use aegis_soc.Common.Dict.{Dict, lookup, insert, lookup-insert, lookup-insert_self, values}
use aegis_soc.Common.Floats.{Floats}
use aegis_soc.Graph.Store.{StoredEdge, Data}
use aegis_soc.Graph.Queries.{
  Step, target, forward, reverse, steps_of, add_step, add_edges, adjacency_of,
}

module _ {f : Floats} where
  -- `s` is one of `edges` from `u` to its other end.
  abbrev pub Leads : List (StoredEdge f) → String → Step f → Type 0
  Leads edges u s =
      (e : StoredEdge f) × Memᴰ e edges
      × (((s ≡ forward e) × (e.src_id ≡ u)) ⊎ ((s ≡ reverse e) × (e.dst_id ≡ u)))

  steps_of-found :
      (adjacency : Dict (List (Step f))) (u : String) (l : List (Step f))
      → lookup u adjacency ≡ some l
      → steps_of adjacency u ≡ l
  unfolding steps_of
  steps_of-found adjacency u l found = rw (steps_of, found) refl

  add_step_here :
      (key : String) (s : Step f) (adjacency : Dict (List (Step f)))
      → steps_of (add_step key s adjacency) key ≡ steps_of adjacency key ++ (s ∷ [])
  unfolding add_step
  add_step_here key s adjacency =
      let after = steps_of adjacency key ++ (s ∷ []) in
      steps_of-found (insert key after adjacency) key after (lookup-insert_self key after adjacency)

  add_step_there :
      (key : String) (s : Step f) (adjacency : Dict (List (Step f))) (u : String)
      → str_eq key u ≡ false
      → steps_of (add_step key s adjacency) u ≡ steps_of adjacency u
  unfolding add_step
  add_step_there key s adjacency u other =
      rw (steps_of, lookup-insert key u (steps_of adjacency key ++ (s ∷ [])) adjacency, other) refl

  steps_of-add_step :
      (key : String) (s : Step f) (adjacency : Dict (List (Step f))) (u : String) (t : Step f)
      → Memᴰ t (steps_of (add_step key s adjacency) u)
        ↔ (Memᴰ t (steps_of adjacency u) ⊎ ((t ≡ s) × (key ≡ u)))
  steps_of-add_step key s adjacency u t = elim (Bool-cases (str_eq key u)) [
    | inl same ↦
        let is : key ≡ u = (str_eq_iff key u).0 same in
        subst
          (λ v.
            Memᴰ t (steps_of (add_step key s adjacency) v)
            ↔ (Memᴰ t (steps_of adjacency v) ⊎ ((t ≡ s) × (key ≡ v))))
          is
          (rw (add_step_here key s adjacency) (
            λ m. elim (Memᴰ.append_cases (steps_of adjacency key) m) [
              | inl old ↦ inl old
              | inr new ↦ inr (Memᴰ.eq_of_singleton new, refl)
            ],
            λ m. elim m [
              | inl old ↦ Memᴰ.append_left _ old
              | inr (new, _) ↦ Memᴰ.append_right (steps_of adjacency key) (Memᴰ.head new)
            ],
          ))
    | inr other ↦ rw (add_step_there key s adjacency u other) (
      λ m. inl m,
      λ m. elim m [ inl old ↦ old | inr (_, is) ↦ absurd (cc ((str_eq_iff key u).1 is, other)) ],
    )
  ]

  add_edges-Leads :
      (edges : List (StoredEdge f)) (adjacency : Dict (List (Step f))) (u : String) (t : Step f)
      → Memᴰ t (steps_of (add_edges edges adjacency) u)
        ↔ (Memᴰ t (steps_of adjacency u) ⊎ Leads edges u t)
  unfolding add_edges
  add_edges-Leads [] adjacency u t =
      (λ m. inl m, λ m. elim m [ inl old ↦ old | inr (e, n, _) ↦ absurd (Memᴰ.not-nil n) ])
  add_edges-Leads (e ∷ edges) adjacency u t =
      let there = add_step e.src_id (forward e) adjacency in
      let both = add_step e.dst_id (reverse e) there in
      let rest = add_edges-Leads edges both u t in
      let backward = steps_of-add_step e.dst_id (reverse e) there u t in
      let onward = steps_of-add_step e.src_id (forward e) adjacency u t in
      (
        λ m. elim (rest.0 m) [
          | inr (d, n, way) ↦ inr (d, Memᴰ.tail n, way)
          | inl old ↦ elim (backward.0 old) [
            | inr way ↦ inr (e, Memᴰ.head refl, inr way)
            | inl older ↦ elim (onward.0 older) [
              | inr way ↦ inr (e, Memᴰ.head refl, inl way)
              | inl oldest ↦ inl oldest
            ]
          ]
        ],
        λ m. elim m [
          | inl old ↦ rest.1 (inl (backward.1 (inl (onward.1 (inl old)))))
          | inr (d, n, way) ↦ elim (Memᴰ.cases_cons n) [
            | inr n' ↦ rest.1 (inr (d, n', way))
            | inl is ↦
                elim (subst
                  (λ x. ((t ≡ forward x) × (x.src_id ≡ u)) ⊎ ((t ≡ reverse x) × (x.dst_id ≡ u))) is
                  way) [
                    | inl on ↦ rest.1 (inl (backward.1 (inl (onward.1 (inr on)))))
                    | inr back ↦ rest.1 (inl (backward.1 (inr back)))
                  ]
          ]
        ],
      )

module _ (f : Floats) where
  pub adjacency_of-Leads :
      (data_ : Data f) (u : String) (t : Step f)
      → Memᴰ t (steps_of (adjacency_of f data_) u) ↔ Leads (values data_.edges) u t
  unfolding adjacency_of steps_of
  adjacency_of-Leads data_ u t =
      let both = add_edges-Leads (values data_.edges) [] u t in
      (
        λ m. elim (both.0 m) [ inl no_step ↦ absurd (Memᴰ.not-nil no_step) | inr way ↦ way ],
        λ way. both.1 (inr way),
      )

  -- the ends of the edges
  abbrev pub ends : List (StoredEdge f) → List String
  ends [] = []
  ends (e ∷ edges) = e.src_id ∷ e.dst_id ∷ ends edges

  pub length-ends : (edges : List (StoredEdge f)) → length (ends edges) ≡ 2 * length edges
  length-ends [] = omega arith
  length-ends (e ∷ edges) = omega (arith, length-ends edges)

  contains-ends :
      (edges : List (StoredEdge f)) (e : StoredEdge f)
      → Memᴰ e edges
      → (contains (ends edges) e.src_id ≡ true) × (contains (ends edges) e.dst_id ≡ true)
  contains-ends [] e m = absurd (Memᴰ.not-nil m)
  contains-ends (d ∷ edges) e m = elim (Memᴰ.cases_cons m) [
    | inl is ↦
        rw is (
          ground (arith, str_eq_iff d.src_id d.src_id),
          ground (arith, str_eq_iff d.dst_id d.dst_id),
        )
    | inr n ↦ ground (arith, contains-ends edges e n)
  ]

  -- Every step leads to an end of an edge.
  pub steps-known :
      (data_ : Data f) (u : String) (t : Step f)
      → Memᴰ t (steps_of (adjacency_of f data_) u)
      → contains (ends (values data_.edges)) (target t) ≡ true
  steps-known data_ u t m =
      let (e, n, way) = (adjacency_of-Leads data_ u t).0 m in
      let known = contains-ends (values data_.edges) e n in
      elim way [ inl (is, _) ↦ rw is known.1 | inr (is, _) ↦ rw is known.0 ]
