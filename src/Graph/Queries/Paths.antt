-- ===== src/Graph/Queries/Paths.antt =====
-- What `attack_path` and `path_length_to_known_bad` return, in terms of the stored edges.
use aegis_soc.Common.{
  ℕ, suc, ◌≤◌, ◌<◌, String, ◌≡◌, refl, sym, ap, ◌⊎◌, inl, inr, true, List, [], ◌∷◌, arith, contains,
  length, Bool-cases,
}
use aegis_soc.Common.Dict.{values, length-values}
use aegis_soc.Common.Floats.{Floats}
use aegis_soc.Graph.Store.{Data, File, read}
use aegis_soc.Graph.Search as Search
use aegis_soc.Graph.Search.Paths.{IsPath}
use aegis_soc.Graph.Search.Shortest.{IsShortest, search-IsShortest}
use aegis_soc.Graph.Search.KnownBad as KnownBad
use aegis_soc.Graph.Search.Nearest.{IsNearest, search-IsNearest}
use aegis_soc.Graph.Queries.{
  Step, target, steps_of, adjacency_of, search_fuel, attack_path, path_length_to_known_bad,
}
use aegis_soc.Graph.Queries.Adjacency.{Leads, adjacency_of-Leads, ends, length-ends, steps-known}

module _ (f : Floats) where
  -- A list of steps from `u` to `v`, each over a stored edge, in either direction.
  abbrev pub IsTrail : Data f → String → List (Step f) → String → Type 0
  IsTrail data_ u [] v = u ≡ v
  IsTrail data_ u (s ∷ p) v = Leads (values data_.edges) u s × IsTrail data_ (target s) p v

  on_edges :
      (data_ : Data f) (u v : String) (p : List (Step f))
      → IsPath target (steps_of (adjacency_of f data_)) u p v
      → IsTrail data_ u p v
  on_edges data_ u v [] h = h
  on_edges data_ u v (s ∷ p) h =
      ((adjacency_of-Leads f data_ u s).0 h.0, on_edges data_ (target s) v p h.1)

  off_edges :
      (data_ : Data f) (u v : String) (p : List (Step f))
      → IsTrail data_ u p v
      → IsPath target (steps_of (adjacency_of f data_)) u p v
  off_edges data_ u v [] h = h
  off_edges data_ u v (s ∷ p) h =
      ((adjacency_of-Leads f data_ u s).1 h.0, off_edges data_ (target s) v p h.1)

  enough_fuel : (data_ : Data f) → suc (length (ends f (values data_.edges))) < search_fuel f data_
  enough_fuel data_ = omega (arith, length-ends f (values data_.edges), length-values data_.edges)

  attack_path-IsShortest :
      (src dst : String) (max_depth : ℕ) (file : File f)
      → IsShortest target
          (steps_of (adjacency_of f (read f file)))
          max_depth
          src
          dst
          (attack_path f src dst max_depth file)
  unfolding attack_path
  attack_path-IsShortest src dst max_depth file =
      let data_ = read f file in
      search-IsShortest target (steps_of (adjacency_of f data_)) max_depth
        (ends f (values data_.edges)) (steps-known f data_) src dst (search_fuel f data_)
        (enough_fuel data_)

  returns_of :
      (data_ : Data f) (src dst : String) (max_depth : ℕ) (o : Search.Outcome (Step f))
      → IsShortest target (steps_of (adjacency_of f data_)) max_depth src dst o
      → (o ≡ Search.not_found)
        ⊎ ((p : List (Step f)) × (o ≡ Search.found p)
            × IsTrail data_ src p dst
            × (length p ≤ max_depth))
  returns_of data_ src dst max_depth (Search.found p) h =
      inr (p, refl, on_edges data_ src dst p h.0, h.1)
  returns_of data_ src dst max_depth Search.not_found h = inl refl
  returns_of data_ src dst max_depth Search.out_of_fuel h = absurd h

  shortest_of :
      (data_ : Data f) (src dst : String) (max_depth : ℕ) (o : Search.Outcome (Step f))
      → IsShortest target (steps_of (adjacency_of f data_)) max_depth src dst o
      → (q : List (Step f)) → IsTrail data_ src q dst
      → length q ≤ max_depth
      → (p : List (Step f)) × (o ≡ Search.found p) × IsTrail data_ src p dst × (length p ≤ length q)
  shortest_of data_ src dst max_depth (Search.found p) h q trail short =
      (p, refl, on_edges data_ src dst p h.0, h.2 q (off_edges data_ src dst q trail))
  shortest_of data_ src dst max_depth Search.not_found h q trail short =
      absurd (omega (arith, short, h q (off_edges data_ src dst q trail)))
  shortest_of data_ src dst max_depth Search.out_of_fuel h q trail short = absurd h

  -- `attack_path` returns: either that there is no path, or a list of steps over stored edges, each
  -- passed in either direction, that leads from the source to the target with at most `max_depth`
  -- steps.
  pub attack_path_returns :
      (src dst : String) (max_depth : ℕ) (file : File f)
      → (attack_path f src dst max_depth file ≡ Search.not_found)
        ⊎ ((p : List (Step f)) × (attack_path f src dst max_depth file ≡ Search.found p)
            × IsTrail (read f file) src p dst
            × (length p ≤ max_depth))
  attack_path_returns src dst max_depth file =
      returns_of (read f file) src dst max_depth (attack_path f src dst max_depth file)
        (attack_path-IsShortest src dst max_depth file)

  -- Where some list of at most `max_depth` steps over stored edges leads from the source to the
  -- target, `attack_path` finds one, and none that has more steps.
  pub attack_path_shortest :
      (src dst : String) (max_depth : ℕ) (file : File f) (q : List (Step f))
      → IsTrail (read f file) src q dst
      → length q ≤ max_depth
      → (p : List (Step f)) × (attack_path f src dst max_depth file ≡ Search.found p)
        × IsTrail (read f file) src p dst
        × (length p ≤ length q)
  attack_path_shortest src dst max_depth file q trail short =
      shortest_of (read f file) src dst max_depth (attack_path f src dst max_depth file)
        (attack_path-IsShortest src dst max_depth file) q trail short

  path_length-IsNearest :
      (node_id : String) (bad : List String) (max_depth : ℕ) (file : File f)
      → IsNearest target
          (steps_of (adjacency_of f (read f file)))
          max_depth
          bad
          node_id
          (path_length_to_known_bad f node_id bad max_depth file)
  unfolding path_length_to_known_bad
  path_length-IsNearest node_id [] max_depth file = λ v is_bad q p. cc is_bad
  path_length-IsNearest node_id (b ∷ bad) max_depth file =
      let data_ = read f file in
      elim (Bool-cases (contains (b ∷ bad) node_id)) [
        | inl is_bad ↦
            rw (path_length_to_known_bad, is_bad)
              ((node_id, [], is_bad, refl, refl), omega arith, λ v vb q p. omega arith)
        | inr fine ↦
            rw (path_length_to_known_bad, fine)
              (search-IsNearest target (steps_of (adjacency_of f data_)) max_depth (b ∷ bad)
                (ends f (values data_.edges)) (steps-known f data_) node_id (search_fuel f data_)
                fine (enough_fuel data_))
      ]

  nearest_of :
      (data_ : Data f) (node_id : String) (bad : List String) (max_depth : ℕ)
      (o : KnownBad.Distance)
      → IsNearest target (steps_of (adjacency_of f data_)) max_depth bad node_id o
      → (v : String) → contains bad v ≡ true
      → (q : List (Step f)) → IsTrail data_ node_id q v
      → length q ≤ max_depth
      → (u : String) × (p : List (Step f)) × (o ≡ KnownBad.distance (length p))
        × (contains bad u ≡ true)
        × IsTrail data_ node_id p u
        × (length p ≤ length q)
  nearest_of data_ node_id bad max_depth (KnownBad.distance n) h v is_bad q trail short =
      let (u, p, u_bad, path, is) = h.0 in
      (
        u,
        p,
        ap KnownBad.distance (sym is),
        u_bad,
        on_edges data_ node_id u p path,
        omega (arith, is, h.2 v is_bad q (off_edges data_ node_id v q trail)),
      )
  nearest_of data_ node_id bad max_depth KnownBad.no_path h v is_bad q trail short =
      absurd (omega (arith, short, h v is_bad q (off_edges data_ node_id v q trail)))
  nearest_of data_ node_id bad max_depth KnownBad.out_of_fuel h v is_bad q trail short = absurd h

  -- Where at most `max_depth` steps over stored edges lead from a node to a known-bad one,
  -- `path_length_to_known_bad` returns the number of steps of a list that leads to a known-bad
  -- node, and no list to a known-bad node within `max_depth` steps is shorter.
  pub path_length_nearest :
      (node_id : String) (bad : List String) (max_depth : ℕ) (file : File f) (v : String)
      (q : List (Step f))
      → contains bad v ≡ true
      → IsTrail (read f file) node_id q v
      → length q ≤ max_depth
      → (u : String) × (p : List (Step f)) × (path_length_to_known_bad f node_id bad max_depth file
          ≡ KnownBad.distance (length p))
        × (contains bad u ≡ true)
        × IsTrail (read f file) node_id p u
        × (length p ≤ length q)
  path_length_nearest node_id bad max_depth file v q is_bad trail short =
      nearest_of (read f file) node_id bad max_depth
        (path_length_to_known_bad f node_id bad max_depth file)
        (path_length-IsNearest node_id bad max_depth file) v is_bad q trail short
