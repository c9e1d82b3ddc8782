-- ===== src/Graph/Search/KnownBad.antt =====
-- The loop of `path_length_to_known_bad` in packages/common/aegis_common/graphstore/memory.py, over
-- any table of adjacency.
use aegis_soc.Common.{
  ℕ, zero, suc, String, true, false, List, [], ◌∷◌, ◌++◌, if◌then◌else◌, leb, contains,
}

-- what the deque holds: a node, and its distance
pub record Reached : Type 0 where
  pub node : String
  pub dist : ℕ

pub record Frontier : Type 0 where
  pub queue : List Reached
  pub visited : List String

-- a `return` from the loop over the edges of a node, or the search after it
pub data Round : Type 0 where
  hit : ℕ → Round
  on : Frontier → Round

-- what the method returns, or the end of the fuel
pub data Distance : Type 0 where
  distance : ℕ → Distance
  no_path : Distance
  out_of_fuel : Distance

module _ {E : Type 0} (target : E → String) where
  -- the body of the loop over the edges, below the test against the known-bad nodes
  unfoldable pub meet : ℕ → E → Frontier → Frontier
  meet dist edge s = if contains s.visited (target edge) then s else record {
    queue = s.queue ++ (record { node = target edge; dist = suc dist } ∷ []);
    visited = target edge ∷ s.visited;
  }

  -- `for edge in adjacency.get(current, [])`
  unfoldable pub scan_bad : List String → ℕ → List E → Frontier → Round
  unfolding meet
  scan_bad bad dist [] s = on s
  scan_bad bad dist (edge ∷ edges) s = elim (contains bad (target edge)) [
    | true ↦ hit (suc dist)
    | false ↦ scan_bad bad dist edges (meet dist edge s)
  ]

module _ {E : Type 0} (target : E → String) (adjacent : String → List E) (max_depth : ℕ) where
  -- `while queue`
  unfoldable pub loop_bad : List String → ℕ → Frontier → Distance
  unfolding scan_bad
  loop_bad bad zero s = out_of_fuel
  loop_bad bad (suc fuel) s = elim s.queue [
    | [] ↦ no_path
    | current ∷ rest ↦ elim (leb max_depth current.dist) [
      | true ↦ loop_bad bad fuel (record { queue = rest; visited = s.visited })
      | false ↦
          elim (scan_bad target bad current.dist (adjacent current.node)
            (record { queue = rest; visited = s.visited })) [
              | hit n ↦ distance n
              | on t ↦ loop_bad bad fuel t
            ]
    ]
  ]

abbrev pub start_bad : String → Frontier
start_bad node_id = record {
  queue = record { node = node_id; dist = 0 } ∷ [];
  visited = node_id ∷ [];
}
