-- ===== src/Graph/Search.antt =====
-- The breadth-first search of `attack_path` in packages/common/aegis_common/graphstore/memory.py,
-- over any table of adjacency.
pub mod Scan
pub mod Paths
pub mod Invariant
pub mod KnownBad
pub mod Nearest
pub mod Shortest
use aegis_soc.Common.{
  ℕ, zero, suc, String, Bool, true, false, List, [], ◌∷◌, ◌++◌, if◌then◌else◌, leb, str_eq,
  contains, length,
}

-- what the deque holds: a node, and the edges that led to it
pub record Entry (E : Type 0) : Type 0 where
  pub node : String
  pub path : List E

-- the local state of the loop
pub record Search (E : Type 0) : Type 0 where
  pub queue : List (Entry E)
  pub visited : List String

-- the dict that the method returns, or the end of the fuel
pub data Outcome (E : Type 0) : Type 0 where
  found : List E → Outcome E
  not_found : Outcome E
  out_of_fuel : Outcome E

module _ {E : Type 0} (target : E → String) where
  -- the body of the loop over the edges of a node
  unfoldable pub offer : List E → E → Search E → Search E
  offer path edge s = if contains s.visited (target edge) then s else record {
    queue = s.queue ++ (record { node = target edge; path = path ++ (edge ∷ []) } ∷ []);
    visited = target edge ∷ s.visited;
  }

  -- `for edge in adjacency.get(current, [])`
  unfoldable pub scan : List E → List E → Search E → Search E
  unfolding offer
  scan path [] s = s
  scan path (edge ∷ edges) s = scan path edges (offer path edge s)

module _ {E : Type 0} (target : E → String) (adjacent : String → List E) (max_depth : ℕ) where
  -- the search after `current` left the head of the queue
  unfoldable pub expand : Entry E → List (Entry E) → List String → Search E
  unfolding scan
  expand current rest visited =
      let s : Search E = record { queue = rest; visited = visited } in
      if leb max_depth (length current.path)
      then s
      else scan target current.path (adjacent current.node) s

  -- `while queue`
  unfoldable pub loop : (dst : String) → ℕ → Search E → Outcome E
  unfolding expand
  loop dst zero s = out_of_fuel
  loop dst (suc fuel) s = elim s.queue [
    | [] ↦ not_found
    | current ∷ rest ↦ elim (str_eq current.node dst) [
      | true ↦ found current.path
      | false ↦ loop dst fuel (expand current rest s.visited)
    ]
  ]

abbrev pub start : {E : Type 0} → String → Search E
start src = record { queue = record { node = src; path = [] } ∷ []; visited = src ∷ [] }
