-- ===== src/Graph/Queries.antt =====
-- The queries of the file-backed store (packages/common/aegis_common/graphstore/memory.py). A set is
-- iterated in an order that Python does not fix, the argument `order`.
pub mod Adjacency
pub mod Paths
use aegis_soc.Common.{
  ℕ, zero, suc, ◌+◌, ◌-◌, ◌*◌, String, ◌<>◌, Bool, true, false, not, ◌||◌, ◌&&◌, Option, none, some,
  List, [], ◌∷◌, ◌++◌, map, if◌then◌else◌, leb, ◌==◌, str_eq, contains, length, take, drop, keep,
}
use aegis_soc.Common.Dict.{Dict, lookup, insert, values, has_key}
use aegis_soc.Common.Floats.{Floats, fmax, of_int}
use aegis_soc.Common.Json.{Fields, Value, null, bool, num, str, arr, obj, get, put}
use aegis_soc.Common.Order.{sort_by_text}
use aegis_soc.Common.Sets.{add_to}
use aegis_soc.Graph.Store.{StoredNode, StoredEdge, Data, File, read, touches}
use aegis_soc.Graph.Search as Search
use aegis_soc.Graph.Search.KnownBad as KnownBad

-- an entry of the adjacency, with the key `_reversed`
pub record Step (f : Floats) : Type 0 where
  pub edge : StoredEdge f
  pub is_reversed : Bool

module _ {f : Floats} where
  -- `edge["src_id"]` and `edge["dst_id"]` of an entry
  abbrev pub source : Step f → String
  source s = s.edge.src_id

  abbrev pub target : Step f → String
  target s = s.edge.dst_id

  abbrev pub forward : StoredEdge f → Step f
  forward edge = record { edge = edge; is_reversed = false }

  abbrev pub reverse : StoredEdge f → Step f
  reverse edge = record {
    edge = record edge { src_id = edge.dst_id; dst_id = edge.src_id };
    is_reversed = true;
  }

  -- `adjacency.get(node_id, [])`
  unfoldable pub steps_of : Dict (List (Step f)) → String → List (Step f)
  unfolding lookup
  steps_of adjacency node_id = elim (lookup node_id adjacency) [ none ↦ [] | some l ↦ l ]

  -- `adjacency[key].append(step)` of the `defaultdict`
  unfoldable pub add_step : String → Step f → Dict (List (Step f)) → Dict (List (Step f))
  unfolding steps_of insert
  add_step key step adjacency = insert key (steps_of adjacency key ++ (step ∷ [])) adjacency

  unfoldable pub add_edges : List (StoredEdge f) → Dict (List (Step f)) → Dict (List (Step f))
  unfolding add_step
  add_edges [] adjacency = adjacency
  add_edges (edge ∷ edges) adjacency =
      add_edges edges
        (add_step edge.dst_id (reverse edge) (add_step edge.src_id (forward edge) adjacency))

-- what a visit keeps: the two results, the keys of the edges met, and the next frontier
pub record Visit (f : Floats) : Type 0 where
  pub visited_nodes : Dict (StoredNode f)
  pub visited_edges : List (Step f)
  pub seen_edge_keys : List String
  pub next_frontier : List String

pub record Neighborhood (f : Floats) : Type 0 where
  pub root : String
  pub nodes : List (StoredNode f)
  pub edges : List (Step f)

module _ (f : Floats) where
  -- `_adjacency`
  unfoldable pub adjacency_of : Data f → Dict (List (Step f))
  unfolding add_edges
  adjacency_of data_ = add_edges (values data_.edges) []

  abbrev pub step_key : Step f → String
  step_key s = s.edge.src_id <> "|" <> s.edge.edge_type <> "|" <> s.edge.dst_id

  -- the loop over the edges of a node, which the limit ends
  unfoldable pub visit_edges : ℕ → List (Step f) → Visit f → Visit f
  unfolding add_to
  visit_edges limit [] v = v
  visit_edges limit (s ∷ steps) v =
      let met = record v { next_frontier = add_to v.next_frontier (target s) } in
      let counted = record v {
        seen_edge_keys = step_key s ∷ v.seen_edge_keys;
        visited_edges = v.visited_edges ++ (s ∷ []);
      } in
      elim (contains v.seen_edge_keys (step_key s)) [
        | true ↦ visit_edges limit steps met
        | false ↦ elim (leb limit (length counted.visited_edges)) [
          | true ↦ counted
          | false ↦
              visit_edges limit steps
                (record counted { next_frontier = add_to v.next_frontier (target s) })
        ]
      ]

  -- `visited_nodes[nid] = data["nodes"][nid]`, where the node is stored
  unfoldable pub visit_node : Data f → String → Dict (StoredNode f) → Dict (StoredNode f)
  unfolding lookup insert
  visit_node data_ nid visited = elim (lookup nid data_.nodes) [
    | none ↦ visited
    | some node ↦ insert nid node visited
  ]

  -- the loop over the frontier
  unfoldable pub visit_frontier :
      ℕ → Data f → Dict (List (Step f)) → List String → Visit f → Visit f
  unfolding visit_edges visit_node steps_of
  visit_frontier limit data_ adjacency [] v = v
  visit_frontier limit data_ adjacency (nid ∷ frontier) v =
      let here : Dict (StoredNode f) =
        if has_key nid v.visited_nodes
        then v.visited_nodes
        else visit_node data_ nid v.visited_nodes in
      visit_frontier limit data_ adjacency frontier
        (visit_edges limit (steps_of adjacency nid) (record v { visited_nodes = here }))

  -- the loop over the depth, which returns the last frontier too
  unfoldable pub visit_depth :
      (List String → List String)
      → ℕ
      → Data f
      → Dict (List (Step f))
      → (depth : ℕ) → List String
      → Visit f
      → List String × Visit f
  unfolding visit_frontier
  visit_depth order limit data_ adjacency zero frontier v = (frontier, v)
  visit_depth order limit data_ adjacency (suc depth) frontier v =
      let u =
        visit_frontier limit data_ adjacency (order frontier) (record v { next_frontier = [] }) in
      let next = keep (λ nid. not (has_key nid u.visited_nodes)) u.next_frontier in
      elim (leb limit (length u.visited_edges)) [
        | true ↦ (next, u)
        | false ↦ visit_depth order limit data_ adjacency depth next u
      ]

  -- the loop over the last frontier and the root
  unfoldable pub visit_last : Data f → List String → Dict (StoredNode f) → Dict (StoredNode f)
  unfolding visit_node
  visit_last data_ [] visited = visited
  visit_last data_ (nid ∷ l) visited = visit_last data_ l (visit_node data_ nid visited)

  unfoldable pub neighborhood :
      (List String → List String) → String → (depth limit : ℕ) → File f → Neighborhood f
  unfolding read adjacency_of visit_depth visit_last
  neighborhood order node_id depth limit file =
      let data_ = read f file in
      let blank : Visit f = record {
        visited_nodes = [];
        visited_edges = [];
        seen_edge_keys = [];
        next_frontier = [];
      } in
      let (frontier, v) =
        visit_depth order limit data_ (adjacency_of data_) depth (node_id ∷ []) blank in
      record {
        root = node_id;
        nodes = values (visit_last data_ (order frontier ++ (node_id ∷ [])) v.visited_nodes);
        edges = take limit v.visited_edges;
      }

  -- every step leads to a node of an edge, so this is fuel for all the nodes and the source
  abbrev pub search_fuel : Data f → ℕ
  search_fuel data_ = 2 * length data_.edges + 2

  unfoldable pub attack_path :
      (src_id dst_id : String) → (max_depth : ℕ) → File f → Search.Outcome (Step f)
  unfolding read adjacency_of steps_of Search.loop
  attack_path src_id dst_id max_depth file =
      let data_ = read f file in
      Search.loop target (steps_of (adjacency_of data_)) max_depth dst_id (search_fuel data_)
        (Search.start src_id)

  -- `no_path` is the result None
  unfoldable pub path_length_to_known_bad :
      (node_id : String)
      → (known_bad_ids : List String) → (max_depth : ℕ) → File f
      → KnownBad.Distance
  unfolding read adjacency_of steps_of KnownBad.loop_bad
  path_length_to_known_bad node_id [] max_depth file = KnownBad.no_path
  path_length_to_known_bad node_id (bad ∷ bads) max_depth file =
      let data_ = read f file in
      elim (contains (bad ∷ bads) node_id) [
        | true ↦ KnownBad.distance 0
        | false ↦
            KnownBad.loop_bad target (steps_of (adjacency_of data_)) max_depth (bad ∷ bads)
              (search_fuel data_) (KnownBad.start_bad node_id)
      ]
