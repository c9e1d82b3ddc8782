-- ===== src/Graph/Statistics.antt =====
-- The timeline and the counts of the file-backed store
-- (packages/common/aegis_common/graphstore/memory.py).
use aegis_soc.Common.{
  ℕ, zero, suc, ◌+◌, ◌-◌, String, Option, none, some, List, [], ◌∷◌, ◌++◌, map, if◌then◌else◌, ◌==◌,
  length, drop, keep,
}
use aegis_soc.Common.Dict.{Dict, lookup, insert, values}
use aegis_soc.Common.Floats.{Floats, fmax, of_int}
use aegis_soc.Common.Json.{Fields, str, get, put}
use aegis_soc.Common.Order.{sort_by_text}
use aegis_soc.Graph.Store.{StoredNode, StoredEdge, File, read, touches}

-- `e.get("timestamp") or ""` of an observation, whose timestamp is a text where it has one
unfoldable pub timestamp_of : Fields → String
unfolding get
timestamp_of e = elim (get "timestamp" e) [ some (str s) ↦ s | _ ↦ "" ]

-- `events[-limit:]`: all of them where the limit is 0
unfoldable pub last_of : ℕ → List Fields → List Fields
last_of zero events = events
last_of (suc n) events = drop (length events - suc n) events

module _ (f : Floats) where
  -- `{**obs, "edge_type": ..., "src_id": ..., "dst_id": ...}`
  abbrev pub edge_event : StoredEdge f → Fields → Fields
  edge_event e obs =
      put "dst_id" (str e.dst_id)
        (put "src_id" (str e.src_id) (put "edge_type" (str e.edge_type) obs))

  unfoldable pub edge_events : String → List (StoredEdge f) → List Fields
  unfolding put
  edge_events node_id [] = []
  edge_events node_id (e ∷ edges) =
      let rest = edge_events node_id edges in
      if touches f node_id e then map (edge_event e) e.observations ++ rest else rest

  unfoldable pub node_events : Option (StoredNode f) → List Fields
  unfolding put
  node_events none = []
  node_events (some node) = map (put "node_type" (str node.node_type)) node.observations

  unfoldable pub entity_timeline : String → ℕ → File f → List Fields
  unfolding read lookup edge_events node_events sort_by_text timestamp_of last_of
  entity_timeline node_id limit file =
      let data_ = read f file in
      last_of limit (
        sort_by_text timestamp_of
          (edge_events node_id (values data_.edges) ++ node_events (lookup node_id data_.nodes)))

  -- `node_count` and `edge_count` of `stats`
  unfoldable pub stats : File f → ℕ × ℕ
  unfolding read
  stats file = (length (read f file).nodes, length (read f file).edges)

  unfoldable pub degree : String → File f → ℕ
  unfolding read
  degree node_id file = length (keep (touches f node_id) (values (read f file).edges))

  -- `counts[edge["edge_type"]] += 1` for every edge
  unfoldable pub count_types : List (StoredEdge f) → Dict ℕ → Dict ℕ
  unfolding lookup insert
  count_types [] counts = counts
  count_types (e ∷ edges) counts =
      count_types edges (
        insert e.edge_type (suc (elim (lookup e.edge_type counts) [ none ↦ 0 | some n ↦ n ]))
          counts)

  -- `sum(counts.values())`
  unfoldable pub sum : List ℕ → ℕ
  sum [] = 0
  sum (n ∷ l) = n + sum l

  unfoldable pub rare_edge_score : String → File f → f.Float
  unfolding read count_types sum lookup
  rare_edge_score edge_type file =
      let counts = count_types (values (read f file).edges) [] in
      let total = sum (values counts) in
      if total == 0
      then f.milli 500
      else let count : ℕ = elim (lookup edge_type counts) [ none ↦ 0 | some n ↦ n ] in
        let freq = f.div (of_int f count) (of_int f total) in
        f.round3 (fmax f (f.milli 0) (f.sub (f.milli 1000) (f.mul freq (of_int f (length counts)))))
