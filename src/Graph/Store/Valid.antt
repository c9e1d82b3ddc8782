-- ===== src/Graph/Store/Valid.antt =====
-- The document keeps its form: every entry stands under the key that its fields give, no list of
-- observations is longer than the bound, and both ends of every edge are nodes.
use aegis_soc.Common.{
  ℕ, zero, suc, ◌-◌, ◌≤◌, String, ◌<>◌, ◌≡◌, inl, inr, Bool, true, ◌&&◌, Option, none, some, List,
  [], ◌∷◌, ◌++◌, arith, leb, str_eq, str_eq_refl, length, length-append, drop, all, all-weaken,
  Option-cases,
}
use aegis_soc.Common.Dict.{
  Dict, lookup, insert, has_key, has_key-insert, all-insert, lookup-all_entries,
}
use aegis_soc.Common.Floats.{Floats}
use aegis_soc.Common.Json.{Fields, end, field}
use aegis_soc.Schema.Events.{GraphNode, GraphEdge}
use aegis_soc.Graph.Store.{
  TimeTexts, StoredNode, StoredEdge, File, read, max_observations, observe, first_observation,
  edge_key, write, new_node, known_node, node_entry, upsert_node, edge_entry, new_edge, known_edge,
  upsert_edge,
}

length-drop : {A : Type 0} (n : ℕ) (l : List A) → length (drop n l) ≡ length l - n
length-drop zero l = omega arith
length-drop (suc n) [] = omega arith
length-drop (suc n) (x ∷ l) = omega (arith, length-drop n l)

observe-length : (o : Option Fields) (l : List Fields) → length l ≤ 25 → length (observe o l) ≤ 25
unfolding observe
observe-length none l h = h
observe-length (some end) l h = h
observe-length (some (field k v fs)) l h =
    let more = l ++ (field k v fs ∷ []) in
    omega (arith, h, length-drop (length more - 25) more, length-append l (field k v fs ∷ []))

first_observation-length : (o : Option Fields) → length (first_observation o) ≤ 25
unfolding first_observation
first_observation-length none = omega arith
first_observation-length (some end) = omega arith
first_observation-length (some (field k v fs)) = omega arith

module _ {f : Floats} where
  -- the key that the stored fields of an edge give
  abbrev pub stored_key : StoredEdge f → String
  stored_key e = e.src_id <> "|" <> e.edge_type <> "|" <> e.dst_id

  abbrev pub node_ok : String × StoredNode f → Bool
  node_ok e = str_eq e.0 e.1.node_id && leb (length e.1.observations) max_observations

  abbrev pub edge_ok : Dict (StoredNode f) → String × StoredEdge f → Bool
  edge_ok nodes e =
      str_eq e.0 (stored_key e.1)
      && (leb (length e.1.observations) max_observations
          && (has_key e.1.src_id nodes && has_key e.1.dst_id nodes))

  pub record IsValid (file : File f) : Type 0 where
    pub nodes_ok : all node_ok (read f file).nodes ≡ true
    pub edges_ok : all (edge_ok (read f file).nodes) (read f file).edges ≡ true

module _ (f : Floats) (w : TimeTexts) where
  node_entry-ok :
      (now : String) (node : GraphNode f) (o : Option Fields) (nodes : Dict (StoredNode f))
      → all node_ok nodes ≡ true
      → node_ok (node.node_id, node_entry f w now node o nodes) ≡ true
  unfolding node_entry new_node known_node
  node_entry-ok now node o nodes h = elim (Option-cases (lookup node.node_id nodes)) [
    | inl absent ↦
        rw (node_entry, absent)
          (ground (arith, str_eq_refl node.node_id, first_observation-length o))
    | inr (existing, found) ↦
        let known = lookup-all_entries node_ok node.node_id existing nodes h found in
        rw (node_entry, found) (ground (arith, known, observe-length o existing.observations))
  ]

  pub upsert_node-IsValid :
      (now : String) (node : GraphNode f) (o : Option Fields) (file : File f)
      → IsValid file
      → IsValid (upsert_node f w now node o file)
  unfolding upsert_node read write
  upsert_node-IsValid now node o file h =
      let data_ = read f file in
      let entry = node_entry f w now node o data_.nodes in
      record {
        nodes_ok =
            all-insert node_ok node.node_id entry data_.nodes
              (node_entry-ok now node o data_.nodes h.nodes_ok) h.nodes_ok;
        edges_ok =
            all-weaken (edge_ok data_.nodes) (edge_ok (insert node.node_id entry data_.nodes))
              data_.edges
              (λ e k. ground (
                arith,
                k,
                has_key-insert node.node_id e.1.src_id entry data_.nodes,
                has_key-insert node.node_id e.1.dst_id entry data_.nodes,
              ))
              h.edges_ok;
      }

  edge_entry-ok :
      (edge : GraphEdge f) (o : Option Fields) (nodes : Dict (StoredNode f))
      (edges : Dict (StoredEdge f))
      → has_key edge.src_id nodes ≡ true
      → has_key edge.dst_id nodes ≡ true
      → all (edge_ok nodes) edges ≡ true
      → edge_ok nodes (edge_key f edge, edge_entry f w edge o edges) ≡ true
  unfolding edge_entry edge_key new_edge known_edge
  edge_entry-ok edge o nodes edges src dst h =
      elim (Option-cases (lookup (edge_key f edge) edges)) [
        | inl absent ↦
            rw (edge_entry, absent)
              (ground (arith, src, dst, str_eq_refl (edge_key f edge), first_observation-length o))
        | inr (existing, found) ↦
            let known =
              lookup-all_entries (edge_ok nodes) (edge_key f edge) existing edges h found in
            rw (edge_entry, found) (ground (arith, known, observe-length o existing.observations))
      ]

  -- An edge is put between nodes that are stored.
  pub upsert_edge-IsValid :
      (edge : GraphEdge f) (o : Option Fields) (file : File f)
      → has_key edge.src_id (read f file).nodes ≡ true
      → has_key edge.dst_id (read f file).nodes ≡ true
      → IsValid file
      → IsValid (upsert_edge f w edge o file)
  unfolding upsert_edge read write
  upsert_edge-IsValid edge o file src dst h =
      let data_ = read f file in
      record {
        nodes_ok = h.nodes_ok;
        edges_ok =
            all-insert (edge_ok data_.nodes) (edge_key f edge) (edge_entry f w edge o data_.edges)
              data_.edges (edge_entry-ok edge o data_.nodes data_.edges src dst h.edges_ok)
              h.edges_ok;
      }
