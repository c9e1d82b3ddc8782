-- ===== src/Graph/Builder/Closed.antt =====
-- Applying an event keeps the document's form, and no edge dangles.
use aegis_soc.Common.{
  ℕ, suc, String, ◌≡◌, refl, ◌∙◌, Bool, true, ◌||◌, Option, some, List, [], ◌∷◌, map, arith, str_eq,
  str_eq_refl, contains, All, length, length-map,
}
use aegis_soc.Common.Dict.{has_key, has_key-insert}
use aegis_soc.Common.Floats.{Floats}
use aegis_soc.Common.Json.{Fields}
use aegis_soc.Schema.Events.{CanonicalEvent, EntityRef, GraphNode, GraphEdge}
use aegis_soc.Graph.Store.{TimeTexts, File, read, write, node_entry, upsert_node, upsert_edge}
use aegis_soc.Graph.Store.Valid.{IsValid, upsert_node-IsValid, upsert_edge-IsValid}
use aegis_soc.Graph.Builder.{
  Draft, build_node, build_edge, draft_edges, draw_edges, derive_graph_updates, observation_for,
  upsert_nodes, upsert_edges, apply_event_to_graph,
}
use aegis_soc.Graph.Builder.Endpoints.{IsKnown, draft_edges-AreLocal}

-- `node_id` is a node of the document.
abbrev pub is_node : (f : Floats) → String → File f → Bool
is_node f node_id file = has_key node_id (read f file).nodes

ids_of : List EntityRef → List String
ids_of = map (λ e. e.id)

module _ (f : Floats) (w : TimeTexts) where
  is_node-upsert_node :
      (now : String) (node : GraphNode f) (o : Option Fields) (file : File f) (x : String)
      → is_node f x (upsert_node f w now node o file) ≡ (str_eq node.node_id x || is_node f x file)
  unfolding upsert_node read write
  is_node-upsert_node now node o file x =
      let nodes = (read f file).nodes in
      has_key-insert node.node_id x (node_entry f w now node o nodes) nodes

  is_node-upsert_nodes :
      (now : String) (obs : Fields) (event : CanonicalEvent f) (l : List EntityRef) (file : File f)
      (x : String)
      → is_node f x (upsert_nodes f w now obs (map (λ e. build_node f e event) l) file)
        ≡ (contains (ids_of l) x || is_node f x file)
  unfolding upsert_nodes build_node ids_of
  is_node-upsert_nodes now obs event [] file x = refl
  is_node-upsert_nodes now obs event (e ∷ l) file x =
      let node = build_node f e event in
      ground (
        arith,
        is_node-upsert_nodes now obs event l (upsert_node f w now node (some obs) file) x,
        is_node-upsert_node now node (some obs) file x,
      )

  upsert_nodes-IsValid :
      (now : String) (obs : Fields) (nodes : List (GraphNode f)) (file : File f)
      → IsValid file
      → IsValid (upsert_nodes f w now obs nodes file)
  unfolding upsert_nodes
  upsert_nodes-IsValid now obs [] file h = h
  upsert_nodes-IsValid now obs (node ∷ nodes) file h =
      upsert_nodes-IsValid now obs nodes _ (upsert_node-IsValid f w now node (some obs) file h)

  is_node-upsert_edge :
      (edge : GraphEdge f) (o : Option Fields) (file : File f) (x : String)
      → is_node f x (upsert_edge f w edge o file) ≡ is_node f x file
  unfolding upsert_edge read write
  is_node-upsert_edge edge o file x = refl

  is_node-upsert_edges :
      (obs : Fields) (edges : List (GraphEdge f)) (file : File f) (x : String)
      → is_node f x (upsert_edges f w obs edges file) ≡ is_node f x file
  unfolding upsert_edges
  is_node-upsert_edges obs [] file x = refl
  is_node-upsert_edges obs (edge ∷ edges) file x =
      is_node-upsert_edges obs edges (upsert_edge f w edge (some obs) file) x
      ∙ is_node-upsert_edge edge (some obs) file x

  upsert_edges-IsValid :
      (obs : Fields) (event : CanonicalEvent f) (uuid : ℕ → String) (n : ℕ) (ids : List String)
      (drafts : List (Draft f)) (file : File f)
      → All (λ d. IsKnown ids d.0 × IsKnown ids d.1) drafts
      → ((x : String) → contains ids x ≡ true → is_node f x file ≡ true)
      → IsValid file
      → IsValid (upsert_edges f w obs (draw_edges f event uuid n drafts) file)
  unfolding upsert_edges draw_edges build_edge
  upsert_edges-IsValid obs event uuid n ids [] file local known h = h
  upsert_edges-IsValid obs event uuid n ids ((a, b, t, props) ∷ drafts) file local known h =
      let edge = build_edge f a b t event props (uuid n) in
      upsert_edges-IsValid obs event uuid (suc n) ids drafts _ local.1
        (λ x k. is_node-upsert_edge edge (some obs) file x ∙ known x k)
        (upsert_edge-IsValid f w edge (some obs) file (known a.id local.0.0) (known b.id local.0.1)
          h)

  length-draw_edges :
      (event : CanonicalEvent f) (uuid : ℕ → String) (n : ℕ) (drafts : List (Draft f))
      → length (draw_edges f event uuid n drafts) ≡ length drafts
  unfolding draw_edges
  length-draw_edges event uuid n [] = refl
  length-draw_edges event uuid n (d ∷ drafts) =
      omega (arith, length-draw_edges event uuid (suc n) drafts)

  every_id :
      (l m : List EntityRef)
      → ((e : EntityRef) → contains (ids_of l) e.id ≡ true → contains (ids_of m) e.id ≡ true)
      → All (IsKnown (ids_of m)) l
  unfolding ids_of
  every_id [] m h = tt
  every_id (e ∷ l) m h =
      (h e (ground (arith, str_eq_refl e.id)), every_id l m (λ d k. h d (ground (arith, k))))

  -- Applying an event to a document in form, where entries stand under their keys, no list of
  -- observations is too long and every edge joins two nodes: the document is in form afterwards, a
  -- node is what was a node before or is an entity of the event, and the counts are those of the
  -- entities and of the edges that the event yields.
  pub apply_event-IsValid :
      (now : String) (uuid : ℕ → String) (event : CanonicalEvent f) (file : File f) (x : String)
      → IsValid file
      → let (counts, after) = apply_event_to_graph f w now uuid event file in
        IsValid after
        × (is_node f x after ≡ (contains (map (λ e. e.id) event.entities) x || is_node f x file))
        × (counts.0 ≡ length event.entities)
        × (counts.1 ≡ length (draft_edges f event))
  unfolding apply_event_to_graph derive_graph_updates ids_of
  apply_event-IsValid now uuid event file x h =
      let obs = observation_for f w event in
      let entities = event.entities in
      let nodes = map (λ e. build_node f e event) entities in
      let drafts = draft_edges f event in
      let stored = upsert_nodes f w now obs nodes file in
      let node_there = is_node-upsert_nodes now obs event entities file in
      (
        upsert_edges-IsValid obs event uuid 0 (ids_of entities) drafts stored
            (draft_edges-AreLocal event (every_id entities entities (λ e k. k))).ends
            (λ y k. ground (arith, node_there y, k)) (upsert_nodes-IsValid now obs nodes file h),
        is_node-upsert_edges obs (draw_edges f event uuid 0 drafts) stored x ∙ node_there x,
        length-map (λ e. build_node f e event) entities,
        length-draw_edges event uuid 0 drafts,
      )
