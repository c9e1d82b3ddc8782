-- ===== src/Detection/GraphFeatures.antt =====
-- The graph's part of the score (services/detection/detection_core/graph_features.py).
use aegis_soc.Common.{
  ℕ, String, ◌<>◌, Bool, Option, none, some, List, [], ◌∷◌, map, if◌then◌else◌, truthy, head?,
  length,
}
use aegis_soc.Common.Floats.{Floats, of_int}
use aegis_soc.Common.Strings.{Strings}
use aegis_soc.Schema.{NodeType, node_type_value}
use aegis_soc.Schema.Events.{CanonicalEvent, EntityRef}
use aegis_soc.Graph.Store.{File}
use aegis_soc.Graph.Search.KnownBad.{Distance, distance, no_path, out_of_fuel}
use aegis_soc.Graph.Queries.{Step, neighborhood, path_length_to_known_bad}
use aegis_soc.Graph.Statistics.{degree, rare_edge_score}
use aegis_soc.Graph.Builder.{find_entity, or_entity}
use aegis_soc.Detection.Ensemble.{norm, path_norm}

-- the regular expressions of the module, and `stable_hash`
pub record Indicators : Type 0 where
  pub is_ip : String → Bool
  pub is_hash : String → Bool
  pub stable_hash : String → String

-- `entity_id` of packages/common/aegis_common/utils/helpers.py
abbrev pub entity_id : Indicators → Strings → (node_type key tenant_id : String) → String
entity_id i s node_type key tenant_id =
    tenant_id <> ":" <> node_type <> ":" <> i.stable_hash (s.strip (s.lower key))

unfoldable pub guess_node_id_for_indicator :
    Indicators → Strings → (indicator tenant_id : String) → String
unfolding node_type_value
guess_node_id_for_indicator i s indicator tenant_id =
    let type : NodeType =
      if i.is_ip indicator
      then NodeType.ip
      else if i.is_hash indicator
      then NodeType.hash
      else NodeType.domain in
    entity_id i s (node_type_value type) indicator tenant_id

-- the result, or the one without an entity
pub record GraphFeatures (f : Floats) : Type 0 where
  pub node_id : Option String
  pub degree : ℕ
  pub path_length : Option ℕ
  pub rare_edge_score : f.Float
  pub neighbor_count : Option ℕ

module _ (f : Floats) where
  unfoldable pub primary_entity : CanonicalEvent f → Option EntityRef
  unfolding find_entity
  primary_entity event =
      let find = find_entity event.entities in
      or_entity (find NodeType.process)
        (or_entity (find NodeType.host) (or_entity (find NodeType.user) (head? event.entities)))

  -- the loop over the edges
  unfoldable pub rarity_scores : File f → List (Step f) → List f.Float
  unfolding rare_edge_score
  rarity_scores file [] = []
  rarity_scores file (s ∷ steps) =
      let rest = rarity_scores file steps in
      if truthy s.edge.edge_type then rare_edge_score f s.edge.edge_type file ∷ rest else rest

  -- `sum(l)`, from the first on
  unfoldable pub sum_from : f.Float → List f.Float → f.Float
  sum_from a [] = a
  sum_from a (b ∷ l) = sum_from (f.add a b) l

  -- `sum(l) / len(l) if l else 0.5`
  unfoldable pub average : List f.Float → f.Float
  unfolding sum_from
  average [] = f.milli 500
  average (a ∷ l) = f.div (sum_from (of_int f 0) (a ∷ l)) (of_int f (length (a ∷ l)))

  -- the fuel's end, which does not happen, is as no path
  unfoldable pub length_of : Distance → Option ℕ
  length_of (distance n) = some n
  length_of no_path = none
  length_of out_of_fuel = none

module _ (f : Floats) (i : Indicators) (s : Strings) (order : List String → List String) where
  unfoldable pub compute_graph_features : File f → CanonicalEvent f → GraphFeatures f
  unfolding primary_entity guess_node_id_for_indicator degree path_length_to_known_bad neighborhood
      rarity_scores average length_of
  compute_graph_features file event = elim (primary_entity f event) [
    | none ↦ record {
      node_id = none;
      degree = 0;
      path_length = none;
      rare_edge_score = f.milli 500;
      neighbor_count = none;
    }
    | some entity ↦
        let known_bad_ids =
          map (λ t. guess_node_id_for_indicator i s t event.tenant_id) event.intel_matches in
        let around = neighborhood f order entity.id 1 50 file in
        record {
          node_id = some entity.id;
          degree = degree f entity.id file;
          path_length = length_of f (path_length_to_known_bad f entity.id known_bad_ids 4 file);
          rare_edge_score = f.round3 (average f (rarity_scores f file around.edges));
          neighbor_count = some (length around.nodes);
        }
  ]

module _ (f : Floats) where
  unfoldable pub graph_score_from_features : GraphFeatures f → f.Float
  graph_score_from_features features = f.round4 (
      f.add
        (f.add (f.mul (f.milli 400) (norm f features.degree 20))
          (f.mul (f.milli 300) features.rare_edge_score))
        (f.mul (f.milli 300) (path_norm f features.path_length)))
