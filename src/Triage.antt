-- ===== src/Triage.antt =====
-- The validation of a drafted triage report (services/llm_triage/triage_core/validation.py).
pub mod Grounded
mod Tests
use aegis_soc.Common.{
  ℕ, zero, suc, ◌+◌, String, ◌<>◌, Bool, true, false, Option, none, some, List, [], ◌∷◌, ◌++◌, map,
  if◌then◌else◌, str_eq, truthy, contains, keep, length,
}
use aegis_soc.Common.Floats.{Floats, of_int}
use aegis_soc.Common.Sets.{sorted_set, union, add_to}

-- What is not the program's own: what the regular expressions of the module split and find, `strip`,
-- and the text of a value in an f-string.
pub record Patterns : Type 0 where
  pub split : String → List String
  pub strip : String → String
  pub citations : String → List String
  pub text_of : Option String → String

-- `_sentences`
abbrev pub sentences : Patterns → String → List String
sentences p text = keep truthy (map p.strip (p.split text))

-- an entry of `attack_mapping`
pub record Mapping : Type 0 where
  pub technique_id : Option String
  pub evidence_id : Option String

-- the keys of the draft that are read or replaced; a key that is left out or null is empty
pub record Report (f : Floats) : Type 0 where
  pub summary : String
  pub attack_mapping : List Mapping
  pub containment_recommendation : String
  pub confidence_explanation : String
  pub unsupported_claims : List String
  pub evidence_cited : List String
  pub groundedness_score : f.Float

-- what the loops change
pub record Grounding : Type 0 where
  pub cited : List String
  pub unsupported : List String
  pub grounded : ℕ
  pub mapped : List Mapping

-- `eid in valid_ids`
abbrev pub resolves : List String → Option String → Bool
resolves valid_ids none = false
resolves valid_ids (some id) = contains valid_ids id

-- `evidence_cited.add(eid)`
unfoldable pub cite : List String → Option String → List String
unfolding add_to
cite cited none = cited
cite cited (some id) = add_to cited id

-- the variables before the loops
abbrev pub start : {f : Floats} → Report f → Grounding
start raw = record { cited = []; unsupported = raw.unsupported_claims; grounded = 0; mapped = [] }

-- what one sentence of the summary with the citations `cites`, the valid ones first, changes
unfoldable pub conclude : List String → List String → String → Grounding → Grounding
unfolding union
conclude (c ∷ valid_cites) cites sentence g = record g {
  cited = union g.cited (c ∷ valid_cites);
  grounded = suc g.grounded;
}
conclude [] (c ∷ cites) sentence g = record g {
  unsupported = g.unsupported ++ (("Unresolvable citation removed from: " <> sentence) ∷ []);
}
conclude [] [] sentence g = record g {
  unsupported = g.unsupported ++ (("Uncited claim flagged: " <> sentence) ∷ []);
}

module _ (p : Patterns) (valid_ids : List String) where
  -- one sentence of the summary
  unfoldable pub ground_sentence : String → Grounding → Grounding
  unfolding conclude
  ground_sentence sentence g =
      let cites = p.citations sentence in
      conclude (keep (contains valid_ids) cites) cites sentence g

  unfoldable pub ground_sentences : List String → Grounding → Grounding
  unfolding ground_sentence
  ground_sentences [] g = g
  ground_sentences (s ∷ rest) g = ground_sentences rest (ground_sentence s g)

  -- one entry of `attack_mapping`
  unfoldable pub ground_mapping : Mapping → Grounding → Grounding
  unfolding cite
  ground_mapping m g = elim (resolves valid_ids m.evidence_id) [
    | true ↦ record g { cited = cite g.cited m.evidence_id; mapped = g.mapped ++ (m ∷ []) }
    | false ↦ record g {
      unsupported =
          g.unsupported
          ++ (("Dropped ATT&CK mapping "
                <> p.text_of m.technique_id
                <> " (no valid evidence citation)")
              ∷ []);
    }
  ]

  unfoldable pub ground_mappings : List Mapping → Grounding → Grounding
  unfolding ground_mapping
  ground_mappings [] g = g
  ground_mappings (m ∷ mappings) g = ground_mappings mappings (ground_mapping m g)

  -- the citations of a field
  unfoldable pub ground_field : String → Grounding → Grounding
  unfolding union
  ground_field text g = record g {
    cited = union g.cited (keep (contains valid_ids) (p.citations text));
  }

  -- the three loops
  unfoldable pub ground_report : {f : Floats} → Report f → Grounding
  unfolding ground_sentences ground_mappings ground_field
  ground_report raw = ground_field raw.confidence_explanation (
      ground_field raw.containment_recommendation (
        ground_mappings raw.attack_mapping
          (ground_sentences (sentences p raw.summary) (start raw))))

module _ (f : Floats) (p : Patterns) where
  -- `valid_ids` are the ids of the evidence
  unfoldable pub validate_and_ground : List String → Report f → Report f
  unfolding ground_report sorted_set
  validate_and_ground valid_ids raw =
      let g = ground_report p valid_ids raw in
      record raw {
        attack_mapping = g.mapped;
        unsupported_claims = g.unsupported;
        evidence_cited = sorted_set g.cited;
        groundedness_score = (elim (sentences p raw.summary) [
          | [] ↦ f.milli 0
          | s ∷ rest ↦ f.round3 (f.div (of_int f g.grounded) (of_int f (length (s ∷ rest))))
        ]);
      }
