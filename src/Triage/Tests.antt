-- ===== src/Triage/Tests.antt =====
-- The theorems on triage at concrete inputs.
use aegis_soc.Common.{
  ◌+◌, String, ◌≡◌, refl, true, none, some, List, [], ◌∷◌, contains, all, length, if◌then◌else◌,
  str_eq,
}
use aegis_soc.Common.Thousandths.{thousandths}
use aegis_soc.Triage.{Patterns, sentences, Report, resolves, ground_report, validate_and_ground}
use aegis_soc.Triage.Grounded.{ground_report-accounts, validate_and_ground-resolves}

-- a summary of two sentences: the first cites a piece of the evidence, the second an unknown one
abbrev patterns : Patterns
patterns = record {
  split = λ s. if str_eq s "A [e1]. B [e9]." then "A [e1]." ∷ "B [e9]." ∷ [] else [];
  strip = λ s. s;
  citations =
      λ s. if str_eq s "A [e1]." then "e1" ∷ [] else if str_eq s "B [e9]." then "e9" ∷ [] else [];
  text_of = λ o. elim o [ none ↦ "None" | some s ↦ s ];
}

abbrev draft : Report thousandths
draft = record {
  summary = "A [e1]. B [e9].";
  attack_mapping =
      record { technique_id = some "T1078"; evidence_id = some "e2" }
      ∷ record { technique_id = some "T1110"; evidence_id = none }
      ∷ [];
  containment_recommendation = "";
  confidence_explanation = "";
  unsupported_claims = [];
  evidence_cited = [];
  groundedness_score = 0;
}

abbrev evidence_ids : List String
evidence_ids = "e1" ∷ "e2" ∷ []

draft-cited :
    (validate_and_ground thousandths patterns evidence_ids draft).evidence_cited ≡ evidence_ids
unfolding validate_and_ground
draft-cited = refl

draft-groundedness :
    (validate_and_ground thousandths patterns evidence_ids draft).groundedness_score ≡ 500
unfolding validate_and_ground
draft-groundedness = refl

ground_report-accounts_example :
    ((ground_report patterns evidence_ids draft).grounded
        + length (ground_report patterns evidence_ids draft).mapped)
      + length (ground_report patterns evidence_ids draft).unsupported
    ≡ (length (sentences patterns draft.summary) + length draft.attack_mapping)
      + length draft.unsupported_claims
ground_report-accounts_example = ground_report-accounts patterns evidence_ids draft

validate_and_ground-resolves_example :
    ((x : String)
      → contains (validate_and_ground thousandths patterns evidence_ids draft).evidence_cited x
        ≡ true
      → contains evidence_ids x ≡ true)
    × (all
          (λ m. resolves evidence_ids m.evidence_id)
          (validate_and_ground thousandths patterns evidence_ids draft).attack_mapping
        ≡ true)
validate_and_ground-resolves_example =
    validate_and_ground-resolves thousandths patterns evidence_ids draft
