-- ===== src/Triage/Grounded.antt =====
-- A validated report trusts only what the evidence supports.
use aegis_soc.Common.{
  ℕ, suc, ◌+◌, String, ◌<>◌, ◌≡◌, refl, sym, ◌∙◌, inl, inr, true, ◌&&◌, Option, none, some, List,
  [], ◌∷◌, arith, str_eq_iff, contains, all, keep, length, length-append, all-append, Bool-cases,
}
use aegis_soc.Common.Floats.{Floats}
use aegis_soc.Common.Sets.{union, contains-add_to, contains-sorted_set, contains-union}
use aegis_soc.Triage.{
  Patterns, sentences, Mapping, Report, Grounding, resolves, cite, conclude, start, ground_sentence,
  ground_sentences, ground_mapping, ground_mappings, ground_field, ground_report,
  validate_and_ground,
}

contains-keep :
    (ids l : List String) (x : String)
    → contains (keep (contains ids) l) x ≡ (contains l x && contains ids x)
contains-keep ids [] x = refl
contains-keep ids (y ∷ l) x = ground (arith, contains-keep ids l x, str_eq_iff y x)

conclude-cited :
    (valid cites : List String) (s : String) (g : Grounding)
    → (conclude valid cites s g).cited ≡ union g.cited valid
unfolding conclude union
conclude-cited (c ∷ valid) cites s g = refl
conclude-cited [] (c ∷ cites) s g = refl
conclude-cited [] [] s g = refl

conclude-mapped :
    (valid cites : List String) (s : String) (g : Grounding)
    → (conclude valid cites s g).mapped ≡ g.mapped
unfolding conclude
conclude-mapped (c ∷ valid) cites s g = refl
conclude-mapped [] (c ∷ cites) s g = refl
conclude-mapped [] [] s g = refl

-- the grounded sentences, the kept mappings and the notes
abbrev total : Grounding → ℕ
total g = (g.grounded + length g.mapped) + length g.unsupported

-- A sentence counts as grounded or leaves a note.
conclude-accounted :
    (valid cites : List String) (s : String) (g : Grounding)
    → total (conclude valid cites s g) ≡ suc (total g)
unfolding conclude
conclude-accounted (c ∷ valid) cites s g = omega arith
conclude-accounted [] (c ∷ cites) s g =
    ground (arith, length-append g.unsupported (("Unresolvable citation removed from: " <> s) ∷ []))
conclude-accounted [] [] s g =
    ground (arith, length-append g.unsupported (("Uncited claim flagged: " <> s) ∷ []))

module _ (p : Patterns) (ids : List String) where
  -- What the loops keep: only ids of the evidence are cited, and only mappings to them are kept.
  Inv : Grounding → Type 0
  Inv g =
      ((x : String) → contains g.cited x ≡ true → contains ids x ≡ true)
      × (all (λ m. resolves ids m.evidence_id) g.mapped ≡ true)

  union-valid :
      (s l : List String) (x : String)
      → (contains s x ≡ true → contains ids x ≡ true)
      → contains (union s (keep (contains ids) l)) x ≡ true
      → contains ids x ≡ true
  union-valid s l x old h =
      ground (arith, contains-union s (keep (contains ids) l) x, contains-keep ids l x)

  cite-valid :
      (s : List String) (e : Option String) (x : String)
      → resolves ids e ≡ true
      → (contains s x ≡ true → contains ids x ≡ true)
      → contains (cite s e) x ≡ true
      → contains ids x ≡ true
  unfolding cite
  cite-valid s none x found old h = old h
  cite-valid s (some id) x found old h = ground (arith, contains-add_to s id x, str_eq_iff id x)

  ground_field-Inv : (t : String) (g : Grounding) → Inv g → Inv (ground_field p ids t g)
  unfolding Inv ground_field
  ground_field-Inv t g h = (λ x. union-valid g.cited (p.citations t) x (h.0 x), h.1)

  ground_sentence-Inv : (s : String) (g : Grounding) → Inv g → Inv (ground_sentence p ids s g)
  unfolding Inv ground_sentence
  ground_sentence-Inv s g h =
      let valid = keep (contains ids) (p.citations s) in
      rw (conclude-cited valid (p.citations s) s g, conclude-mapped valid (p.citations s) s g)
        ((λ x. union-valid g.cited (p.citations s) x (h.0 x)), h.1)

  ground_mapping-Inv : (m : Mapping) (g : Grounding) → Inv g → Inv (ground_mapping p ids m g)
  unfolding Inv ground_mapping
  ground_mapping-Inv m g h = elim (Bool-cases (resolves ids m.evidence_id)) [
    | inl found ↦
        rw (Inv, ground_mapping, found)
          (
            (λ x. cite-valid g.cited m.evidence_id x found (h.0 x)),
            ground (arith, h.1, all-append (λ m. resolves ids m.evidence_id) g.mapped (m ∷ [])),
          )
    | inr lost ↦ rw (Inv, ground_mapping, lost) h
  ]

  ground_sentences-Inv :
      (l : List String) (g : Grounding) → Inv g → Inv (ground_sentences p ids l g)
  unfolding ground_sentences
  ground_sentences-Inv [] g h = h
  ground_sentences-Inv (s ∷ l) g h =
      ground_sentences-Inv l (ground_sentence p ids s g) (ground_sentence-Inv s g h)

  ground_mappings-Inv : (l : List Mapping) (g : Grounding) → Inv g → Inv (ground_mappings p ids l g)
  unfolding ground_mappings
  ground_mappings-Inv [] g h = h
  ground_mappings-Inv (m ∷ l) g h =
      ground_mappings-Inv l (ground_mapping p ids m g) (ground_mapping-Inv m g h)

  ground_report-Inv : {f : Floats} → (raw : Report f) → Inv (ground_report p ids raw)
  unfolding ground_report Inv
  ground_report-Inv raw =
      let after = ground_sentences p ids (sentences p raw.summary) (start raw) in
      let mappings = ground_mappings p ids raw.attack_mapping after in
      ground_field-Inv raw.confidence_explanation
        (ground_field p ids raw.containment_recommendation mappings)
        (ground_field-Inv raw.containment_recommendation mappings (
          ground_mappings-Inv raw.attack_mapping after (
            ground_sentences-Inv (sentences p raw.summary) (start raw)
              ((λ x h. ground arith), refl))))

  ground_sentences-accounted :
      (l : List String) (g : Grounding) → total (ground_sentences p ids l g) ≡ length l + total g
  unfolding ground_sentences ground_sentence
  ground_sentences-accounted [] g = omega arith
  ground_sentences-accounted (s ∷ l) g = ground (
    arith,
    ground_sentences-accounted l (ground_sentence p ids s g),
    conclude-accounted (keep (contains ids) (p.citations s)) (p.citations s) s g,
  )

  -- A mapping is kept or leaves a note.
  ground_mapping-accounted :
      (m : Mapping) (g : Grounding) → total (ground_mapping p ids m g) ≡ suc (total g)
  unfolding ground_mapping
  ground_mapping-accounted m g = elim (Bool-cases (resolves ids m.evidence_id)) [
    | inl found ↦
        rw (total, ground_mapping, found) (ground (arith, length-append g.mapped (m ∷ [])))
    | inr lost ↦
        rw (total, ground_mapping, lost)
          (ground (
            arith,
            length-append g.unsupported (
                ("Dropped ATT&CK mapping "
                  <> p.text_of m.technique_id
                  <> " (no valid evidence citation)")
                ∷ []),
          ))
  ]

  ground_mappings-accounted :
      (l : List Mapping) (g : Grounding) → total (ground_mappings p ids l g) ≡ length l + total g
  unfolding ground_mappings
  ground_mappings-accounted [] g = omega arith
  ground_mappings-accounted (m ∷ l) g =
      ground (
        arith,
        ground_mappings-accounted l (ground_mapping p ids m g),
        ground_mapping-accounted m g,
      )

-- Every sentence of the summary and every mapping of the draft is accounted for: the sentences that
-- count as grounded, the mappings that are kept and the unsupported claims of the result are together
-- as many as the sentences, the mappings and the unsupported claims of the draft.
pub ground_report-accounts :
    (p : Patterns) (ids : List String) {f : Floats} (raw : Report f)
    → ((ground_report p ids raw).grounded + length (ground_report p ids raw).mapped)
        + length (ground_report p ids raw).unsupported
      ≡ (length (sentences p raw.summary) + length raw.attack_mapping)
        + length raw.unsupported_claims
unfolding ground_report ground_field
ground_report-accounts p ids raw =
    let after = ground_sentences p ids (sentences p raw.summary) (start raw) in
    ground (
      arith,
      ground_sentences-accounted p ids (sentences p raw.summary) (start raw),
      ground_mappings-accounted p ids raw.attack_mapping after,
    )

-- A validated report trusts only what the evidence supports: each id in `evidence_cited` is the id of
-- a piece of the evidence, and so is the `evidence_id` of each mapping that is kept.
pub validate_and_ground-resolves :
    (f : Floats) (p : Patterns) (ids : List String) (raw : Report f)
    → ((x : String)
        → contains (validate_and_ground f p ids raw).evidence_cited x ≡ true
        → contains ids x ≡ true)
      × (all (λ m. resolves ids m.evidence_id) (validate_and_ground f p ids raw).attack_mapping
          ≡ true)
unfolding Inv validate_and_ground
validate_and_ground-resolves f p ids raw =
    let inv = ground_report-Inv p ids raw in
    ((λ x h. inv.0 x (sym (contains-sorted_set x (ground_report p ids raw).cited) ∙ h)), inv.1)
