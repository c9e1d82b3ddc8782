-- ===== src/Detection/Sigma/Blocks.antt =====
-- A block of a rule is the conjunction of its entries.
use aegis_soc.Common.{String, ◌≡◌, refl, ◌↔◌, inl, inr, true, some, Option-cases, Bool-cases}
use mathlib.Core.Path.{subst}
use aegis_soc.Common.Floats.{Floats}
use aegis_soc.Common.Json.{Value, obj, Fields, end, field, put}
use aegis_soc.Schema.Events.{CanonicalEvent}
use aegis_soc.Detection.Sigma.{Runtime, get_field, match_value, evaluate_fields, evaluate_block}

module _ (f : Floats) (r : Runtime f) (event : CanonicalEvent f) where
  -- The field that the key names has a value, and it matches under the key's modifier.
  abbrev pub FieldMatches : String → Value → Type 0
  FieldMatches raw_key expected =
      (actual : Value) × (get_field f r event (r.strings.partition_bar raw_key) ≡ some actual)
      × (match_value f r actual expected (r.strings.after_bar raw_key) ≡ some true)

  abbrev pub AllMatch : Fields → Type 0
  AllMatch end = Unit
  AllMatch (field raw_key expected block) = FieldMatches raw_key expected × AllMatch block

  matched_all :
      (block evidence e : Fields)
      → evaluate_fields f r event block evidence ≡ some (true, e)
      → AllMatch block
  unfolding evaluate_fields
  matched_all end evidence e h = tt
  matched_all (field raw_key expected block) evidence e h =
      let name = r.strings.partition_bar raw_key in
      elim (Option-cases (get_field f r event name)) [
        | inl raised ↦ absurd (cc (rw (evaluate_fields, raised) at h))
        | inr (actual, is) ↦
            elim (Option-cases (match_value f r actual expected (r.strings.after_bar raw_key))) [
              | inl raised ↦ absurd (cc (rw (evaluate_fields, is, raised) at h))
              | inr (b, is_b) ↦ elim (Bool-cases b) [
                | inl holds ↦
                    let is_true =
                      subst
                        (λ c.
                          match_value f r actual expected (r.strings.after_bar raw_key) ≡ some c)
                        holds is_b in
                    let e' = rw (evaluate_fields, is, is_true) at h in
                    ((actual, is, is_true), matched_all block (put name actual evidence) e e')
                | inr fails ↦
                    let is_false =
                      subst
                        (λ c.
                          match_value f r actual expected (r.strings.after_bar raw_key) ≡ some c)
                        fails is_b in
                    absurd (cc (rw (evaluate_fields, is, is_false) at h))
              ]
            ]
      ]

  all_matched :
      (block evidence : Fields)
      → AllMatch block
      → (e : Fields) × (evaluate_fields f r event block evidence ≡ some (true, e))
  unfolding evaluate_fields
  all_matched end evidence h = (evidence, refl)
  all_matched (field raw_key expected block) evidence ((actual, is, matches), rest) =
      let (e, found) =
        all_matched block (put (r.strings.partition_bar raw_key) actual evidence) rest in
      (e, rw (evaluate_fields, is, matches) found)

  -- A block that is a dict matches an event exactly where every entry matches: no lookup or
  -- comparison raises, the field has a value, and the value matches the expected one under the
  -- modifier of the key.
  pub evaluate_block_iff :
      (block : Fields)
      → ((e : Fields) × (evaluate_block f r (obj block) event ≡ some (true, e))) ↔ AllMatch block
  unfolding evaluate_block
  evaluate_block_iff block = (λ m. matched_all block end m.0 m.1, λ h. all_matched block end h)
