-- ===== src/Audit/Tamper.antt =====
-- What `verify_chain` detects, and what it does not: tampering outside the program.
use native.Mathlib.Decide.{ℕ_discrete}
use mathlib.Core.Path.{subst, ap₂}
use aegis_soc.Common.{
  ℕ, zero, suc, ◌+◌, String, ◌≡◌, ◌≢◌, ◌⊎◌, refl, sym, ap, ◌∙◌, inl, inr, true, false, none, some,
  List, [], ◌∷◌, ◌++◌, arith, str_eq, str_eq_iff, length, take, Bool-cases, map,
}
use aegis_soc.Audit.HashChain.{
  AuditEvent, genesis_hash, Digest, compute_record_hash, payload, Payload,
}
use aegis_soc.Audit.Repository.{Log, Verdict, verify_loop, sort_asc, verify_chain, chain_intact}
use aegis_soc.Audit.Chain.{
  IsNumbered, IsChain, sort_asc-numbered, verify_loop_complete, verify_loop_sound,
}

String-discrete : Discrete String
String-discrete s t = elim (Bool-cases (str_eq s t)) [
  | inl e ↦ yes ((str_eq_iff s t).0 e)
  | inr n ↦ no (λ p. cc (n ∙ refl, (str_eq_iff s t).1 p))
]

Payload-discrete : Discrete Payload
Payload-discrete = hlevel (ℕ_discrete, String-discrete)

-- Two logs have, at one place, rows with different payloads and one digest of both.
abbrev pub Collision : Digest → Log → Log → Type 0
Collision d [] m = ⊥
Collision d (r ∷ l) [] = ⊥
Collision d (r ∷ l) (s ∷ m) =
    ((payload r ≢ payload s) × (d.digest (payload r) ≡ d.digest (payload s))) ⊎ Collision d l m

-- the hashed contents of a log, in order
abbrev pub contents : Log → List Payload
contents = map payload

-- the hash of the last row, from the hash `e` before the first
abbrev pub tip : String → Log → String
tip e [] = e
tip e (r ∷ l) = tip r.record_hash l

IsChain-tip : (d : Digest) (e h : String) (l : Log) → IsChain d e l h → h ≡ tip e l
IsChain-tip d e h [] c = c
IsChain-tip d e h (r ∷ l) c = IsChain-tip d r.record_hash h l c.2

-- Chains of one length that end in one hash have one beginning and the same contents.
chains_agree :
    (d : Digest) (e f h : String) (l m : Log)
    → length l ≡ length m
    → IsChain d e l h
    → IsChain d f m h
    → ((e ≡ f) × (contents l ≡ contents m)) ⊎ Collision d l m
unfolding payload compute_record_hash
chains_agree d e f h [] [] n c k = inl (sym c ∙ k, refl)
chains_agree d e f h [] (s ∷ m) n c k = absurd (omega arith)
chains_agree d e f h (r ∷ l) [] n c k = absurd (omega arith)
chains_agree d e f h (r ∷ l) (s ∷ m) n c k =
    elim (chains_agree d r.record_hash s.record_hash h l m (omega arith) c.2 k.2) [
      | inr collision ↦ inr (inr collision)
      | inl (hash, rest) ↦ elim (Payload-discrete (payload r) (payload s)) [
        | no differ ↦ inr (inl (differ, c.1 ∙ (hash ∙ sym k.1)))
        | yes same ↦
            inl (sym c.0 ∙ (ap (λ p. p.prev_hash) same ∙ k.0), ap₂ (λ p ps. p ∷ ps) same rest)
      ]
    ]

-- If `verify_chain` accepts two tables with the same number of rows whose last rows, by sequence,
-- have the same hash, then the tables hold the same contents in the same order, or at one place in
-- that order they have rows with different payloads and the same digest of both.
pub verified_logs_agree :
    (d : Digest) (t u : Log)
    → (verify_chain d t).0 ≡ true
    → (verify_chain d u).0 ≡ true
    → length (sort_asc t) ≡ length (sort_asc u)
    → tip genesis_hash (sort_asc t) ≡ tip genesis_hash (sort_asc u)
    → (contents (sort_asc t) ≡ contents (sort_asc u)) ⊎ Collision d (sort_asc t) (sort_asc u)
unfolding verify_chain
verified_logs_agree d t u v w n same =
    let (h, c) = verify_loop_sound d genesis_hash 0 (sort_asc t) v in
    let (k, m) = verify_loop_sound d genesis_hash 0 (sort_asc u) w in
    let ends : k ≡ h = IsChain-tip d _ k _ m ∙ (sym same ∙ sym (IsChain-tip d _ h _ c)) in
    elim (chains_agree d genesis_hash genesis_hash h (sort_asc t) (sort_asc u) n c
      (subst (IsChain d genesis_hash (sort_asc u)) ends m)) [
        | inl (_, agree) ↦ inl agree
        | inr collision ↦ inr collision
      ]

-- the same rows, with one of them exchanged
IsNumbered-exchange :
    (i : ℕ) (pre : Log) (r s : AuditEvent) (post : Log)
    → s.sequence ≡ r.sequence
    → IsNumbered i (pre ++ (r ∷ post))
    → IsNumbered i (pre ++ (s ∷ post))
IsNumbered-exchange i [] r s post e n = (e ∙ n.0, n.1)
IsNumbered-exchange i (x ∷ pre) r s post e n = (n.0, IsNumbered-exchange (suc i) pre r s post e n.1)

-- the verdict's first three fields
abbrev pub Broken : Verdict → ℕ → ℕ → Type 0
Broken v checked sequence = (v.0 ≡ false) × (v.1 ≡ checked) × (v.2 ≡ some sequence)

-- The row `s` in place of `r`, behind rows that are left alone.
exchange-Broken :
    (d : Digest) (e h : String) (i : ℕ) (pre : Log) (r s : AuditEvent) (post : Log)
    → IsChain d e (pre ++ (r ∷ post)) h
    → s.record_hash ≡ r.record_hash
    → payload s ≢ payload r
    → Broken (verify_loop d e i (pre ++ (s ∷ post))) (i + length pre) s.sequence
      ⊎ (d.digest (payload s) ≡ d.digest (payload r))
unfolding verify_loop compute_record_hash
exchange-Broken d e h i [] r s post c hash differ =
    elim (Bool-cases (str_eq (d.digest (payload s)) s.record_hash)) [
      | inl same ↦ inr ((str_eq_iff (d.digest (payload s)) s.record_hash).0 same ∙ (hash ∙ sym c.1))
      | inr other ↦ inl (ground (arith, other))
    ]
exchange-Broken d e h i (x ∷ pre) r s post c hash differ =
    elim (exchange-Broken d x.record_hash h (suc i) pre r s post c.2 hash differ) [
      | inr collision ↦ inr collision
      | inl broken ↦ inl (
          ground (
            arith,
            broken,
            str_eq_iff x.prev_hash e,
            str_eq_iff (d.digest (payload x)) x.record_hash,
          ))
    ]

-- In a numbered log that verifies, let the hashed contents of one row be changed and its sequence
-- and hash be kept. Then `verify_chain` answers "invalid", with the number of rows before the row
-- and its sequence, or the old and the new contents of this row have the same digest.
pub edit_is_detected :
    (d : Digest) (pre : Log) (r s : AuditEvent) (post : Log)
    → IsNumbered 0 (pre ++ (r ∷ post))
    → (verify_chain d (pre ++ (r ∷ post))).0 ≡ true
    → s.sequence ≡ r.sequence
    → s.record_hash ≡ r.record_hash
    → payload s ≢ payload r
    → Broken (verify_chain d (pre ++ (s ∷ post))) (length pre) s.sequence
      ⊎ (d.digest (payload s) ≡ d.digest (payload r))
unfolding verify_chain
edit_is_detected d pre r s post n v seq hash differ =
    let valid = rw (sort_asc-numbered 0 (pre ++ (r ∷ post)) n) at v in
    let (h, c) = verify_loop_sound d genesis_hash 0 (pre ++ (r ∷ post)) valid in
    let before : 0 + length pre ≡ length pre = omega arith in
    rw (sort_asc-numbered 0 (pre ++ (s ∷ post)) (IsNumbered-exchange 0 pre r s post seq n))
      (rw before at (exchange-Broken d genesis_hash h 0 pre r s post c hash differ))

IsNumbered-take : (i n : ℕ) (l : Log) → IsNumbered i l → IsNumbered i (take n l)
IsNumbered-take i zero l h = tt
IsNumbered-take i (suc n) [] h = tt
IsNumbered-take i (suc n) (r ∷ l) h = (h.0, IsNumbered-take (suc i) n l h.1)

IsChain-take :
    (d : Digest) (e h : String) (n : ℕ) (l : Log)
    → IsChain d e l h
    → IsChain d e (take n l) (tip e (take n l))
IsChain-take d e h zero l c = refl
IsChain-take d e h (suc n) [] c = refl
IsChain-take d e h (suc n) (r ∷ l) c = (c.0, c.1, IsChain-take d r.record_hash h n l c.2)

-- If a numbered log verifies, so does what is left when all rows but the first `n` are deleted:
-- `verify_chain` does not notice that the end of the log is gone.
pub truncation_is_not_detected :
    (d : Digest) (n : ℕ) (log : Log)
    → IsNumbered 0 log
    → (verify_chain d log).0 ≡ true
    → verify_chain d (take n log) ≡ (true, length (take n log), none, chain_intact)
unfolding verify_chain
truncation_is_not_detected d n log num v =
    let (h, c) = verify_loop_sound d genesis_hash 0 log (rw (sort_asc-numbered 0 log num) at v) in
    rw (sort_asc-numbered 0 (take n log) (IsNumbered-take 0 n log num)) (
      verify_loop_complete d genesis_hash _ 0 (take n log) (IsChain-take d genesis_hash h n log c)
      ∙ ground arith)
