-- ===== src/Audit/Chain.antt =====
-- A log that only `append_event` has written verifies.
use aegis_soc.Common.{
  ℕ, suc, ◌+◌, ◌≤◌, String, ◌≡◌, refl, sym, ap, ◌∙◌, inl, inr, true, none, some, List, [], ◌∷◌,
  ◌++◌, arith, str_eq, str_eq_iff, length, Bool-cases,
}
use aegis_soc.Audit.HashChain.{
  DateTime, canonical, AuditEventIn, AuditEvent, genesis_hash, Digest, compute_record_hash, payload,
}
use aegis_soc.Audit.Repository.{
  Log, chain_intact, max_sequence, next_sequence, latest, last_hash, append_event, verify_loop,
  insert_asc, sort_asc, verify_chain,
}

-- The sequences are i + 1, i + 2, ….
abbrev pub IsNumbered : ℕ → Log → Type 0
IsNumbered i [] = Unit
IsNumbered i (r ∷ l) = (r.sequence ≡ suc i) × IsNumbered (suc i) l

-- From the hash `e` to the hash `h`: every row names the hash before it, and its own hash is that
-- of its contents.
abbrev pub IsChain : Digest → String → Log → String → Type 0
IsChain d e [] h = h ≡ e
IsChain d e (r ∷ l) h =
    (r.prev_hash ≡ e) × (compute_record_hash d r ≡ r.record_hash) × IsChain d r.record_hash l h

pub IsNumbered-append :
    (i : ℕ) (l : Log) (r : AuditEvent)
    → IsNumbered i l
    → r.sequence ≡ suc (i + length l)
    → IsNumbered i (l ++ (r ∷ []))
IsNumbered-append i [] r n e = (omega arith, tt)
IsNumbered-append i (x ∷ l) r n e = (n.0, IsNumbered-append (suc i) l r n.1 (omega arith))

pub IsChain-append :
    (d : Digest) (e h : String) (l : Log) (r : AuditEvent)
    → IsChain d e l h
    → r.prev_hash ≡ h
    → compute_record_hash d r ≡ r.record_hash
    → IsChain d e (l ++ (r ∷ [])) r.record_hash
IsChain-append d e h [] r c p q = (p ∙ c, q, refl)
IsChain-append d e h (x ∷ l) r c p q = (c.0, c.1, IsChain-append d x.record_hash h l r c.2 p q)

max-numbered :
    (i : ℕ) (r : AuditEvent) (l : Log)
    → IsNumbered i (r ∷ l)
    → max_sequence (r ∷ l) ≡ some (suc i + length l)
unfolding max_sequence
max-numbered i r [] n = ap some (n.0 ∙ omega arith)
max-numbered i r (s ∷ l) n = rw (max-numbered (suc i) s l n.1) (ap some (omega (arith, n.0)))

pub next_sequence-numbered : (l : Log) → IsNumbered 0 l → next_sequence l ≡ suc (length l)
unfolding next_sequence max_sequence
next_sequence-numbered [] n = refl
next_sequence-numbered (r ∷ l) n = ground (arith, max-numbered 0 r l n)

-- The latest row of a numbered chain ends it, and has the last number.
latest-numbered :
    (d : Digest) (i : ℕ) (e h : String) (r : AuditEvent) (l : Log)
    → IsNumbered i (r ∷ l)
    → IsChain d e (r ∷ l) h
    → (s : AuditEvent) × (latest (r ∷ l) ≡ some s)
      × (s.record_hash ≡ h)
      × (compute_record_hash d s ≡ s.record_hash)
      × (suc i ≤ s.sequence)
unfolding latest
latest-numbered d i e h r [] n c = (r, refl, sym c.2, c.1, omega arith)
latest-numbered d i e h r (x ∷ l) n c =
    let (s, last, hash, own, more) = latest-numbered d (suc i) r.record_hash h x l n.1 c.2 in
    (s, ground (arith, last), hash, own, omega arith)

-- The hash that the next row will name.
pub last_hash-chain :
    (d : Digest) (h : String) (l : Log)
    → IsNumbered 0 l
    → IsChain d genesis_hash l h
    → last_hash l ≡ h
unfolding last_hash latest compute_record_hash
last_hash-chain d h [] n c = sym c
last_hash-chain d h (r ∷ l) n c =
    let (s, last, hash, own, _) = latest-numbered d 0 genesis_hash h r l n c in
    let nonempty = d.digest_nonempty (payload s) in
    ground (
      arith,
      last,
      hash,
      own,
      str_eq_iff s.record_hash "",
      λ (p : s.record_hash ≡ ""). nonempty (own ∙ p),
    )

-- What every log that was written by appending is.
pub record IsLog (d : Digest) (log : Log) : Type 0 where
  pub numbered : IsNumbered 0 log
  pub chain : IsChain d genesis_hash log (last_hash log)

-- How a database may keep a timestamp: the instant in UTC survives.
abbrev pub KeepsInstant : (DateTime → DateTime) → Type 0
KeepsInstant stored = (t : DateTime) → canonical (stored t) ≡ canonical t

module _ (d : Digest) (stored : DateTime → DateTime) where
  -- the log after a list of appends
  unfoldable pub append_all : List (String × DateTime × AuditEventIn) → Log → Log
  append_all [] log = log
  append_all ((audit_id, now, event) ∷ events) log =
      append_all events (append_event d stored audit_id now event log).0

module _ (d : Digest) (stored : DateTime → DateTime) (keeps : KeepsInstant stored) where
  -- Appending keeps the log a log.
  append_event-IsLog :
      (audit_id : String) (now : DateTime) (event : AuditEventIn) (log : Log)
      → IsLog d log
      → IsLog d (append_event d stored audit_id now event log).0
  unfolding append_event compute_record_hash payload
  append_event-IsLog audit_id now event log h =
      let row = record (append_event d stored audit_id now event log).1 {
        timestamp = stored now;
      } in
      let numbered =
        IsNumbered-append 0 log row h.numbered
          (next_sequence-numbered log h.numbered ∙ omega arith) in
      let chained =
        IsChain-append d genesis_hash (last_hash log) log row h.chain refl
          (ap (λ t. d.digest (record (payload row) { timestamp = t })) (keeps now)) in
      record {
        numbered = numbered;
        chain = rw (last_hash-chain d row.record_hash (log ++ (row ∷ [])) numbered chained) chained;
      }

  append_all-IsLog :
      (events : List (String × DateTime × AuditEventIn)) (log : Log)
      → IsLog d log
      → IsLog d (append_all d stored events log)
  unfolding append_all
  append_all-IsLog [] log h = h
  append_all-IsLog ((a, t, e) ∷ events) log h =
      append_all-IsLog events (append_event d stored a t e log).0 (append_event-IsLog a t e log h)

insert_asc-numbered :
    (i : ℕ) (r : AuditEvent) (l : Log) → IsNumbered i (r ∷ l) → insert_asc r l ≡ r ∷ l
unfolding insert_asc
insert_asc-numbered i r [] n = refl
insert_asc-numbered i r (x ∷ l) n = ground arith

pub sort_asc-numbered : (i : ℕ) (l : Log) → IsNumbered i l → sort_asc l ≡ l
unfolding sort_asc
sort_asc-numbered i [] n = refl
sort_asc-numbered i (r ∷ l) n = rw (sort_asc-numbered (suc i) l n.1) (insert_asc-numbered i r l n)

-- The loop accepts a chain, and counts its rows.
pub verify_loop_complete :
    (d : Digest) (e h : String) (i : ℕ) (l : Log)
    → IsChain d e l h
    → verify_loop d e i l ≡ (true, i + length l, none, chain_intact)
unfolding verify_loop
verify_loop_complete d e h i [] c = ground arith
verify_loop_complete d e h i (r ∷ l) c = ground (
  arith,
  verify_loop_complete d r.record_hash h (suc i) l c.2,
  str_eq_iff r.prev_hash e,
  str_eq_iff (compute_record_hash d r) r.record_hash,
)

-- A verdict of "valid" comes from a chain.
pub verify_loop_sound :
    (d : Digest) (e : String) (i : ℕ) (l : Log)
    → (verify_loop d e i l).0 ≡ true
    → (h : String) × IsChain d e l h
unfolding verify_loop
verify_loop_sound d e i [] v = (e, refl)
verify_loop_sound d e i (r ∷ l) v = elim (Bool-cases (str_eq r.prev_hash e)) [
  | inr p ↦ absurd (ground arith)
  | inl p ↦ elim (Bool-cases (str_eq (compute_record_hash d r) r.record_hash)) [
    | inr q ↦ absurd (ground arith)
    | inl q ↦
        let (h, c) = verify_loop_sound d r.record_hash (suc i) l (ground arith) in
        (
          h,
          (
            (str_eq_iff r.prev_hash e).0 p,
            (str_eq_iff (compute_record_hash d r) r.record_hash).0 q,
            c,
          ),
        )
  ]
]

empty-IsLog : (d : Digest) → IsLog d []
unfolding last_hash
empty-IsLog d = record { numbered = tt; chain = refl }

-- A log that only `append_event` has written, from the empty table on, is numbered 1, 2, …
-- without a gap, and `verify_chain` accepts it, with the number of its rows, if the database keeps
-- the instant of a timestamp, be it without its time zone.
pub appended_log_verifies :
    (d : Digest) (stored : DateTime → DateTime) (keeps : KeepsInstant stored)
    (events : List (String × DateTime × AuditEventIn))
    → let log = append_all d stored events [] in
      IsNumbered 0 log × (verify_chain d log ≡ (true, length log, none, chain_intact))
unfolding verify_chain
appended_log_verifies d stored keeps events =
    let log = append_all d stored events [] in
    let h = append_all-IsLog d stored keeps events [] (empty-IsLog d) in
    (
      h.numbered,
      rw
          (
            sort_asc-numbered 0 log h.numbered,
            verify_loop_complete d genesis_hash (last_hash log) 0 log h.chain,
          )
          (ground arith),
    )
