-- ===== src/Audit/Repository.antt =====
-- The audit repository (services/audit/audit_core/repository.py): an insertion and reads.
use aegis_soc.Common.{
  ℕ, suc, ◌+◌, String, Bool, true, false, ◌&&◌, not, Option, none, some, List, [], ◌∷◌, ◌++◌,
  if◌then◌else◌, leb, str_eq, truthy, keep, take, max,
}
use aegis_soc.Common.Order.{sort_desc}
use aegis_soc.Audit.HashChain.{
  DateTime, canonical, AuditEventIn, AuditEvent, genesis_hash, Digest, compute_record_hash,
}

-- the message `detail`, with the sequence that it prints
pub data Detail : Type 0 where
  chain_intact : Detail
  prev_hash_mismatch : ℕ → Detail
  record_hash_mismatch : ℕ → Detail

-- what `verify_chain` returns: valid, events checked, the first broken sequence, and the detail
abbrev pub Verdict : Type 0
Verdict = Bool × ℕ × Option ℕ × Detail

-- the table `audit_events`
abbrev pub Log : Type 0
Log = List AuditEvent

-- `max(sequence)`, of an empty table `None`
unfoldable pub max_sequence : Log → Option ℕ
max_sequence [] = none
max_sequence (r ∷ l) = elim (max_sequence l) [
  | none ↦ some r.sequence
  | some m ↦ some (max r.sequence m)
]

-- `_next_sequence`
unfoldable pub next_sequence : Log → ℕ
unfolding max_sequence
next_sequence log = elim (max_sequence log) [ none ↦ 1 | some m ↦ m + 1 ]

-- `ORDER BY sequence DESC LIMIT 1`
unfoldable pub latest : Log → Option AuditEvent
latest [] = none
latest (r ∷ l) = elim (latest l) [
  | none ↦ some r
  | some s ↦ if leb r.sequence s.sequence then some s else some r
]

-- `_last_hash`
unfoldable pub last_hash : Log → String
unfolding latest
last_hash log = elim (latest log) [
  | none ↦ genesis_hash
  | some r ↦ if truthy r.record_hash then r.record_hash else genesis_hash
]

-- the row of `append_event`, its hash left out
abbrev new_row : String → DateTime → AuditEventIn → ℕ → String → String → AuditEvent
new_row audit_id now event sequence prev_hash record_hash = record {
  audit_id = audit_id;
  sequence = sequence;
  tenant_id = event.tenant_id;
  actor = event.actor;
  actor_type = event.actor_type;
  action = event.action;
  resource_type = event.resource_type;
  resource_id = event.resource_id;
  timestamp = now;
  details = event.details;
  prompt_hash = event.prompt_hash;
  evidence_refs = event.evidence_refs;
  prev_hash = prev_hash;
  record_hash = record_hash;
}

module _ (d : Digest) where
  -- `append_event`; `stored` is what the database makes of the timestamp that it is given
  unfoldable pub append_event :
      (DateTime → DateTime) → String → DateTime → AuditEventIn → Log → Log × AuditEvent
  unfolding next_sequence last_hash compute_record_hash
  append_event stored audit_id now event log =
      let sequence = next_sequence log in
      let prev_hash = last_hash log in
      let record_hash = compute_record_hash d (new_row audit_id now event sequence prev_hash "") in
      let row = new_row audit_id now event sequence prev_hash record_hash in
      (log ++ (record row { timestamp = stored now } ∷ []), row)

  -- the loop of `verify_chain`
  unfoldable pub verify_loop : String → ℕ → List AuditEvent → Verdict
  unfolding compute_record_hash
  verify_loop expected_prev idx [] = (true, idx, none, chain_intact)
  verify_loop expected_prev idx (r ∷ l) =
      if not (str_eq r.prev_hash expected_prev)
      then (false, idx, some r.sequence, prev_hash_mismatch r.sequence)
      else if not (str_eq (compute_record_hash d r) r.record_hash)
      then (false, idx, some r.sequence, record_hash_mismatch r.sequence)
      else verify_loop r.record_hash (suc idx) l

-- `ORDER BY sequence ASC`
unfoldable pub insert_asc : AuditEvent → Log → Log
insert_asc a [] = a ∷ []
insert_asc a (b ∷ l) = if leb a.sequence b.sequence then a ∷ b ∷ l else b ∷ insert_asc a l

unfoldable pub sort_asc : Log → Log
unfolding insert_asc
sort_asc [] = []
sort_asc (a ∷ l) = insert_asc a (sort_asc l)

unfoldable pub verify_chain : Digest → Log → Verdict
unfolding sort_asc verify_loop
verify_chain d log = verify_loop d genesis_hash 0 (sort_asc log)

-- the arguments of `query_events`
pub record Query : Type 0 where
  pub resource_id : Option String
  pub resource_type : Option String
  pub actor : Option String
  pub actor_type : Option String
  pub action : Option String
  pub tenant_id : Option String
  pub since : Option DateTime
  pub until : Option DateTime
  pub limit : ℕ

-- `if x: ... where(column == x)`
abbrev pub where_eq : Option String → String → Bool
where_eq none column = true
where_eq (some x) column = if truthy x then str_eq column x else true

-- a comparison of times in the database, by their instants
abbrev pub where_since : Option DateTime → DateTime → Bool
where_since none t = true
where_since (some x) t = leb (canonical x) (canonical t)

abbrev pub where_until : Option DateTime → DateTime → Bool
where_until none t = true
where_until (some x) t = leb (canonical t) (canonical x)

abbrev pub selects : Query → AuditEvent → Bool
selects q r =
    where_eq q.resource_id r.resource_id
    && (where_eq q.resource_type r.resource_type
        && (where_eq q.actor r.actor
            && (where_eq q.actor_type r.actor_type
                && (where_eq q.action r.action
                    && (where_eq q.tenant_id r.tenant_id
                        && (where_since q.since r.timestamp && where_until q.until r.timestamp))))))

unfoldable pub query_events : Query → Log → List AuditEvent
unfolding sort_desc
query_events q log = take q.limit (sort_desc (λ r. r.sequence) (keep (selects q) log))
