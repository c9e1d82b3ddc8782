-- ===== src/Audit/HashChain.antt =====
-- The hash of a record (services/audit/audit_core/hashchain.py) and the rows of the log
-- (services/audit/audit_core/models.py and schemas.py).
use aegis_soc.Common.{ℕ, String, Option, List}
use aegis_soc.Common.Json.{Fields, sort_fields}

-- A `datetime` in microseconds: without a time zone, or with one, then its instant in UTC and the
-- zone's offset.
pub data DateTime : Type 0 where
  naive : ℕ → DateTime
  aware : (utc offset : ℕ) → DateTime

-- `_canonical`: the naive instant in UTC
unfoldable pub canonical : DateTime → ℕ
canonical (naive t) = t
canonical (aware utc offset) = utc

-- `AuditEventIn`
pub record AuditEventIn : Type 0 where
  pub tenant_id : String
  pub actor : String
  pub actor_type : String
  pub action : String
  pub resource_type : String
  pub resource_id : String
  pub details : Fields
  pub prompt_hash : Option String
  pub evidence_refs : List String

-- The dict `payload` that is hashed, as far as its JSON text tells payloads apart: `details` has the
-- entries of every dict in the order of their keys. Its numbers are natural ones only.
pub record Payload : Type 0 where
  pub sequence : ℕ
  pub prev_hash : String
  pub tenant_id : String
  pub actor : String
  pub actor_type : String
  pub action : String
  pub resource_type : String
  pub resource_id : String
  pub timestamp : ℕ
  pub details : Fields
  pub prompt_hash : Option String
  pub evidence_refs : List String

-- `AuditEventORM`
pub record AuditEvent : Type 0 where
  pub audit_id : String
  pub sequence : ℕ
  pub tenant_id : String
  pub actor : String
  pub actor_type : String
  pub action : String
  pub resource_type : String
  pub resource_id : String
  pub timestamp : DateTime
  pub details : Fields
  pub prompt_hash : Option String
  pub evidence_refs : List String
  pub prev_hash : String
  pub record_hash : String

-- `"0" * 64`
abbrev pub genesis_hash : String
genesis_hash = "0000000000000000000000000000000000000000000000000000000000000000"

-- What is not the program's own: SHA-256, as hexadecimal digits, of the sorted JSON text of a
-- payload. A digest is never the empty text.
pub record Digest : Type 0 where
  pub digest : Payload → String
  pub digest_nonempty : (p : Payload) → ¬ (Path String (digest p) "")

-- the payload of a row, with its own `prev_hash`
unfoldable pub payload : AuditEvent → Payload
unfolding canonical
payload r = record {
  sequence = r.sequence;
  prev_hash = r.prev_hash;
  tenant_id = r.tenant_id;
  actor = r.actor;
  actor_type = r.actor_type;
  action = r.action;
  resource_type = r.resource_type;
  resource_id = r.resource_id;
  timestamp = canonical r.timestamp;
  details = sort_fields r.details;
  prompt_hash = r.prompt_hash;
  evidence_refs = r.evidence_refs;
}

-- `compute_record_hash`, of the fields of a row
unfoldable pub compute_record_hash : Digest → AuditEvent → String
unfolding payload
compute_record_hash d r = d.digest (payload r)
