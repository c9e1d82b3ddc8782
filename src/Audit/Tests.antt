-- ===== src/Audit/Tests.antt =====
-- The audit log at concrete inputs: two appended events, then one of them forged.
use mathlib.Core.List.{reverse}
use aegis_soc.Common.{
  String, ◌≡◌, ◌≢◌, ◌⊎◌, refl, ap, Bool, true, false, none, List, [], ◌∷◌, ◌++◌, if◌then◌else◌,
  str_eq, length, take,
}
use aegis_soc.Common.Json.{end}
use aegis_soc.Audit.HashChain.{
  DateTime, canonical, AuditEventIn, AuditEvent, Payload, Digest, payload,
}
use aegis_soc.Audit.Repository.{Log, append_event, chain_intact, verify_chain, sort_asc}
use aegis_soc.Audit.Chain.{KeepsInstant, append_all, IsNumbered, appended_log_verifies}
use aegis_soc.Audit.Tamper.{
  Collision, Broken, contents, verified_logs_agree, edit_is_detected, truncation_is_not_detected,
}

-- A digest that tells one actor from the others.
abbrev digest_of : Payload → String
digest_of p = if str_eq p.actor "mallory" then "bb" else "aa"

either-nonempty : (b : Bool) → ¬ (Path String (if b then "bb" else "aa") "")
either-nonempty true e = cc (ap (λ s. str_eq s "") e)
either-nonempty false e = cc (ap (λ s. str_eq s "") e)

digest_of-nonempty : (p : Payload) → ¬ (Path String (digest_of p) "")
digest_of-nonempty p e = either-nonempty (str_eq p.actor "mallory") e

abbrev toy : Digest
toy = record { digest = digest_of; digest_nonempty = digest_of-nonempty }

abbrev login : AuditEventIn
login = record {
  tenant_id = "default";
  actor = "sam";
  actor_type = "user";
  action = "login";
  resource_type = "session";
  resource_id = "s1";
  details = end;
  prompt_hash = none;
  evidence_refs = [];
}

-- the database drops the time zone
abbrev stored : DateTime → DateTime
stored t = DateTime.naive (canonical t)

stored-KeepsInstant : KeepsInstant stored
unfolding canonical
stored-KeepsInstant t = refl

abbrev events : List (String × DateTime × AuditEventIn)
events = ("e1", DateTime.aware 10 120, login) ∷ ("e2", DateTime.aware 20 120, login) ∷ []

abbrev log : Log
log = append_all toy stored events []

appended_log_verifies_example :
    IsNumbered 0 log × (verify_chain toy log ≡ (true, length log, none, chain_intact))
appended_log_verifies_example = appended_log_verifies toy stored stored-KeepsInstant events

log-verifies : (verify_chain toy log).0 ≡ true
unfolding verify_chain append_all append_event
log-verifies = refl

log-IsNumbered : IsNumbered 0 log
unfolding append_all append_event
log-IsNumbered = (refl, (refl, tt))

truncation_is_not_detected_example :
    verify_chain toy (take 1 log) ≡ (true, length (take 1 log), none, chain_intact)
truncation_is_not_detected_example =
    truncation_is_not_detected toy 1 log log-IsNumbered log-verifies

-- the same rows, stored in the other order
abbrev backwards : Log
backwards = reverse log

backwards-verifies : (verify_chain toy backwards).0 ≡ true
unfolding verify_chain append_all append_event
backwards-verifies = refl

verified_logs_agree_example :
    (contents (sort_asc log) ≡ contents (sort_asc backwards))
    ⊎ Collision toy (sort_asc log) (sort_asc backwards)
unfolding append_all append_event sort_asc
verified_logs_agree_example =
    verified_logs_agree toy log backwards log-verifies backwards-verifies refl refl

abbrev row : AuditEvent
row = record {
  audit_id = "e1";
  sequence = 1;
  tenant_id = "default";
  actor = "sam";
  actor_type = "user";
  action = "login";
  resource_type = "session";
  resource_id = "s1";
  timestamp = DateTime.naive 10;
  details = end;
  prompt_hash = none;
  evidence_refs = [];
  prev_hash = "0000000000000000000000000000000000000000000000000000000000000000";
  record_hash = "aa";
}

abbrev forged : AuditEvent
forged = record row { actor = "mallory" }

row-verifies : (verify_chain toy (row ∷ [])).0 ≡ true
unfolding verify_chain
row-verifies = refl

forged-differs : payload forged ≢ payload row
unfolding payload
forged-differs e = cc (ap (λ p. str_eq p.actor "sam") e)

edit_is_detected_example :
    Broken (verify_chain toy ([] ++ (forged ∷ []))) (length {A = AuditEvent} []) forged.sequence
    ⊎ (toy.digest (payload forged) ≡ toy.digest (payload row))
edit_is_detected_example =
    edit_is_detected toy [] row forged [] (refl, tt) row-verifies refl refl forged-differs
