-- ===== src/Approval/Adapters.antt =====
-- The dry-run SOAR adapters (services/approval/approval_core/adapters.py).
use aegis_soc.Common.{ℕ, String, ◌<>◌, true, false, not, ◌||◌, Option, none, some, [], ◌∷◌}
use aegis_soc.Common.{if◌then◌else◌, truthy?}
use aegis_soc.Common.Dict.{Dict, lookup}
use aegis_soc.Common.Json.{Value, null, bool, num, str, arr, obj, get_or}
use aegis_soc.Approval.Records.{AdapterResult, RollbackResult}
use aegis_soc.Approval.Monad.{Outcome, ok, raised, attribute_error}

-- What Python's own string functions do: `str(v)`, and `s.replace("_", " ").title()`.
pub record PyText : Type 0 where
  pub str_of : Value → String
  pub title_of : String → String

-- The dict `ctx` that `execute_action` builds, with its three keys; the title is a text.
pub record Context : Type 0 where
  pub case_id : String
  pub title : String
  pub parameters : Value

-- `ctx.get("parameters", {}).get(k, d)`
unfoldable pub parameter : Context → String → String → Outcome Value
parameter ctx k d = elim ctx.parameters [
  | null ↦ raised attribute_error
  | bool _ ↦ raised attribute_error
  | num _ ↦ raised attribute_error
  | str _ ↦ raised attribute_error
  | arr _ ↦ raised attribute_error
  | obj fs ↦ ok (get_or k (str d) fs)
]

abbrev map_ok : {A B : Type 0} → (A → B) → Outcome A → Outcome B
map_ok f (ok a) = ok (f a)
map_ok f (raised e) = raised e

-- `_sim_ref(prefix)`, with the ten hexadecimal digits of the fresh `uuid4`
unfoldable pub sim_ref : String → String → String
sim_ref hex prefix = prefix <> "-" <> hex

-- The dict of an adapter whose action cannot be undone.
irreversible : String → String → Option String → String → ℕ → AdapterResult
irreversible adapter system ref message now = record {
  adapter = adapter;
  external_system = system;
  external_ref = ref;
  status = "success";
  message = message;
  rollback_supported = false;
  rollback_token = none;
  simulated_at = now;
}

-- The dict of an adapter that hands out a rollback token.
reversible : String → String → String → String → ℕ → AdapterResult
reversible adapter system token message now = record {
  adapter = adapter;
  external_system = system;
  external_ref = some token;
  status = "success";
  message = message;
  rollback_supported = true;
  rollback_token = some token;
  simulated_at = now;
}

abbrev pub AdapterFn : Type 0
AdapterFn = String → ℕ → Context → Outcome AdapterResult

adapter_notify : AdapterFn
unfolding irreversible sim_ref
adapter_notify hex now ctx = ok (
    irreversible "notify" "slack_sim" (some (sim_ref hex "SLK"))
      ("[DRY-RUN] Would notify #soc-alerts about case " <> ctx.case_id <> ": " <> ctx.title) now)

adapter_create_ticket : AdapterFn
unfolding reversible sim_ref
adapter_create_ticket hex now ctx =
    let ticket_ref = sim_ref hex "JIRA" in
    ok (
      reversible "create_ticket" "jira_sim" ticket_ref
        ("[DRY-RUN] Would create ticket " <> ticket_ref <> " for case " <> ctx.case_id) now)

module _ (py : PyText) where
  adapter_quarantine_host : AdapterFn
  unfolding reversible sim_ref parameter
  adapter_quarantine_host hex now ctx =
      map_ok
        (λ host.
          reversible "quarantine_host" "edr_sim" (sim_ref hex "EDR-QRT")
            ("[DRY-RUN] Would quarantine host '"
              <> py.str_of host
              <> "' via EDR (network isolation policy applied)")
            now)
        (parameter ctx "host_id" "unknown-host")

  adapter_isolate_host : AdapterFn
  unfolding reversible sim_ref parameter
  adapter_isolate_host hex now ctx =
      map_ok
        (λ host.
          reversible "isolate_host" "edr_sim" (sim_ref hex "EDR-ISO")
            ("[DRY-RUN] Would isolate host '"
              <> py.str_of host
              <> "' from the network via EDR containment")
            now)
        (parameter ctx "host_id" "unknown-host")

  adapter_disable_account : AdapterFn
  unfolding reversible sim_ref parameter
  adapter_disable_account hex now ctx =
      map_ok
        (λ user.
          reversible "disable_account" "iam_sim" (sim_ref hex "IAM-DIS")
            ("[DRY-RUN] Would disable account '"
              <> py.str_of user
              <> "' in IAM/AD and revoke active sessions")
            now)
        (parameter ctx "user_id" "unknown-user")

  adapter_block_ioc : AdapterFn
  unfolding reversible sim_ref parameter
  adapter_block_ioc hex now ctx =
      map_ok
        (λ ioc.
          reversible "block_ioc" "firewall_proxy_sim" (sim_ref hex "FW-BLK")
            ("[DRY-RUN] Would push a block rule for indicator '"
              <> py.str_of ioc
              <> "' to firewall/proxy")
            now)
        (parameter ctx "indicator" "unknown-ioc")

adapter_collect_data : AdapterFn
unfolding irreversible sim_ref
adapter_collect_data hex now ctx = ok (
    irreversible "collect_data" "edr_forensics_sim" (some (sim_ref hex "COLLECT"))
      ("[DRY-RUN] Would collect forensic triage package for case " <> ctx.case_id) now)

adapter_enrich : AdapterFn
unfolding irreversible sim_ref
adapter_enrich hex now ctx = ok (
    irreversible "enrich" "threat_intel_sim" (some (sim_ref hex "ENRICH"))
      "[DRY-RUN] Would request additional threat-intel enrichment for case entities" now)

adapter_escalate : AdapterFn
unfolding irreversible sim_ref
adapter_escalate hex now ctx = ok (
    irreversible "escalate" "pagerduty_sim" (some (sim_ref hex "PD"))
      ("[DRY-RUN] Would page on-call senior analyst for case " <> ctx.case_id) now)

adapter_ignore : AdapterFn
unfolding irreversible
adapter_ignore hex now ctx =
    ok (irreversible "ignore" "none" none "No-op: recommendation was to take no action." now)

module _ (py : PyText) where
  -- `ADAPTERS`
  unfoldable pub adapters : Dict AdapterFn
  unfolding adapter_notify adapter_create_ticket adapter_quarantine_host adapter_isolate_host
      adapter_disable_account adapter_block_ioc adapter_collect_data adapter_enrich adapter_escalate
      adapter_ignore
  adapters =
      ("notify", adapter_notify)
      ∷ ("create_ticket", adapter_create_ticket)
      ∷ ("quarantine_recommend", adapter_quarantine_host py)
      ∷ ("isolate_host_recommend", adapter_isolate_host py)
      ∷ ("disable_account_recommend", adapter_disable_account py)
      ∷ ("block_ioc_recommend", adapter_block_ioc py)
      ∷ ("collect_data", adapter_collect_data)
      ∷ ("enrich", adapter_enrich)
      ∷ ("escalate", adapter_escalate)
      ∷ ("ignore", adapter_ignore)
      ∷ []

  unfoldable pub run_adapter : String → String → ℕ → Context → Outcome AdapterResult
  unfolding adapters lookup
  run_adapter action_class hex now ctx = elim (lookup action_class adapters) [
    | none ↦ ok (record {
      adapter = "unknown";
      external_system = "none";
      external_ref = none;
      status = "failed";
      message = "No dry-run adapter registered for action_class='" <> action_class <> "'";
      rollback_supported = false;
      rollback_token = none;
      simulated_at = now;
    })
    | some adapter ↦ adapter hex now ctx
  ]

-- The token's text, where there is one.
abbrev token_text : Option String → String
token_text none = "None"
token_text (some t) = t

unfoldable pub rollback_action : String → Option String → AdapterResult → ℕ → RollbackResult
rollback_action action_class rollback_token result now =
    if not result.rollback_supported || not (truthy? rollback_token)
    then record {
      status = "unsupported";
      message =
          "Action '" <> action_class
          <> "' has no rollback support or was never executed with a rollback token.";
      external_ref = none;
      simulated_at = now;
    }
    else record {
      status = "success";
      message =
          "[DRY-RUN] Would reverse action '"
          <> action_class
          <> "' referenced by token "
          <> token_text rollback_token;
      external_ref = rollback_token;
      simulated_at = now;
    }
