-- ===== src/Policy/Taxonomy.antt =====
-- The action classes, playbooks and allowed actions
-- (packages/common/aegis_common/schema/events.py, services/response_policy/policy_core/taxonomy.py).
use aegis_soc.Common.{String, Bool, true, false, Option, none, some, List, [], ◌∷◌}
use aegis_soc.Common.Dict.{Dict}

pub data Severity : Type 0 where
  informational low medium high critical : Severity

pub data ActionClass : Type 0 where
  notify collect_data create_ticket quarantine_recommend disable_account_recommend : ActionClass
  isolate_host_recommend block_ioc_recommend ignore enrich escalate : ActionClass

-- `ActionClass.value`
unfoldable pub action_value : ActionClass → String
action_value ActionClass.notify = "notify"
action_value ActionClass.collect_data = "collect_data"
action_value ActionClass.create_ticket = "create_ticket"
action_value ActionClass.quarantine_recommend = "quarantine_recommend"
action_value ActionClass.disable_account_recommend = "disable_account_recommend"
action_value ActionClass.isolate_host_recommend = "isolate_host_recommend"
action_value ActionClass.block_ioc_recommend = "block_ioc_recommend"
action_value ActionClass.ignore = "ignore"
action_value ActionClass.enrich = "enrich"
action_value ActionClass.escalate = "escalate"

-- the members of `ActionClass`, in order
abbrev pub action_classes : List ActionClass
action_classes =
    ActionClass.notify ∷ ActionClass.collect_data ∷ ActionClass.create_ticket
    ∷ ActionClass.quarantine_recommend ∷ ActionClass.disable_account_recommend
    ∷ ActionClass.isolate_host_recommend ∷ ActionClass.block_ioc_recommend ∷ ActionClass.ignore
    ∷ ActionClass.enrich ∷ ActionClass.escalate ∷ []

-- `is_disruptive`, with `DISRUPTIVE_CLASSES`
unfoldable pub is_disruptive : ActionClass → Bool
is_disruptive ActionClass.quarantine_recommend = true
is_disruptive ActionClass.disable_account_recommend = true
is_disruptive ActionClass.isolate_host_recommend = true
is_disruptive ActionClass.block_ioc_recommend = true
is_disruptive _ = false

-- `OBJECTIVES`
abbrev pub objectives : List String
objectives =
    "ransomware" ∷ "credential_access" ∷ "lateral_movement" ∷ "phishing" ∷ "c2_beacon" ∷ "recon"
    ∷ "benign" ∷ []

pub record Playbook : Type 0 where
  pub playbook_id : Option String
  pub action_class : ActionClass
  pub title : String
  pub risk_if_executed : Severity

abbrev playbook : Option String → ActionClass → String → Severity → Playbook
playbook id action title risk = record {
  playbook_id = id;
  action_class = action;
  title = title;
  risk_if_executed = risk;
}

-- `PLAYBOOKS`
abbrev pub playbooks : Dict Playbook
playbooks =
    (
      "ransomware",
      playbook (some "PB-CONTAIN-RANSOMWARE") ActionClass.isolate_host_recommend
          "Contain suspected ransomware host" Severity.high,
    )
    ∷ (
      "credential_access",
      playbook (some "PB-CRED-ACCESS-RESPONSE") ActionClass.isolate_host_recommend
          "Contain credential-dumping host and reset affected credentials" Severity.high,
    )
    ∷ (
      "lateral_movement",
      playbook (some "PB-LATERAL-MOVEMENT") ActionClass.isolate_host_recommend
          "Isolate hosts participating in lateral movement" Severity.medium,
    )
    ∷ (
      "phishing",
      playbook (some "PB-PHISHING-RESPONSE") ActionClass.disable_account_recommend
          "Disable compromised account and quarantine phishing artifact" Severity.medium,
    )
    ∷ (
      "c2_beacon",
      playbook (some "PB-BLOCK-C2") ActionClass.block_ioc_recommend
          "Block command-and-control indicators at the perimeter" Severity.medium,
    )
    ∷ (
      "recon",
      playbook (some "PB-COLLECT-EVIDENCE") ActionClass.collect_data
          "Collect additional evidence for reconnaissance activity" Severity.low,
    )
    ∷ (
      "benign",
      playbook none ActionClass.ignore "No action -- likely benign" Severity.informational,
    )
    ∷ []

-- `ALLOWED_ACTIONS_BY_OBJECTIVE`
abbrev pub allowed_actions : Dict (List ActionClass)
allowed_actions =
    (
      "ransomware",
      ActionClass.isolate_host_recommend ∷ ActionClass.quarantine_recommend ∷ ActionClass.escalate
          ∷ [],
    )
    ∷ (
      "credential_access",
      ActionClass.isolate_host_recommend ∷ ActionClass.disable_account_recommend
          ∷ ActionClass.escalate ∷ [],
    )
    ∷ ("lateral_movement", ActionClass.isolate_host_recommend ∷ ActionClass.collect_data ∷ [])
    ∷ (
      "phishing",
      ActionClass.disable_account_recommend ∷ ActionClass.create_ticket ∷ ActionClass.notify ∷ [],
    )
    ∷ ("c2_beacon", ActionClass.block_ioc_recommend ∷ ActionClass.collect_data ∷ [])
    ∷ ("recon", ActionClass.collect_data ∷ ActionClass.enrich ∷ ActionClass.notify ∷ [])
    ∷ ("benign", ActionClass.ignore ∷ ActionClass.notify ∷ [])
    ∷ []
