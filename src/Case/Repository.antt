-- ===== src/Case/Repository.antt =====
-- The case repository (services/case_management/case_core/repository.py). A call of `uuid.uuid4` and
-- the time that the call reads are arguments; `none` is an exception.
use aegis_soc.Common.{
  ℕ, String, ◌<>◌, Bool, true, false, ◌&&◌, ◌||◌, Option, none, some, List, [], ◌∷◌, ◌++◌,
  if◌then◌else◌, str_eq, truthy, take, drop, keep,
}
use aegis_soc.Common.Dict.{Dict, lookup, insert, values}
use aegis_soc.Common.Floats.{Floats}
use aegis_soc.Common.Order.{sort_desc}
use aegis_soc.Case.Records.{
  TimelineEntry, Case, Feedback, Alert, Tables, CreateCaseRequest, FeedbackRequest,
  CaseSearchParams,
}

-- the row that `record_feedback` adds
unfoldable pub new_feedback : String → ℕ → String → FeedbackRequest → Feedback
new_feedback uuid now case_id req = record {
  feedback_id = uuid;
  case_id = case_id;
  analyst = req.analyst;
  verdict = req.verdict;
  comment = req.comment;
  created_at = now;
}

-- `VALID_STATUSES`
abbrev pub valid_statuses : List String
valid_statuses =
    "new" ∷ "triaging" ∷ "investigating" ∷ "contained" ∷ "resolved" ∷ "false_positive" ∷ []

-- `SEVERITY_ORDER`
abbrev pub severity_order : Dict ℕ
severity_order =
    ("informational", 0) ∷ ("low", 1) ∷ ("medium", 2) ∷ ("high", 3) ∷ ("critical", 4) ∷ []

-- `SEVERITY_ORDER.get(severity, 2)`
unfoldable pub severity_rank : String → ℕ
unfolding lookup
severity_rank severity = elim (lookup severity severity_order) [ none ↦ 2 | some n ↦ n ]

-- `_timeline_entry`, without extra keys
abbrev pub timeline_entry : ℕ → String → String → TimelineEntry
timeline_entry now kind summary = record {
  timestamp = now;
  kind = kind;
  summary = summary;
  status = none;
  verdict = none;
  alert_id = none;
}

-- `x or y`, and `d.get(k, y)`
abbrev pub or_else {ℓ} : {A : Type ℓ} → A → Option A → A
or_else y none = y
or_else y (some x) = x

abbrev pub text_or : String → Option String → String
text_or y none = y
text_or y (some x) = if truthy x then x else y

module _ (f : Floats) where
  -- the rows of a case that a request asks for, and of one that an alert opens
  unfoldable pub requested_case : String → ℕ → CreateCaseRequest → Case f
  requested_case uuid now req = record {
    case_id = uuid;
    tenant_id = req.tenant_id;
    title = req.title;
    status = "new";
    severity = req.severity;
    risk_score = f.milli 0;
    alert_ids = req.alert_ids;
    entity_ids = req.entity_ids;
    technique_ids = req.technique_ids;
    timeline = timeline_entry now "case_created" ("Case created: " <> req.title) ∷ [];
    attack_story = none;
    assignee = none;
    tags = req.tags;
    cluster_id = none;
    created_at = now;
    updated_at = now;
  }

  unfoldable pub opened_case : String → ℕ → Alert f → Case f
  opened_case uuid now alert = record {
    case_id = uuid;
    tenant_id = or_else "default" alert.tenant_id;
    title = "Auto-case: " <> or_else "Untitled alert" alert.title;
    status = "new";
    severity = or_else "medium" alert.severity;
    risk_score = or_else (f.milli 0) alert.calibrated_score;
    alert_ids = alert.alert_id ∷ [];
    entity_ids = or_else [] alert.entity_ids;
    technique_ids = or_else [] alert.technique_ids;
    timeline =
        record (timeline_entry now "auto_case_created"
          ("Case auto-created from alert cluster " <> or_else "None" alert.cluster_id)) {
            alert_id = some alert.alert_id;
          }
        ∷ [];
    attack_story = none;
    assignee = none;
    tags = or_else [] alert.tags;
    cluster_id = alert.cluster_id;
    created_at = now;
    updated_at = now;
  }

  -- `session.add` of a new case, and the flush that refuses a primary key that is in use
  unfoldable pub add_case : Case f → Tables f → Option (Tables f)
  unfolding lookup insert
  add_case case_ t = elim (lookup case_.case_id t.cases) [
    | some _ ↦ none
    | none ↦ some (record t { cases = insert case_.case_id case_ t.cases })
  ]

  -- the flush of a changed case
  unfoldable pub save_case : Case f → Tables f → Tables f
  unfolding insert
  save_case case_ t = record t { cases = insert case_.case_id case_ t.cases }

  unfoldable pub create_case :
      String → ℕ → CreateCaseRequest → Tables f → Option (Case f × Tables f)
  unfolding add_case requested_case
  create_case uuid now req t = elim (add_case (requested_case uuid now req) t) [
    | none ↦ none
    | some u ↦ some (requested_case uuid now req, u)
  ]

  unfoldable pub get_case : String → Tables f → Option (Case f)
  unfolding lookup
  get_case case_id t = lookup case_id t.cases

  -- `where(CaseORM.cluster_id == cluster_id)`
  abbrev pub in_cluster : String → Case f → Bool
  in_cluster c case_ = elim case_.cluster_id [ none ↦ false | some d ↦ str_eq d c ]

  unfoldable pub cluster_cases : String → Dict (Case f) → List (Case f)
  cluster_cases c cases = keep (in_cluster c) (values cases)

  -- `get_case_by_cluster`; the outer `none` is the `MultipleResultsFound` of `scalar_one_or_none`
  unfoldable pub get_case_by_cluster : String → Tables f → Option (Option (Case f))
  unfolding cluster_cases
  get_case_by_cluster c t = elim (cluster_cases c t.cases) [
    | [] ↦ some none
    | case_ ∷ rest ↦ elim rest [ [] ↦ some (some case_) | _ ∷ _ ↦ none ]
  ]

  -- `if x: ... where(column == x)`
  abbrev pub where_text : Option String → Option String → Bool
  where_text none column = true
  where_text (some x) column =
      if truthy x then (elim column [ none ↦ false | some s ↦ str_eq s x ]) else true

  -- `title.ilike(like) or attack_story.ilike(like)`, of the database's `ilike`
  abbrev pub where_like : (String → String → Bool) → Option String → Case f → Bool
  where_like ilike none case_ = true
  where_like ilike (some x) case_ =
      if truthy x
      then ilike case_.title ("%" <> x <> "%")
        || (elim case_.attack_story [ none ↦ false | some s ↦ ilike s ("%" <> x <> "%") ])
      else true

  unfoldable pub search_cases :
      (String → String → Bool) → CaseSearchParams → Tables f → List (Case f)
  unfolding sort_desc
  search_cases ilike params t = take params.limit (
      drop params.offset (
        sort_desc (λ c. c.updated_at)
          (keep
            (λ c.
              where_text params.tenant_id (some c.tenant_id)
              && (where_text params.status (some c.status)
                  && (where_text params.severity (some c.severity)
                      && (where_text params.assignee c.assignee
                          && where_like ilike params.text c))))
            (values t.cases))))

  -- the case after each of the changes
  unfoldable pub with_status : ℕ → String → Option String → Case f → Case f
  with_status now status note c = record c {
    status = status;
    updated_at = now;
    timeline =
        c.timeline
        ++ (record (timeline_entry now "status_change"
              (text_or ("Status changed to " <> status) note)) { status = some status }
            ∷ []);
  }

  unfoldable pub update_status :
      ℕ → (case_id status : String) → Option String → Tables f → Option (Case f) × Tables f
  unfolding get_case with_status save_case
  update_status now case_id status note t = elim (get_case case_id t) [
    | none ↦ (none, t)
    | some c ↦ (some (with_status now status note c), save_case (with_status now status note c) t)
  ]

  unfoldable pub with_assignee : ℕ → String → Case f → Case f
  with_assignee now assignee c = record c {
    assignee = some assignee;
    updated_at = now;
    timeline = c.timeline ++ (timeline_entry now "assignment" ("Assigned to " <> assignee) ∷ []);
  }

  unfoldable pub assign_case :
      ℕ → (case_id assignee : String) → Tables f → Option (Case f) × Tables f
  unfolding get_case with_assignee save_case
  assign_case now case_id assignee t = elim (get_case case_id t) [
    | none ↦ (none, t)
    | some c ↦ (some (with_assignee now assignee c), save_case (with_assignee now assignee c) t)
  ]

  unfoldable pub with_feedback : ℕ → FeedbackRequest → Case f → Case f
  with_feedback now req c = record c {
    timeline =
        c.timeline
        ++ (record (timeline_entry now "analyst_feedback"
              (req.analyst <> " marked as " <> req.verdict)) { verdict = some req.verdict }
            ∷ []);
    status = if str_eq req.verdict "false_positive" then "false_positive" else c.status;
    updated_at = now;
  }

  -- `record_feedback`, with a fresh `feedback_id`
  unfoldable pub record_feedback :
      String → ℕ → String → FeedbackRequest → Tables f → Option Feedback × Tables f
  unfolding get_case with_feedback save_case new_feedback
  record_feedback uuid now case_id req t = elim (get_case case_id t) [
    | none ↦ (none, t)
    | some c ↦
        let feedback = new_feedback uuid now case_id req in
        (
          some feedback,
          record (save_case (with_feedback now req c) t) {
            feedback = t.feedback ++ (feedback ∷ []);
          },
        )
  ]
