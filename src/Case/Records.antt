-- ===== src/Case/Records.antt =====
-- The rows and requests of the case service (services/case_management/case_core/models.py and
-- schemas.py). Times are numbers of microseconds.
use aegis_soc.Common.{ℕ, String, Option, List}
use aegis_soc.Common.Dict.{Dict}
use aegis_soc.Common.Floats.{Floats}

-- an entry of a timeline, with the keys that an entry can have
pub record TimelineEntry : Type 0 where
  pub timestamp : ℕ
  pub kind : String
  pub summary : String
  pub status : Option String
  pub verdict : Option String
  pub alert_id : Option String

-- `CaseORM`
pub record Case (f : Floats) : Type 0 where
  pub case_id : String
  pub tenant_id : String
  pub title : String
  pub status : String
  pub severity : String
  pub risk_score : f.Float
  pub alert_ids : List String
  pub entity_ids : List String
  pub technique_ids : List String
  pub timeline : List TimelineEntry
  pub attack_story : Option String
  pub assignee : Option String
  pub tags : List String
  pub cluster_id : Option String
  pub created_at : ℕ
  pub updated_at : ℕ

-- `CaseFeedbackORM`
pub record Feedback : Type 0 where
  pub feedback_id : String
  pub case_id : String
  pub analyst : String
  pub verdict : String
  pub comment : Option String
  pub created_at : ℕ

-- the dict of an alert; a key that is left out is `none`, a key with the value None is not
-- represented, and `calibrated_score` is a key of the
-- dict under the key `risk`
pub record Alert (f : Floats) : Type 0 where
  pub alert_id : String
  pub tenant_id : Option String
  pub cluster_id : Option String
  pub title : Option String
  pub severity : Option String
  pub calibrated_score : Option f.Float
  pub entity_ids : Option (List String)
  pub technique_ids : Option (List String)
  pub tags : Option (List String)

-- `AlertRecordORM`
pub record AlertRecord (f : Floats) : Type 0 where
  pub alert_id : String
  pub tenant_id : String
  pub cluster_id : Option String
  pub case_id : Option String
  pub title : String
  pub severity : String
  pub calibrated_score : f.Float
  pub payload : Alert f
  pub created_at : ℕ
  pub updated_at : ℕ

-- the three tables, the cases and the alerts by their primary keys
pub record Tables (f : Floats) : Type 0 where
  pub cases : Dict (Case f)
  pub feedback : List Feedback
  pub alerts : Dict (AlertRecord f)

-- `CreateCaseRequest`
pub record CreateCaseRequest : Type 0 where
  pub tenant_id : String
  pub title : String
  pub severity : String
  pub alert_ids : List String
  pub entity_ids : List String
  pub technique_ids : List String
  pub tags : List String

-- `FeedbackRequest`
pub record FeedbackRequest : Type 0 where
  pub analyst : String
  pub verdict : String
  pub comment : Option String

-- `CaseSearchParams`
pub record CaseSearchParams : Type 0 where
  pub status : Option String
  pub severity : Option String
  pub assignee : Option String
  pub text : Option String
  pub tenant_id : Option String
  pub limit : ℕ
  pub offset : ℕ
