-- ===== src/Lifecycle/Records.antt =====
-- The records of crates/matrixpost-core/src/lifecycle.rs.
use matri_xpost.Prelude.{ℕ, ℤ, List, Option}
use matri_xpost.Text.{Text}
use matri_xpost.Types.Enums.{PublishState, BusinessObjectStatus, ApprovalStatus, LedgerDirection}
use matri_xpost.Types.Request.{LocalSchedule, PublishRequest}
use matri_xpost.Types.Article.{Time}

pub record HistoryRecord : Type 0 where
  pub id : Text
  pub request : PublishRequest
  pub state : PublishState
  pub recorded_at : Time
  pub detail : Option Text

pub record ScheduledJob : Type 0 where
  pub id : Text
  pub request : PublishRequest
  pub state : PublishState
  pub due_at : Option LocalSchedule
  pub revision : ℕ
  pub updated_at : Time

-- `BTreeMap<String, String>`, in the order of its keys.
abbrev pub Attributes : Type 0
Attributes = List (Text × Text)

pub record BusinessObject : Type 0 where
  pub id : Text
  pub kind : Text
  pub external_id : Option Text
  pub display_name : Text
  pub lifecycle_status : BusinessObjectStatus
  pub approval_status : ApprovalStatus
  pub revision : ℕ
  pub attributes : Attributes
  pub created_at : Time
  pub updated_at : Time

pub record LedgerEntry : Type 0 where
  pub id : Text
  pub business_object_id : Text
  pub direction : LedgerDirection
  pub category : Text
  pub amount_minor : ℤ
  pub currency : Text
  pub occurred_at : Time
  pub approval_status : ApprovalStatus
  pub counterparty : Option Text
  pub reference : Option Text
  pub description : Option Text
  pub created_at : Time

pub record ContentAttribution : Type 0 where
  pub business_object_id : Text
  pub history_id : Text
  pub created_at : Time

pub record BusinessRelation : Type 0 where
  pub id : Text
  pub source_business_object_id : Text
  pub target_business_object_id : Text
  pub relation_type : Text
  pub attributes : Attributes
  pub created_at : Time
