-- ===== src/Storage/Schema.antt =====
-- The tables that `SqliteRepository::migrate` and `articles::migrate` create, and the code of other
-- crates that the storage calls, as the record `External`.
use matri_xpost.Prelude.{ℕ, ◌≡◌, ℤ, Bool, List, Option, some, Result, ok}
use matri_xpost.Text.{Text}
use matri_xpost.Types.Request.{PublishRequest}
use matri_xpost.Types.Article.{PublishArticleRequest, Time}
use matri_xpost.Lifecycle.Records.{Attributes}

pub record AccountRow : Type 0 where
  pub id : Text
  pub platform : Text
  pub display_name : Text
  pub status : Text
  pub phone : Text
  pub partition : Text

pub record JobRow : Type 0 where
  pub id : Text
  pub request_json : Text
  pub state : Text
  pub due_at : Option Text
  pub revision : ℕ
  pub updated_at : Text

pub record HistoryRow : Type 0 where
  pub id : Text
  pub request_json : Text
  pub state : Text
  pub recorded_at : Text
  pub detail : Option Text

pub record ArticleJobRow : Type 0 where
  pub id : Text
  pub request_json : Text
  pub state : Text
  pub due_at : Text
  pub revision : ℕ
  pub updated_at : Text

pub record ArticleHistoryRow : Type 0 where
  pub id : Text
  pub platform : Text
  pub title : Text
  pub state : Text
  pub recorded_at : Text
  pub detail : Option Text

pub record BusinessObjectRow : Type 0 where
  pub id : Text
  pub kind : Text
  pub external_id : Option Text
  pub display_name : Text
  pub lifecycle_status : Text
  pub approval_status : Text
  pub revision : ℕ
  pub attributes_json : Text
  pub created_at : Text
  pub updated_at : Text

pub record LedgerRow : Type 0 where
  pub id : Text
  pub business_object_id : Text
  pub direction : Text
  pub category : Text
  pub amount_minor : ℤ
  pub currency : Text
  pub occurred_at : Text
  pub approval_status : Text
  pub counterparty : Option Text
  pub reference : Option Text
  pub description : Option Text
  pub created_at : Text

pub record AttributionRow : Type 0 where
  pub business_object_id : Text
  pub history_id : Text
  pub created_at : Text

pub record RelationRow : Type 0 where
  pub id : Text
  pub source_business_object_id : Text
  pub target_business_object_id : Text
  pub relation_type : Text
  pub attributes_json : Text
  pub created_at : Text

-- The tables. A sequence table with AUTOINCREMENT is the last number that it gave out.
pub record Db : Type 0 where
  pub accounts : List AccountRow
  pub article_accounts : List AccountRow
  pub history : List HistoryRow
  pub jobs : List JobRow
  pub config : List (Text × Text)
  pub job_sequence : ℕ
  pub history_sequence : ℕ
  pub article_jobs : List ArticleJobRow
  pub article_history : List ArticleHistoryRow
  pub article_job_sequence : ℕ
  pub article_history_sequence : ℕ
  pub business_objects : List BusinessObjectRow
  pub ledger_entries : List LedgerRow
  pub content_attributions : List AttributionRow
  pub business_relations : List RelationRow

-- chrono, serde_json and the texts of rusqlite's errors. An encoder or a decoder that fails does
-- so with a message.
pub record External : Type 0 where
  pub valid_schedule : Text → Bool  -- NaiveDateTime::parse_from_str(_, "%Y-%m-%d %H:%M:%S").is_ok()
  pub to_rfc3339 : Time → Text
  pub parse_rfc3339 : Text → Option Time
  pub request_json : PublishRequest → Result Text Text
  pub request_from_json : Text → Result Text PublishRequest
  pub article_json : PublishArticleRequest → Result Text Text
  pub article_from_json : Text → Result Text PublishArticleRequest
  pub attributes_json : Attributes → Result Text Text
  pub attributes_from_json : Text → Result Text Attributes
  pub constraint_failed : Text  -- a primary key or a unique index that has the key already
  pub foreign_key_failed : Text
  pub integer_out_of_range : Text  -- a `u64` that SQLite's signed 64-bit integer cannot hold

-- What the code relies on when it reads back what it wrote: chrono parses the RFC 3339 text that
-- it printed for this instant, and serde_json the object that it printed for a request.
abbrev pub TimeReturns : External → Time → Type 0
TimeReturns x t = x.parse_rfc3339 (x.to_rfc3339 t) ≡ some t

abbrev pub RequestReturns : External → PublishRequest → Type 0
RequestReturns x r = (s : Text) → x.request_json r ≡ ok s → x.request_from_json s ≡ ok r
