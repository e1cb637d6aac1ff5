-- ===== src/Storage/Consistent.antt =====
-- The state of the tables that crates/matrixpost-core/src/storage.rs and its children keep: which keys
-- are unique, which rows refer to which, and which values are valid.
pub mod Lists
pub mod Statements
pub mod Keys
pub mod Objects
pub mod Links
pub mod Methods
pub mod Queue
pub mod Articles
pub mod Reach
use matri_xpost.Prelude.{
  ◌≡◌, ◌≢◌, Bool, true, false, List, [], ◌∷◌, map, All, Pairwise, Elem, Option, some, ℤ,
}
use matri_xpost.Text.{Text}
use matri_xpost.Lifecycle.Validation.{is_not_positive, is_bad_currency}
use matri_xpost.Storage.Schema.{
  Db, AccountRow, JobRow, ArticleJobRow, ArticleHistoryRow, HistoryRow, BusinessObjectRow,
  LedgerRow, AttributionRow, RelationRow,
}

-- The columns of an object that no update changes: its id, its kind and its external id.
abbrev pub ObjectKey : Type 0
ObjectKey = Text × Text × Option Text

abbrev pub object_key : BusinessObjectRow → ObjectKey
object_key row = (row.id, row.kind, row.external_id)

-- Two objects of one kind that have the same external id.
pub record SharesExternal (a b : ObjectKey) : Type 0 where
  pub kinds : a.1 ≡ b.1
  pub external : Text
  pub earlier : a.2 ≡ some external
  pub later : b.2 ≡ some external

-- Two objects have different ids, and no external id in common within a kind.
pub record Apart (a b : ObjectKey) : Type 0 where
  pub ids : a.0 ≢ b.0
  pub external_ids : ¬ SharesExternal a b

abbrev pub object_id : BusinessObjectRow → Text
object_id row = row.id

abbrev pub history_id_of : HistoryRow → Text
history_id_of row = row.id

abbrev pub ledger_id : LedgerRow → Text
ledger_id row = row.id

abbrev pub attribution_key : AttributionRow → Text × Text
attribution_key row = (row.business_object_id, row.history_id)

abbrev pub relation_id : RelationRow → Text
relation_id row = row.id

abbrev pub relation_key : RelationRow → Text × Text × Text
relation_key row = (row.source_business_object_id, row.target_business_object_id, row.relation_type)

-- An entry is of a positive amount of a currency, of an object that is there.
pub record IsEntry (objects : List Text) (row : LedgerRow) : Type 0 where
  pub object : Elem row.business_object_id objects
  pub positive : is_not_positive row.amount_minor ≡ false
  pub currency : is_bad_currency row.currency ≡ false

pub record IsAttribution (objects history : List Text) (row : AttributionRow) : Type 0 where
  pub object : Elem row.business_object_id objects
  pub record_there : Elem row.history_id history

-- A relation is between two objects that are there and differ.
pub record IsRelation (objects : List Text) (row : RelationRow) : Type 0 where
  pub source : Elem row.source_business_object_id objects
  pub target : Elem row.target_business_object_id objects
  pub differ : row.source_business_object_id ≢ row.target_business_object_id

-- The five tables fit together.
pub record Fit (os : List BusinessObjectRow) (hs : List HistoryRow) (ls : List LedgerRow)
    (as' : List AttributionRow) (rs : List RelationRow) : Type 0 where
  pub objects : Pairwise Apart (map object_key os)
  pub history_ids : Pairwise ◌≢◌ (map history_id_of hs)
  pub ledger_ids : Pairwise ◌≢◌ (map ledger_id ls)
  pub entries : All (IsEntry (map object_id os)) ls
  pub attribution_keys : Pairwise ◌≢◌ (map attribution_key as')
  pub attributions : All (IsAttribution (map object_id os) (map history_id_of hs)) as'
  pub relation_ids : Pairwise ◌≢◌ (map relation_id rs)
  pub relation_keys : Pairwise ◌≢◌ (map relation_key rs)
  pub relations : All (IsRelation (map object_id os)) rs

abbrev pub job_id : JobRow → Text
job_id row = row.id

abbrev pub article_job_id : ArticleJobRow → Text
article_job_id row = row.id

abbrev pub article_history_id : ArticleHistoryRow → Text
article_history_id row = row.id

abbrev pub account_id : AccountRow → Text
account_id row = row.id

abbrev pub config_key : Text × Text → Text
config_key row = row.0

-- The other six tables have unique keys.
pub record Keyed (js : List JobRow) (ajs : List ArticleJobRow) (ahs : List ArticleHistoryRow)
    (accounts article_accounts : List AccountRow) (config : List (Text × Text)) : Type 0 where
  pub job_ids : Pairwise ◌≢◌ (map job_id js)
  pub article_job_ids : Pairwise ◌≢◌ (map article_job_id ajs)
  pub article_history_ids : Pairwise ◌≢◌ (map article_history_id ahs)
  pub account_ids : Pairwise ◌≢◌ (map account_id accounts)
  pub article_account_ids : Pairwise ◌≢◌ (map account_id article_accounts)
  pub config_keys : Pairwise ◌≢◌ (map config_key config)

abbrev pub IsConsistent : Db → Type 0
IsConsistent d =
    Fit d.business_objects d.history d.ledger_entries d.content_attributions d.business_relations
    × Keyed d.jobs d.article_jobs d.article_history d.accounts d.article_accounts d.config
