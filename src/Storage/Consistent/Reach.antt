-- ===== src/Storage/Consistent/Reach.antt =====
-- The databases that the methods of the repository reach.
use matri_xpost.Prelude.{Bool, List, [], Option, ℕ}
use matri_xpost.Text.{Text}
use matri_xpost.Types.Enums.{PublishState, BusinessObjectStatus, ApprovalStatus}
use matri_xpost.Types.Request.{PublishRequest, LocalSchedule}
use matri_xpost.Types.Article.{Time, PublishArticleRequest}
use matri_xpost.Types.Account.{Account, ArticleAccount}
use matri_xpost.Lifecycle.Records.{
  ScheduledJob, HistoryRecord, BusinessObject, LedgerEntry, ContentAttribution, BusinessRelation,
}
use matri_xpost.Storage.Schema.{External, Db}
use matri_xpost.Storage.Sql.{Connection}
use matri_xpost.Runner.Registry.{ProviderDispatchReport}
use matri_xpost.Storage.History.{append_history}
use matri_xpost.Storage.Dispatch.{record_provider_dispatch_history}
use matri_xpost.Storage.Jobs.{
  insert_job, transition_job, complete_job_with_history, enqueue, claim_due, requeue_claim,
}
use matri_xpost.Storage.Articles.{
  enqueue_article, claim_due_articles, complete_article_with_history, requeue_article_claim,
}
use matri_xpost.Storage.Objects.{transition_business_object}
use matri_xpost.Storage.Objects.Inserts.{insert_business_object}
use matri_xpost.Storage.Objects.Ledger.{insert_ledger_entry}
use matri_xpost.Storage.Objects.Attributions.{insert_content_attribution}
use matri_xpost.Storage.Objects.Relations.{insert_business_relation}
use matri_xpost.Storage.Accounts.{save_account, save_article_account}
use matri_xpost.Storage.Config.{set_config, delete_config}
use matri_xpost.Storage.Consistent.{IsConsistent}
use matri_xpost.Storage.Consistent.Keys.{
  save_account-Keeps, save_article_account-Keeps, set_config-Keeps, delete_config-Keeps,
}
use matri_xpost.Storage.Consistent.Methods.{
  insert_business_object-Keeps, transition_business_object-Keeps, insert_ledger_entry-Keeps,
  insert_content_attribution-Keeps, insert_business_relation-Keeps,
}
use matri_xpost.Storage.Consistent.Queue.{
  append_history-Safe, record_provider_dispatch_history-Safe, insert_job-Safe, enqueue-Safe,
  transition_job-Safe, complete_job_with_history-Safe, claim_due-Safe, requeue_claim-Safe,
}
use matri_xpost.Storage.Consistent.Articles.{
  enqueue_article-Safe, claim_due_articles-Safe, complete_article_with_history-Safe,
  requeue_article_claim-Safe,
}

-- The calls that may change the tables, with their arguments.
pub data Operation : Type 0 where
  create_object : BusinessObject → Operation
  move_object_to : Text → ℕ → BusinessObjectStatus → ApprovalStatus → Time → Operation
  create_entry : LedgerEntry → Operation
  attribute : ContentAttribution → Operation
  relate : BusinessRelation → Operation
  append : HistoryRecord → Operation
  record_dispatch : PublishRequest → ProviderDispatchReport → Time → Operation
  create_job : ScheduledJob → Operation
  enqueue_video : PublishRequest → Time → Operation
  advance : Text → ℕ → PublishState → Time → Operation
  complete : Text → ℕ → PublishState → Time → Option Text → Operation
  claim : LocalSchedule → Time → ℕ → Operation
  requeue : Text → ℕ → Time → Operation
  enqueue_text : PublishArticleRequest → Time → Operation
  claim_texts : LocalSchedule → Time → ℕ → Operation
  complete_text : Text → ℕ → PublishState → Time → Option Text → Operation
  requeue_text : Text → ℕ → Time → Operation
  put_account : Account → Operation
  put_article_account : ArticleAccount → Operation
  put_value : Text → Text → Operation
  delete_value : Text → Operation

-- The connection after a call, whatever the call returns.
abbrev pub run : External → Operation → Connection Db → Connection Db
run x (create_object object) c = (insert_business_object x object c).1
run x (move_object_to id revision s a time) c =
    (transition_business_object x id revision s a time c).1
run x (create_entry entry) c = (insert_ledger_entry x entry c).1
run x (attribute attribution) c = (insert_content_attribution x attribution c).1
run x (relate relation) c = (insert_business_relation x relation c).1
run x (append h) c = (append_history x h c).1
run x (record_dispatch request report time) c =
    (record_provider_dispatch_history x request report time c).1
run x (create_job job) c = (insert_job x job c).1
run x (enqueue_video request now) c = (enqueue x request now c).1
run x (advance id revision next time) c = (transition_job x id revision next time c).1
run x (complete id revision next time detail) c =
    (complete_job_with_history x id revision next time detail c).1
run x (claim due_through now limit) c = (claim_due x due_through now limit c).1
run x (requeue id revision now) c = (requeue_claim x id revision now c).1
run x (enqueue_text request now) c = (enqueue_article x request now c).1
run x (claim_texts due_through now limit) c = (claim_due_articles x due_through now limit c).1
run x (complete_text id revision next time detail) c =
    (complete_article_with_history x id revision next time detail c).1
run x (requeue_text id revision now) c = (requeue_article_claim x id revision now c).1
run x (put_account account) c = (save_account account c).1
run x (put_article_account account) c = (save_article_account account c).1
run x (put_value key value) c = (set_config key value c).1
run x (delete_value key) c = (delete_config key c).1

-- The tables of a new database.
abbrev pub new_db : Db
new_db = record {
  accounts = [];
  article_accounts = [];
  history = [];
  jobs = [];
  config = [];
  job_sequence = 0;
  history_sequence = 0;
  article_jobs = [];
  article_history = [];
  article_job_sequence = 0;
  article_history_sequence = 0;
  business_objects = [];
  ledger_entries = [];
  content_attributions = [];
  business_relations = [];
}

-- A new database under some failures to come, and what calls make of it.
pub data Reachable (x : External) : Connection Db → Type 0 where
  opened :
      (poisoned : Bool) (faults : List (Option Text))
      → Reachable x (record { db = new_db; poisoned = poisoned; faults = faults })
  called :
      {c : Connection Db}
      → Reachable x c
      → (operation : Operation) → Reachable x (run x operation c)

run-IsConsistent :
    (x : External) (operation : Operation) (c : Connection Db)
    → IsConsistent c.db
    → IsConsistent (run x operation c).db
run-IsConsistent x (create_object object) = (insert_business_object-Keeps x object).keeps
run-IsConsistent x (move_object_to id revision s a time) =
    (transition_business_object-Keeps x id revision s a time).keeps
run-IsConsistent x (create_entry entry) = (insert_ledger_entry-Keeps x entry).keeps
run-IsConsistent x (attribute attribution) = (insert_content_attribution-Keeps x attribution).keeps
run-IsConsistent x (relate relation) = (insert_business_relation-Keeps x relation).keeps
run-IsConsistent x (append h) = (append_history-Safe x h).keeps
run-IsConsistent x (record_dispatch request report time) =
    (record_provider_dispatch_history-Safe x request report time).keeps
run-IsConsistent x (create_job job) = (insert_job-Safe x job).keeps
run-IsConsistent x (enqueue_video request now) = (enqueue-Safe x request now).keeps
run-IsConsistent x (advance id revision next time) =
    (transition_job-Safe x id revision next time).keeps
run-IsConsistent x (complete id revision next time detail) =
    (complete_job_with_history-Safe x id revision next time detail).keeps
run-IsConsistent x (claim due_through now limit) = (claim_due-Safe x due_through now limit).keeps
run-IsConsistent x (requeue id revision now) = (requeue_claim-Safe x id revision now).keeps
run-IsConsistent x (enqueue_text request now) = (enqueue_article-Safe x request now).keeps
run-IsConsistent x (claim_texts due_through now limit) =
    (claim_due_articles-Safe x due_through now limit).keeps
run-IsConsistent x (complete_text id revision next time detail) =
    (complete_article_with_history-Safe x id revision next time detail).keeps
run-IsConsistent x (requeue_text id revision now) =
    (requeue_article_claim-Safe x id revision now).keeps
run-IsConsistent x (put_account account) = (save_account-Keeps account).keeps
run-IsConsistent x (put_article_account account) = (save_article_account-Keeps account).keeps
run-IsConsistent x (put_value key value) = (set_config-Keeps key value).keeps
run-IsConsistent x (delete_value key) = (delete_config-Keeps key).keeps

-- Whatever calls of the repository follow the opening of a new database, and whatever of their
-- statements fail: the ids of objects, jobs, article jobs, history and article history records,
-- entries, relations, accounts and article accounts and the keys of the configuration are unique, as
-- are the external ids of a kind, the attributed pairs and the related triples; entries, attributions
-- and relations refer to rows that are there; every entry has a positive amount and a valid currency,
-- and no object relates to itself.
pub Reachable-IsConsistent : (x : External) (c : Connection Db) → Reachable x c → IsConsistent c.db
Reachable-IsConsistent x _ (opened poisoned faults) = (
  record {
    objects = tt;
    history_ids = tt;
    ledger_ids = tt;
    entries = tt;
    attribution_keys = tt;
    attributions = tt;
    relation_ids = tt;
    relation_keys = tt;
    relations = tt;
  },
  record {
    job_ids = tt;
    article_job_ids = tt;
    article_history_ids = tt;
    account_ids = tt;
    article_account_ids = tt;
    config_keys = tt;
  },
)
Reachable-IsConsistent x _ (called {c} before operation) =
    run-IsConsistent x operation c (Reachable-IsConsistent x c before)
