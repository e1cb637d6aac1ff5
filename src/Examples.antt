-- ===== src/Examples.antt =====
-- A small queue, by which the theorems on the storage are tried.
pub mod Queue
pub mod Refines
pub mod History
pub mod Objects
pub mod Reach
pub mod Upstream
pub mod Requests
pub mod Runners
pub mod Clients
use matri_xpost.Prelude.{ℕ, Bool, true, false, List, [], ◌∷◌, Option, none, some, Result, ok, err}
use matri_xpost.Text.{Text, codes}
use matri_xpost.Types.Enums.{douyin, bilibili, queued}
use matri_xpost.Types.State.{state_db}
use matri_xpost.Types.Account.{no_selection}
use matri_xpost.Types.Request.{
  PublishRequest, PlatformOverride, LocalSchedule, WechatLink, local_file,
}
use matri_xpost.Types.Article.{PublishArticleRequest, Time}
use matri_xpost.Lifecycle.Records.{Attributes}
use matri_xpost.Storage.Schema.{External, Db, JobRow, HistoryRow}
use matri_xpost.Storage.Sql.{Connection}

abbrev pub due : Text
due = codes "2026-01-02 03:04:05"

abbrev pub no_link : WechatLink
no_link = record { product_id = none; link_type = none; link_value = none }

abbrev pub douyin_title : PlatformOverride
douyin_title = record {
  platform = douyin;
  title = some (codes "short");
  short_title = none;
  tags = none;
  creative_statement = none;
  account = none;
  wechat_link = none;
}

abbrev pub sample_request : PublishRequest
sample_request = record {
  source = local_file (codes "video.mp4");
  title = codes "title";
  short_title = none;
  tags = [];
  address = none;
  draft = false;
  bt2 = none;
  scheduled_at = some (record { text = due });
  task_name = none;
  account = no_selection;
  wechat_link = no_link;
  overrides = douyin_title ∷ [];
  targets = douyin ∷ bilibili ∷ [];
}

abbrev pub first_code : Text → Option Time
first_code [] = none
first_code (t ∷ rest) = some t

-- A time is printed as itself, and the only request that is stored is the sample.
abbrev pub sample_external : External
sample_external = record {
  valid_schedule = λ _. true;
  to_rfc3339 = λ t. t ∷ [];
  parse_rfc3339 = first_code;
  request_json = λ _. ok (codes "request");
  request_from_json = λ _. ok sample_request;
  article_json = λ _. err (codes "no articles");
  article_from_json = λ _. err (codes "no articles");
  attributes_json = λ _. ok (codes "{}");
  attributes_from_json = λ _. ok [];
  constraint_failed = codes "UNIQUE constraint failed";
  foreign_key_failed = codes "FOREIGN KEY constraint failed";
  integer_out_of_range = codes "out of range integral type conversion attempted";
}

abbrev pub waiting : JobRow
waiting = record {
  id = codes "job-1";
  request_json = codes "request";
  state = codes "queued";
  due_at = some due;
  revision = 0;
  updated_at = 5 ∷ [];
}

abbrev pub later : JobRow
later = record {
  id = codes "job-2";
  request_json = codes "request";
  state = codes "queued";
  due_at = some (codes "2027-01-02 03:04:05");
  revision = 4;
  updated_at = 5 ∷ [];
}

abbrev pub old_history : HistoryRow
old_history = record {
  id = codes "scheduled-history-1";
  request_json = codes "request";
  state = codes "failed";
  recorded_at = 3 ∷ [];
  detail = none;
}

abbrev pub db_with : List JobRow → Db
db_with jobs = record {
  accounts = [];
  article_accounts = [];
  history = old_history ∷ [];
  jobs = jobs;
  config = [];
  job_sequence = 2;
  history_sequence = 0;
  article_jobs = [];
  article_history = [];
  article_job_sequence = 0;
  article_history_sequence = 0;
  business_objects = [];
  ledger_entries = [];
  content_attributions = [];
  business_relations = [];
}

abbrev pub connect : Db → Connection Db
connect d = record { db = d; poisoned = false; faults = [] }
