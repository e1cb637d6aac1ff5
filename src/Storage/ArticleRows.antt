-- ===== src/Storage/ArticleRows.antt =====
-- The rows of the article queue, read and written as crates/matrixpost-core/src/storage/articles.rs
-- does.
use matri_xpost.Prelude.{Option, none, some, ok, err, if◌then◌else◌, map_err, ◌>>=◌}
use matri_xpost.Text.{Text, codes, text_eq}
use matri_xpost.Error.{Fallible, serialization, corrupt_state}
use matri_xpost.Types.Enums.{ArticlePlatform, juejin}
use matri_xpost.Types.State.{state_from_db}
use matri_xpost.Types.Request.{parse_schedule}
use matri_xpost.Types.Article.{ArticleScheduledJob, ArticleHistoryRecord}
use matri_xpost.Storage.Schema.{External, ArticleJobRow, ArticleHistoryRow}
use matri_xpost.Storage.Rows.{parse_time}

unfoldable pub article_platform_db : ArticlePlatform → Text
article_platform_db juejin = codes "juejin"

unfoldable pub article_platform_from_db : Text → Fallible ArticlePlatform
unfolding text_eq
article_platform_from_db value =
    if text_eq value (codes "juejin") then ok juejin else err (corrupt_state value)

module _ (x : External) where
  -- `row_to_article_job`
  unfoldable pub row_to_article_job : ArticleJobRow → Fallible ArticleScheduledJob
  row_to_article_job row = do
    request ← map_err serialization (x.article_from_json row.request_json)
    state ← state_from_db row.state
    due_at ← parse_schedule x.valid_schedule row.due_at
    updated_at ← parse_time x row.updated_at
    ok (record {
      id = row.id;
      request = request;
      state = state;
      due_at = due_at;
      revision = row.revision;
      updated_at = updated_at;
    })

  -- `row_to_article_history`
  unfoldable pub row_to_article_history : ArticleHistoryRow → Fallible ArticleHistoryRecord
  row_to_article_history row = do
    platform ← article_platform_from_db row.platform
    state ← state_from_db row.state
    recorded_at ← parse_time x row.recorded_at
    ok (record {
      id = row.id;
      platform = platform;
      title = row.title;
      state = state;
      recorded_at = recorded_at;
      detail = row.detail;
    })

  unfoldable pub decode_article : Option ArticleJobRow → Fallible (Option ArticleScheduledJob)
  decode_article none = ok none
  decode_article (some row) = do job ← row_to_article_job row; ok (some job)
