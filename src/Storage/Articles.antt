-- ===== src/Storage/Articles.antt =====
-- crates/matrixpost-core/src/storage/articles.rs: the queue of scheduled articles and its redacted
-- history.
pub mod Safe
use matri_xpost.Prelude.{
  ℕ, suc, ◌+◌, Bool, true, false, ◌&&◌, not, List, [], ◌∷◌, ◌++◌, any, filter, find?, take, min,
  Option, none, some, ok, err, if◌then◌else◌, ◌==◌, reject_if, collect, ok_or, map_err,
}
use matri_xpost.Text.{Text, codes, text_eq}
use matri_xpost.Text.Decimal.{numbered}
use matri_xpost.Text.Order.{text_le, pair_le}
use matri_xpost.Error.{
  DomainError, Fallible, database, serialization, corrupt_state, invalid_schedule, unknown_job,
  stale_job_revision, concurrent_job_update, invalid_state_transition,
}
use matri_xpost.Types.Enums.{
  PublishState, queued, dispatching, published, failed, unavailable, state_eq, ArticlePlatform,
  juejin,
}
use matri_xpost.Types.State.{transition, state_db, state_from_db}
use matri_xpost.Types.Request.{LocalSchedule, parse_schedule}
use matri_xpost.Types.Article.{
  Time, PublishArticleRequest, ArticleScheduledJob, ArticleHistoryRecord, article_validate,
  article_runner_safe, article_platform,
}
use matri_xpost.Storage.Schema.{External, Db, ArticleJobRow, ArticleHistoryRow}
use matri_xpost.Storage.Table.{update_where, count_where, sort_by}
use matri_xpost.Storage.Rows.{add_u64, sql_u64, parse_time}
use matri_xpost.Storage.ArticleRows.{
  article_platform_db, row_to_article_job, row_to_article_history, decode_article,
}
use matri_xpost.Storage.Sql.{Sql, pure, lift, statement, query, locked, transaction, ◌>>=◌, ◌>>◌}

abbrev pub article_claim_batch : ℕ
article_claim_batch = 64

unfoldable pub fixed_history_detail : PublishState → Text
fixed_history_detail published = codes "scheduled local article runner workflow completed"
fixed_history_detail unavailable = codes "scheduled local article runner unavailable"
fixed_history_detail failed = codes "scheduled local article runner workflow incomplete"
fixed_history_detail _ = codes "scheduled local article runner workflow recorded"

unfoldable pub has_article_id : Text → ArticleJobRow → Bool
unfolding text_eq
has_article_id id row = text_eq row.id id

-- `WHERE id=? AND state=? AND revision=?`
unfoldable pub article_in_state_at : PublishState → Text → ℕ → ArticleJobRow → Bool
unfolding has_article_id text_eq
article_in_state_at state id revision row =
    has_article_id id row && (text_eq row.state (state_db state) && row.revision == revision)

-- `WHERE state='queued' AND due_at <= ?1`
unfoldable pub article_is_due : LocalSchedule → ArticleJobRow → Bool
unfolding text_eq text_le
article_is_due due_through row =
    text_eq row.state (state_db queued) && text_le row.due_at due_through.text

-- `ORDER BY due_at, id`
unfoldable pub article_due_le : ArticleJobRow → ArticleJobRow → Bool
unfolding pair_le
article_due_le a b = pair_le (a.due_at, a.id) (b.due_at, b.id)

-- `ORDER BY recorded_at, id`
unfoldable pub article_history_le : ArticleHistoryRow → ArticleHistoryRow → Bool
unfolding pair_le
article_history_le a b = pair_le (a.recorded_at, a.id) (b.recorded_at, b.id)

unfoldable pub next_article_job_sequence : Db → Fallible ℕ × Db
next_article_job_sequence d = (
  ok (suc d.article_job_sequence),
  record d { article_job_sequence = suc d.article_job_sequence },
)

unfoldable pub next_article_history_sequence : Db → Fallible ℕ × Db
next_article_history_sequence d = (
  ok (suc d.article_history_sequence),
  record d { article_history_sequence = suc d.article_history_sequence },
)

module _ (x : External) where
  -- `INSERT INTO article_jobs`, which the primary key may refuse.
  unfoldable pub insert_article_row : ArticleJobRow → Db → Fallible Unit × Db
  unfolding has_article_id
  insert_article_row row d =
      if any (has_article_id row.id) d.article_jobs
      then (err (database x.constraint_failed), d)
      else (ok tt, record d { article_jobs = d.article_jobs ++ row ∷ [] })

  -- `INSERT INTO article_history`
  unfoldable pub insert_article_history : ArticleHistoryRow → Db → Fallible Unit × Db
  insert_article_history row d =
      if any (λ (r : ArticleHistoryRow). text_eq r.id row.id) d.article_history
      then (err (database x.constraint_failed), d)
      else (ok tt, record d { article_history = d.article_history ++ row ∷ [] })

  -- `UPDATE article_jobs SET state=?, revision=?, updated_at=? WHERE …`
  unfoldable pub update_articles :
      (ArticleJobRow → Bool) → PublishState → ℕ → Time → Db → Fallible ℕ × Db
  unfolding sql_u64
  update_articles matches next revision updated_at d =
      let change = λ (stored : ℕ) (row : ArticleJobRow). record row {
        state = state_db next;
        revision = stored;
        updated_at = x.to_rfc3339 updated_at;
      } in
      elim (sql_u64 x revision) [
        | err e ↦ (err e, d)
        | ok stored ↦ (
          ok (count_where matches d.article_jobs),
          record d { article_jobs = update_where matches (change stored) d.article_jobs },
        )
      ]

  -- `history`
  unfoldable pub article_history : Sql Db (List ArticleHistoryRecord)
  article_history = locked (
      query
        (λ d. collect (row_to_article_history x) (sort_by article_history_le d.article_history)))

  -- `load_article_job_tx(…)?.ok_or_else(|| UnknownJob)?`
  unfoldable pub require_article : Text → Sql Db ArticleScheduledJob
  unfolding decode_article
  require_article id = do
    found ← query (λ d. decode_article x (find? (has_article_id id) d.article_jobs))
    lift (ok_or found (unknown_job id))

  -- The part of `enqueue_article` that holds the lock.
  unfoldable pub store_article :
      PublishArticleRequest → LocalSchedule → Time → Sql Db ArticleScheduledJob
  store_article safe due_at now = do
    n ← statement next_article_job_sequence
    let job : ArticleScheduledJob = record {
      id = numbered (codes "article-job") n;
      request = safe;
      state = queued;
      due_at = due_at;
      revision = 0;
      updated_at = now;
    }
    request_json ← lift (map_err serialization (x.article_json safe))
    statement (
        insert_article_row (record {
          id = job.id;
          request_json = request_json;
          state = state_db queued;
          due_at = due_at.text;
          revision = 0;
          updated_at = x.to_rfc3339 now;
        }))
    pure job

  -- `enqueue_article`
  unfoldable pub enqueue_article : PublishArticleRequest → Time → Sql Db ArticleScheduledJob
  enqueue_article request now = do
    lift (article_validate x.valid_schedule request)
    due_at ← lift (
        ok_or request.scheduled_at
          (invalid_schedule (codes "scheduled article requires publish_at")))
    locked (store_article (article_runner_safe request) due_at now)

  -- One round of the loop of `claim_due_articles`.
  unfoldable pub claim_article : Time → ArticleScheduledJob → Sql Db ArticleScheduledJob
  claim_article now current = do
    changed ← statement (
        update_articles (article_in_state_at queued current.id current.revision) dispatching
          (add_u64 current.revision 1) now)
    lift (reject_if (not (changed == 1)) (concurrent_job_update current.id))
    pure (record current {
      state = dispatching;
      revision = add_u64 current.revision 1;
      updated_at = now;
    })

  unfoldable pub claim_articles :
      Time → List ArticleScheduledJob → Sql Db (List ArticleScheduledJob)
  claim_articles now [] = pure []
  claim_articles now (current ∷ rest) = do
    job ← claim_article now current
    claimed ← claim_articles now rest
    pure (job ∷ claimed)

  unfoldable pub claim_article_rows : LocalSchedule → Time → ℕ → Sql Db (List ArticleScheduledJob)
  claim_article_rows due_through now limit = do
    candidates ← query (λ d.
        collect (row_to_article_job x) (
          take limit (sort_by article_due_le (filter (article_is_due due_through) d.article_jobs))))
    claim_articles now candidates

  -- `claim_due_articles`
  unfoldable pub claim_due_articles : LocalSchedule → Time → ℕ → Sql Db (List ArticleScheduledJob)
  claim_due_articles due_through now limit =
      let capped = min limit article_claim_batch in
      if capped == 0
      then pure []
      else locked (transaction (claim_article_rows due_through now capped))

  -- The checks and the update that a completion and a requeue share after theirs on the state: the
  -- row is still dispatching.
  unfoldable pub move_article :
      ArticleScheduledJob → Text → ℕ → PublishState → Time → Sql Db ArticleScheduledJob
  move_article current id expected_revision next now = do
    lift (
        reject_if (not (current.revision == expected_revision))
          (stale_job_revision id expected_revision current.revision))
    changed ← statement (
        update_articles (article_in_state_at dispatching id expected_revision) next
          (add_u64 expected_revision 1) now)
    lift (reject_if (not (changed == 1)) (concurrent_job_update id))
    pure (record current { state = next; revision = add_u64 expected_revision 1; updated_at = now })

  -- The body of the transaction of `complete_article_with_history`.
  unfoldable pub complete_article :
      Text → ℕ → PublishState → Time → Sql Db (ArticleScheduledJob × ArticleHistoryRecord)
  complete_article id expected_revision next updated_at = do
    current ← require_article id
    lift (transition current.state next)
    job ← move_article current id expected_revision next updated_at
    n ← statement next_article_history_sequence
    platform ← lift (article_platform current.request)
    let history : ArticleHistoryRecord = record {
      id = numbered (codes "article-scheduled-history") n;
      platform = platform;
      title = current.request.title;
      state = next;
      recorded_at = updated_at;
      detail = some (fixed_history_detail next);
    }
    statement (
        insert_article_history (record {
          id = history.id;
          platform = article_platform_db platform;
          title = history.title;
          state = state_db next;
          recorded_at = x.to_rfc3339 updated_at;
          detail = history.detail;
        }))
    pure (job, history)

  -- `complete_article_with_history`, which does not look at its detail.
  unfoldable pub complete_article_with_history :
      Text
      → ℕ
      → PublishState
      → Time
      → Option Text
      → Sql Db (ArticleScheduledJob × ArticleHistoryRecord)
  complete_article_with_history id expected_revision next updated_at detail =
      locked (transaction (complete_article id expected_revision next updated_at))

  unfoldable pub requeue_article : Text → ℕ → Time → Sql Db ArticleScheduledJob
  requeue_article id expected_revision now = do
    current ← require_article id
    lift (
        reject_if (not (state_eq current.state dispatching))
          (invalid_state_transition current.state queued))
    move_article current id expected_revision queued now

  -- `requeue_article_claim`
  unfoldable pub requeue_article_claim : Text → ℕ → Time → Sql Db ArticleScheduledJob
  requeue_article_claim id expected_revision now =
      locked (transaction (requeue_article id expected_revision now))
