-- ===== src/Storage/Consistent/Articles.antt =====
-- The methods of the article queue keep the tables consistent.
use matri_xpost.Prelude.{
  ◌≡◌, refl, Bool, any, Bool-cases, inl, inr, List, [], ◌∷◌, Option, ok, err, ◌==◌, ℕ, min,
}
use matri_xpost.Text.{Text, text_eq}
use matri_xpost.Error.{Fallible}
use matri_xpost.Types.Enums.{PublishState}
use matri_xpost.Types.Request.{LocalSchedule}
use matri_xpost.Types.Article.{Time, PublishArticleRequest, ArticleScheduledJob}
use matri_xpost.Storage.Schema.{External, Db, ArticleJobRow, ArticleHistoryRow}
use matri_xpost.Storage.Rows.{sql_u64}
use matri_xpost.Storage.Sql.{pure}
use matri_xpost.Storage.Sql.Keeps.{
  pure-Keeps, lift-Keeps, statement-Keeps, query-Keeps, >>=-Keeps, locked-Keeps, transaction-Keeps,
  if-Keeps,
}
use matri_xpost.Storage.Articles.{
  next_article_job_sequence, next_article_history_sequence, insert_article_row,
  insert_article_history, update_articles, has_article_id, require_article, store_article,
  enqueue_article, claim_article, claim_articles, claim_article_rows, claim_due_articles,
  move_article, complete_article, complete_article_with_history, requeue_article,
  requeue_article_claim, article_claim_batch,
}
use matri_xpost.Storage.Consistent.{IsConsistent, article_job_id, article_history_id}
use matri_xpost.Storage.Consistent.Keys.{
  IsKeyed-append, IsKeyed-update, with_article_jobs, with_article_history,
}
use matri_xpost.Storage.Consistent.Queue.{Safe}

next_article_job_sequence-IsConsistent :
    (d : Db) → IsConsistent d → IsConsistent (next_article_job_sequence d).1
unfolding next_article_job_sequence
next_article_job_sequence-IsConsistent d h = h

next_article_history_sequence-IsConsistent :
    (d : Db) → IsConsistent d → IsConsistent (next_article_history_sequence d).1
unfolding next_article_history_sequence
next_article_history_sequence-IsConsistent d h = h

module _ (x : External) where
  update_articles-IsConsistent :
      (matches : ArticleJobRow → Bool) (s : PublishState) (revision : ℕ) (time : Time) (d : Db)
      → IsConsistent d
      → IsConsistent (update_articles x matches s revision time d).1
  unfolding update_articles
  update_articles-IsConsistent matches s revision time d h = stored_or_not (sql_u64 x revision) refl
    where
      stored_or_not :
          (o : Fallible ℕ)
          → sql_u64 x revision ≡ o
          → IsConsistent (update_articles x matches s revision time d).1
      stored_or_not (err e) at = rw (update_articles, at) h
      stored_or_not (ok stored) at =
          rw (update_articles, at)
            (with_article_jobs d _
              (IsKeyed-update article_job_id matches _ d.article_jobs (λ r. refl)
                h.1.article_job_ids)
              h)

  insert_article_row-IsConsistent :
      (row : ArticleJobRow) (d : Db) → IsConsistent d → IsConsistent (insert_article_row x row d).1
  unfolding insert_article_row has_article_id
  insert_article_row-IsConsistent row d h =
      elim (Bool-cases (any (has_article_id row.id) d.article_jobs)) [
        | inl taken ↦ rw taken h
        | inr free ↦ rw free (
            with_article_jobs d _
              (IsKeyed-append article_job_id d.article_jobs row free h.1.article_job_ids) h)
      ]

  insert_article_history-IsConsistent :
      (row : ArticleHistoryRow) (d : Db)
      → IsConsistent d
      → IsConsistent (insert_article_history x row d).1
  unfolding insert_article_history
  insert_article_history-IsConsistent row d h =
      elim (Bool-cases (any (λ (r : ArticleHistoryRow). text_eq r.id row.id) d.article_history)) [
        | inl taken ↦ rw taken h
        | inr free ↦ rw free (
            with_article_history d _
              (IsKeyed-append article_history_id d.article_history row free h.1.article_history_ids)
              h)
      ]

  pub enqueue_article-Safe :
      (request : PublishArticleRequest) (now : Time) → Safe (enqueue_article x request now)
  unfolding enqueue_article store_article
  enqueue_article-Safe request now = >>=-Keeps IsConsistent _ _ (lift-Keeps IsConsistent _) (λ u.
      >>=-Keeps IsConsistent _ _ (lift-Keeps IsConsistent _) (λ due. locked-Keeps IsConsistent _ (
        >>=-Keeps IsConsistent _ _
          (statement-Keeps IsConsistent _ next_article_job_sequence-IsConsistent)
          (λ n. >>=-Keeps IsConsistent _ _ (lift-Keeps IsConsistent _) (λ json.
            >>=-Keeps IsConsistent _ _
              (statement-Keeps IsConsistent _ (insert_article_row-IsConsistent _))
              (λ u. pure-Keeps IsConsistent _))))))

  claim_articles-Safe :
      (now : Time) (jobs : List ArticleScheduledJob) → Safe (claim_articles x now jobs)
  unfolding claim_articles claim_article
  claim_articles-Safe now [] = pure-Keeps IsConsistent _
  claim_articles-Safe now (current ∷ rest) =
      >>=-Keeps IsConsistent _ _
        (>>=-Keeps IsConsistent _ _
          (statement-Keeps IsConsistent _ (update_articles-IsConsistent _ _ _ now))
          (λ changed.
            >>=-Keeps IsConsistent _ _ (lift-Keeps IsConsistent _)
              (λ u. pure-Keeps IsConsistent _)))
        (λ job.
          >>=-Keeps IsConsistent _ _ (claim_articles-Safe now rest)
            (λ claimed. pure-Keeps IsConsistent _))

  pub claim_due_articles-Safe :
      (due_through : LocalSchedule) (now : Time) (limit : ℕ)
      → Safe (claim_due_articles x due_through now limit)
  unfolding claim_due_articles claim_article_rows
  claim_due_articles-Safe due_through now limit =
      if-Keeps IsConsistent (min limit article_claim_batch == 0) (pure []) _
        (pure-Keeps IsConsistent [])
        (locked-Keeps IsConsistent _ (
          transaction-Keeps IsConsistent _ (
            >>=-Keeps IsConsistent _ _ (query-Keeps IsConsistent _)
              (λ candidates. claim_articles-Safe now candidates))))

  require_article-Safe : (id : Text) → Safe (require_article x id)
  unfolding require_article
  require_article-Safe id =
      >>=-Keeps IsConsistent _ _ (query-Keeps IsConsistent _) (λ found. lift-Keeps IsConsistent _)

  move_article-Safe :
      (current : ArticleScheduledJob) (id : Text) (revision : ℕ) (next : PublishState) (now : Time)
      → Safe (move_article x current id revision next now)
  unfolding move_article
  move_article-Safe current id revision next now =
      >>=-Keeps IsConsistent _ _ (lift-Keeps IsConsistent _) (λ u.
        >>=-Keeps IsConsistent _ _
          (statement-Keeps IsConsistent _ (update_articles-IsConsistent _ next _ now))
          (λ changed.
            >>=-Keeps IsConsistent _ _ (lift-Keeps IsConsistent _)
              (λ u. pure-Keeps IsConsistent _)))

  pub complete_article_with_history-Safe :
      (id : Text) (revision : ℕ) (next : PublishState) (time : Time) (detail : Option Text)
      → Safe (complete_article_with_history x id revision next time detail)
  unfolding complete_article_with_history complete_article
  complete_article_with_history-Safe id revision next time detail = locked-Keeps IsConsistent _ (
      transaction-Keeps IsConsistent _ (
        >>=-Keeps IsConsistent _ _ (require_article-Safe id) (λ current.
          >>=-Keeps IsConsistent _ _ (lift-Keeps IsConsistent _) (λ state.
            >>=-Keeps IsConsistent _ _ (move_article-Safe current id revision next time) (λ job.
              >>=-Keeps IsConsistent _ _
                (statement-Keeps IsConsistent _ next_article_history_sequence-IsConsistent)
                (λ n. >>=-Keeps IsConsistent _ _ (lift-Keeps IsConsistent _) (λ platform.
                  >>=-Keeps IsConsistent _ _
                    (statement-Keeps IsConsistent _ (insert_article_history-IsConsistent _))
                    (λ u. pure-Keeps IsConsistent _))))))))

  pub requeue_article_claim-Safe :
      (id : Text) (revision : ℕ) (now : Time) → Safe (requeue_article_claim x id revision now)
  unfolding requeue_article_claim requeue_article
  requeue_article_claim-Safe id revision now = locked-Keeps IsConsistent _ (
      transaction-Keeps IsConsistent _ (
        >>=-Keeps IsConsistent _ _ (require_article-Safe id) (λ current.
          >>=-Keeps IsConsistent _ _ (lift-Keeps IsConsistent _)
            (λ u. move_article-Safe current id revision _ now))))
