-- ===== src/Storage/Articles/Safe.antt =====
-- What the methods of the article queue leave behind, and what its history may say.
use matri_xpost.Prelude.{ℕ, ◌≡◌, inl, inr, List, [], Option, err, ◌==◌, min, Bool-cases}
use matri_xpost.Text.{Text}
use matri_xpost.Error.{DomainError}
use matri_xpost.Types.Enums.{PublishState}
use matri_xpost.Types.Request.{LocalSchedule}
use matri_xpost.Types.Article.{Time, ArticleScheduledJob}
use matri_xpost.Storage.Schema.{External, Db}
use matri_xpost.Storage.Sql.{Connection, pure}
use matri_xpost.Storage.Sql.Laws.{locked-transaction-err}
use matri_xpost.Storage.Articles.{
  article_claim_batch, claim_article_rows, claim_due_articles, complete_article,
  complete_article_with_history, requeue_article, requeue_article_claim,
}

-- A call of a method of the article queue that failed on the connection `c` and left `c'`.
pub data ArticleFailed (x : External) (c c' : Connection Db) : Type 0 where
  article_claim_failed :
      (e : DomainError) (due_through : LocalSchedule) (now : Time) (limit : ℕ)
      → claim_due_articles x due_through now limit c ≡ (err e, c')
      → ArticleFailed x c c'
  article_complete_failed :
      (e : DomainError) (id : Text) (revision : ℕ) (next : PublishState) (now : Time)
      (detail : Option Text)
      → complete_article_with_history x id revision next now detail c ≡ (err e, c')
      → ArticleFailed x c c'
  article_requeue_failed :
      (e : DomainError) (id : Text) (revision : ℕ) (now : Time)
      → requeue_article_claim x id revision now c ≡ (err e, c')
      → ArticleFailed x c c'

nothing_claimed :
    (c : Connection Db) (e : DomainError) (c' : Connection Db)
    → pure {A = List ArticleScheduledJob} [] c ≡ (err e, c')
    → c'.db ≡ c.db
unfolding pure
nothing_claimed c e c' h = cc h

claim_due_articles-err :
    (x : External) (due_through : LocalSchedule) (now : Time) (limit : ℕ) (c : Connection Db)
    (e : DomainError) (c' : Connection Db)
    → claim_due_articles x due_through now limit c ≡ (err e, c')
    → c'.db ≡ c.db
unfolding claim_due_articles
claim_due_articles-err x due_through now limit c e c' h =
    elim (Bool-cases (min limit article_claim_batch == 0)) [
      | inl none_wanted ↦ nothing_claimed c e c' (rw (none_wanted, claim_due_articles) at h)
      | inr wanted ↦
          locked-transaction-err
            (claim_article_rows x due_through now (min limit article_claim_batch)) c e c'
            (rw (wanted, claim_due_articles) at h)
    ]

-- A claim, a completion or a requeue of articles that fails leaves the database as it was.
pub article_error-unchanged :
    (x : External) (c c' : Connection Db) → ArticleFailed x c c' → c'.db ≡ c.db
unfolding complete_article_with_history requeue_article_claim
article_error-unchanged x c c' (article_claim_failed e due_through now limit h) =
    claim_due_articles-err x due_through now limit c e c' h
article_error-unchanged x c c' (article_complete_failed e id revision next now detail h) =
    locked-transaction-err (complete_article x id revision next now) c e c' h
article_error-unchanged x c c' (article_requeue_failed e id revision now h) =
    locked-transaction-err (requeue_article x id revision now) c e c' h
