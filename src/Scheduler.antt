-- ===== src/Scheduler.antt =====
-- crates/matrixpostd/src/scheduler.rs: one pass of the daemon's scheduler. The state that the tick
-- changes is the connection of the repository and the world of the providers. The runner of articles
-- is a parameter, as the providers are.
pub mod Settled
use matri_xpost.Prelude.{
  ℕ, ◌-◌, Bool, true, false, List, [], ◌∷◌, all, length, Option, none, some, Result, ok, err,
  is_err, if◌then◌else◌,
}
use matri_xpost.Text.{Text, codes}
use matri_xpost.Error.{DomainError, Fallible}
use matri_xpost.Types.Enums.{PublishState, published, failed, unavailable}
use matri_xpost.Types.Request.{LocalSchedule, PublishRequest}
use matri_xpost.Types.Article.{Time, PublishArticleRequest, ArticleScheduledJob}
use matri_xpost.Lifecycle.Records.{ScheduledJob}
use matri_xpost.Storage.Schema.{External, Db}
use matri_xpost.Storage.Sql.{Connection, Sql}
use matri_xpost.Storage.Jobs.{claim_due, complete_job_with_history, requeue_claim}
use matri_xpost.Storage.Articles.{
  claim_due_articles, complete_article_with_history, requeue_article_claim,
}
use matri_xpost.Runner.Outcomes.{DispatchOutcome, is_queued, is_unavailable, values}
use matri_xpost.Runner.Protocol.Article.{
  ArticleDispatchOutcome, article_queued, article_unavailable, article_rejected,
}
use matri_xpost.Runner.Registry.{ProviderRegistry, ProviderDispatchReport, dispatch_all}

abbrev pub runner_complete : Text
runner_complete =
    codes "scheduled local runner workflow completed; remote platform processing is not confirmed"

abbrev pub runner_unavailable : Text
runner_unavailable =
    codes "scheduled local runner was unavailable; no remote platform publication was attempted"

abbrev pub runner_incomplete : Text
runner_incomplete =
    codes
      "scheduled local runner workflow was incomplete; remote platform processing is not confirmed"

-- The state and the detail by which a dispatch ends.
unfoldable pub terminal_of : Fallible ProviderDispatchReport → PublishState × Text
terminal_of (err e) = (failed, runner_incomplete)
terminal_of (ok report) =
    if all is_queued (values report)
    then (published, runner_complete)
    else if all is_unavailable (values report)
    then (unavailable, runner_unavailable)
    else (failed, runner_incomplete)

unfoldable pub article_terminal_of : Fallible ArticleDispatchOutcome → PublishState × Text
article_terminal_of (ok (article_queued id)) = (published, runner_complete)
article_terminal_of (ok (article_unavailable reason)) = (unavailable, runner_unavailable)
article_terminal_of _ = (failed, runner_incomplete)

-- A second action, run when the first has failed; its own failure is only printed.
unfoldable pub or_recover : {A B : Type 0} → Sql Db A → Sql Db B → Connection Db → Connection Db
or_recover first second c =
    let (result, c₁) = first c in if is_err result then (second c₁).1 else c₁

module _ {Address W : Type 0} (x : External) (registry : ProviderRegistry Address W)
    (display : DomainError → Text) (updated_at : Time) where
  -- The body of the loop over the claimed jobs, after the dispatch.
  unfoldable pub finish_job : ScheduledJob → PublishState × Text → Connection Db → Connection Db
  finish_job job (state, detail) =
      or_recover (complete_job_with_history x job.id job.revision state updated_at (some detail))
        (requeue_claim x job.id job.revision updated_at)

  -- One round of the loop over the claimed jobs.
  unfoldable pub settle_job : ScheduledJob → Connection Db × W → Connection Db × W
  settle_job job (c, w) =
      let (result, w') =
        dispatch_all x.valid_schedule registry (record job.request { scheduled_at = none }) display
          w in
      (finish_job job (terminal_of result) c, w')

  unfoldable pub settle_jobs : List ScheduledJob → Connection Db × W → Connection Db × W
  settle_jobs [] s = s
  settle_jobs (job ∷ rest) s = settle_jobs rest (settle_job job s)

  unfoldable pub finish_article :
      ArticleScheduledJob → PublishState × Text → Connection Db → Connection Db
  finish_article job (state, detail) =
      or_recover
        (complete_article_with_history x job.id job.revision state updated_at (some detail))
        (requeue_article_claim x job.id job.revision updated_at)

  module _
      (article_runner : Option
        (PublishArticleRequest → W → Fallible ArticleDispatchOutcome × W)) where
    unfoldable pub dispatch_article : PublishArticleRequest → W → (PublishState × Text) × W
    dispatch_article request w = elim article_runner [
      | none ↦ ((unavailable, runner_unavailable), w)
      | some run ↦ let (result, w') = run request w in (article_terminal_of result, w')
    ]

    -- One round of the loop over the claimed articles.
    unfoldable pub settle_article : ArticleScheduledJob → Connection Db × W → Connection Db × W
    settle_article job (c, w) =
        let (terminal, w') = dispatch_article (record job.request { scheduled_at = none }) w in
        (finish_article job terminal c, w')

    unfoldable pub settle_articles :
        List ArticleScheduledJob → Connection Db × W → Connection Db × W
    settle_articles [] s = s
    settle_articles (job ∷ rest) s = settle_articles rest (settle_article job s)

    -- The second half of the tick: `remaining` is `batch_size.saturating_sub(claimed_count)`.
    unfoldable pub tick_articles :
        LocalSchedule → ℕ → Connection Db × W → Fallible Unit × (Connection Db × W)
    tick_articles due_through remaining (c, w) =
        let (result, c₁) = claim_due_articles x due_through updated_at remaining c in
        elim result [
          | err e ↦ (err e, (c₁, w))
          | ok claimed ↦ (ok tt, settle_articles claimed (c₁, w))
        ]

    -- `run_scheduler_tick_at`
    unfoldable pub run_scheduler_tick_at :
        LocalSchedule → ℕ → Connection Db × W → Fallible Unit × (Connection Db × W)
    run_scheduler_tick_at due_through batch_size (c, w) =
        let (result, c₁) = claim_due x due_through updated_at batch_size c in
        elim result [
          | err e ↦ (err e, (c₁, w))
          | ok claimed ↦
              tick_articles due_through (batch_size - length claimed) (settle_jobs claimed (c₁, w))
        ]
