-- ===== src/Scheduler/Settled.antt =====
-- What becomes of a job that the scheduler claimed.
use matri_xpost.Prelude.{
  ◌≡◌, refl, ◌∙◌, inl, inr, all, none, some, ok, err, is_err, if◌then◌else◌, Bool-cases,
}
use matri_xpost.Text.{Text}
use matri_xpost.Error.{DomainError, Fallible}
use matri_xpost.Types.Enums.{PublishState}
use matri_xpost.Types.State.Laws.{IsTerminal}
use matri_xpost.Types.Article.{Time}
use matri_xpost.Lifecycle.Records.{ScheduledJob, HistoryRecord}
use matri_xpost.Storage.Schema.{External, Db}
use matri_xpost.Storage.Sql.{Connection}
use matri_xpost.Storage.Jobs.{complete_job_with_history, requeue_claim}
use matri_xpost.Storage.Jobs.Transitions.{queue_error-unchanged, complete_failed, requeue_failed}
use matri_xpost.Runner.Outcomes.{is_queued, is_unavailable, values}
use matri_xpost.Runner.Registry.{ProviderRegistry, ProviderDispatchReport, dispatch_all}
use matri_xpost.Scheduler.{or_recover, finish_job, settle_job, terminal_of}

module _ (x : External) (updated_at : Time) (job : ScheduledJob) where
  -- A claimed job is finished, in a terminal state and with a history record; or it is put back at
  -- the claimed revision, from the database as it was; or the database stays as it was.
  pub data Settled (c c' : Connection Db) : Type 0 where
    finished :
        (state : PublishState) (detail : Text) (done : ScheduledJob) (history : HistoryRecord)
        → IsTerminal state
        → complete_job_with_history x job.id job.revision state updated_at (some detail) c
          ≡ (ok (done, history), c')
        → Settled c c'
    put_back :
        (between : Connection Db) (again : ScheduledJob)
        → between.db ≡ c.db
        → requeue_claim x job.id job.revision updated_at between ≡ (ok again, c')
        → Settled c c'
    left : c'.db ≡ c.db → Settled c c'

  recovered :
      (c c₁ : Connection Db)
      → c₁.db ≡ c.db
      → (result : Fallible ScheduledJob × Connection Db)
      → requeue_claim x job.id job.revision updated_at c₁ ≡ result
      → Settled c result.1
  recovered c c₁ same (ok again, c₂) h = put_back c₁ again same h
  recovered c c₁ same (err e, c₂) h =
      left
        (queue_error-unchanged x c₁ c₂ (requeue_failed e job.id job.revision updated_at h) ∙ same)

  finish_job-Settled :
      (state : PublishState) (detail : Text) (c : Connection Db)
      → IsTerminal state
      → Settled c (
          or_recover
            (complete_job_with_history x job.id job.revision state updated_at (some detail))
            (requeue_claim x job.id job.revision updated_at)
            c)
  unfolding or_recover
  finish_job-Settled state detail c terminal =
      by_result (complete_job_with_history x job.id job.revision state updated_at (some detail) c)
        refl
    where
      by_result :
          (result : Fallible (ScheduledJob × HistoryRecord) × Connection Db)
          → complete_job_with_history x job.id job.revision state updated_at (some detail) c
            ≡ result
          → Settled c (
              if is_err result.0
              then (requeue_claim x job.id job.revision updated_at result.1).1
              else result.1)
      by_result (ok (done, history), c₁) h = finished state detail done history terminal h
      by_result (err e, c₁) h =
          recovered c c₁
            (queue_error-unchanged x c c₁
              (complete_failed e job.id job.revision state updated_at (some detail) h))
            (requeue_claim x job.id job.revision updated_at c₁) refl

terminal_of-IsTerminal :
    (result : Fallible ProviderDispatchReport) → IsTerminal (terminal_of result).0
unfolding terminal_of
terminal_of-IsTerminal (err e) = inr (inl refl)
terminal_of-IsTerminal (ok report) = elim (Bool-cases (all is_queued (values report))) [
  | inl queued ↦ rw queued (inl refl)
  | inr other ↦ rw other (elim (Bool-cases (all is_unavailable (values report))) [
    | inl idle ↦ rw idle (inr (inr refl))
    | inr mixed ↦ rw mixed (inr (inl refl))
  ])
]

-- Whatever the providers answer and whatever SQLite reports, the round of a claimed job finishes it
-- in a terminal state together with its history, or puts it back at the claimed revision, or leaves
-- the database unchanged.
pub settle_job-Settled :
    {Address W : Type 0} (x : External) (registry : ProviderRegistry Address W)
    (display : DomainError → Text) (updated_at : Time) (job : ScheduledJob) (c : Connection Db)
    (w : W)
    → Settled x updated_at job c (settle_job x registry display updated_at job (c, w)).0
unfolding settle_job finish_job
settle_job-Settled x registry display updated_at job c w =
    let result =
      (dispatch_all x.valid_schedule registry (record job.request { scheduled_at = none }) display
        w).0 in
    finish_job-Settled x updated_at job (terminal_of result).0 (terminal_of result).1 c
      (terminal_of-IsTerminal result)
