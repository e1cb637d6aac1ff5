-- ===== src/Storage/Consistent/Queue.antt =====
-- The methods of the video queue and of the history keep the tables consistent.
use matri_xpost.Prelude.{
  any, Bool-cases, inl, inr, ◌≡◌, refl, Bool, true, false, List, [], ◌∷◌, Option, ok, err, ◌==◌, ℕ,
  zero, suc, min, length,
}
use matri_xpost.Text.{Text}
use matri_xpost.Error.{Fallible}
use matri_xpost.Types.Enums.{PublishState}
use matri_xpost.Types.Request.{PublishRequest, LocalSchedule}
use matri_xpost.Types.Article.{Time}
use matri_xpost.Lifecycle.Records.{ScheduledJob, HistoryRecord}
use matri_xpost.Storage.Schema.{External, Db, JobRow}
use matri_xpost.Storage.Rows.{sql_u64}
use matri_xpost.Storage.Sql.{Sql, pure}
use matri_xpost.Storage.Sql.Keeps.{
  Keeps, pure-Keeps, lift-Keeps, statement-Keeps, query-Keeps, >>=-Keeps, locked-Keeps,
  transaction-Keeps, if-Keeps,
}
use matri_xpost.Runner.Registry.{ProviderDispatchReport}
use matri_xpost.Storage.History.{
  next_history_sequence, return_if, append_history, insert_terminal_loop, insert_terminal_history,
}
use matri_xpost.Storage.Dispatch.{record_provider_dispatch_history}
use matri_xpost.Storage.Jobs.{
  has_id, insert_job_row, update_jobs, next_job_sequence, load_job, require_job, allocate_job_id,
  insert_job, move_job, transition_job, complete_job, complete_job_with_history, enqueue, claim_one,
  claim_each, claim_rows, claim_due, requeue_job, requeue_claim, max_claim_batch,
}
use matri_xpost.Storage.Consistent.{IsConsistent, job_id}
use matri_xpost.Storage.Consistent.Keys.{IsKeyed-append, IsKeyed-update, with_jobs}
use matri_xpost.Storage.Consistent.Objects.{
  insert_history-IsConsistent, insert_history_or_ignore-IsConsistent,
}

-- A method keeps the tables consistent.
abbrev pub Safe : {A : Type 0} → Sql Db A → Type 0
Safe m = Keeps IsConsistent m

next_history_sequence-IsConsistent :
    (d : Db) → IsConsistent d → IsConsistent (next_history_sequence d).1
unfolding next_history_sequence
next_history_sequence-IsConsistent d h = h

next_job_sequence-IsConsistent : (d : Db) → IsConsistent d → IsConsistent (next_job_sequence d).1
unfolding next_job_sequence
next_job_sequence-IsConsistent d h = h

module _ (x : External) where
  update_jobs-IsConsistent :
      (matches : JobRow → Bool) (s : PublishState) (revision : ℕ) (time : Time) (d : Db)
      → IsConsistent d
      → IsConsistent (update_jobs x matches s revision time d).1
  unfolding update_jobs
  update_jobs-IsConsistent matches s revision time d h = stored_or_not (sql_u64 x revision) refl
    where
      stored_or_not :
          (o : Fallible ℕ)
          → sql_u64 x revision ≡ o
          → IsConsistent (update_jobs x matches s revision time d).1
      stored_or_not (err e) at = rw (update_jobs, at) h
      stored_or_not (ok stored) at =
          rw (update_jobs, at)
            (with_jobs d _ (IsKeyed-update job_id matches _ d.jobs (λ r. refl) h.1.job_ids) h)

  insert_job_row-IsConsistent :
      (row : JobRow) (d : Db) → IsConsistent d → IsConsistent (insert_job_row x row d).1
  unfolding insert_job_row has_id
  insert_job_row-IsConsistent row d h = elim (Bool-cases (any (has_id row.id) d.jobs)) [
    | inl taken ↦ rw taken h
    | inr free ↦ rw free (with_jobs d _ (IsKeyed-append job_id d.jobs row free h.1.job_ids) h)
  ]

  pub append_history-Safe : (h : HistoryRecord) → Safe (append_history x h)
  unfolding append_history
  append_history-Safe h = locked-Keeps IsConsistent _ (
      >>=-Keeps IsConsistent _ _ (lift-Keeps IsConsistent _)
        (λ row. statement-Keeps IsConsistent _ (insert_history-IsConsistent x row)))

  return_if-Safe :
      (b : Bool) (h : HistoryRecord) (next : Sql Db HistoryRecord)
      → Safe next
      → Safe (return_if b h next)
  unfolding return_if
  return_if-Safe true h next k = pure-Keeps IsConsistent h
  return_if-Safe false h next k = k

  insert_terminal_loop-Safe :
      (fuel : ℕ) (prefix : Text) (h : HistoryRecord) → Safe (insert_terminal_loop x fuel prefix h)
  unfolding insert_terminal_loop
  insert_terminal_loop-Safe zero prefix h = lift-Keeps IsConsistent _
  insert_terminal_loop-Safe (suc fuel) prefix h =
      >>=-Keeps IsConsistent _ _ (statement-Keeps IsConsistent _ next_history_sequence-IsConsistent)
        (λ n. >>=-Keeps IsConsistent _ _ (lift-Keeps IsConsistent _) (λ row.
          >>=-Keeps IsConsistent _ _
            (statement-Keeps IsConsistent _ (insert_history_or_ignore-IsConsistent row))
            (λ inserted.
              return_if-Safe (inserted == 1) _ _ (insert_terminal_loop-Safe fuel prefix h))))

  insert_terminal_history-Safe :
      (prefix : Text) (request : PublishRequest) (s : PublishState) (time : Time)
      (detail : Option Text)
      → Safe (insert_terminal_history x prefix request s time detail)
  unfolding insert_terminal_history
  insert_terminal_history-Safe prefix request s time detail = record {
    keeps = λ c h. (insert_terminal_loop-Safe (suc (length c.db.history)) prefix _).keeps c h;
  }

  pub record_provider_dispatch_history-Safe :
      (request : PublishRequest) (report : ProviderDispatchReport) (time : Time)
      → Safe (record_provider_dispatch_history x request report time)
  unfolding record_provider_dispatch_history
  record_provider_dispatch_history-Safe request report time =
      locked-Keeps IsConsistent _
        (transaction-Keeps IsConsistent _ (insert_terminal_history-Safe _ _ _ time _))

  pub insert_job-Safe : (job : ScheduledJob) → Safe (insert_job x job)
  unfolding insert_job
  insert_job-Safe job = locked-Keeps IsConsistent _ (
      >>=-Keeps IsConsistent _ _ (lift-Keeps IsConsistent _)
        (λ row. statement-Keeps IsConsistent _ (insert_job_row-IsConsistent row)))

  pub enqueue-Safe : (request : PublishRequest) (now : Time) → Safe (enqueue x request now)
  unfolding enqueue allocate_job_id
  enqueue-Safe request now = >>=-Keeps IsConsistent _ _ (lift-Keeps IsConsistent _) (λ u.
      >>=-Keeps IsConsistent _ _
        (locked-Keeps IsConsistent _ (
          >>=-Keeps IsConsistent _ _ (statement-Keeps IsConsistent _ next_job_sequence-IsConsistent)
            (λ n. pure-Keeps IsConsistent _)))
        (λ id. >>=-Keeps IsConsistent _ _ (insert_job-Safe _) (λ u. pure-Keeps IsConsistent _)))

  require_job-Safe : (id : Text) → Safe (require_job x id)
  unfolding require_job load_job
  require_job-Safe id =
      >>=-Keeps IsConsistent _ _ (query-Keeps IsConsistent _) (λ found. lift-Keeps IsConsistent _)

  -- An update of jobs, the check of the number changed, and the result.
  move_job-Safe :
      (id : Text) (revision : ℕ) (next : PublishState) (time : Time)
      → Safe (move_job x id revision next time)
  unfolding move_job
  move_job-Safe id revision next time = >>=-Keeps IsConsistent _ _ (require_job-Safe id) (λ current.
      >>=-Keeps IsConsistent _ _ (lift-Keeps IsConsistent _) (λ state.
        >>=-Keeps IsConsistent _ _ (lift-Keeps IsConsistent _) (λ u.
          >>=-Keeps IsConsistent _ _
            (statement-Keeps IsConsistent _ (update_jobs-IsConsistent _ next _ time))
            (λ changed.
              >>=-Keeps IsConsistent _ _ (lift-Keeps IsConsistent _)
                (λ u. pure-Keeps IsConsistent _)))))

  pub transition_job-Safe :
      (id : Text) (revision : ℕ) (next : PublishState) (time : Time)
      → Safe (transition_job x id revision next time)
  unfolding transition_job
  transition_job-Safe id revision next time =
      locked-Keeps IsConsistent _
        (transaction-Keeps IsConsistent _ (move_job-Safe id revision next time))

  pub complete_job_with_history-Safe :
      (id : Text) (revision : ℕ) (next : PublishState) (time : Time) (detail : Option Text)
      → Safe (complete_job_with_history x id revision next time detail)
  unfolding complete_job_with_history complete_job
  complete_job_with_history-Safe id revision next time detail = locked-Keeps IsConsistent _ (
      transaction-Keeps IsConsistent _ (
        >>=-Keeps IsConsistent _ _ (move_job-Safe id revision next time) (λ job.
          >>=-Keeps IsConsistent _ _ (insert_terminal_history-Safe _ _ next time detail)
            (λ history. pure-Keeps IsConsistent _))))

  claim_each-Safe : (now : Time) (jobs : List ScheduledJob) → Safe (claim_each x now jobs)
  unfolding claim_each claim_one
  claim_each-Safe now [] = pure-Keeps IsConsistent _
  claim_each-Safe now (current ∷ rest) =
      >>=-Keeps IsConsistent _ _
        (>>=-Keeps IsConsistent _ _
          (statement-Keeps IsConsistent _ (update_jobs-IsConsistent _ _ _ now))
          (λ changed.
            >>=-Keeps IsConsistent _ _ (lift-Keeps IsConsistent _)
              (λ u. pure-Keeps IsConsistent _)))
        (λ job.
          >>=-Keeps IsConsistent _ _ (claim_each-Safe now rest)
            (λ claimed. pure-Keeps IsConsistent _))

  pub claim_due-Safe :
      (due_through : LocalSchedule) (now : Time) (limit : ℕ)
      → Safe (claim_due x due_through now limit)
  unfolding claim_due claim_rows
  claim_due-Safe due_through now limit =
      if-Keeps IsConsistent (min limit max_claim_batch == 0) (pure []) _
        (pure-Keeps IsConsistent [])
        (locked-Keeps IsConsistent _ (
          transaction-Keeps IsConsistent _ (
            >>=-Keeps IsConsistent _ _ (query-Keeps IsConsistent _)
              (λ candidates. claim_each-Safe now candidates))))

  pub requeue_claim-Safe :
      (id : Text) (revision : ℕ) (now : Time) → Safe (requeue_claim x id revision now)
  unfolding requeue_claim requeue_job
  requeue_claim-Safe id revision now = locked-Keeps IsConsistent _ (
      transaction-Keeps IsConsistent _ (
        >>=-Keeps IsConsistent _ _ (require_job-Safe id) (λ current.
          >>=-Keeps IsConsistent _ _ (lift-Keeps IsConsistent _) (λ state.
            >>=-Keeps IsConsistent _ _ (lift-Keeps IsConsistent _) (λ u.
              >>=-Keeps IsConsistent _ _
                (statement-Keeps IsConsistent _ (update_jobs-IsConsistent _ _ _ now))
                (λ changed.
                  >>=-Keeps IsConsistent _ _ (lift-Keeps IsConsistent _)
                    (λ u. pure-Keeps IsConsistent _)))))))
