-- ===== src/Storage/Jobs/Transitions.antt =====
-- The guarantees of `transition_job`, `complete_job_with_history` and `requeue_claim` to a caller.
use matri_xpost.Prelude.{
  ℕ, ◌+◌, ◌≡◌, ap, sym, ◌∙◌, ◌≢◌, ◌++◌, true, false, [], ◌∷◌, Option, some, ok, err, arith, ◌==◌,
  find?, All, Bool-cases, inl, inr, min,
}
use mathlib.Core.Path.{subst}
use matri_xpost.Text.{Text, codes}
use matri_xpost.Error.{DomainError}
use matri_xpost.Types.Enums.{PublishState}
use matri_xpost.Types.Request.{LocalSchedule, runner_safe}
use matri_xpost.Types.State.{can_transition_to}
use matri_xpost.Types.Article.{Time}
use matri_xpost.Lifecycle.Records.{ScheduledJob, HistoryRecord}
use matri_xpost.Storage.Schema.{External, Db, HistoryRow, TimeReturns}
use matri_xpost.Storage.Rows.{decode_found, history_to_row}
use matri_xpost.Storage.Sql.{Connection, pure, transaction}
use matri_xpost.Storage.Sql.Laws.{
  >>=-ok, pure-ok, locked-ok, transaction-ok, locked-transaction-err,
}
use matri_xpost.Storage.History.{has_history, insert_terminal_history, terminal_record}
use matri_xpost.Storage.History.Inserted.{Inserted, insert_terminal_history-Inserted}
use matri_xpost.Storage.Jobs.{
  has_id, move_job, transition_job, complete_job, complete_job_with_history, requeue_job,
  requeue_claim, claim_rows, claim_due, max_claim_batch,
}
use matri_xpost.Storage.Jobs.Moves.{
  Moved, move_job-Moved, transition_job-Moved, Moved-load, Moved-other, Moved-fits, Moved-once,
  RevisionFits,
}

-- A transition that succeeds was allowed from the state that was stored, at the revision that was
-- stored. Afterwards the table gives for the id the job that was returned, in the new state and at
-- the next revision, every other job as before, and the history is untouched.
pub transition_job-effect :
    (x : External) (id : Text) (revision : ℕ) (next : PublishState) (time : Time)
    (c : Connection Db) (job : ScheduledJob) (c' : Connection Db) (other : Text)
    → TimeReturns x time
    → All RevisionFits c.db.jobs
    → other ≢ id
    → transition_job x id revision next time c ≡ (ok job, c')
    → ((before : ScheduledJob) × (decode_found x (find? (has_id id) c.db.jobs) ≡ ok (some before))
        × (before.revision ≡ revision)
        × (can_transition_to before.state next ≡ true))
      × (decode_found x (find? (has_id id) c'.db.jobs) ≡ ok (some job))
      × (job.state ≡ next)
      × (job.revision ≡ revision + 1)
      × (find? (has_id other) c'.db.jobs ≡ find? (has_id other) c.db.jobs)
      × (c'.db.history ≡ c.db.history)
transition_job-effect x id revision next time c job c' other returns fits differ h =
    let m = transition_job-Moved x id revision next time c job c' h in
    (
      (m.before, m.found, m.expected, m.allowed),
      Moved-load x m returns,
      ap (λ (j : ScheduledJob). j.state) m.result,
      omega (arith, ap (λ (j : ScheduledJob). j.revision) m.result, Moved-fits x m fits),
      Moved-other x m other differ,
      ap (λ (d : Db). d.history) m.written,
    )

-- After a transition of a job has succeeded, a transition of that job that expects the same revision and
-- is run on the database that the first left does not succeed, whatever state it asks for and whatever
-- statements of it fail, provided that the revisions stored before fit.
pub transition_job-once :
    (x : External) (id : Text) (revision : ℕ) (next next' : PublishState) (time time' : Time)
    (c c' d d' : Connection Db) (job job' : ScheduledJob)
    → All RevisionFits c.db.jobs
    → transition_job x id revision next time c ≡ (ok job, c')
    → d.db ≡ c'.db
    → transition_job x id revision next' time' d ≢ (ok job', d')
transition_job-once x id revision next next' time time' c c' d d' job job' fits h same h' =
    Moved-once x fits (transition_job-Moved x id revision next time c job c' h) (
      subst (λ e. Moved x id revision next' time' job' e d'.db) same
        (transition_job-Moved x id revision next' time' d job' d' h'))

abbrev pub prefix : Text
prefix = codes "scheduled-history"

-- The terminal record of a job, without its number. Account routing is stripped.
abbrev pub terminal_of : PublishState → Time → Option Text → ScheduledJob → HistoryRecord
terminal_of next time detail job = terminal_record prefix (runner_safe job.request) next time detail

module _ (x : External) (id : Text) (revision : ℕ) (next : PublishState) (time : Time)
    (detail : Option Text) where
  -- What a completion that succeeded says of the database before and after it.
  pub record Completed (job : ScheduledJob) (history : HistoryRecord) (d d' : Db) : Type 0 where
    pub between : Db
    pub moved : Moved x id revision next time job d between
    pub inserted : Inserted x prefix (terminal_of next time detail job) history between d'

  pub complete_job-Completed :
      (c : Connection Db) (job : ScheduledJob) (history : HistoryRecord) (c' : Connection Db)
      → complete_job_with_history x id revision next time detail c ≡ (ok (job, history), c')
      → Completed job history c.db c'.db
  unfolding complete_job_with_history complete_job
  complete_job-Completed c job history c' h =
      let body = complete_job x id revision next time detail in
      let (c₁, c₂, begun, ran, kept) =
        transaction-ok body c (job, history) c'
          (locked-ok (transaction body) c (job, history) c' h) in
      let (j, c₃, h₃, k₃) = >>=-ok (move_job x id revision next time) _ c₁ (job, history) c₂ ran in
      let (r, c₄, h₄, k₄) =
        >>=-ok
          (insert_terminal_history x (codes "scheduled-history") (runner_safe j.request) next time
            detail)
          _ c₃ (job, history) c₂ k₃ in
      let (result, same) = pure-ok (j, r) c₄ (job, history) c₂ k₄ in
      let same_job : job ≡ j = ap (λ p. p.0) result in
      let same_record : history ≡ r = ap (λ p. p.1) result in
      record {
        between = c₃.db;
        moved =
            subst (λ (b : Db). Moved x id revision next time job b c₃.db) begun
              (subst (λ (k : ScheduledJob). Moved x id revision next time k c₁.db c₃.db)
                (sym same_job) (move_job-Moved x id revision next time c₁ j c₃ h₃));
        inserted =
            subst (λ (b : Db). Inserted x prefix (terminal_of next time detail job) history c₃.db b)
              (sym (kept ∙ ap (λ (k : Connection Db). k.db) same))
              (subst
                (λ (k : ScheduledJob).
                  Inserted x prefix (terminal_of next time detail k) history c₃.db c₄.db)
                (sym same_job)
                (subst
                  (λ (i : HistoryRecord).
                    Inserted x prefix (terminal_of next time detail j) i c₃.db c₄.db)
                  (sym same_record)
                  (insert_terminal_history-Inserted x prefix (runner_safe j.request) next time
                    detail c₃ r c₄ h₄)));
      }

-- After a completion that succeeds the table gives for the id the job that was returned, in the new
-- state, and every other job as before; the history has one record more, of the job's request without
-- account routing, in the new state, and under an id that no record had. The time is one that is read
-- back as it was written.
pub complete_job-effect :
    (x : External) (id : Text) (revision : ℕ) (next : PublishState) (time : Time)
    (detail : Option Text) (c : Connection Db) (job : ScheduledJob) (history : HistoryRecord)
    (c' : Connection Db) (other : Text)
    → TimeReturns x time
    → other ≢ id
    → complete_job_with_history x id revision next time detail c ≡ (ok (job, history), c')
    → (decode_found x (find? (has_id id) c'.db.jobs) ≡ ok (some job))
      × (job.state ≡ next)
      × (find? (has_id other) c'.db.jobs ≡ find? (has_id other) c.db.jobs)
      × ((row : HistoryRow) × (history_to_row x history ≡ ok row)
          × (c'.db.history ≡ c.db.history ++ row ∷ []))
      × (has_history history.id c.db.history ≡ false)
      × (history.request ≡ runner_safe job.request)
      × (history.state ≡ next)
complete_job-effect x id revision next time detail c job history c' other returns differ h =
    let done = complete_job-Completed x id revision next time detail c job history c' h in
    let jobs : c'.db.jobs ≡ done.between.jobs = ap (λ (d : Db). d.jobs) done.inserted.written in
    let before : done.between.history ≡ c.db.history =
      ap (λ (d : Db). d.history) done.moved.written in
    (
      ap (λ rows. decode_found x (find? (has_id id) rows)) jobs ∙ Moved-load x done.moved returns,
      ap (λ (j : ScheduledJob). j.state) done.moved.result,
      ap (find? (has_id other)) jobs ∙ Moved-other x done.moved other differ,
      (
        done.inserted.row,
        done.inserted.encodes,
        ap (λ (d : Db). d.history) done.inserted.written
            ∙ ap (λ rows. rows ++ done.inserted.row ∷ []) before,
      ),
      ap (has_history history.id) (sym before) ∙ done.inserted.unused,
      ap (λ (r : HistoryRecord). r.request) done.inserted.fields,
      ap (λ (r : HistoryRecord). r.state) done.inserted.fields,
    )

claim_due-err :
    (x : External) (due_through : LocalSchedule) (now : Time) (limit : ℕ) (c : Connection Db)
    (e : DomainError) (c' : Connection Db)
    → claim_due x due_through now limit c ≡ (err e, c')
    → c'.db ≡ c.db
unfolding claim_due pure
claim_due-err x due_through now limit c e c' h =
    elim (Bool-cases (min limit max_claim_batch == 0)) [
      | inl none_wanted ↦ cc (ap (λ r. r.0) (rw (none_wanted, claim_due) at h))
      | inr wanted ↦
          locked-transaction-err (claim_rows x due_through now (min limit max_claim_batch)) c e c'
            (rw (wanted, claim_due) at h)
    ]

-- A call of a method of the queue that failed on the connection `c` and left `c'`.
pub data Failed (x : External) (c c' : Connection Db) : Type 0 where
  transition_failed :
      (e : DomainError) (id : Text) (revision : ℕ) (next : PublishState) (time : Time)
      → transition_job x id revision next time c ≡ (err e, c')
      → Failed x c c'
  complete_failed :
      (e : DomainError) (id : Text) (revision : ℕ) (next : PublishState) (time : Time)
      (detail : Option Text)
      → complete_job_with_history x id revision next time detail c ≡ (err e, c')
      → Failed x c c'
  requeue_failed :
      (e : DomainError) (id : Text) (revision : ℕ) (time : Time)
      → requeue_claim x id revision time c ≡ (err e, c')
      → Failed x c c'
  claim_failed :
      (e : DomainError) (due_through : LocalSchedule) (time : Time) (limit : ℕ)
      → claim_due x due_through time limit c ≡ (err e, c')
      → Failed x c c'

-- A transition, a completion, a requeue or a claim that fails, at whatever check or statement,
-- leaves the database as it was: no job is terminal without its history record, and no claim is
-- half made.
pub queue_error-unchanged : (x : External) (c c' : Connection Db) → Failed x c c' → c'.db ≡ c.db
unfolding transition_job complete_job_with_history requeue_claim
queue_error-unchanged x c c' (transition_failed e id revision next time h) =
    locked-transaction-err (move_job x id revision next time) c e c' h
queue_error-unchanged x c c' (complete_failed e id revision next time detail h) =
    locked-transaction-err (complete_job x id revision next time detail) c e c' h
queue_error-unchanged x c c' (requeue_failed e id revision time h) =
    locked-transaction-err (requeue_job x id revision time) c e c' h
queue_error-unchanged x c c' (claim_failed e due_through time limit h) =
    claim_due-err x due_through time limit c e c' h
