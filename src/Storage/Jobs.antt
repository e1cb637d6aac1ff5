-- ===== src/Storage/Jobs.antt =====
-- The video queue of crates/matrixpost-core/src/storage.rs: the methods of `Repository` and
-- `PublicationQueue` that read and change jobs.
pub mod Moves
pub mod Claims
pub mod Due
pub mod Exclusive
pub mod Transitions
pub mod Enqueued
pub mod Succeeds
pub mod Refines
use matri_xpost.Prelude.{
  ℕ, suc, ◌+◌, Bool, true, false, ◌&&◌, not, List, [], ◌∷◌, ◌++◌, any, filter, find?, take, min,
  Option, none, some, ok, err, if◌then◌else◌, ◌==◌, reject_if, collect, is_some_and, ok_or,
}
use matri_xpost.Text.{Text, codes, text_eq}
use matri_xpost.Text.Decimal.{numbered}
use matri_xpost.Text.Order.{text_le, pair_le}
use matri_xpost.Error.{
  DomainError, Fallible, database, unknown_job, stale_job_revision, concurrent_job_update,
  invalid_state_transition,
}
use matri_xpost.Types.Enums.{PublishState, draft, queued, dispatching, state_eq}
use matri_xpost.Types.State.{transition, state_db}
use matri_xpost.Types.Request.{PublishRequest, LocalSchedule, runner_safe, validate}
use matri_xpost.Types.Article.{Time}
use matri_xpost.Lifecycle.Records.{ScheduledJob, HistoryRecord}
use matri_xpost.Storage.Schema.{External, Db, JobRow}
use matri_xpost.Storage.Table.{update_where, count_where, sort_by}
use matri_xpost.Storage.Rows.{add_u64, sql_u64, decode_found, row_to_job, job_to_row}
use matri_xpost.Storage.History.{insert_terminal_history}
use matri_xpost.Storage.Sql.{Sql, pure, lift, statement, query, locked, transaction, ◌>>=◌, ◌>>◌}

abbrev pub max_claim_batch : ℕ
max_claim_batch = 64

-- `WHERE id=?`
unfoldable pub has_id : Text → JobRow → Bool
unfolding text_eq
has_id id row = text_eq row.id id

-- `INSERT INTO jobs`, which the primary key may refuse.
unfoldable pub insert_job_row : External → JobRow → Db → Fallible Unit × Db
unfolding has_id
insert_job_row x row d =
    if any (has_id row.id) d.jobs
    then (err (database x.constraint_failed), d)
    else (ok tt, record d { jobs = d.jobs ++ row ∷ [] })

-- `SET state=?, revision=?, updated_at=?`
unfoldable pub set_job : PublishState → ℕ → Text → JobRow → JobRow
set_job next revision updated_at row = record row {
  state = state_db next;
  revision = revision;
  updated_at = updated_at;
}

-- `UPDATE jobs SET state=?, revision=?, updated_at=? WHERE …`: the number of rows changed. A
-- revision that SQLite cannot hold is refused.
unfoldable pub update_jobs :
    External → (JobRow → Bool) → PublishState → ℕ → Time → Db → Fallible ℕ × Db
unfolding set_job sql_u64
update_jobs x matches next revision updated_at d = elim (sql_u64 x revision) [
  | err e ↦ (err e, d)
  | ok stored ↦ (
    ok (count_where matches d.jobs),
    record d { jobs = update_where matches (set_job next stored (x.to_rfc3339 updated_at)) d.jobs },
  )
]

-- `INSERT INTO job_sequence DEFAULT VALUES` and `last_insert_rowid()`
unfoldable pub next_job_sequence : Db → Fallible ℕ × Db
next_job_sequence d = (ok (suc d.job_sequence), record d { job_sequence = suc d.job_sequence })

-- `WHERE id=? AND revision=?`
unfoldable pub at_revision : Text → ℕ → JobRow → Bool
unfolding has_id
at_revision id revision row = has_id id row && row.revision == revision

-- `WHERE id=? AND state=? AND revision=?`
unfoldable pub in_state_at : PublishState → Text → ℕ → JobRow → Bool
unfolding at_revision
in_state_at state id revision row =
    has_id id row && (text_eq row.state (state_db state) && row.revision == revision)

-- `WHERE state='queued' AND due_at IS NOT NULL AND due_at <= ?1`
unfoldable pub is_due : LocalSchedule → JobRow → Bool
unfolding text_eq text_le
is_due due_through row =
    text_eq row.state (state_db queued)
    && is_some_and row.due_at (λ due. text_le due due_through.text)

-- `ORDER BY due_at, id`; the rows sorted have a due time.
abbrev pub due_of : JobRow → Text
due_of row = elim row.due_at [ none ↦ [] | some due ↦ due ]

unfoldable pub due_le : JobRow → JobRow → Bool
unfolding pair_le
due_le a b = pair_le (due_of a, a.id) (due_of b, b.id)

-- The job that `enqueue` stores under the id that it allocated.
unfoldable pub new_job : PublishRequest → Time → Text → ScheduledJob
new_job request now id = record {
  id = id;
  request = runner_safe request;
  state = if request.draft then draft else queued;
  due_at = request.scheduled_at;
  revision = 0;
  updated_at = now;
}

-- The rows of `SELECT … ORDER BY due_at, id LIMIT ?2`.
unfoldable pub due_rows : LocalSchedule → ℕ → Db → List JobRow
due_rows due_through limit d = take limit (sort_by due_le (filter (is_due due_through) d.jobs))

module _ (x : External) where
  -- `load_job` and `load_job_tx`
  unfoldable pub load_job : Text → Sql Db (Option ScheduledJob)
  load_job id = query (λ d. decode_found x (find? (has_id id) d.jobs))

  -- `allocate_job_id`
  unfoldable pub allocate_job_id : Sql Db Text
  allocate_job_id = locked (do n ← statement next_job_sequence; pure (numbered (codes "job") n))

  -- `Repository::insert_job`
  unfoldable pub insert_job : ScheduledJob → Sql Db Unit
  insert_job job = locked (do row ← lift (job_to_row x job); statement (insert_job_row x row))

  -- `Repository::job`
  unfoldable pub find_job : Text → Sql Db (Option ScheduledJob)
  find_job id = locked (load_job id)

  -- `load_job_tx(…)?.ok_or_else(|| UnknownJob)?`
  unfoldable pub require_job : Text → Sql Db ScheduledJob
  require_job id = do found ← load_job id; lift (ok_or found (unknown_job id))

  -- The part that `transition_job` and `complete_job_with_history` share: the checks, and the
  -- update at the expected revision.
  unfoldable pub move_job : Text → ℕ → PublishState → Time → Sql Db ScheduledJob
  move_job id expected_revision next updated_at = do
    current ← require_job id
    lift (transition current.state next)
    lift (
        reject_if (not (current.revision == expected_revision))
          (stale_job_revision id expected_revision current.revision))
    changed ← statement (
        update_jobs x (at_revision id expected_revision) next (add_u64 expected_revision 1)
          updated_at)
    lift (reject_if (not (changed == 1)) (concurrent_job_update id))
    pure (record current {
      state = next;
      revision = add_u64 expected_revision 1;
      updated_at = updated_at;
    })

  -- `Repository::transition_job`, which is `PublicationQueue::advance`
  unfoldable pub transition_job : Text → ℕ → PublishState → Time → Sql Db ScheduledJob
  transition_job id expected_revision next updated_at =
      locked (transaction (move_job id expected_revision next updated_at))

  -- The body of the transaction of `complete_job_with_history`.
  unfoldable pub complete_job :
      Text → ℕ → PublishState → Time → Option Text → Sql Db (ScheduledJob × HistoryRecord)
  complete_job id expected_revision next updated_at detail = do
    job ← move_job id expected_revision next updated_at
    history ←
        insert_terminal_history x (codes "scheduled-history") (runner_safe job.request) next
          updated_at detail
    pure (job, history)

  -- `Repository::complete_job_with_history`
  unfoldable pub complete_job_with_history :
      Text → ℕ → PublishState → Time → Option Text → Sql Db (ScheduledJob × HistoryRecord)
  complete_job_with_history id expected_revision next updated_at detail =
      locked (transaction (complete_job id expected_revision next updated_at detail))

  -- `PublicationQueue::enqueue`
  unfoldable pub enqueue : PublishRequest → Time → Sql Db ScheduledJob
  enqueue request now = do
    lift (validate x.valid_schedule request)
    id ← allocate_job_id
    let job = new_job request now id
    insert_job job
    pure job

  -- One round of the loop of `claim_due`.
  unfoldable pub claim_one : Time → ScheduledJob → Sql Db ScheduledJob
  claim_one now current = do
    changed ← statement (
        update_jobs x (in_state_at queued current.id current.revision) dispatching
          (add_u64 current.revision 1) now)
    lift (reject_if (not (changed == 1)) (concurrent_job_update current.id))
    pure (record current {
      state = dispatching;
      revision = add_u64 current.revision 1;
      updated_at = now;
    })

  -- The loop of `claim_due`, over the candidates in order.
  unfoldable pub claim_each : Time → List ScheduledJob → Sql Db (List ScheduledJob)
  claim_each now [] = pure []
  claim_each now (current ∷ rest) = do
    job ← claim_one now current
    claimed ← claim_each now rest
    pure (job ∷ claimed)

  -- The body of the transaction of `claim_due`.
  unfoldable pub claim_rows : LocalSchedule → Time → ℕ → Sql Db (List ScheduledJob)
  claim_rows due_through now limit = do
    candidates ← query (λ d. collect (row_to_job x) (due_rows due_through limit d))
    claim_each now candidates

  -- `PublicationQueue::claim_due`
  unfoldable pub claim_due : LocalSchedule → Time → ℕ → Sql Db (List ScheduledJob)
  claim_due due_through now limit =
      let capped = min limit max_claim_batch in
      if capped == 0 then pure [] else locked (transaction (claim_rows due_through now capped))

  -- The body of the transaction of `requeue_claim`.
  unfoldable pub requeue_job : Text → ℕ → Time → Sql Db ScheduledJob
  requeue_job id expected_revision now = do
    current ← require_job id
    lift (
        reject_if (not (state_eq current.state dispatching))
          (invalid_state_transition current.state queued))
    lift (
        reject_if (not (current.revision == expected_revision))
          (stale_job_revision id expected_revision current.revision))
    changed ← statement (
        update_jobs x (in_state_at dispatching id expected_revision) queued
          (add_u64 expected_revision 1) now)
    lift (reject_if (not (changed == 1)) (concurrent_job_update id))
    pure (record current {
      state = queued;
      revision = add_u64 expected_revision 1;
      updated_at = now;
    })

  -- `PublicationQueue::requeue_claim`
  unfoldable pub requeue_claim : Text → ℕ → Time → Sql Db ScheduledJob
  requeue_claim id expected_revision now =
      locked (transaction (requeue_job id expected_revision now))
