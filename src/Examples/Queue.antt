-- ===== src/Examples/Queue.antt =====
-- Runs of the queue on a small database, and the theorems on them.
use matri_xpost.Prelude.{
  ℕ, ◌≡◌, refl, ◌≢◌, true, false, [], ◌∷◌, none, some, ok, err, inl, inr, All, find?, ◌++◌, ◌+◌,
  ◌≤◌, ap, Bool-cases, collect, arith,
}
use matri_xpost.Examples.{
  due, sample_request, sample_external, waiting, later, old_history, db_with, connect,
}
use matri_xpost.Text.{Text, codes, text_eq, is_blank, trim, is_whitespace}
use mathlib.Core.Path.{subst}
use matri_xpost.Text.Laws.{text_eq_iff}
use matri_xpost.Text.Order.{text_le, pair_le}
use matri_xpost.Text.Decimal.{numbered, decimal}
use matri_xpost.Error.{database}
use matri_xpost.Types.Enums.{
  PublishState, queued, dispatching, published, failed, index, platform_eq,
}
use matri_xpost.Types.State.{state_from_db, state_db, transition, can_transition_to}
use matri_xpost.Types.Request.{
  parse_schedule, validate, validate_schedule, as_naive, validate_source, platform_set,
  insert_platform, contains_platform, runner_safe, clear_account,
}
use matri_xpost.Types.Article.{Time}
use matri_xpost.Lifecycle.Records.{ScheduledJob, HistoryRecord}
use matri_xpost.Storage.Schema.{Db, HistoryRow}
use matri_xpost.Storage.Table.{count_where, update_where, sort_by, insert_by}
use matri_xpost.Storage.Table.Laws.{IsSorted}
use matri_xpost.Storage.Rows.{
  decode_found, row_to_job, job_to_row, request_from_text, request_to_text, parse_due, parse_time,
  sql_u64, history_to_row,
}
use matri_xpost.Storage.History.{
  insert_terminal_history, insert_terminal_loop, terminal_record, next_history_sequence,
  insert_history_or_ignore, has_history, return_if,
}
use matri_xpost.Storage.History.Fresh.{insert_terminal_history-fuel}
use matri_xpost.Storage.Sql.{Connection, statement, query, lift, locked, transaction, pure, ◌>>=◌}
use matri_xpost.Storage.Jobs.{
  has_id, at_revision, in_state_at, is_due, due_le, set_job, transition_job, move_job, update_jobs,
  require_job, load_job, claim_due, claim_rows, claim_each, claim_one, due_rows, complete_job,
  complete_job_with_history, enqueue, allocate_job_id, next_job_sequence, new_job, insert_job,
  insert_job_row,
}
use matri_xpost.Storage.Sql.Laws.{healthy}
use matri_xpost.Storage.Jobs.Moves.{RevisionFits}
use matri_xpost.Storage.Jobs.Due.{IsClaimed, job_le, claim_due-IsClaimed}
use matri_xpost.Storage.Jobs.Succeeds.{transition_job-ok}
use matri_xpost.Storage.Jobs.Exclusive.{UniqueIds, claim_due-exclusive}
use matri_xpost.Storage.Jobs.Transitions.{
  transition_job-effect, transition_job-once, complete_job-effect, queue_error-unchanged,
  transition_failed,
}
use matri_xpost.Storage.Jobs.Enqueued.{Enqueued, enqueue-Enqueued}

abbrev job_1 : Text
job_1 = codes "job-1"

abbrev start : Connection Db
start = connect (db_with (waiting ∷ later ∷ []))

abbrev job_at : Text → PublishState → ℕ → Time → ScheduledJob
job_at id state revision time = record {
  id = id;
  request = sample_request;
  state = state;
  due_at = some (record { text = due });
  revision = revision;
  updated_at = time;
}

abbrev dispatched : Connection Db
dispatched = connect (
    db_with (
      record waiting { state = codes "dispatching"; revision = 1; updated_at = 7 ∷ [] }
      ∷ later
      ∷ []))

transition_run :
    transition_job sample_external job_1 0 dispatching 7 start
    ≡ (ok (job_at job_1 dispatching 1 7), dispatched)
unfolding transition_job locked transaction move_job require_job load_job query decode_found has_id
    row_to_job request_from_text state_from_db parse_due parse_time transition update_jobs
    count_where at_revision set_job sql_u64 lift pure statement ◌>>=◌ update_where text_eq
    parse_schedule can_transition_to state_db
transition_run = refl

claim_run :
    claim_due sample_external (record { text = due }) 7 10 start
    ≡ (ok (job_at job_1 dispatching 1 7 ∷ []), dispatched)
unfolding claim_due collect locked transaction claim_rows due_rows is_due text_le sort_by insert_by
    due_le pair_le query claim_each claim_one row_to_job request_from_text state_from_db parse_due
    parse_time update_jobs count_where in_state_at has_id set_job sql_u64 lift pure statement ◌>>=◌
    update_where text_eq parse_schedule state_db
claim_run = refl

claim_again_run :
    claim_due sample_external (record { text = due }) 8 10 dispatched ≡ (ok [], dispatched)
unfolding claim_due collect locked transaction claim_rows due_rows is_due text_le sort_by insert_by
    due_le pair_le query claim_each claim_one row_to_job request_from_text state_from_db parse_due
    parse_time update_jobs count_where in_state_at has_id set_job sql_u64 lift pure statement ◌>>=◌
    update_where text_eq parse_schedule state_db
claim_again_run = refl

abbrev done_history : HistoryRecord
done_history = record {
  id = codes "scheduled-history-2";
  request = sample_request;
  state = published;
  recorded_at = 9;
  detail = none;
}

abbrev completed : Connection Db
completed =
    connect
      (record (db_with (
        record waiting { state = codes "published"; revision = 2; updated_at = 9 ∷ [] }
        ∷ later
        ∷ [])) {
          history_sequence = 2;
          history =
              old_history
              ∷ record {
                id = codes "scheduled-history-2";
                request_json = codes "request";
                state = codes "published";
                recorded_at = 9 ∷ [];
                detail = none;
              }
              ∷ [];
        })

complete_run :
    complete_job_with_history sample_external job_1 1 published 9 none dispatched
    ≡ (ok (job_at job_1 published 2 9, done_history), completed)
unfolding complete_job_with_history complete_job insert_terminal_history insert_terminal_loop
    next_history_sequence history_to_row request_to_text insert_history_or_ignore has_history
    return_if numbered decimal runner_safe clear_account locked transaction move_job require_job
    load_job query decode_found has_id row_to_job request_from_text state_from_db parse_due
    parse_time transition update_jobs count_where at_revision set_job sql_u64 lift pure statement
    ◌>>=◌ update_where text_eq parse_schedule can_transition_to state_db
complete_run = refl

abbrev enqueued : Connection Db
enqueued =
    connect
      (record (db_with
        (waiting ∷ later ∷ record waiting { id = codes "job-3"; updated_at = 6 ∷ [] } ∷ [])) {
          job_sequence = 3;
        })

enqueue_run :
    enqueue sample_external sample_request 6 start
    ≡ (ok (job_at (codes "job-3") queued 0 6), enqueued)
unfolding enqueue validate is_blank trim is_whitespace platform_set insert_platform
    contains_platform platform_eq index validate_schedule as_naive validate_source allocate_job_id
    next_job_sequence numbered decimal new_job runner_safe clear_account insert_job job_to_row
    request_to_text insert_job_row has_id locked sql_u64 lift pure statement ◌>>=◌ text_eq state_db
enqueue_run = refl

-- The second statement, which reads the job, fails.
abbrev broken : Connection Db
broken = record start { faults = none ∷ some (codes "disk I/O error") ∷ [] }

broken_run :
    transition_job sample_external job_1 0 dispatching 7 broken
    ≡ (err (database (codes "disk I/O error")), start)
unfolding transition_job locked transaction move_job require_job load_job query decode_found has_id
    row_to_job request_from_text state_from_db parse_due parse_time transition update_jobs
    count_where at_revision set_job sql_u64 lift pure statement ◌>>=◌ update_where text_eq
    parse_schedule can_transition_to state_db
broken_run = refl

fits : All RevisionFits start.db.jobs
fits = (ground arith, (ground arith, tt))

text_differs : false ≢ true
text_differs e = cc e

job_2-differs : codes "job-2" ≢ job_1
unfolding text_eq
job_2-differs e = text_differs (ap (λ (i : Text). text_eq i job_1) e)

unique : UniqueIds start.db.jobs
unfolding has_id count_where
unique id = elim (Bool-cases (text_eq job_1 id)) [
  | inl e ↦
      subst (λ i. count_where (has_id i) start.db.jobs ≤ 1) ((text_eq_iff job_1 id).0 e)
        (unfold text_eq in omega arith)
  | inr e ↦ rw e (ground arith)
]

transition_job-effect_example :
    ((before : ScheduledJob) × (decode_found sample_external (find? (has_id job_1) start.db.jobs)
        ≡ ok (some before))
      × (before.revision ≡ 0)
      × (can_transition_to before.state dispatching ≡ true))
    × (decode_found sample_external (find? (has_id job_1) dispatched.db.jobs)
        ≡ ok (some (job_at job_1 dispatching 1 7)))
    × (dispatching ≡ dispatching)
    × (1 ≡ 0 + 1)
    × (find? (has_id (codes "job-2")) dispatched.db.jobs
        ≡ find? (has_id (codes "job-2")) start.db.jobs)
    × (dispatched.db.history ≡ start.db.history)
transition_job-effect_example =
    transition_job-effect sample_external job_1 0 dispatching 7 start (job_at job_1 dispatching 1 7)
      dispatched (codes "job-2") refl fits job_2-differs transition_run

transition_job-once_example :
    transition_job sample_external job_1 0 dispatching 8 dispatched
    ≢ (ok (job_at job_1 dispatching 1 8), dispatched)
transition_job-once_example =
    transition_job-once sample_external job_1 0 dispatching dispatching 7 8 start dispatched
      dispatched dispatched (job_at job_1 dispatching 1 7) (job_at job_1 dispatching 1 8) fits
      transition_run refl

complete_job-effect_example :
    (decode_found sample_external (find? (has_id job_1) completed.db.jobs)
      ≡ ok (some (job_at job_1 published 2 9)))
    × (published ≡ published)
    × (find? (has_id (codes "job-2")) completed.db.jobs
        ≡ find? (has_id (codes "job-2")) dispatched.db.jobs)
    × ((row : HistoryRow) × (history_to_row sample_external done_history ≡ ok row)
        × (completed.db.history ≡ dispatched.db.history ++ row ∷ []))
    × (has_history (codes "scheduled-history-2") dispatched.db.history ≡ false)
    × (sample_request ≡ runner_safe sample_request)
    × (published ≡ published)
complete_job-effect_example =
    complete_job-effect sample_external job_1 1 published 9 none dispatched
      (job_at job_1 published 2 9) done_history completed (codes "job-2") refl job_2-differs
      complete_run

queue_error-unchanged_example : start.db ≡ start.db
queue_error-unchanged_example =
    queue_error-unchanged sample_external broken start
      (transition_failed (database (codes "disk I/O error")) job_1 0 dispatching 7 broken_run)

claim_due-IsClaimed_example :
    (1 ≤ 10)
    × (1 ≤ 64)
    × All (IsClaimed (record { text = due }) 7) (job_at job_1 dispatching 1 7 ∷ [])
    × IsSorted job_le (job_at job_1 dispatching 1 7 ∷ [])
claim_due-IsClaimed_example =
    claim_due-IsClaimed sample_external (record { text = due }) 7 10 start
      (job_at job_1 dispatching 1 7 ∷ []) dispatched claim_run

claim_due-exclusive_example :
    All
      (λ (job : ScheduledJob). All (λ (again : ScheduledJob). again.id ≢ job.id) [])
      (job_at job_1 dispatching 1 7 ∷ [])
claim_due-exclusive_example =
    claim_due-exclusive sample_external (record { text = due }) (record { text = due }) 7 8 10 10
      start dispatched dispatched dispatched (job_at job_1 dispatching 1 7 ∷ []) [] unique claim_run
      refl claim_again_run

enqueue-Enqueued_example :
    Enqueued sample_external sample_request 6 start.db enqueued.db
      (job_at (codes "job-3") queued 0 6)
unfolding runner_safe clear_account
enqueue-Enqueued_example =
    enqueue-Enqueued sample_external sample_request 6 start (job_at (codes "job-3") queued 0 6)
      enqueued (λ s e. refl) refl enqueue_run

insert_terminal_history-fuel_example :
    insert_terminal_loop sample_external 5
      (codes "scheduled-history")
      (terminal_record (codes "scheduled-history") sample_request failed 4 none)
      start
    ≡ insert_terminal_history sample_external
        (codes "scheduled-history")
        sample_request
        failed
        4
        none
        start
insert_terminal_history-fuel_example =
    insert_terminal_history-fuel sample_external (codes "scheduled-history") sample_request failed 4
      none 3 start

loaded_run :
    decode_found sample_external (find? (has_id job_1) start.db.jobs)
    ≡ ok (some (job_at job_1 queued 0 5))
unfolding decode_found has_id row_to_job request_from_text state_from_db parse_due parse_time
    text_eq parse_schedule
loaded_run = refl

legal_run : can_transition_to queued dispatching ≡ true
unfolding can_transition_to
legal_run = refl

transition_job-ok_example : transition_job sample_external job_1 0 dispatching 7 start ≡ (
  ok (job_at job_1 dispatching 1 7),
  healthy (record start.db {
    jobs = update_where (at_revision job_1 0) (set_job dispatching 1 (7 ∷ [])) start.db.jobs;
  }),
)
transition_job-ok_example =
    transition_job-ok sample_external job_1 dispatching 7 start.db (job_at job_1 queued 0 5) unique
      loaded_run legal_run (omega arith)
