-- ===== src/Storage/Jobs/Refines.antt =====
-- The queue as its callers see it, and the methods as steps of it.
use matri_xpost.Prelude.{
  ℕ, ◌+◌, ◌≡◌, refl, ap, sym, ◌∙◌, ◌≢◌, ◌++◌, Bool, true, false, List, [], ◌∷◌, Option, none, some,
  ok, err, arith, find?, All, Bool-cases, inl, inr, if◌then◌else◌,
}
use matri_xpost.Text.{Text, text_eq}
use matri_xpost.Text.Laws.{text_eq_iff}
use matri_xpost.Error.{Fallible}
use matri_xpost.Types.Enums.{PublishState}
use matri_xpost.Types.Request.{PublishRequest, runner_safe}
use matri_xpost.Types.State.{can_transition_to}
use matri_xpost.Types.Article.{Time}
use matri_xpost.Lifecycle.Records.{ScheduledJob, HistoryRecord}
use matri_xpost.Storage.Schema.{External, Db, HistoryRow, JobRow, TimeReturns}
use matri_xpost.Storage.Rows.{decode_found, history_to_row}
use matri_xpost.Storage.History.{has_history}
use matri_xpost.Storage.Sql.{Connection}
use matri_xpost.Storage.Jobs.{has_id, transition_job, complete_job_with_history}
use matri_xpost.Storage.Jobs.Moves.{
  Moved, transition_job-Moved, Moved-load, Moved-other, Moved-fits, RevisionFits,
}
use matri_xpost.Storage.Jobs.Transitions.{
  queue_error-unchanged, transition_failed, complete_failed, Completed, complete_job-Completed,
}

-- What the callers see: the job of each id, and the history.
pub record Queue : Type 0 where
  pub jobs : Text → Option ScheduledJob
  pub log : List HistoryRow

-- A row that cannot be read stands for no job.
abbrev pub readable : Fallible (Option ScheduledJob) → Option ScheduledJob
readable (ok job) = job
readable (err e) = none

abbrev pub view : External → Db → Queue
view x d = record {
  jobs = λ id. readable (decode_found x (find? (has_id id) d.jobs));
  log = d.history;
}

abbrev pub put : Text → ScheduledJob → (Text → Option ScheduledJob) → Text → Option ScheduledJob
put id job jobs other = if text_eq other id then some job else jobs other

-- The job after a move.
abbrev pub moved : PublishState → Time → ScheduledJob → ScheduledJob
moved next time job = record job { state = next; revision = job.revision + 1; updated_at = time }

pub data Call : Type 0 where
  advance : Text → ℕ → PublishState → Time → Call
  complete : Text → ℕ → PublishState → Time → Option Text → Call

-- The job `id`, stored at the revision, moves along the graph of the states to its next revision.
pub record JobStep (id : Text) (revision : ℕ) (next : PublishState) (time : Time) (q q' : Queue)
    : Type 0 where
  pub before : ScheduledJob
  pub was : q.jobs id ≡ some before
  pub expected : before.revision ≡ revision
  pub allowed : can_transition_to before.state next ≡ true
  pub becomes : (other : Text) → q'.jobs other ≡ put id (moved next time before) q.jobs other

-- The log gets one record: of the request without account routing, in the new state, at the time,
-- with the detail, and under an id that no record had.
pub record Logged (x : External) (request : PublishRequest) (next : PublishState) (time : Time)
    (detail : Option Text) (q q' : Queue) : Type 0 where
  pub history : HistoryRecord
  pub row : HistoryRow
  pub request_kept : history.request ≡ runner_safe request
  pub state_kept : history.state ≡ next
  pub time_kept : history.recorded_at ≡ time
  pub detail_kept : history.detail ≡ detail
  pub encodes : history_to_row x history ≡ ok row
  pub unused : has_history history.id q.log ≡ false
  pub appended : q'.log ≡ q.log ++ row ∷ []

-- Whether a result is a success.
abbrev pub is_success : {A : Type 0} → Fallible A → Bool
is_success (ok a) = true
is_success (err e) = false

abbrev pub succeeds : External → Call → Connection Db → Bool
succeeds x (advance id revision next time) c =
    is_success (transition_job x id revision next time c).0
succeeds x (complete id revision next time detail) c =
    is_success (complete_job_with_history x id revision next time detail c).0

-- A call that fails changes nothing. One that succeeds moves its job; a transition leaves the log, and a
-- completion appends the one record of the job that it moved.
pub data QueueStep (x : External) (q q' : Queue) : Bool → Call → Type 0 where
  stays :
      {call : Call}
      → ((id : Text) → q'.jobs id ≡ q.jobs id)
      → q'.log ≡ q.log
      → QueueStep x q q' false call
  advances :
      {id : Text} {revision : ℕ} {next : PublishState} {time : Time}
      → JobStep id revision next time q q'
      → q'.log ≡ q.log
      → QueueStep x q q' true (advance id revision next time)
  completes :
      {id : Text} {revision : ℕ} {next : PublishState} {time : Time} {detail : Option Text}
      → (step : JobStep id revision next time q q')
      → Logged x step.before.request next time detail q q'
      → QueueStep x q q' true (complete id revision next time detail)

abbrev pub time_of : Call → Time
time_of (advance id revision next time) = time
time_of (complete id revision next time detail) = time

-- The connection after a call, whatever the call returns.
abbrev pub after_call : External → Call → Connection Db → Connection Db
after_call x (advance id revision next time) c = (transition_job x id revision next time c).1
after_call x (complete id revision next time detail) c =
    (complete_job_with_history x id revision next time detail c).1

module _ (x : External) {id : Text} {revision : ℕ} {next : PublishState} {time : Time}
    {job : ScheduledJob} {d d' : Db} (m : Moved x id revision next time job d d')
    (returns : TimeReturns x time) (fits : All RevisionFits d.jobs) where
  Moved-job : job ≡ moved next time m.before
  Moved-job =
      let bound = Moved-fits x m fits in
      m.result
      ∙ ap (λ n. record m.before { state = next; revision = n; updated_at = time })
          (omega (arith, m.expected, bound))

  Moved-view :
      (other : Text)
      → (view x d').jobs other ≡ put id (moved next time m.before) (view x d).jobs other
  Moved-view other = elim (Bool-cases (text_eq other id)) [
    | inl same ↦ rw same (
        ap (λ o. readable (decode_found x (find? (has_id o) d'.jobs)))
          ((text_eq_iff other id).0 same)
        ∙ ap readable (Moved-load x m returns)
        ∙ ap some Moved-job)
    | inr distinct ↦
        rw distinct
          (ap (λ o. readable (decode_found x o)) (Moved-other x m other (not_equal distinct)))
  ]
    where
      not_equal : text_eq other id ≡ false → other ≢ id
      not_equal h e = cc (sym ((text_eq_iff other id).1 e) ∙ h)

  Moved-JobStep : JobStep id revision next time (view x d) (view x d')
  Moved-JobStep = record {
    before = m.before;
    was = ap readable m.found;
    expected = m.expected;
    allowed = m.allowed;
    becomes = Moved-view;
  }

module _ (x : External) (c : Connection Db) (fits : All RevisionFits c.db.jobs) where
  unchanged-QueueStep :
      (call : Call) (c' : Connection Db)
      → c'.db ≡ c.db
      → QueueStep x (view x c.db) (view x c'.db) false call
  unchanged-QueueStep call c' same =
      stays (λ id. ap (λ (d : Db). (view x d).jobs id) same) (ap (λ (d : Db). d.history) same)

  advance-QueueStep :
      (id : Text) (revision : ℕ) (next : PublishState) (time : Time)
      → TimeReturns x time
      → (r : Fallible ScheduledJob × Connection Db) → transition_job x id revision next time c ≡ r
      → QueueStep x (view x c.db) (view x r.1.db) (is_success r.0) (advance id revision next time)
  advance-QueueStep id revision next time returns (ok job, c') h =
      let m = transition_job-Moved x id revision next time c job c' h in
      advances (Moved-JobStep x m returns fits) (ap (λ (d : Db). d.history) m.written)
  advance-QueueStep id revision next time returns (err e, c') h =
      unchanged-QueueStep (advance id revision next time) c'
        (queue_error-unchanged x c c' (transition_failed e id revision next time h))

  module _ (id : Text) (revision : ℕ) (next : PublishState) (time : Time) (detail : Option Text)
      (returns : TimeReturns x time) where
    Completed-QueueStep :
        (job : ScheduledJob) (history : HistoryRecord) (d : Db)
        → Completed x id revision next time detail job history c.db d
        → QueueStep x (view x c.db) (view x d) true (complete id revision next time detail)
    Completed-QueueStep job history d done =
        let m = done.moved in
        let i = done.inserted in
        let jobs : d.jobs ≡ done.between.jobs = ap (λ (e : Db). e.jobs) i.written in
        let before : done.between.history ≡ c.db.history = ap (λ (e : Db). e.history) m.written in
        completes
          (record {
            before = m.before;
            was = ap readable m.found;
            expected = m.expected;
            allowed = m.allowed;
            becomes = λ other.
                ap (λ (rows : List JobRow). readable (decode_found x (find? (has_id other) rows)))
                  jobs
                ∙ Moved-view x m returns fits other;
          })
          (record {
            history = history;
            row = i.row;
            request_kept =
                ap (λ (r : HistoryRecord). r.request) i.fields
                ∙ ap (λ (j : ScheduledJob). runner_safe j.request) m.result;
            state_kept = ap (λ (r : HistoryRecord). r.state) i.fields;
            time_kept = ap (λ (r : HistoryRecord). r.recorded_at) i.fields;
            detail_kept = ap (λ (r : HistoryRecord). r.detail) i.fields;
            encodes = i.encodes;
            unused = ap (has_history history.id) (sym before) ∙ i.unused;
            appended =
                ap (λ (e : Db). e.history) i.written
                ∙ ap (λ (rows : List HistoryRow). rows ++ i.row ∷ []) before;
          })

    complete-QueueStep :
        (r : Fallible (ScheduledJob × HistoryRecord) × Connection Db)
        → complete_job_with_history x id revision next time detail c ≡ r
        → QueueStep x
            (view x c.db)
            (view x r.1.db)
            (is_success r.0)
            (complete id revision next time detail)
    complete-QueueStep (ok (job, history), c') h =
        Completed-QueueStep job history c'.db
          (complete_job-Completed x id revision next time detail c job history c' h)
    complete-QueueStep (err e, c') h =
        unchanged-QueueStep (complete id revision next time detail) c'
          (queue_error-unchanged x c c' (complete_failed e id revision next time detail h))

  -- A transition or a completion, whatever statements fail, is a step of the queue that its callers see,
  -- provided that the stored revisions fit and its time is read back as it was written: a call that
  -- fails changes nothing; a call that succeeds moves its job, stored at the expected revision, along the
  -- graph of the states to the next revision, and a transition leaves the history, while a completion
  -- appends exactly one record, of the request without account routing in the new state, under an id
  -- that no record had.
  pub call-QueueStep :
      (call : Call)
      → TimeReturns x (time_of call)
      → QueueStep x (view x c.db) (view x (after_call x call c).db) (succeeds x call c) call
  call-QueueStep (advance id revision next time) returns =
      advance-QueueStep id revision next time returns (transition_job x id revision next time c)
        refl
  call-QueueStep (complete id revision next time detail) returns =
      complete-QueueStep id revision next time detail returns
        (complete_job_with_history x id revision next time detail c) refl
