-- ===== src/Storage/Rows/Laws.antt =====
-- What a row holds when it decodes, and that an encoded row decodes to what was encoded.
use matri_xpost.Prelude.{
  ◌≡◌, refl, ap, sym, ◌<◌, ◌^◌, ℕ, Option, none, some, ok, err, Result, arith, >>=-eq-ok, map_err,
}
use mathlib.Core.Path.{subst}
use matri_xpost.Text.{Text}
use matri_xpost.Error.{serialization}
use matri_xpost.Types.Enums.{PublishState, draft}
use matri_xpost.Types.State.{state_db, state_from_db}
use matri_xpost.Types.Request.{LocalSchedule, PublishRequest, validate_schedule, as_naive}
use matri_xpost.Types.Article.{Time}
use matri_xpost.Lifecycle.Records.{ScheduledJob}
use matri_xpost.Storage.Schema.{External, JobRow, TimeReturns, RequestReturns}
use matri_xpost.Storage.Rows.{
  request_to_text, request_from_text, parse_time, parse_due, sql_u64, row_to_job, decode_found,
  job_to_row, due_text,
}

-- A stored state is read back as the state that was written.
pub state_from_db-state_db : (s : PublishState) → state_from_db (state_db s) ≡ ok s
unfolding state_from_db state_db
state_from_db-state_db draft = refl
state_from_db-state_db _ = refl

-- The parts of a job that a row decodes to.
pub record Decodes (x : External) (row : JobRow) (job : ScheduledJob) : Type 0 where
  pub id : job.id ≡ row.id
  pub request : request_from_text x row.request_json ≡ ok job.request
  pub state : state_from_db row.state ≡ ok job.state
  pub due_at : parse_due x row.due_at ≡ ok job.due_at
  pub revision : job.revision ≡ row.revision
  pub updated_at : parse_time x row.updated_at ≡ ok job.updated_at

pub row_to_job-ok :
    (x : External) (row : JobRow) (job : ScheduledJob)
    → row_to_job x row ≡ ok job
    → Decodes x row job
unfolding row_to_job
row_to_job-ok x row job h =
    let (request, h₁, k₁) = >>=-eq-ok (request_from_text x row.request_json) _ h in
    let (state, h₂, k₂) = >>=-eq-ok (state_from_db row.state) _ k₁ in
    let (due, h₃, k₃) = >>=-eq-ok (parse_due x row.due_at) _ k₂ in
    let (time, h₄, k₄) = >>=-eq-ok (parse_time x row.updated_at) _ k₃ in
    record {
      id = cc k₄;
      request = cc (h₁, k₄);
      state = cc (h₂, k₄);
      due_at = cc (h₃, k₄);
      revision = cc k₄;
      updated_at = cc (h₄, k₄);
    }

pub Decodes-row_to_job :
    (x : External) (row : JobRow) (job : ScheduledJob)
    → Decodes x row job
    → row_to_job x row ≡ ok job
unfolding row_to_job
Decodes-row_to_job x row job d =
    rw (d.request, d.state, d.due_at, d.updated_at) (cc (d.id, d.revision))

-- What `decode_found` returned came from the row that was found.
pub decode_found-ok :
    (x : External) (found : Option JobRow) (job : ScheduledJob)
    → decode_found x found ≡ ok (some job)
    → (row : JobRow) × (found ≡ some row) × Decodes x row job
unfolding decode_found
decode_found-ok x none job h = cc h
decode_found-ok x (some row) job h =
    let (job', decoded, same) = >>=-eq-ok (row_to_job x row) _ h in
    (row, refl, row_to_job-ok x row job (cc (decoded, same)))

pub decode_found-some :
    (x : External) (found : Option JobRow) (row : JobRow) (job : ScheduledJob)
    → found ≡ some row
    → Decodes x row job
    → decode_found x found ≡ ok (some job)
unfolding decode_found
decode_found-some x found row job e d = rw (e, decode_found) (rw (Decodes-row_to_job x row job d))

-- A revision that SQLite accepts is below 2^63.
pub sql_u64-ok : (x : External) (n m : ℕ) → sql_u64 x n ≡ ok m → (m ≡ n) × (n < 2 ^ 63)
unfolding sql_u64
sql_u64-ok x n m h = ground arith

parse_time-to_rfc3339 :
    (x : External) (t : Time) → TimeReturns x t → parse_time x (x.to_rfc3339 t) ≡ ok t
unfolding parse_time
parse_time-to_rfc3339 x t h = rw h

-- A row that is updated to another state, revision and time decodes to the job so updated.
pub Decodes-update :
    (x : External) (row : JobRow) (job : ScheduledJob) (next : PublishState) (revision : ℕ)
    (time : Time)
    → TimeReturns x time
    → Decodes x row job
    → Decodes x
        (record row { state = state_db next; revision = revision; updated_at = x.to_rfc3339 time })
        (record job { state = next; revision = revision; updated_at = time })
Decodes-update x row job next revision time returns d = record {
  id = d.id;
  request = d.request;
  state = state_from_db-state_db next;
  due_at = d.due_at;
  revision = refl;
  updated_at = parse_time-to_rfc3339 x time returns;
}

-- A schedule that chrono accepts, if there is one, is read back as itself.
parse_due-due_text :
    (x : External) (due : Option LocalSchedule)
    → validate_schedule x.valid_schedule due ≡ ok tt
    → parse_due x (due_text due) ≡ ok due
unfolding parse_due validate_schedule as_naive
parse_due-due_text x none h = refl
parse_due-due_text x (some s) h = ground arith

map_err-ok {ℓ κ} :
    {E : Type ℓ} {F : Type κ} {A : Type 0} (f : E → F) (r : Result E A) (a : A)
    → map_err f r ≡ ok a
    → r ≡ ok a
map_err-ok f (ok b) a h = cc h
map_err-ok f (err e) a h = cc h

request_from_text-to_text :
    (x : External) (r : PublishRequest) (s : Text)
    → RequestReturns x r
    → request_to_text x r ≡ ok s
    → request_from_text x s ≡ ok r
unfolding request_to_text request_from_text
request_from_text-to_text x r s returns h =
    ap (map_err serialization) (returns s (map_err-ok serialization (x.request_json r) s h))

-- The row of a job decodes to the job, where its parts read back.
pub job_to_row-Decodes :
    (x : External) (job : ScheduledJob) (row : JobRow)
    → RequestReturns x job.request
    → TimeReturns x job.updated_at
    → validate_schedule x.valid_schedule job.due_at ≡ ok tt
    → job_to_row x job ≡ ok row
    → Decodes x row job
unfolding job_to_row
job_to_row-Decodes x job row returns time due h =
    let (json, h₁, k₁) = >>=-eq-ok (request_to_text x job.request) _ h in
    let (revision, h₂, k₂) = >>=-eq-ok (sql_u64 x job.revision) _ k₁ in
    let stored : JobRow = record {
      id = job.id;
      request_json = json;
      state = state_db job.state;
      due_at = due_text job.due_at;
      revision = revision;
      updated_at = x.to_rfc3339 job.updated_at;
    } in
    let same : stored ≡ row = cc k₂ in
    subst (λ (r : JobRow). Decodes x r job) same
      (record {
        id = refl;
        request = request_from_text-to_text x job.request json returns h₁;
        state = state_from_db-state_db job.state;
        due_at = parse_due-due_text x job.due_at due;
        revision = sym (sql_u64-ok x job.revision revision h₂).0;
        updated_at = parse_time-to_rfc3339 x job.updated_at time;
      })
