-- ===== src/Storage/Rows.antt =====
-- How a job and a history record are stored: the encoding and decoding of their rows in
-- crates/matrixpost-core/src/storage.rs.
pub mod Laws
use matri_xpost.Prelude.{
  ℕ, ◌+◌, ◌%◌, ◌^◌, Bool, true, false, Option, none, some, Result, ok, err, if◌then◌else◌, ltb,
  ok_or, map_err, ◌>>=◌,
}
use matri_xpost.Text.{Text}
use matri_xpost.Error.{DomainError, Fallible, database, serialization, corrupt_state}
use matri_xpost.Types.State.{state_db, state_from_db}
use matri_xpost.Types.Request.{PublishRequest, LocalSchedule, parse_schedule}
use matri_xpost.Types.Article.{Time}
use matri_xpost.Lifecycle.Records.{ScheduledJob, HistoryRecord}
use matri_xpost.Storage.Schema.{External, JobRow, HistoryRow}

-- `u64` addition.
abbrev pub add_u64 : ℕ → ℕ → ℕ
add_u64 a b = (a + b) % 2 ^ 64

abbrev pub schedule_text : LocalSchedule → Text
schedule_text s = s.text

abbrev pub due_text : Option LocalSchedule → Option Text
due_text none = none
due_text (some s) = some s.text

module _ (x : External) where
  -- `json` and `from_json`, at a request.
  unfoldable pub request_to_text : PublishRequest → Fallible Text
  request_to_text r = map_err serialization (x.request_json r)

  unfoldable pub request_from_text : Text → Fallible PublishRequest
  request_from_text s = map_err serialization (x.request_from_json s)

  -- `parse_time`
  unfoldable pub parse_time : Text → Fallible Time
  parse_time value = ok_or (x.parse_rfc3339 value) (corrupt_state value)

  -- rusqlite's conversion of a `u64` parameter to SQLite's signed integer
  unfoldable pub sql_u64 : ℕ → Fallible ℕ
  sql_u64 n = if ltb n (2 ^ 63) then ok n else err (database x.integer_out_of_range)

  -- `due_at.as_deref().map(LocalSchedule::parse).transpose()?`
  unfoldable pub parse_due : Option Text → Fallible (Option LocalSchedule)
  unfolding parse_schedule
  parse_due none = ok none
  parse_due (some value) = do s ← parse_schedule x.valid_schedule value; ok (some s)

  -- `row_to_job`
  unfoldable pub row_to_job : JobRow → Fallible ScheduledJob
  row_to_job row = do
    request ← request_from_text row.request_json
    state ← state_from_db row.state
    due_at ← parse_due row.due_at
    updated_at ← parse_time row.updated_at
    ok (record {
      id = row.id;
      request = request;
      state = state;
      due_at = due_at;
      revision = row.revision;
      updated_at = updated_at;
    })

  -- What `load_job` and `load_job_tx` make of the row that they found, if any.
  unfoldable pub decode_found : Option JobRow → Fallible (Option ScheduledJob)
  decode_found none = ok none
  decode_found (some row) = do job ← row_to_job row; ok (some job)

  -- The parameters of `insert_job`.
  unfoldable pub job_to_row : ScheduledJob → Fallible JobRow
  job_to_row job = do
    request_json ← request_to_text job.request
    revision ← sql_u64 job.revision
    ok (record {
      id = job.id;
      request_json = request_json;
      state = state_db job.state;
      due_at = due_text job.due_at;
      revision = revision;
      updated_at = x.to_rfc3339 job.updated_at;
    })

  -- The closure of `history`.
  unfoldable pub row_to_history : HistoryRow → Fallible HistoryRecord
  row_to_history row = do
    request ← request_from_text row.request_json
    state ← state_from_db row.state
    recorded_at ← parse_time row.recorded_at
    ok (record {
      id = row.id;
      request = request;
      state = state;
      recorded_at = recorded_at;
      detail = row.detail;
    })

  -- The parameters of `append_history` and of `insert_terminal_history`.
  unfoldable pub history_to_row : HistoryRecord → Fallible HistoryRow
  history_to_row h = do
    request_json ← request_to_text h.request
    ok (record {
      id = h.id;
      request_json = request_json;
      state = state_db h.state;
      recorded_at = x.to_rfc3339 h.recorded_at;
      detail = h.detail;
    })
