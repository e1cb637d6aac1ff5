-- ===== src/Storage/Jobs/Exclusive.antt =====
-- No job is claimed twice: `claim_due` of two schedulers, one after the other.
use matri_xpost.Prelude.{
  ℕ, ◌≤◌, ◌≡◌, refl, ap, sym, ◌∙◌, ◌≢◌, true, false, List, [], ◌∷◌, ok, All, &&-true, min,
}
use mathlib.Core.Path.{subst}
use matri_xpost.Text.{Text, text_eq}
use matri_xpost.Text.Laws.{text_eq_iff}
use matri_xpost.Types.Enums.{queued, dispatching}
use matri_xpost.Types.State.{state_db}
use matri_xpost.Types.Request.{LocalSchedule}
use matri_xpost.Types.Article.{Time}
use matri_xpost.Lifecycle.Records.{ScheduledJob}
use matri_xpost.Storage.Schema.{External, Db, JobRow}
use matri_xpost.Storage.Table.{count_where}
use matri_xpost.Storage.Table.Laws.{
  only_match, All-map, count_where-update_where, All-updated, collect-All,
}
use matri_xpost.Storage.Rows.{add_u64, row_to_job}
use matri_xpost.Storage.Rows.Laws.{row_to_job-ok}
use matri_xpost.Storage.Sql.{Connection}
use matri_xpost.Storage.Jobs.{
  has_id, in_state_at, set_job, is_due, due_rows, claim_due, max_claim_batch,
}
use matri_xpost.Storage.Jobs.Claims.{claim_row, claim_rows_all, EachOnce}
use matri_xpost.Storage.Jobs.Due.{Claimed, claim_due-Claimed, map_claimed-All, due_rows-All}

-- The primary key: one row at most has an id.
abbrev pub UniqueIds : List JobRow → Type 0
UniqueIds rows = (id : Text) → count_where (has_id id) rows ≤ 1

-- No row of the id is queued.
abbrev IsTaken : Text → JobRow → Type 0
IsTaken id row = has_id id row ≡ true → text_eq row.state (state_db queued) ≡ false

in_state_at-has_id :
    (id : Text) (revision : ℕ) (row : JobRow)
    → in_state_at queued id revision row ≡ true
    → has_id id row ≡ true
unfolding in_state_at
in_state_at-has_id id revision row h = (&&-true (has_id id row) _ h).0

module _ (x : External) (now : Time) where
  claim_row-UniqueIds :
      (job : ScheduledJob) (rows : List JobRow)
      → UniqueIds rows
      → UniqueIds (claim_row x now job rows)
  unfolding has_id set_job
  claim_row-UniqueIds job rows unique id =
      rw
        (count_where-update_where (has_id id) (in_state_at queued job.id job.revision)
          (set_job dispatching (add_u64 job.revision 1) (x.to_rfc3339 now)) rows (λ row. refl))
        (unique id)

  -- The row of the job is no longer queued.
  claim_row-IsTaken :
      (job : ScheduledJob) (rows : List JobRow)
      → UniqueIds rows
      → count_where (in_state_at queued job.id job.revision) rows ≡ 1
      → All (IsTaken job.id) (claim_row x now job rows)
  unfolding set_job state_db text_eq
  claim_row-IsTaken job rows unique once =
      let matches = in_state_at queued job.id job.revision in
      All-updated (λ row. has_id job.id row ≡ true → matches row ≡ true) (IsTaken job.id) matches _
        rows (λ row p hit _. refl) (λ row p miss named. cc (miss, p named))
        (only_match (has_id job.id) matches rows (in_state_at-has_id job.id job.revision)
          (unique job.id) once)

  -- A row that is taken stays so while others are claimed.
  claim_row-keeps :
      (id : Text) (job : ScheduledJob) (rows : List JobRow)
      → All (IsTaken id) rows
      → All (IsTaken id) (claim_row x now job rows)
  unfolding set_job state_db text_eq
  claim_row-keeps id job rows taken =
      All-updated (IsTaken id) (IsTaken id) (in_state_at queued job.id job.revision) _ rows
        (λ row p hit _. refl) (λ row p miss. p) taken

  claim_rows_all-keeps :
      (id : Text) (jobs : List ScheduledJob) (rows : List JobRow)
      → All (IsTaken id) rows
      → All (IsTaken id) (claim_rows_all x now jobs rows)
  claim_rows_all-keeps id [] rows taken = taken
  claim_rows_all-keeps id (job ∷ jobs) rows taken =
      claim_rows_all-keeps id jobs (claim_row x now job rows) (claim_row-keeps id job rows taken)

  claim_rows_all-IsTaken :
      (jobs : List ScheduledJob) (rows : List JobRow)
      → UniqueIds rows
      → EachOnce x now jobs rows
      → All (λ job. All (IsTaken job.id) (claim_rows_all x now jobs rows)) jobs
  claim_rows_all-IsTaken [] rows unique once = tt
  claim_rows_all-IsTaken (job ∷ jobs) rows unique once = (
    claim_rows_all-keeps job.id jobs (claim_row x now job rows)
        (claim_row-IsTaken job rows unique once.0),
    claim_rows_all-IsTaken jobs (claim_row x now job rows) (claim_row-UniqueIds job rows unique)
        once.1,
  )

taken-not_due :
    (due_through : LocalSchedule) (id : Text) (row : JobRow)
    → IsTaken id row
    → is_due due_through row ≡ true
    → row.id ≢ id
unfolding is_due has_id
taken-not_due due_through id row taken due e =
    cc
      (taken ((text_eq_iff row.id id).1 e), (&&-true (text_eq row.state (state_db queued)) _ due).0)

-- A claim on a table where no row of the id is queued returns no job of the id.
claim-not-taken :
    (x : External) (due_through : LocalSchedule) (now : Time) (limit : ℕ) (id : Text)
    (jobs : List ScheduledJob) (d d' : Db)
    → Claimed x due_through now limit jobs d d'
    → All (IsTaken id) d.jobs
    → All (λ job. job.id ≢ id) jobs
claim-not-taken x due_through now limit id jobs d d' claimed taken =
    let capped = min limit max_claim_batch in
    subst (All (λ job. job.id ≢ id)) (sym claimed.result) (
      map_claimed-All now (λ job. job.id ≢ id) claimed.candidates
        (collect-All (row_to_job x) (λ row. row.id ≢ id) (λ job. job.id ≢ id)
          (due_rows due_through capped d) claimed.candidates
          (λ row job differ e same. differ (sym (row_to_job-ok x row job e).id ∙ same))
          claimed.selected
          (All-map (due_rows due_through capped d)
            (λ row p. taken-not_due due_through id row p.0 p.1)
            (due_rows-All due_through capped d (IsTaken id) taken))))

-- Under the primary key, two claims one after the other, with whatever limits and times, have no
-- job in common.
pub claim_due-exclusive :
    (x : External) (due_through due_through' : LocalSchedule) (now now' : Time) (limit limit' : ℕ)
    (c c' d d' : Connection Db) (jobs jobs' : List ScheduledJob)
    → UniqueIds c.db.jobs
    → claim_due x due_through now limit c ≡ (ok jobs, c')
    → d.db ≡ c'.db
    → claim_due x due_through' now' limit' d ≡ (ok jobs', d')
    → All (λ job. All (λ again. again.id ≢ job.id) jobs') jobs
claim_due-exclusive x due_through due_through' now now' limit limit' c c' d d' jobs jobs' unique h
      same h' =
    let first = claim_due-Claimed x due_through now limit c jobs c' h in
    let second = claim_due-Claimed x due_through' now' limit' d jobs' d' h' in
    let table : d.db.jobs ≡ claim_rows_all x now first.candidates c.db.jobs =
      ap (λ (e : Db). e.jobs) (same ∙ first.written) in
    let taken = claim_rows_all-IsTaken x now first.candidates c.db.jobs unique first.each_once in
    subst (All (λ job. All (λ again. again.id ≢ job.id) jobs')) (sym first.result) (
      map_claimed-All now (λ job. All (λ again. again.id ≢ job.id) jobs') first.candidates
        (All-map first.candidates
          (λ job t.
            claim-not-taken x due_through' now' limit' job.id jobs' d.db d'.db second
              (subst (All (IsTaken job.id)) (sym table) t))
          taken))
