-- ===== src/Storage/Jobs/Succeeds.antt =====
-- When a transition succeeds.
use matri_xpost.Prelude.{
  ℕ, suc, ◌+◌, ◌<◌, ◌≤◌, ◌^◌, ◌≡◌, refl, ap, sym, ◌∙◌, true, not, List, [], ◌∷◌, find?, some, ok,
  arith, ◌==◌, ==_iff, Bool-cases, inl, inr, ltb, ok_or, reject_if,
}
use mathlib.Core.Path.{subst}
use matri_xpost.Text.{Text}
use matri_xpost.Error.{unknown_job, stale_job_revision}
use matri_xpost.Types.Enums.{PublishState}
use matri_xpost.Types.State.{can_transition_to, transition}
use matri_xpost.Types.Article.{Time}
use matri_xpost.Lifecycle.Records.{ScheduledJob}
use matri_xpost.Storage.Schema.{External, Db, JobRow}
use matri_xpost.Storage.Table.{update_where, count_where}
use matri_xpost.Storage.Rows.{decode_found, sql_u64, add_u64}
use matri_xpost.Storage.Rows.Laws.{decode_found-ok}
use matri_xpost.Storage.Sql.{pure, lift, statement, ◌>>=◌}
use matri_xpost.Storage.Sql.Laws.{healthy}
use matri_xpost.Storage.Sql.Healthy.{
  >>=-run, lift-run, query-run, statement-run, locked-transaction-run,
}
use matri_xpost.Storage.Jobs.{
  has_id, at_revision, set_job, update_jobs, load_job, require_job, move_job, transition_job,
}
use matri_xpost.Storage.Jobs.Exclusive.{UniqueIds}

count_at_revision_le :
    (id : Text) (revision : ℕ) (rows : List JobRow)
    → count_where (at_revision id revision) rows ≤ count_where (has_id id) rows
unfolding count_where at_revision
count_at_revision_le id revision [] = omega arith
count_at_revision_le id revision (row ∷ rows) =
    ground (arith, count_at_revision_le id revision rows)

same_row : (r row : JobRow) → some r ≡ some row → r ≡ row
same_row r row e = cc e

same_count :
    (id : Text) (r : JobRow) (rows : List JobRow)
    → has_id id r ≡ true
    → count_where (has_id id) (r ∷ rows) ≡ suc (count_where (has_id id) rows)
unfolding count_where
same_count id r rows h = rw h

at_own_revision :
    (id : Text) (row : JobRow) → has_id id row ≡ true → at_revision id row.revision row ≡ true
unfolding at_revision
at_own_revision id row h = rw h ((==_iff row.revision row.revision).1 refl)

-- The row that has the id is the one row that has it at its revision.
count_at_revision-found :
    (id : Text) (row : JobRow) (rows : List JobRow)
    → find? (has_id id) rows ≡ some row
    → count_where (has_id id) rows ≤ 1
    → count_where (at_revision id row.revision) rows ≡ 1
unfolding count_where at_revision
count_at_revision-found id row [] found once = cc found
count_at_revision-found id row (r ∷ rows) found once = elim (Bool-cases (has_id id r)) [
  | inl this ↦
      (let same : r ≡ row = same_row r row (rw this at found) in
        let none_left : count_where (at_revision id row.revision) rows ≡ 0 =
          omega
            (arith, same_count id r rows this, once, count_at_revision_le id row.revision rows) in
        let here : at_revision id row.revision r ≡ true =
          subst (λ (q : JobRow). at_revision id row.revision q ≡ true) (sym same)
            (at_own_revision id row (ap (has_id id) (sym same) ∙ this)) in
        rw here (ap suc none_left))
  | inr other ↦
      rw other (count_at_revision-found id row rows (rw other at found) (rw other at once))
]

below : (n : ℕ) → n < 2 ^ 63 → ltb n (2 ^ 63) ≡ true
below n h = ground arith

update_jobs-run :
    (x : External) (id : Text) (revision : ℕ) (next : PublishState) (time : Time) (d : Db)
    → revision + 1 < 2 ^ 63
    → count_where (at_revision id revision) d.jobs ≡ 1
    → update_jobs x (at_revision id revision) next (add_u64 revision 1) time d ≡ (
      ok 1,
      record d {
        jobs =
            update_where
              (at_revision id revision)
              (set_job next (revision + 1) (x.to_rfc3339 time))
              d.jobs;
      },
    )
unfolding update_jobs sql_u64
update_jobs-run x id revision next time d fits one =
    let wrapped : add_u64 revision 1 ≡ revision + 1 = omega arith in
    subst
      (λ n. update_jobs x (at_revision id revision) next n time d ≡ (
        ok 1,
        record d {
          jobs =
              update_where (at_revision id revision)
                (set_job next (revision + 1) (x.to_rfc3339 time)) d.jobs;
        },
      ))
      (sym wrapped) (rw (below (revision + 1) fits, update_jobs, sql_u64) (rw one))

-- On a connection that works, a transition that is legal from the stored state succeeds at the
-- stored revision, under the primary key and below the last revision that SQLite holds.
pub transition_job-ok :
    (x : External) (id : Text) (next : PublishState) (time : Time) (d : Db) (before : ScheduledJob)
    → UniqueIds d.jobs
    → decode_found x (find? (has_id id) d.jobs) ≡ ok (some before)
    → can_transition_to before.state next ≡ true
    → before.revision + 1 < 2 ^ 63
    → transition_job x id before.revision next time (healthy d) ≡ (
      ok (record before { state = next; revision = before.revision + 1; updated_at = time }),
      healthy (record d {
        jobs =
            update_where
              (at_revision id before.revision)
              (set_job next (before.revision + 1) (x.to_rfc3339 time))
              d.jobs;
      }),
    )
unfolding transition_job move_job require_job load_job pure transition ◌>>=◌
transition_job-ok x id next time d before unique found legal fits =
    let (row, there, decodes) = decode_found-ok x (find? (has_id id) d.jobs) before found in
    let one : count_where (at_revision id before.revision) d.jobs ≡ 1 =
      subst (λ r. count_where (at_revision id r) d.jobs ≡ 1) (sym decodes.revision)
        (count_at_revision-found id row d.jobs there (unique id)) in
    let load =
      >>=-run (load_job x id) _ (healthy d) (healthy d) (some before)
        (query-run _ d (some before) found)
      ∙ lift-run (ok_or (some before) (unknown_job id)) (healthy d) before refl in
    let wrapped : add_u64 before.revision 1 ≡ before.revision + 1 = omega (arith, fits) in
    let d' : Db = record d {
      jobs =
          update_where (at_revision id before.revision)
            (set_job next (before.revision + 1) (x.to_rfc3339 time)) d.jobs;
    } in
    locked-transaction-run (move_job x id before.revision next time) d d' _ (
      >>=-run (require_job x id) _ (healthy d) (healthy d) before load
      ∙ >>=-run (lift (transition before.state next)) _ (healthy d) (healthy d) next
          (lift-run _ (healthy d) next (rw (legal, transition)))
      ∙ >>=-run
          (lift (
            reject_if (not (before.revision == before.revision))
              (stale_job_revision id before.revision before.revision)))
          _ (healthy d) (healthy d) tt
          (lift-run _ (healthy d) tt (rw ((==_iff before.revision before.revision).1 refl)))
      ∙ >>=-run
          (statement
            (update_jobs x (at_revision id before.revision) next (add_u64 before.revision 1) time))
          _ (healthy d) (healthy d') 1
          (statement-run _ d d' 1 (update_jobs-run x id before.revision next time d fits one))
      ∙ ap (λ n. (ok (record before { state = next; revision = n; updated_at = time }), healthy d'))
          wrapped)
