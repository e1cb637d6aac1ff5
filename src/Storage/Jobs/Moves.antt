-- ===== src/Storage/Jobs/Moves.antt =====
-- What a transition of a job does to the jobs table, when it succeeds and when it fails.
use matri_xpost.Prelude.{
  ℕ, ◌+◌, ◌<◌, ◌^◌, ◌≡◌, refl, ap, sym, ◌∙◌, ◌≢◌, Bool, true, false, Option, none, some, ok, arith,
  ◌==◌, find?, not, reject_if, ok_or-ok, reject_if-ok, not-==_false, All,
}
use mathlib.Core.Path.{subst₂}
use matri_xpost.Text.{Text}
use matri_xpost.Text.Laws.{text_eq_iff}
use matri_xpost.Types.Enums.{PublishState}
use matri_xpost.Types.State.{transition, can_transition_to}
use matri_xpost.Types.Article.{Time}
use matri_xpost.Lifecycle.Records.{ScheduledJob}
use matri_xpost.Storage.Schema.{External, Db, JobRow, TimeReturns}
use matri_xpost.Storage.Table.{update_where}
use matri_xpost.Storage.Table.Laws.{find?-update_where, find?-test, All-find?, Keeps, if_matches}
use matri_xpost.Storage.Rows.{add_u64, sql_u64, decode_found}
use matri_xpost.Storage.Rows.Laws.{Decodes, decode_found-ok, decode_found-some, Decodes-update}
use matri_xpost.Storage.Sql.{Connection, lift, statement}
use matri_xpost.Storage.Sql.Laws.{
  >>=-ok, lift-ok, pure-ok, statement-ok, query-ok, locked-ok, transaction-ok,
}
use matri_xpost.Storage.Jobs.{
  has_id, at_revision, set_job, update_jobs, load_job, require_job, move_job, transition_job,
}

require_job-ok :
    (x : External) (id : Text) (c : Connection Db) (job : ScheduledJob) (c' : Connection Db)
    → require_job x id c ≡ (ok job, c')
    → (decode_found x (find? (has_id id) c.db.jobs) ≡ ok (some job)) × (c'.db ≡ c.db)
unfolding require_job load_job
require_job-ok x id c job c' h =
    let (found, c₁, read, h₁) = >>=-ok (load_job x id) _ c job c' h in
    let (decoded, same) =
      query-ok (λ d. decode_found x (find? (has_id id) d.jobs)) c found c₁ read in
    let (there, still) = lift-ok _ c₁ job c' h₁ in
    (decoded ∙ ap ok (ok_or-ok found _ job there), ap (λ (k : Connection Db). k.db) still ∙ same)

transition-ok : (s t u : PublishState) → transition s t ≡ ok u → (can_transition_to s t ≡ true)
unfolding transition
transition-ok s t u h = ground arith

pub update_jobs-ok :
    (x : External) (matches : JobRow → Bool) (next : PublishState) (revision : ℕ) (time : Time)
    (d : Db) (changed : ℕ)
    → (update_jobs x matches next revision time d).0 ≡ ok changed
    → (revision < 2 ^ 63)
      × ((update_jobs x matches next revision time d).1 ≡ record d {
        jobs = update_where matches (set_job next revision (x.to_rfc3339 time)) d.jobs;
      })
unfolding update_jobs sql_u64
update_jobs-ok x matches next revision time d changed h = ground arith

-- What a job's successful move says of the database before it, `d`, and after it, `d'`.
pub record Moved (x : External) (id : Text) (revision : ℕ) (next : PublishState) (time : Time)
    (job : ScheduledJob) (d d' : Db) : Type 0 where
  pub before : ScheduledJob
  pub found : decode_found x (find? (has_id id) d.jobs) ≡ ok (some before)
  pub expected : before.revision ≡ revision
  pub fits : add_u64 revision 1 < 2 ^ 63
  pub result :
      job ≡ record before { state = next; revision = add_u64 revision 1; updated_at = time }
  pub written : d' ≡ record d {
    jobs =
        update_where
          (at_revision id revision)
          (set_job next (add_u64 revision 1) (x.to_rfc3339 time))
          d.jobs;
  }
  pub allowed : can_transition_to before.state next ≡ true

pub move_job-Moved :
    (x : External) (id : Text) (revision : ℕ) (next : PublishState) (time : Time)
    (c : Connection Db) (job : ScheduledJob) (c' : Connection Db)
    → move_job x id revision next time c ≡ (ok job, c')
    → Moved x id revision next time job c.db c'.db
unfolding move_job
move_job-Moved x id revision next time c job c' h =
    let (before, c₁, h₁, k₁) = >>=-ok (require_job x id) _ c job c' h in
    let (found, same₁) = require_job-ok x id c before c₁ h₁ in
    let (_, c₂, h₂, k₂) = >>=-ok (lift (transition before.state next)) _ c₁ job c' k₁ in
    let (allowed, same₂) = lift-ok (transition before.state next) c₁ _ c₂ h₂ in
    let (_, c₃, h₃, k₃) =
      >>=-ok (lift (reject_if (not (before.revision == revision)) _)) _ c₂ job c' k₂ in
    let (expected, same₃) = lift-ok (reject_if (not (before.revision == revision)) _) c₂ _ c₃ h₃ in
    let update = update_jobs x (at_revision id revision) next (add_u64 revision 1) time in
    let (changed, c₄, h₄, k₄) = >>=-ok (statement update) _ c₃ job c' k₃ in
    let (updated, same₄) = statement-ok update c₃ changed c₄ h₄ in
    let (_, c₅, h₅, k₅) = >>=-ok (lift (reject_if (not (changed == 1)) _)) _ c₄ job c' k₄ in
    let (one, same₅) = lift-ok (reject_if (not (changed == 1)) _) c₄ _ c₅ h₅ in
    let (result, same₆) = pure-ok _ c₅ job c' k₅ in
    let (fits, written) =
      update_jobs-ok x (at_revision id revision) next (add_u64 revision 1) time c₃.db changed
        updated in
    let start : c₃.db ≡ c.db = ap (λ (k : Connection Db). k.db) (same₃ ∙ same₂) ∙ same₁ in
    record {
      before = before;
      found = found;
      expected = not-==_false before.revision revision (reject_if-ok _ _ _ expected);
      fits = fits;
      result = result;
      written =
          ap (λ (k : Connection Db). k.db) (same₆ ∙ same₅)
          ∙ same₄
          ∙ written
          ∙ ap
              (λ (d : Db). record d {
                jobs =
                    update_where (at_revision id revision)
                      (set_job next (add_u64 revision 1) (x.to_rfc3339 time)) d.jobs;
              })
              start;
      allowed = transition-ok before.state next _ allowed;
    }

-- A transition that succeeded moved the job; it is the same whether its transaction stands alone.
pub transition_job-Moved :
    (x : External) (id : Text) (revision : ℕ) (next : PublishState) (time : Time)
    (c : Connection Db) (job : ScheduledJob) (c' : Connection Db)
    → transition_job x id revision next time c ≡ (ok job, c')
    → Moved x id revision next time job c.db c'.db
unfolding transition_job
transition_job-Moved x id revision next time c job c' h =
    let (c₁, c₂, begun, ran, kept) =
      transaction-ok (move_job x id revision next time) c job c' (locked-ok _ c job c' h) in
    subst₂ (Moved x id revision next time job) begun (sym kept)
      (move_job-Moved x id revision next time c₁ job c₂ ran)

-- An update of the rows of one id keeps which rows have which id.
set_job-Keeps :
    (id : Text) (next : PublishState) (revision : ℕ) (time : Text)
    → Keeps (has_id id) (set_job next revision time)
unfolding has_id set_job
set_job-Keeps id next revision time row = refl

at_revision-other :
    (id other : Text) (revision : ℕ) (row : JobRow)
    → other ≢ id
    → has_id other row ≡ true
    → at_revision id revision row ≡ false
unfolding at_revision has_id
at_revision-other id other revision row differ h =
    ground (arith, text_eq_iff row.id id, text_eq_iff row.id other)

-- Every integer that SQLite stores is below 2^63.
abbrev pub RevisionFits : JobRow → Type 0
RevisionFits row = row.revision < 2 ^ 63

matched_row :
    (id : Text) (revision : ℕ) (change : JobRow → JobRow) (found : Option JobRow) (row : JobRow)
    → found ≡ some row
    → has_id id row ≡ true
    → row.revision ≡ revision
    → if_matches (at_revision id revision) change found ≡ some (change row)
unfolding at_revision
matched_row id revision change found row there named at = rw there (ground arith)

unmatched_row :
    (id other : Text) (revision : ℕ) (change : JobRow → JobRow) (found : Option JobRow)
    → other ≢ id
    → ((row : JobRow) → found ≡ some row → has_id other row ≡ true)
    → if_matches (at_revision id revision) change found ≡ found
unmatched_row id other revision change none differ named = refl
unmatched_row id other revision change (some row) differ named =
    rw (at_revision-other id other revision row differ (named row refl))

module _ (x : External) {id : Text} {revision : ℕ} {next : PublishState} {time : Time}
    {job : ScheduledJob} {d d' : Db} (m : Moved x id revision next time job d d') where
  -- the row that the move changed, and what stands there afterwards
  moved_row :
      (row : JobRow) × (find? (has_id id) d.jobs ≡ some row)
      × Decodes x row m.before
      × (find? (has_id id) d'.jobs
          ≡ some (set_job next (add_u64 revision 1) (x.to_rfc3339 time) row))
  moved_row =
      let (row, there, decodes) = decode_found-ok x _ m.before m.found in
      let change = set_job next (add_u64 revision 1) (x.to_rfc3339 time) in
      (
        row,
        there,
        decodes,
        ap (λ (e : Db). find? (has_id id) e.jobs) m.written
            ∙ find?-update_where (has_id id) (at_revision id revision) change d.jobs
                (set_job-Keeps id next _ _)
            ∙ matched_row id revision change _ row there (find?-test (has_id id) d.jobs row there)
                (sym decodes.revision ∙ m.expected),
      )

  -- After the move the table gives the job that the move returned, where the time reads back.
  pub Moved-load : TimeReturns x time → decode_found x (find? (has_id id) d'.jobs) ≡ ok (some job)
  unfolding set_job
  Moved-load returns =
      let (row, there, decodes, now) = moved_row in
      decode_found-some x _ _ job now
        (rw m.result (Decodes-update x row m.before next (add_u64 revision 1) time returns decodes))

  -- Every other job is as it was.
  pub Moved-other :
      (other : Text) → other ≢ id → find? (has_id other) d'.jobs ≡ find? (has_id other) d.jobs
  Moved-other other differ =
      ap (λ (e : Db). find? (has_id other) e.jobs) m.written
      ∙ find?-update_where (has_id other) (at_revision id revision) _ d.jobs
          (λ row. set_job-Keeps_other row)
      ∙ unmatched_row id other revision _ _ differ (find?-test (has_id other) d.jobs)
    where
      set_job-Keeps_other :
          (row : JobRow)
          → has_id other (set_job next (add_u64 revision 1) (x.to_rfc3339 time) row)
            ≡ has_id other row
      set_job-Keeps_other row = set_job-Keeps other next _ _ row

  -- The revision is below 2^63, like every integer that SQLite stores.
  pub Moved-fits : All RevisionFits d.jobs → revision < 2 ^ 63
  Moved-fits fits =
      let (row, there, decodes, now) = moved_row in
      omega (
        arith,
        All-find? RevisionFits (has_id id) d.jobs row fits there,
        decodes.revision,
        m.expected,
      )

  -- Whatever the table then gives for the id has the next revision.
  pub Moved-revision :
      All RevisionFits d.jobs
      → (later : ScheduledJob) → decode_found x (find? (has_id id) d'.jobs) ≡ ok (some later)
      → later.revision ≡ revision + 1
  unfolding set_job
  Moved-revision fits later h =
      let (row, there, decodes, now) = moved_row in
      let (row', there', decodes') = decode_found-ok x _ later h in
      omega (
        arith,
        Moved-fits fits,
        decodes'.revision,
        ap (λ (o : Option JobRow). revision_of o) (sym there' ∙ now),
      )
    where
      revision_of : Option JobRow → ℕ
      revision_of none = 0
      revision_of (some r) = r.revision

-- A job moves at most once at each revision: whoever comes second with the revision that the first
-- one used fails, whatever state it asks for and whatever the statements in between reported.
pub Moved-once :
    (x : External) {id : Text} {revision : ℕ} {next next' : PublishState} {time time' : Time}
    {job job' : ScheduledJob} {d d' d'' : Db}
    → All RevisionFits d.jobs
    → Moved x id revision next time job d d'
    → Moved x id revision next' time' job' d' d''
    → ⊥
Moved-once x fits m m' = omega (arith, Moved-revision x m fits m'.before m'.found, m'.expected)
