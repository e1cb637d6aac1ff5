-- ===== src/Storage/Jobs/Claims.antt =====
-- What one claim does: the loop of `claim_due` over its candidates.
use matri_xpost.Prelude.{
  ℕ, ◌≡◌, ap, ◌∙◌, Bool, List, [], ◌∷◌, map, ok, arith, ◌==◌, not, reject_if, reject_if-ok,
  not-==_false,
}
use mathlib.Core.Path.{subst}
use matri_xpost.Types.Enums.{PublishState, queued, dispatching}
use matri_xpost.Types.Article.{Time}
use matri_xpost.Lifecycle.Records.{ScheduledJob}
use matri_xpost.Storage.Schema.{External, Db, JobRow}
use matri_xpost.Storage.Table.{update_where, count_where}
use matri_xpost.Storage.Rows.{add_u64, sql_u64}
use matri_xpost.Storage.Sql.{Connection, lift, statement}
use matri_xpost.Storage.Sql.Laws.{>>=-ok, lift-ok, pure-ok, statement-ok}
use matri_xpost.Storage.Jobs.{in_state_at, set_job, update_jobs, claim_one, claim_each}

-- The job that a claim returns.
abbrev pub claimed_job : Time → ScheduledJob → ScheduledJob
claimed_job now job = record job {
  state = dispatching;
  revision = add_u64 job.revision 1;
  updated_at = now;
}

module _ (x : External) (now : Time) where
  -- The rows after one job was claimed.
  abbrev pub claim_row : ScheduledJob → List JobRow → List JobRow
  claim_row job rows =
      update_where (in_state_at queued job.id job.revision)
        (set_job dispatching (add_u64 job.revision 1) (x.to_rfc3339 now)) rows

  abbrev pub claim_rows_all : List ScheduledJob → List JobRow → List JobRow
  claim_rows_all [] rows = rows
  claim_rows_all (job ∷ jobs) rows = claim_rows_all jobs (claim_row job rows)

  -- Each update changed one row.
  abbrev pub EachOnce : List ScheduledJob → List JobRow → Type 0
  EachOnce [] rows = Unit
  EachOnce (job ∷ jobs) rows =
      (count_where (in_state_at queued job.id job.revision) rows ≡ 1)
      × EachOnce jobs (claim_row job rows)

  update_jobs-counted :
      (matches : JobRow → Bool) (next : PublishState) (revision : ℕ) (d : Db) (changed : ℕ)
      → (update_jobs x matches next revision now d).0 ≡ ok changed
      → (count_where matches d.jobs ≡ changed)
        × ((update_jobs x matches next revision now d).1 ≡ record d {
          jobs = update_where matches (set_job next revision (x.to_rfc3339 now)) d.jobs;
        })
  unfolding update_jobs sql_u64
  update_jobs-counted matches next revision d changed h = ground arith

  claim_one-ok :
      (job : ScheduledJob) (c : Connection Db) (claimed : ScheduledJob) (c' : Connection Db)
      → claim_one x now job c ≡ (ok claimed, c')
      → (claimed ≡ claimed_job now job)
        × (count_where (in_state_at queued job.id job.revision) c.db.jobs ≡ 1)
        × (c'.db ≡ record c.db { jobs = claim_row job c.db.jobs })
  unfolding claim_one
  claim_one-ok job c claimed c' h =
      let matches = in_state_at queued job.id job.revision in
      let update = update_jobs x matches dispatching (add_u64 job.revision 1) now in
      let (changed, c₁, h₁, k₁) = >>=-ok (statement update) _ c claimed c' h in
      let (updated, same₁) = statement-ok update c changed c₁ h₁ in
      let (_, c₂, h₂, k₂) = >>=-ok (lift (reject_if (not (changed == 1)) _)) _ c₁ claimed c' k₁ in
      let (one, same₂) = lift-ok (reject_if (not (changed == 1)) _) c₁ _ c₂ h₂ in
      let (result, same₃) = pure-ok _ c₂ claimed c' k₂ in
      let (counted, written) =
        update_jobs-counted matches dispatching (add_u64 job.revision 1) c.db changed updated in
      (
        result,
        counted ∙ not-==_false changed 1 (reject_if-ok _ _ _ one),
        ap (λ (k : Connection Db). k.db) (same₃ ∙ same₂) ∙ same₁ ∙ written,
      )

  -- The loop returns the candidates as claimed, in order, and has updated the row of each.
  pub claim_each-ok :
      (jobs : List ScheduledJob) (c : Connection Db) (claimed : List ScheduledJob)
      (c' : Connection Db)
      → claim_each x now jobs c ≡ (ok claimed, c')
      → (claimed ≡ map (claimed_job now) jobs)
        × EachOnce jobs c.db.jobs
        × (c'.db ≡ record c.db { jobs = claim_rows_all jobs c.db.jobs })
  unfolding claim_each
  claim_each-ok [] c claimed c' h =
      let (result, same) = pure-ok [] c claimed c' h in
      (result, tt, ap (λ (k : Connection Db). k.db) same)
  claim_each-ok (job ∷ jobs) c claimed c' h =
      let (first, c₁, h₁, k₁) = >>=-ok (claim_one x now job) _ c claimed c' h in
      let (rest, c₂, h₂, k₂) = >>=-ok (claim_each x now jobs) _ c₁ claimed c' k₁ in
      let (result, same) = pure-ok (first ∷ rest) c₂ claimed c' k₂ in
      let (is_first, once, written) = claim_one-ok job c first c₁ h₁ in
      let (are_rest, once_each, written_all) = claim_each-ok jobs c₁ rest c₂ h₂ in
      (
        cc (result, is_first, are_rest),
        (once, subst (λ (d : Db). EachOnce jobs d.jobs) written once_each),
        ap (λ (k : Connection Db). k.db) same
            ∙ written_all
            ∙ ap (λ (d : Db). record d { jobs = claim_rows_all jobs d.jobs }) written,
      )
