-- ===== src/Storage/Jobs/Due.antt =====
-- `claim_due` as a whole: which jobs it returns. Due times are texts, compared as texts: what their
-- order says of the instants that chrono reads from them is not part of it.
use matri_xpost.Prelude.{
  ℕ, suc, ◌≤◌, ◌≡◌, refl, ap, sym, ◌∙◌, ◌⊎◌, inl, inr, Bool, true, List, [], ◌∷◌, map, Option, none,
  some, ok, arith, ◌==◌, ==_iff, All, &&-true, length, min, collect, filter, Bool-cases,
  is_some_and,
}
use mathlib.Core.Path.{subst, subst₂}
use matri_xpost.Text.{Text, text_eq}
use matri_xpost.Text.Order.{text_le, pair_le, pair_le_total, pair_le_trans}
use matri_xpost.Types.Enums.{queued, dispatching}
use matri_xpost.Types.State.{state_db}
use matri_xpost.Types.Request.{LocalSchedule}
use matri_xpost.Types.Article.{Time}
use matri_xpost.Lifecycle.Records.{ScheduledJob}
use matri_xpost.Storage.Schema.{External, Db, JobRow}
use matri_xpost.Storage.Table.Laws.{
  All-filter, All-sort_by, All-take, IsSorted, IsSorted-take, sort_by-IsSorted, collect-All,
  length-collect, collect-IsSorted, length-take_le,
}
use matri_xpost.Storage.Rows.{row_to_job, parse_due, due_text}
use matri_xpost.Storage.Rows.Laws.{row_to_job-ok}
use matri_xpost.Storage.Sql.{Connection, transaction, pure, query}
use matri_xpost.Storage.Sql.Laws.{>>=-ok, pure-ok, query-ok, locked-ok, transaction-ok}
use matri_xpost.Storage.Jobs.{
  is_due, due_of, due_le, due_rows, claim_rows, claim_due, max_claim_batch,
}
use matri_xpost.Storage.Jobs.Claims.{claimed_job, claim_rows_all, EachOnce, claim_each-ok}

module _ (x : External) (due_through : LocalSchedule) (now : Time) (limit : ℕ) where
  -- What a successful claim says of the database before it, `d`, and after it, `d'`.
  pub record Claimed (jobs : List ScheduledJob) (d d' : Db) : Type 0 where
    pub candidates : List ScheduledJob
    pub selected :
        collect (row_to_job x) (due_rows due_through (min limit max_claim_batch) d) ≡ ok candidates
    pub result : jobs ≡ map (claimed_job now) candidates
    pub each_once : EachOnce x now candidates d.jobs
    pub written : d' ≡ record d { jobs = claim_rows_all x now candidates d.jobs }

  claim_rows-Claimed :
      (c : Connection Db) (jobs : List ScheduledJob) (c' : Connection Db)
      → claim_rows x due_through now (min limit max_claim_batch) c ≡ (ok jobs, c')
      → Claimed jobs c.db c'.db
  unfolding claim_rows
  claim_rows-Claimed c jobs c' h =
      let select =
        λ (d : Db). collect (row_to_job x) (due_rows due_through (min limit max_claim_batch) d) in
      let (candidates, c₁, h₁, k₁) = >>=-ok (query select) _ c jobs c' h in
      let (selected, same) = query-ok select c candidates c₁ h₁ in
      let (result, once, written) = claim_each-ok x now candidates c₁ jobs c' k₁ in
      record {
        candidates = candidates;
        selected = selected;
        result = result;
        each_once = subst (λ (d : Db). EachOnce x now candidates d.jobs) same once;
        written =
            written
            ∙ ap (λ (d : Db). record d { jobs = claim_rows_all x now candidates d.jobs }) same;
      }

  nothing_wanted :
      (c : Connection Db) (jobs : List ScheduledJob) (c' : Connection Db)
      → min limit max_claim_batch ≡ 0
      → pure [] c ≡ (ok jobs, c')
      → Claimed jobs c.db c'.db
  unfolding due_rows collect
  nothing_wanted c jobs c' wanted h =
      let (result, same) = pure-ok [] c jobs c' h in
      record {
        candidates = [];
        selected = rw wanted;
        result = result;
        each_once = tt;
        written = ap (λ (k : Connection Db). k.db) same;
      }

  -- A claim that succeeded updated the row of each candidate and returned them as claimed.
  pub claim_due-Claimed :
      (c : Connection Db) (jobs : List ScheduledJob) (c' : Connection Db)
      → claim_due x due_through now limit c ≡ (ok jobs, c')
      → Claimed jobs c.db c'.db
  unfolding claim_due
  claim_due-Claimed c jobs c' h = elim (Bool-cases (min limit max_claim_batch == 0)) [
    | inl e ↦ nothing_wanted c jobs c' ((==_iff _ 0).0 e) (rw (e, claim_due) at h)
    | inr e ↦
        (let body = claim_rows x due_through now (min limit max_claim_batch) in
          let (c₁, c₂, begun, ran, kept) =
            transaction-ok body c jobs c'
              (locked-ok (transaction body) c jobs c' (rw (e, claim_due) at h)) in
          subst₂ (Claimed jobs) begun (sym kept) (claim_rows-Claimed c₁ jobs c₂ ran))
  ]

-- The due text of a job, and the order of the claim on jobs.
abbrev pub job_due : ScheduledJob → Text
job_due job = elim job.due_at [ none ↦ [] | some due ↦ due.text ]

abbrev pub job_le : ScheduledJob → ScheduledJob → Bool
job_le a b = pair_le (job_due a, a.id) (job_due b, b.id)

-- A job that a scheduler may dispatch: claimed, with a due text that is not after the bound in the order
-- of texts, by which the statement compares them.
pub record IsClaimed (due_through : LocalSchedule) (now : Time) (job : ScheduledJob) : Type 0 where
  pub dispatching : job.state ≡ dispatching
  pub due : LocalSchedule
  pub has_due : job.due_at ≡ some due
  pub not_after : text_le due.text due_through.text ≡ true
  pub at : job.updated_at ≡ now

parse_due-text :
    (x : External) (t : Option Text) (d : Option LocalSchedule)
    → parse_due x t ≡ ok d
    → due_text d ≡ t
unfolding parse_due
parse_due-text x none d h = ground arith
parse_due-text x (some t) d h = ground arith

due_and :
    (d : Option LocalSchedule) (p : Text → Bool)
    → is_some_and (due_text d) p ≡ true
    → (s : LocalSchedule) × (d ≡ some s) × (p s.text ≡ true)
due_and none p h = cc
due_and (some s) p h = (s, refl, h)

due_row-IsClaimed :
    (x : External) (due_through : LocalSchedule) (now : Time) (row : JobRow) (job : ScheduledJob)
    → is_due due_through row ≡ true
    → row_to_job x row ≡ ok job
    → IsClaimed due_through now (claimed_job now job)
unfolding is_due
due_row-IsClaimed x due_through now row job due h =
    let come = λ (t : Text). text_le t due_through.text in
    let text = parse_due-text x row.due_at job.due_at (row_to_job-ok x row job h).due_at in
    let passed = (&&-true (text_eq row.state (state_db queued)) _ due).1 in
    let (s, has_due, not_after) =
      due_and job.due_at come (ap (λ o. is_some_and o come) text ∙ passed) in
    record { dispatching = refl; due = s; has_due = has_due; not_after = not_after; at = refl }

due_row-due :
    (x : External) (row : JobRow) (job : ScheduledJob)
    → row_to_job x row ≡ ok job
    → (job_due job ≡ due_of row) × (job.id ≡ row.id)
due_row-due x row job h =
    let d = row_to_job-ok x row job h in
    (same job.due_at ∙ ap text_of (parse_due-text x row.due_at job.due_at d.due_at), d.id)
  where
    text_of : Option Text → Text
    text_of none = []
    text_of (some t) = t

    same :
        (o : Option LocalSchedule)
        → elim o [ none ↦ [] | some due ↦ due.text ] ≡ text_of (due_text o)
    same none = refl
    same (some s) = refl

pub map_claimed-All :
    (now : Time) (P : ScheduledJob → Type 0) (jobs : List ScheduledJob)
    → All (λ job. P (claimed_job now job)) jobs
    → All P (map (claimed_job now) jobs)
map_claimed-All now P [] ps = tt
map_claimed-All now P (job ∷ jobs) ps = (ps.0, map_claimed-All now P jobs ps.1)

map_claimed-IsSorted :
    (now : Time) (jobs : List ScheduledJob)
    → IsSorted job_le jobs
    → IsSorted job_le (map (claimed_job now) jobs)
map_claimed-IsSorted now [] s = tt
map_claimed-IsSorted now (job ∷ jobs) s =
    (map_claimed-All now (λ b. job_le job b ≡ true) jobs s.0, map_claimed-IsSorted now jobs s.1)

length-map_claimed :
    (now : Time) (jobs : List ScheduledJob) → length (map (claimed_job now) jobs) ≡ length jobs
length-map_claimed now [] = refl
length-map_claimed now (job ∷ jobs) = ap suc (length-map_claimed now jobs)

due_le_total : (a b : JobRow) → (due_le a b ≡ true) ⊎ (due_le b a ≡ true)
unfolding due_le
due_le_total a b = pair_le_total (due_of a, a.id) (due_of b, b.id)

due_le_trans : (a b c : JobRow) → due_le a b ≡ true → due_le b c ≡ true → due_le a c ≡ true
unfolding due_le
due_le_trans a b c = pair_le_trans (due_of a, a.id) (due_of b, b.id) (due_of c, c.id)

pub due_rows-All :
    (due_through : LocalSchedule) (limit : ℕ) (d : Db) (P : JobRow → Type 0)
    → All P d.jobs
    → All (λ row. P row × (is_due due_through row ≡ true)) (due_rows due_through limit d)
unfolding due_rows
due_rows-All due_through limit d P ps =
    All-take _ limit _ (All-sort_by _ due_le _ (All-filter P (is_due due_through) d.jobs ps))

due_rows-IsSorted :
    (due_through : LocalSchedule) (limit : ℕ) (d : Db)
    → IsSorted due_le (due_rows due_through limit d)
unfolding due_rows
due_rows-IsSorted due_through limit d =
    IsSorted-take due_le limit _
      (sort_by-IsSorted due_le due_le_total due_le_trans (filter (is_due due_through) d.jobs))

length-due_rows :
    (due_through : LocalSchedule) (limit : ℕ) (d : Db)
    → length (due_rows due_through limit d) ≤ limit
unfolding due_rows
length-due_rows due_through limit d = length-take_le limit _

All-true : (rows : List JobRow) → All (λ _. Unit {0}) rows
All-true [] = tt
All-true (row ∷ rows) = (tt, All-true rows)

module _ (x : External) (due_through : LocalSchedule) (now : Time) (limit : ℕ) (c : Connection Db)
    (jobs : List ScheduledJob) (c' : Connection Db)
    (h : claim_due x due_through now limit c ≡ (ok jobs, c')) where
  -- A claim that succeeds returns at most `limit` jobs and at most 64, each now dispatching and with a
  -- due text that is not after the bound `due_through` in the order of texts, in the order of their
  -- due texts and ids.
  pub claim_due-IsClaimed :
      (length jobs ≤ limit)
      × (length jobs ≤ 64)
      × All (IsClaimed due_through now) jobs
      × IsSorted job_le jobs
  unfolding due_le
  claim_due-IsClaimed =
      let claimed = claim_due-Claimed x due_through now limit c jobs c' h in
      let capped = min limit max_claim_batch in
      let rows = due_rows due_through capped c.db in
      let bound : length jobs ≤ capped = omega (
        arith,
        ap length claimed.result,
        length-map_claimed now claimed.candidates,
        length-collect (row_to_job x) rows claimed.candidates claimed.selected,
        length-due_rows due_through capped c.db,
      ) in
      (
        omega arith,
        omega arith,
        subst (All (IsClaimed due_through now)) (sym claimed.result) (
            map_claimed-All now (IsClaimed due_through now) claimed.candidates (
              collect-All (row_to_job x) _ _ rows claimed.candidates
                (λ row job due e. due_row-IsClaimed x due_through now row job due.1 e)
                claimed.selected (due_rows-All due_through capped c.db _ (All-true c.db.jobs)))),
        subst (IsSorted job_le) (sym claimed.result) (
            map_claimed-IsSorted now claimed.candidates (
              collect-IsSorted (row_to_job x) due_le job_le rows claimed.candidates ordered
                claimed.selected (due_rows-IsSorted due_through capped c.db))),
      )
    where
      ordered :
          (a b : JobRow) (j k : ScheduledJob)
          → row_to_job x a ≡ ok j
          → row_to_job x b ≡ ok k
          → due_le a b ≡ true
          → job_le j k ≡ true
      ordered a b j k e f le =
          let (due, id) = due_row-due x a j e in
          let (due', id') = due_row-due x b k f in rw (due, id, due', id') le
