-- ===== src/Storage/Jobs/Enqueued.antt =====
-- What `enqueue` stores.
use matri_xpost.Prelude.{
  suc, ◌≡◌, refl, ap, sym, ◌∙◌, Bool, false, [], ◌∷◌, ◌++◌, some, ok, arith, any, find?,
  if◌then◌else◌,
}
use mathlib.Core.Path.{subst}
use matri_xpost.Text.{Text, codes, text_eq}
use matri_xpost.Text.Laws.{text_eq_refl}
use matri_xpost.Text.Decimal.{numbered}
use matri_xpost.Types.Enums.{draft, queued}
use matri_xpost.Types.Request.{
  PublishRequest, runner_safe, has_account_routing, validate, validate_schedule,
}
use matri_xpost.Types.Request.Laws.{has_account_routing-runner_safe}
use matri_xpost.Types.Request.Valid.{validate_iff, schedule_iff, IsValid}
use matri_xpost.Types.Article.{Time}
use matri_xpost.Lifecycle.Records.{ScheduledJob}
use matri_xpost.Storage.Schema.{External, Db, JobRow, TimeReturns, RequestReturns}
use matri_xpost.Storage.Table.Laws.{find?-append_new}
use matri_xpost.Storage.Rows.{job_to_row, decode_found}
use matri_xpost.Storage.Rows.Laws.{job_to_row-Decodes, decode_found-some}
use matri_xpost.Storage.Sql.{Connection, pure, lift, statement, ◌>>◌}
use matri_xpost.Storage.Sql.Laws.{>>=-ok, lift-ok, pure-ok, statement-ok, locked-ok}
use matri_xpost.Storage.Jobs.{
  has_id, insert_job_row, insert_job, allocate_job_id, next_job_sequence, new_job, enqueue,
}

insert_job_row-ok :
    (x : External) (row : JobRow) (d : Db) (u : Unit {0})
    → (insert_job_row x row d).0 ≡ ok u
    → (any (has_id row.id) d.jobs ≡ false)
      × ((insert_job_row x row d).1 ≡ record d { jobs = d.jobs ++ row ∷ [] })
unfolding insert_job_row
insert_job_row-ok x row d u h = ground arith

-- An insertion that succeeds appended the row of the job, under an id that no row had.
pub insert_job-ok :
    (x : External) (job : ScheduledJob) (c : Connection Db) (u : Unit {0}) (c' : Connection Db)
    → insert_job x job c ≡ (ok u, c')
    → (row : JobRow) × (job_to_row x job ≡ ok row)
      × (any (has_id row.id) c.db.jobs ≡ false)
      × (c'.db ≡ record c.db { jobs = c.db.jobs ++ row ∷ [] })
unfolding insert_job
insert_job-ok x job c u c' h =
    let (row, c₁, h₁, k₁) = >>=-ok (lift (job_to_row x job)) _ c u c' (locked-ok _ c u c' h) in
    let (encoded, same) = lift-ok (job_to_row x job) c row c₁ h₁ in
    let (inserted, written) = statement-ok (insert_job_row x row) c₁ u c' k₁ in
    let (unused, appended) = insert_job_row-ok x row c₁.db u inserted in
    let start : c₁.db ≡ c.db = ap (λ (k : Connection Db). k.db) same in
    (
      row,
      encoded,
      ap (λ (d : Db). any (has_id row.id) d.jobs) (sym start) ∙ unused,
      written ∙ appended ∙ ap (λ (d : Db). record d { jobs = d.jobs ++ row ∷ [] }) start,
    )

allocate_job_id-ok :
    (c : Connection Db) (x : External) (id : Text) (c' : Connection Db)
    → allocate_job_id x c ≡ (ok id, c')
    → (id ≡ numbered (codes "job") (suc c.db.job_sequence))
      × (c'.db ≡ record c.db { job_sequence = suc c.db.job_sequence })
unfolding allocate_job_id next_job_sequence
allocate_job_id-ok c x id c' h =
    let (n, c₁, h₁, k₁) = >>=-ok (statement next_job_sequence) _ c id c' (locked-ok _ c id c' h) in
    let (number, written) = statement-ok next_job_sequence c n c₁ h₁ in
    let (result, same) = pure-ok (numbered (codes "job") n) c₁ id c' k₁ in
    (
      result ∙ ap (numbered (codes "job")) (sym (cc number)),
      ap (λ (k : Connection Db). k.db) same ∙ written,
    )

validate_schedule-valid :
    (valid_schedule : Text → Bool) (r : PublishRequest)
    → validate valid_schedule r ≡ ok tt
    → validate_schedule valid_schedule r.scheduled_at ≡ ok tt
validate_schedule-valid valid_schedule r h =
    (schedule_iff valid_schedule r.scheduled_at).1 ((validate_iff valid_schedule r).0 h).scheduled

-- What a successful enqueue leaves: the request was valid; the job has the next number of the
-- sequence, the request without its account routing, its schedule, the first state and revision 0;
-- one row was appended, under an id that no row had, and looking that id up gives the job.
pub record Enqueued (x : External) (request : PublishRequest) (now : Time) (d d' : Db)
    (job : ScheduledJob) : Type 0 where
  pub valid : IsValid x.valid_schedule request
  pub id : job.id ≡ numbered (codes "job") (suc d.job_sequence)
  pub number : d'.job_sequence ≡ suc d.job_sequence
  pub stripped : job.request ≡ runner_safe request
  pub no_routing : has_account_routing job.request ≡ false
  pub state : job.state ≡ (if request.draft then draft else queued)
  pub due_at : job.due_at ≡ request.scheduled_at
  pub revision : job.revision ≡ 0
  pub new : any (has_id job.id) d.jobs ≡ false
  pub row : JobRow
  pub stored : d'.jobs ≡ d.jobs ++ row ∷ []
  pub found : decode_found x (find? (has_id job.id) d'.jobs) ≡ ok (some job)

new_job-Enqueued :
    (x : External) (request : PublishRequest) (now : Time) (d : Db) (id : Text) (row : JobRow)
    → RequestReturns x (runner_safe request)
    → TimeReturns x now
    → validate x.valid_schedule request ≡ ok tt
    → id ≡ numbered (codes "job") (suc d.job_sequence)
    → job_to_row x (new_job request now id) ≡ ok row
    → any (has_id row.id) d.jobs ≡ false
    → Enqueued x request now d
        (record d { job_sequence = suc d.job_sequence; jobs = d.jobs ++ row ∷ [] })
        (new_job request now id)
unfolding new_job has_id
new_job-Enqueued x request now d id row returns time checked named encoded unused =
    let scheduled = validate_schedule-valid x.valid_schedule request checked in
    let decodes =
      job_to_row-Decodes x (new_job request now id) row returns time scheduled encoded in
    let new : any (has_id id) d.jobs ≡ false =
      ap (λ i. any (has_id i) d.jobs) decodes.id ∙ unused in
    record {
      valid = (validate_iff x.valid_schedule request).0 checked;
      id = named;
      number = refl;
      stripped = refl;
      no_routing = has_account_routing-runner_safe request;
      state = refl;
      due_at = refl;
      revision = refl;
      new = new;
      row = row;
      stored = refl;
      found =
          decode_found-some x (find? (has_id id) (d.jobs ++ row ∷ [])) row (new_job request now id)
            (find?-append_new (has_id id) d.jobs row new
              (ap (λ i. text_eq i id) (sym decodes.id) ∙ text_eq_refl id))
            decodes;
    }

Enqueued-of :
    (x : External) (request : PublishRequest) (now : Time) (d d₂ d' : Db) (id : Text) (row : JobRow)
    (job : ScheduledJob)
    → RequestReturns x (runner_safe request)
    → TimeReturns x now
    → validate x.valid_schedule request ≡ ok tt
    → id ≡ numbered (codes "job") (suc d.job_sequence)
    → d₂ ≡ record d { job_sequence = suc d.job_sequence }
    → new_job request now id ≡ job
    → job_to_row x (new_job request now id) ≡ ok row
    → any (has_id row.id) d₂.jobs ≡ false
    → d' ≡ record d₂ { jobs = d₂.jobs ++ row ∷ [] }
    → Enqueued x request now d d' job
Enqueued-of x request now d d₂ d' id row job returns time checked named after made encoded unused
      written =
    let unused' : any (has_id row.id) d.jobs ≡ false =
      ap (λ (k : Db). any (has_id row.id) k.jobs) (sym after) ∙ unused in
    let final = written ∙ ap (λ (k : Db). record k { jobs = k.jobs ++ row ∷ [] }) after in
    subst (λ j. Enqueued x request now d d' j) made
      (subst (λ k. Enqueued x request now d k (new_job request now id)) (sym final)
        (new_job-Enqueued x request now d id row returns time checked named encoded unused'))

-- What `enqueue` returns is the job it made, once it inserted that.
insert_new-ok :
    (x : External) (made : ScheduledJob) (c : Connection Db) (job : ScheduledJob)
    (c' : Connection Db)
    → (insert_job x made >> pure made) c ≡ (ok job, c')
    → (u : Unit {0}) × (made ≡ job) × (insert_job x made c ≡ (ok u, c'))
insert_new-ok x made c job c' h =
    let (u, c₁, h₁, k₁) = >>=-ok (insert_job x made) _ c job c' h in
    let (result, same) = pure-ok made c₁ job c' k₁ in
    (u, sym result, subst (λ k. insert_job x made c ≡ (ok u, k)) (sym same) h₁)

-- An `enqueue` that succeeds did what `Enqueued` says, when the request and the time that it
-- writes are read back as they were written.
pub enqueue-Enqueued :
    (x : External) (request : PublishRequest) (now : Time) (c : Connection Db) (job : ScheduledJob)
    (c' : Connection Db)
    → RequestReturns x (runner_safe request)
    → TimeReturns x now
    → enqueue x request now c ≡ (ok job, c')
    → Enqueued x request now c.db c'.db job
unfolding enqueue
enqueue-Enqueued x request now c job c' returns time h =
    let (u, c₁, h₁, k₁) = >>=-ok (lift (validate x.valid_schedule request)) _ c job c' h in
    let (checked, same) = lift-ok (validate x.valid_schedule request) c u c₁ h₁ in
    let (id, c₂, h₂, k₂) = >>=-ok (allocate_job_id x) _ c₁ job c' k₁ in
    let start : c₁.db ≡ c.db = ap (λ (k : Connection Db). k.db) same in
    let (named, numbered_db) = allocate_job_id-ok c₁ x id c₂ h₂ in
    let (u', made, h₃) = insert_new-ok x (new_job request now id) c₂ job c' k₂ in
    let (row, encoded, unused, written) = insert_job-ok x (new_job request now id) c₂ u' c' h₃ in
    Enqueued-of x request now c.db c₂.db c'.db id row job returns time checked
      (named ∙ ap (λ (d : Db). numbered (codes "job") (suc d.job_sequence)) start)
      (numbered_db ∙ ap (λ (d : Db). record d { job_sequence = suc d.job_sequence }) start) made
      encoded unused written
