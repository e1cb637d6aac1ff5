-- ===== src/Storage/Objects.antt =====
-- Business objects in crates/matrixpost-core/src/storage/lifecycle.rs: their rows, looking one up,
-- and the update of their controlled states.
pub mod Inserts
pub mod Ledger
pub mod Attributions
pub mod Relations
pub mod Updates
use matri_xpost.Prelude.{
  ℕ, ◌+◌, ◌^◌, Bool, true, false, ◌&&◌, ◌||◌, not, List, [], ◌∷◌, find?, any, Option, none, some,
  Result, ok, err, if◌then◌else◌, ◌==◌, ltb, reject_if, ok_or,
}
use matri_xpost.Text.{Text, codes, text_eq}
use matri_xpost.Error.{
  DomainError, Fallible, unknown_business_object, stale_business_object_revision,
  business_object_transition_noop, invalid_business_object_lifecycle_transition,
  invalid_business_object_approval_transition, business_object_revision_overflow,
  concurrent_business_object_update,
}
use matri_xpost.Types.Enums.{BusinessObjectStatus, ApprovalStatus}
use matri_xpost.Types.Article.{Time}
use matri_xpost.Lifecycle.Records.{BusinessObject}
use matri_xpost.Lifecycle.Status.{
  status_eq, approval_eq, status_can_transition_to, status_db, approval_can_transition_to,
  approval_db,
}
use matri_xpost.Storage.Schema.{External, Db, BusinessObjectRow}
use matri_xpost.Storage.Table.{update_where, count_where}
use matri_xpost.Storage.Rows.{sql_u64}
use matri_xpost.Storage.ObjectRows.{decode_object}
use matri_xpost.Storage.Sql.{Sql, pure, lift, statement, query, locked, transaction, ◌>>=◌, ◌>>◌}

unfoldable pub has_object_id : Text → BusinessObjectRow → Bool
unfolding text_eq
has_object_id id row = text_eq row.id id

-- `WHERE id=? AND revision=?`
unfoldable pub object_at_revision : Text → ℕ → BusinessObjectRow → Bool
unfolding has_object_id
object_at_revision id revision row = has_object_id id row && row.revision == revision

-- The checks on the two states, in the order of the source.
unfoldable pub check_statuses :
    Text → BusinessObject → BusinessObjectStatus → ApprovalStatus → Fallible Unit
unfolding status_eq approval_eq status_can_transition_to approval_can_transition_to
check_statuses id current next_lifecycle next_approval =
    let lifecycle_changed = not (status_eq current.lifecycle_status next_lifecycle) in
    let approval_changed = not (approval_eq current.approval_status next_approval) in
    if not lifecycle_changed && not approval_changed
    then err (business_object_transition_noop id)
    else if lifecycle_changed
        && not (status_can_transition_to current.lifecycle_status next_lifecycle)
    then err (invalid_business_object_lifecycle_transition current.lifecycle_status next_lifecycle)
    else if approval_changed
        && not (approval_can_transition_to current.approval_status next_approval)
    then err (invalid_business_object_approval_transition current.approval_status next_approval)
    else ok tt

-- `expected_revision.checked_add(1)`
unfoldable pub next_revision : Text → ℕ → Fallible ℕ
next_revision id revision =
    if ltb (revision + 1) (2 ^ 64)
    then ok (revision + 1)
    else err (business_object_revision_overflow id)

module _ (x : External) where
  -- `UPDATE business_objects SET lifecycle_status=?, approval_status=?, revision=?, updated_at=? …`
  unfoldable pub update_objects :
      (BusinessObjectRow → Bool)
      → BusinessObjectStatus
      → ApprovalStatus
      → ℕ
      → Time
      → Db
      → Fallible ℕ × Db
  unfolding sql_u64
  update_objects matches next_lifecycle next_approval revision updated_at d =
      let change = λ (stored : ℕ) (row : BusinessObjectRow). record row {
        lifecycle_status = status_db next_lifecycle;
        approval_status = approval_db next_approval;
        revision = stored;
        updated_at = x.to_rfc3339 updated_at;
      } in
      elim (sql_u64 x revision) [
        | err e ↦ (err e, d)
        | ok stored ↦ (
          ok (count_where matches d.business_objects),
          record d { business_objects = update_where matches (change stored) d.business_objects },
        )
      ]

  -- `load_business_object` and `load_business_object_tx`
  unfoldable pub load_object : Text → Sql Db (Option BusinessObject)
  load_object id = query (λ d. decode_object x (find? (has_object_id id) d.business_objects))

  -- `business_object_exists`
  unfoldable pub business_object_exists : Text → Sql Db Bool
  business_object_exists id = query (λ d. ok (any (has_object_id id) d.business_objects))

  -- The check that begins most methods: the object must be there.
  unfoldable pub require_object : Text → Sql Db Unit
  require_object id = do
    exists ← business_object_exists id
    lift (reject_if (not exists) (unknown_business_object id))

  -- `business_object`
  unfoldable pub business_object : Text → Sql Db (Option BusinessObject)
  business_object id = locked (load_object id)

  -- The body of the transaction of `transition_business_object`.
  unfoldable pub move_object :
      Text → ℕ → BusinessObjectStatus → ApprovalStatus → Time → Sql Db BusinessObject
  move_object id expected_revision next_lifecycle next_approval updated_at = do
    found ← load_object id
    current ← lift (ok_or found (unknown_business_object id))
    lift (
        reject_if (not (current.revision == expected_revision))
          (stale_business_object_revision id expected_revision current.revision))
    lift (check_statuses id current next_lifecycle next_approval)
    revision ← lift (next_revision id expected_revision)
    changed ← statement (
        update_objects (object_at_revision id expected_revision) next_lifecycle next_approval
          revision updated_at)
    lift (reject_if (not (changed == 1)) (concurrent_business_object_update id))
    pure (record current {
      lifecycle_status = next_lifecycle;
      approval_status = next_approval;
      revision = revision;
      updated_at = updated_at;
    })

  -- `transition_business_object`
  unfoldable pub transition_business_object :
      Text → ℕ → BusinessObjectStatus → ApprovalStatus → Time → Sql Db BusinessObject
  transition_business_object id expected_revision next_lifecycle next_approval updated_at =
      locked
        (transaction (move_object id expected_revision next_lifecycle next_approval updated_at))
