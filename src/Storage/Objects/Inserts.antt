-- ===== src/Storage/Objects/Inserts.antt =====
-- `insert_business_object` and `business_objects` of crates/matrixpost-core/src/storage/lifecycle.rs.
use matri_xpost.Prelude.{
  Bool, ◌&&◌, List, [], ◌∷◌, ◌++◌, any, Option, none, some, ok, err, if◌then◌else◌, reject_if,
  collect, ◌||◌, is_some_and,
}
use matri_xpost.Text.{Text, text_eq}
use matri_xpost.Text.Order.{pair_le}
use matri_xpost.Error.{
  Fallible, database, duplicate_business_object_id, duplicate_business_object_external_id,
}
use matri_xpost.Lifecycle.Records.{BusinessObject}
use matri_xpost.Lifecycle.Validation.{validate_business_object}
use matri_xpost.Storage.Schema.{External, Db, BusinessObjectRow}
use matri_xpost.Storage.Table.{sort_by}
use matri_xpost.Storage.ObjectRows.{object_to_row, row_to_business_object}
use matri_xpost.Storage.Objects.{has_object_id}
use matri_xpost.Storage.Sql.{Sql, pure, lift, statement, query, locked, ◌>>=◌, ◌>>◌}

-- `WHERE kind=? AND external_id=?`
unfoldable pub has_external_id : Text → Text → BusinessObjectRow → Bool
unfolding text_eq
has_external_id kind external_id row =
    text_eq row.kind kind && is_some_and row.external_id (λ e. text_eq e external_id)

-- Does the row break the primary key, or the unique index on the kind and the external id?
unfoldable pub object_conflicts : BusinessObjectRow → List BusinessObjectRow → Bool
unfolding has_object_id has_external_id
object_conflicts row rows =
    any (has_object_id row.id) rows
    || is_some_and row.external_id (λ e. any (has_external_id row.kind e) rows)

-- `ORDER BY created_at, id`
unfoldable pub object_le : BusinessObjectRow → BusinessObjectRow → Bool
unfolding pair_le
object_le a b = pair_le (a.created_at, a.id) (b.created_at, b.id)

module _ (x : External) where
  -- `INSERT INTO business_objects`
  unfoldable pub insert_object_row : BusinessObjectRow → Db → Fallible Unit × Db
  unfolding object_conflicts
  insert_object_row row d =
      if object_conflicts row d.business_objects
      then (err (database x.constraint_failed), d)
      else (ok tt, record d { business_objects = d.business_objects ++ row ∷ [] })

  -- The check of the external id, where there is one.
  unfoldable pub check_external_id : Text → Option Text → Sql Db Unit
  unfolding has_external_id
  check_external_id kind none = pure tt
  check_external_id kind (some external_id) = do
    duplicate ← query (λ d. ok (any (has_external_id kind external_id) d.business_objects))
    lift (reject_if duplicate (duplicate_business_object_external_id kind external_id))

  -- `insert_business_object` behind the lock
  unfoldable pub store_object : BusinessObject → Sql Db Unit
  unfolding check_external_id has_object_id
  store_object object = do
    duplicate ← query (λ d. ok (any (has_object_id object.id) d.business_objects))
    lift (reject_if duplicate (duplicate_business_object_id object.id))
    check_external_id object.kind object.external_id
    row ← lift (object_to_row x object)
    statement (insert_object_row row)

  unfoldable pub insert_business_object : BusinessObject → Sql Db Unit
  insert_business_object object = do
    lift (validate_business_object object)
    locked (store_object object)

  unfoldable pub business_objects : Sql Db (List BusinessObject)
  business_objects =
      locked
        (query (λ d. collect (row_to_business_object x) (sort_by object_le d.business_objects)))
