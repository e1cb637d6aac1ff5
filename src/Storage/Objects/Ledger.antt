-- ===== src/Storage/Objects/Ledger.antt =====
-- `insert_ledger_entry` and `ledger_entries` of crates/matrixpost-core/src/storage/lifecycle.rs.
use matri_xpost.Prelude.{
  Bool, not, List, [], ◌∷◌, ◌++◌, any, filter, ok, err, if◌then◌else◌, reject_if, collect,
}
use matri_xpost.Text.{Text, text_eq}
use matri_xpost.Text.Order.{pair_le}
use matri_xpost.Error.{Fallible, database, duplicate_ledger_entry_id}
use matri_xpost.Lifecycle.Records.{LedgerEntry}
use matri_xpost.Lifecycle.Validation.{validate_ledger_entry}
use matri_xpost.Storage.Schema.{External, Db, LedgerRow}
use matri_xpost.Storage.Table.{sort_by}
use matri_xpost.Storage.ObjectRows.{ledger_to_row, row_to_ledger_entry}
use matri_xpost.Storage.Objects.{has_object_id, require_object}
use matri_xpost.Storage.Sql.{Sql, lift, statement, query, locked, ◌>>=◌, ◌>>◌}

unfoldable pub has_ledger_id : Text → LedgerRow → Bool
unfolding text_eq
has_ledger_id id row = text_eq row.id id

-- `WHERE business_object_id=?`
unfoldable pub ledger_of : Text → LedgerRow → Bool
unfolding text_eq
ledger_of id row = text_eq row.business_object_id id

-- `ORDER BY occurred_at, id`
unfoldable pub ledger_le : LedgerRow → LedgerRow → Bool
unfolding pair_le
ledger_le a b = pair_le (a.occurred_at, a.id) (b.occurred_at, b.id)

module _ (x : External) where
  -- `INSERT INTO ledger_entries`, with its primary key and its foreign key.
  unfoldable pub insert_ledger_row : LedgerRow → Db → Fallible Unit × Db
  unfolding has_ledger_id has_object_id
  insert_ledger_row row d =
      if any (has_ledger_id row.id) d.ledger_entries
      then (err (database x.constraint_failed), d)
      else if not (any (has_object_id row.business_object_id) d.business_objects)
      then (err (database x.foreign_key_failed), d)
      else (ok tt, record d { ledger_entries = d.ledger_entries ++ row ∷ [] })

  -- `insert_ledger_entry` behind the lock
  unfoldable pub store_ledger_entry : LedgerEntry → Sql Db Unit
  unfolding has_ledger_id
  store_ledger_entry entry = do
    require_object x entry.business_object_id
    duplicate ← query (λ d. ok (any (has_ledger_id entry.id) d.ledger_entries))
    lift (reject_if duplicate (duplicate_ledger_entry_id entry.id))
    statement (insert_ledger_row (ledger_to_row x entry))

  unfoldable pub insert_ledger_entry : LedgerEntry → Sql Db Unit
  insert_ledger_entry entry = do
    lift (validate_ledger_entry entry)
    locked (store_ledger_entry entry)

  unfoldable pub ledger_entries : Text → Sql Db (List LedgerEntry)
  ledger_entries business_object_id = locked (do
    require_object x business_object_id
    query (λ d.
        collect (row_to_ledger_entry x)
          (sort_by ledger_le (filter (ledger_of business_object_id) d.ledger_entries))))
