-- ===== src/Storage/Objects/Attributions.antt =====
-- `insert_content_attribution` and `content_attributions` of
-- crates/matrixpost-core/src/storage/lifecycle.rs.
use matri_xpost.Prelude.{
  Bool, ◌&&◌, ◌||◌, not, List, [], ◌∷◌, ◌++◌, any, filter, ok, err, if◌then◌else◌, reject_if,
  collect,
}
use matri_xpost.Text.{Text, codes, text_eq}
use matri_xpost.Text.Order.{pair_le}
use matri_xpost.Error.{Fallible, database, unknown_history_record, duplicate_content_attribution}
use matri_xpost.Lifecycle.Records.{ContentAttribution}
use matri_xpost.Lifecycle.Validation.{validate_non_empty}
use matri_xpost.Storage.Schema.{External, Db, HistoryRow, AttributionRow}
use matri_xpost.Storage.Table.{sort_by}
use matri_xpost.Storage.ObjectRows.{attribution_to_row, row_to_content_attribution}
use matri_xpost.Storage.Objects.{has_object_id, require_object}
use matri_xpost.Storage.Sql.{Sql, lift, statement, query, locked, ◌>>=◌, ◌>>◌}

unfoldable pub is_history : Text → HistoryRow → Bool
unfolding text_eq
is_history id row = text_eq row.id id

-- `WHERE business_object_id=? AND history_id=?`
unfoldable pub is_attribution : Text → Text → AttributionRow → Bool
unfolding text_eq
is_attribution object_id history_id row =
    text_eq row.business_object_id object_id && text_eq row.history_id history_id

unfoldable pub attribution_of : Text → AttributionRow → Bool
unfolding text_eq
attribution_of id row = text_eq row.business_object_id id

-- `ORDER BY created_at, history_id`
unfoldable pub attribution_le : AttributionRow → AttributionRow → Bool
unfolding pair_le
attribution_le a b = pair_le (a.created_at, a.history_id) (b.created_at, b.history_id)

module _ (x : External) where
  -- `INSERT INTO content_attributions`, with its primary key and its two foreign keys.
  unfoldable pub insert_attribution_row : AttributionRow → Db → Fallible Unit × Db
  unfolding is_attribution has_object_id is_history
  insert_attribution_row row d =
      if any (is_attribution row.business_object_id row.history_id) d.content_attributions
      then (err (database x.constraint_failed), d)
      else if not (any (has_object_id row.business_object_id) d.business_objects)
          || not (any (is_history row.history_id) d.history)
      then (err (database x.foreign_key_failed), d)
      else (ok tt, record d { content_attributions = d.content_attributions ++ row ∷ [] })

  -- `insert_content_attribution` behind the lock
  unfoldable pub store_attribution : ContentAttribution → Sql Db Unit
  unfolding is_history is_attribution
  store_attribution attribution = do
    require_object x attribution.business_object_id
    history_exists ← query (λ d. ok (any (is_history attribution.history_id) d.history))
    lift (reject_if (not history_exists) (unknown_history_record attribution.history_id))
    duplicate ← query (λ d. ok (
        any (is_attribution attribution.business_object_id attribution.history_id)
          d.content_attributions))
    lift (
        reject_if duplicate
          (duplicate_content_attribution attribution.business_object_id attribution.history_id))
    statement (insert_attribution_row (attribution_to_row x attribution))

  unfoldable pub insert_content_attribution : ContentAttribution → Sql Db Unit
  insert_content_attribution attribution = do
    lift (
        validate_non_empty (codes "content attribution business object id")
          attribution.business_object_id)
    lift (validate_non_empty (codes "content attribution history id") attribution.history_id)
    locked (store_attribution attribution)

  unfoldable pub content_attributions : Text → Sql Db (List ContentAttribution)
  content_attributions business_object_id = locked (do
    require_object x business_object_id
    query (λ d. collect (row_to_content_attribution x) (
        sort_by attribution_le
          (filter (attribution_of business_object_id) d.content_attributions))))
