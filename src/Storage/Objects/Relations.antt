-- ===== src/Storage/Objects/Relations.antt =====
-- `insert_business_relation` and `business_relations` of
-- crates/matrixpost-core/src/storage/lifecycle.rs.
use matri_xpost.Prelude.{
  Bool, ◌&&◌, ◌||◌, not, List, [], ◌∷◌, ◌++◌, any, filter, ok, err, if◌then◌else◌, reject_if,
  collect,
}
use matri_xpost.Text.{Text, text_eq}
use matri_xpost.Text.Order.{pair_le}
use matri_xpost.Error.{
  Fallible, database, duplicate_business_relation_id, duplicate_business_relation,
}
use matri_xpost.Lifecycle.Records.{BusinessRelation}
use matri_xpost.Lifecycle.Validation.{validate_business_relation}
use matri_xpost.Storage.Schema.{External, Db, RelationRow}
use matri_xpost.Storage.Table.{sort_by}
use matri_xpost.Storage.ObjectRows.{relation_to_row, row_to_business_relation}
use matri_xpost.Storage.Objects.{has_object_id, require_object}
use matri_xpost.Storage.Sql.{Sql, lift, statement, query, locked, ◌>>=◌, ◌>>◌}

unfoldable pub has_relation_id : Text → RelationRow → Bool
unfolding text_eq
has_relation_id id row = text_eq row.id id

-- `WHERE source_business_object_id=? AND target_business_object_id=? AND relation_type=?`
unfoldable pub is_relation : Text → Text → Text → RelationRow → Bool
unfolding text_eq
is_relation source target relation_type row =
    text_eq row.source_business_object_id source
    && text_eq row.target_business_object_id target
    && text_eq row.relation_type relation_type

-- `WHERE source_business_object_id=?1 OR target_business_object_id=?1`
unfoldable pub relation_of : Text → RelationRow → Bool
unfolding text_eq
relation_of id row =
    text_eq row.source_business_object_id id || text_eq row.target_business_object_id id

-- `ORDER BY created_at, id`
unfoldable pub relation_le : RelationRow → RelationRow → Bool
unfolding pair_le
relation_le a b = pair_le (a.created_at, a.id) (b.created_at, b.id)

module _ (x : External) where
  -- `INSERT INTO business_relations`, with its primary key, its unique triple and its foreign keys.
  unfoldable pub insert_relation_row : RelationRow → Db → Fallible Unit × Db
  unfolding has_relation_id is_relation has_object_id
  insert_relation_row row d =
      if any (has_relation_id row.id) d.business_relations
        || any
            (is_relation row.source_business_object_id row.target_business_object_id
              row.relation_type)
            d.business_relations
      then (err (database x.constraint_failed), d)
      else if not (any (has_object_id row.source_business_object_id) d.business_objects)
          || not (any (has_object_id row.target_business_object_id) d.business_objects)
      then (err (database x.foreign_key_failed), d)
      else (ok tt, record d { business_relations = d.business_relations ++ row ∷ [] })

  -- `insert_business_relation` behind the lock
  unfoldable pub store_relation : BusinessRelation → Sql Db Unit
  unfolding has_relation_id is_relation
  store_relation relation = do
    require_object x relation.source_business_object_id
    require_object x relation.target_business_object_id
    duplicate_id ← query (λ d. ok (any (has_relation_id relation.id) d.business_relations))
    lift (reject_if duplicate_id (duplicate_business_relation_id relation.id))
    duplicate ← query (λ d. ok (
        any
          (is_relation relation.source_business_object_id relation.target_business_object_id
            relation.relation_type)
          d.business_relations))
    lift (
        reject_if duplicate (
          duplicate_business_relation relation.source_business_object_id
            relation.target_business_object_id relation.relation_type))
    row ← lift (relation_to_row x relation)
    statement (insert_relation_row row)

  unfoldable pub insert_business_relation : BusinessRelation → Sql Db Unit
  insert_business_relation relation = do
    lift (validate_business_relation relation)
    locked (store_relation relation)

  unfoldable pub business_relations : Text → Sql Db (List BusinessRelation)
  business_relations business_object_id = locked (do
    require_object x business_object_id
    query (λ d.
        collect (row_to_business_relation x)
          (sort_by relation_le (filter (relation_of business_object_id) d.business_relations))))
