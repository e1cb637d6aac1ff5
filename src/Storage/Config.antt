-- ===== src/Storage/Config.antt =====
-- The configuration table of crates/matrixpost-core/src/storage.rs.
use matri_xpost.Prelude.{
  Bool, not, List, [], ◌∷◌, ◌++◌, any, filter, find?, Option, none, some, ok, if◌then◌else◌,
}
use matri_xpost.Text.{Text, text_eq}
use matri_xpost.Storage.Schema.{Db}
use matri_xpost.Storage.Table.{update_where}
use matri_xpost.Storage.Sql.{Sql, statement, query, locked}

-- `WHERE key=?`
unfoldable pub has_key : Text → Text × Text → Bool
unfolding text_eq
has_key key row = text_eq row.0 key

-- `INSERT … ON CONFLICT(key) DO UPDATE SET value=excluded.value`
unfoldable pub upsert_value : Text → Text → List (Text × Text) → List (Text × Text)
unfolding has_key update_where
upsert_value key value rows =
    if any (has_key key) rows
    then update_where (has_key key) (λ r. (r.0, value)) rows
    else rows ++ (key, value) ∷ []

-- `set_config`
unfoldable pub set_config : Text → Text → Sql Db Unit
unfolding upsert_value
set_config key value =
    locked (statement (λ d. (ok tt, record d { config = upsert_value key value d.config })))

abbrev pub value_of : Option (Text × Text) → Option Text
value_of none = none
value_of (some row) = some row.1

-- `config`
unfoldable pub config_value : Text → Sql Db (Option Text)
unfolding has_key
config_value key = locked (query (λ d. ok (value_of (find? (has_key key) d.config))))

-- `delete_config`: whether a row was deleted.
unfoldable pub delete_config : Text → Sql Db Bool
unfolding has_key
delete_config key = locked (
    statement (λ d. (
      ok (any (has_key key) d.config),
      record d { config = filter (λ row. not (has_key key row)) d.config },
    )))
