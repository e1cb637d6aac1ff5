-- ===== src/Storage/History.antt =====
-- The publication history of crates/matrixpost-core/src/storage.rs: appending, the allocation of a
-- terminal record's id, and the listing.
pub mod Fresh
pub mod Inserted
use matri_xpost.Prelude.{
  ℕ, zero, suc, ◌≡◌, Bool, true, false, List, [], ◌∷◌, ◌++◌, any, Option, none, some, Result, ok,
  err, if◌then◌else◌, ◌==◌, length, collect,
}
use matri_xpost.Text.{Text, codes, text_eq}
use matri_xpost.Text.Decimal.{numbered}
use matri_xpost.Text.Order.{pair_le}
use matri_xpost.Error.{DomainError, Fallible, database}
use matri_xpost.Types.Enums.{PublishState}
use matri_xpost.Types.Request.{PublishRequest}
use matri_xpost.Types.Article.{Time}
use matri_xpost.Lifecycle.Records.{HistoryRecord}
use matri_xpost.Storage.Schema.{External, Db, HistoryRow}
use matri_xpost.Storage.Table.{sort_by}
use matri_xpost.Storage.Rows.{row_to_history, history_to_row}
use matri_xpost.Storage.Sql.{Sql, pure, lift, statement, query, locked, ◌>>=◌}

-- Is there a row of this id?
unfoldable pub has_history : Text → List HistoryRow → Bool
unfolding text_eq
has_history id rows = any (λ row. text_eq row.id id) rows

-- `INSERT INTO history`, which the primary key may refuse.
unfoldable pub insert_history : External → HistoryRow → Db → Fallible Unit × Db
unfolding has_history
insert_history x row d =
    if has_history row.id d.history
    then (err (database x.constraint_failed), d)
    else (ok tt, record d { history = d.history ++ row ∷ [] })

-- `INSERT OR IGNORE INTO history`: the number of rows inserted.
unfoldable pub insert_history_or_ignore : HistoryRow → Db → Fallible ℕ × Db
unfolding has_history
insert_history_or_ignore row d =
    if has_history row.id d.history
    then (ok 0, d)
    else (ok 1, record d { history = d.history ++ row ∷ [] })

-- `INSERT INTO history_sequence DEFAULT VALUES` and `last_insert_rowid()`
unfoldable pub next_history_sequence : Db → Fallible ℕ × Db
next_history_sequence d =
    (ok (suc d.history_sequence), record d { history_sequence = suc d.history_sequence })

-- Stands for a loop that has not ended; `insert_terminal_history` never comes to it.
abbrev out_of_fuel : DomainError
out_of_fuel = database (codes "out of fuel")

-- `ORDER BY recorded_at, id`
unfoldable pub history_le : HistoryRow → HistoryRow → Bool
unfolding pair_le
history_le a b = pair_le (a.recorded_at, a.id) (b.recorded_at, b.id)

-- The record without its number.
abbrev pub terminal_record :
    Text → PublishRequest → PublishState → Time → Option Text → HistoryRecord
terminal_record prefix request state recorded_at detail = record {
  id = prefix;
  request = request;
  state = state;
  recorded_at = recorded_at;
  detail = detail;
}

-- `if inserted == 1 { return Ok(record); }`, before the next round.
unfoldable pub return_if : Bool → HistoryRecord → Sql Db HistoryRecord → Sql Db HistoryRecord
return_if true h next_round = pure h
return_if false h next_round = next_round

module _ (x : External) where
  -- `append_history`
  unfoldable pub append_history : HistoryRecord → Sql Db Unit
  append_history h = locked (do row ← lift (history_to_row x h); statement (insert_history x row))

  -- `history`
  unfoldable pub list_history : Sql Db (List HistoryRecord)
  list_history = locked (query (λ d. collect (row_to_history x) (sort_by history_le d.history)))

  -- The `loop` of `insert_terminal_history`; `h` holds the fields that do not change. The fuel is the
  -- number of rounds at most.
  unfoldable pub insert_terminal_loop : ℕ → Text → HistoryRecord → Sql Db HistoryRecord
  insert_terminal_loop zero prefix h = lift (err out_of_fuel)
  insert_terminal_loop (suc fuel) prefix h = do
    n ← statement next_history_sequence
    let numbered_record : HistoryRecord = record h { id = numbered prefix n }
    row ← lift (history_to_row x numbered_record)
    inserted ← statement (insert_history_or_ignore row)
    return_if (inserted == 1) numbered_record (insert_terminal_loop fuel prefix h)

  -- `insert_terminal_history`, with one round more than there are records.
  unfoldable pub insert_terminal_history :
      Text → PublishRequest → PublishState → Time → Option Text → Sql Db HistoryRecord
  insert_terminal_history prefix request state recorded_at detail c =
      insert_terminal_loop (suc (length c.db.history)) prefix
        (terminal_record prefix request state recorded_at detail) c
