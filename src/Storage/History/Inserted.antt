-- ===== src/Storage/History/Inserted.antt =====
-- What `insert_terminal_history` leaves behind: one more record, under an id that was not in use.
use matri_xpost.Prelude.{
  ℕ, zero, suc, ◌<◌, ◌≡◌, refl, ap, sym, ◌∙◌, true, false, [], ◌∷◌, ◌++◌, Option, ok, arith, ◌==◌,
  Bool-cases, inl, inr, length,
}
use mathlib.Core.Path.{subst}
use matri_xpost.Text.{Text}
use matri_xpost.Text.Decimal.{numbered}
use matri_xpost.Types.Enums.{PublishState}
use matri_xpost.Types.Request.{PublishRequest}
use matri_xpost.Types.Article.{Time}
use matri_xpost.Lifecycle.Records.{HistoryRecord}
use matri_xpost.Storage.Schema.{External, Db, HistoryRow}
use matri_xpost.Storage.Rows.{history_to_row}
use matri_xpost.Storage.Sql.{Connection, lift, statement}
use matri_xpost.Storage.Sql.Laws.{>>=-ok, lift-ok, pure-ok, statement-ok}
use matri_xpost.Storage.History.{
  has_history, next_history_sequence, insert_history_or_ignore, insert_terminal_loop,
  insert_terminal_history, return_if, terminal_record,
}
use matri_xpost.Storage.History.Fresh.{history_to_row-id, round-used}

module _ (x : External) (prefix : Text) (h : HistoryRecord) where
  -- The database `d'` is `d` with one more record, `inserted`, of the next free number.
  pub record Inserted (inserted : HistoryRecord) (d d' : Db) : Type 0 where
    pub number : ℕ
    pub is_next : d.history_sequence < number
    pub fields : inserted ≡ record h { id = numbered prefix number }
    pub unused : has_history inserted.id d.history ≡ false
    pub row : HistoryRow
    pub encodes : history_to_row x inserted ≡ ok row
    pub written : d' ≡ record d { history_sequence = number; history = d.history ++ row ∷ [] }

  insert_done :
      (row : HistoryRow) (d : Db) (inserted : ℕ)
      → (insert_history_or_ignore row d).0 ≡ ok inserted
      → (inserted == 1) ≡ true
      → (has_history row.id d.history ≡ false)
        × ((insert_history_or_ignore row d).1 ≡ record d { history = d.history ++ row ∷ [] })
  unfolding insert_history_or_ignore
  insert_done row d inserted e one = ground arith

  -- The same, after a round that found its number in use.
  Inserted-later :
      (inserted : HistoryRecord) (d d₁ d' : Db)
      → d₁ ≡ record d { history_sequence = suc d.history_sequence }
      → Inserted inserted d₁ d'
      → Inserted inserted d d'
  Inserted-later inserted d d₁ d' e i =
      let seq : d₁.history_sequence ≡ suc d.history_sequence =
        ap (λ (k : Db). k.history_sequence) e in
      record {
        number = i.number;
        is_next = omega (arith, i.is_next, seq);
        fields = i.fields;
        unused = ap (λ (k : Db). has_history inserted.id k.history) (sym e) ∙ i.unused;
        row = i.row;
        encodes = i.encodes;
        written =
            i.written
            ∙ ap
                (λ (k : Db). record k {
                  history_sequence = i.number;
                  history = k.history ++ i.row ∷ [];
                })
                e;
      }

  round-Inserted :
      (n inserted : ℕ) (row : HistoryRow) (c c₁ c₂ c₃ : Connection Db)
      → statement next_history_sequence c ≡ (ok n, c₁)
      → lift (history_to_row x (record h { id = numbered prefix n })) c₁ ≡ (ok row, c₂)
      → statement (insert_history_or_ignore row) c₂ ≡ (ok inserted, c₃)
      → (inserted == 1) ≡ true
      → Inserted (record h { id = numbered prefix n }) c.db c₃.db
  unfolding next_history_sequence
  round-Inserted n inserted row c c₁ c₂ c₃ e₁ e₂ e₃ one =
      let (number, numbered_db) = statement-ok next_history_sequence c n c₁ e₁ in
      let (encoded, same₂) =
        lift-ok (history_to_row x (record h { id = numbered prefix n })) c₁ row c₂ e₂ in
      let (tried, same₃) = statement-ok (insert_history_or_ignore row) c₂ inserted c₃ e₃ in
      let (unused, appended) = insert_done row c₂.db inserted tried one in
      let next : suc c.db.history_sequence ≡ n = cc number in
      let before : c₂.db ≡ record c.db { history_sequence = n } =
        ap (λ (k : Connection Db). k.db) same₂
        ∙ numbered_db
        ∙ ap (λ i. record c.db { history_sequence = i }) next in
      record {
        number = n;
        is_next = omega (arith, next);
        fields = refl;
        unused =
            ap (λ i. has_history i c.db.history)
              (sym (history_to_row-id x prefix h (record h { id = numbered prefix n }) row encoded))
            ∙ ap (λ (d : Db). has_history row.id d.history) (sym before)
            ∙ unused;
        row = row;
        encodes = encoded;
        written =
            same₃ ∙ appended ∙ ap (λ (d : Db). record d { history = d.history ++ row ∷ [] }) before;
      }

  insert_terminal_loop-Inserted :
      (f : ℕ) (c : Connection Db) (inserted : HistoryRecord) (c' : Connection Db)
      → insert_terminal_loop x f prefix h c ≡ (ok inserted, c')
      → Inserted inserted c.db c'.db
  unfolding insert_terminal_loop return_if
  insert_terminal_loop-Inserted zero c inserted c' e = cc ((lift-ok _ c inserted c' e).0)
  insert_terminal_loop-Inserted (suc f) c inserted c' e =
      let (n, c₁, h₁, k₁) = >>=-ok (statement next_history_sequence) _ c inserted c' e in
      let full : HistoryRecord = record h { id = numbered prefix n } in
      let (row, c₂, h₂, k₂) = >>=-ok (lift (history_to_row x full)) _ c₁ inserted c' k₁ in
      let (count, c₃, h₃, k₃) =
        >>=-ok (statement (insert_history_or_ignore row)) _ c₂ inserted c' k₂ in
      elim (Bool-cases (count == 1)) [
        | inl one ↦
            (let (result, same) = pure-ok full c₃ inserted c' (rw (one, return_if) at k₃) in
              subst (λ (r : HistoryRecord). Inserted r c.db c'.db) (sym result)
                (subst (λ (k : Connection Db). Inserted full c.db k.db) (sym same)
                  (round-Inserted n count row c c₁ c₂ c₃ h₁ h₂ h₃ one)))
        | inr again ↦
            Inserted-later inserted c.db c₃.db c'.db
              (round-used x prefix h n count row c c₁ c₂ c₃ h₁ h₂ h₃ again).1
              (insert_terminal_loop-Inserted f c₃ inserted c' (rw (again, return_if) at k₃))
      ]

-- A terminal record is inserted under an id that no record had, and nothing else changes but the
-- sequence.
pub insert_terminal_history-Inserted :
    (x : External) (prefix : Text) (request : PublishRequest) (state : PublishState)
    (recorded_at : Time) (detail : Option Text) (c : Connection Db) (inserted : HistoryRecord)
    (c' : Connection Db)
    → insert_terminal_history x prefix request state recorded_at detail c ≡ (ok inserted, c')
    → Inserted x prefix
        (terminal_record prefix request state recorded_at detail)
        inserted
        c.db
        c'.db
unfolding insert_terminal_history
insert_terminal_history-Inserted x prefix request state recorded_at detail c inserted c' e =
    insert_terminal_loop-Inserted x prefix (terminal_record prefix request state recorded_at detail)
      (suc (length c.db.history)) c inserted c' e
