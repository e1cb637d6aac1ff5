-- ===== src/Storage/History/Fresh.antt =====
-- The loop of `insert_terminal_history` ends: among one more generated ids than there are records,
-- one is unused.
use matri_xpost.Prelude.{
  ℕ, zero, suc, ◌+◌, ◌≤◌, ◌<◌, ◌≡◌, refl, ap, sym, ◌∙◌, ◌≢◌, true, false, List, [], ◌∷◌, ok, arith,
  ◌==◌, not, filter, length, Bool-cases, inl, inr, >>=-eq-ok, Option,
}
use mathlib.Core.Path.{subst}
use matri_xpost.Text.{Text, text_eq}
use matri_xpost.Text.Laws.{text_eq_iff}
use matri_xpost.Text.Decimal.{numbered, numbered-injective}
use matri_xpost.Types.Enums.{PublishState}
use matri_xpost.Types.Request.{PublishRequest}
use matri_xpost.Types.Article.{Time}
use matri_xpost.Lifecycle.Records.{HistoryRecord}
use matri_xpost.Storage.Schema.{External, Db, HistoryRow}
use matri_xpost.Storage.Rows.{history_to_row, request_to_text}
use matri_xpost.Storage.Sql.{Connection, lift, statement}
use matri_xpost.Storage.Sql.Laws.{>>=-cong, lift-ok, statement-ok}
use matri_xpost.Storage.History.{
  has_history, next_history_sequence, insert_history_or_ignore, return_if, insert_terminal_loop,
  insert_terminal_history, terminal_record,
}

-- The records of other ids.
without : Text → List HistoryRow → List HistoryRow
without id rows = filter (λ row. not (text_eq row.id id)) rows

has_history-without :
    (id other : Text) (rows : List HistoryRow)
    → other ≢ id
    → has_history other (without id rows) ≡ has_history other rows
unfolding without has_history
has_history-without id other [] differ = refl
has_history-without id other (row ∷ rows) differ = ground (
  arith,
  has_history-without id other rows differ,
  text_eq_iff row.id id,
  text_eq_iff row.id other,
)

length-without_le : (id : Text) (rows : List HistoryRow) → length (without id rows) ≤ length rows
unfolding without
length-without_le id [] = omega arith
length-without_le id (row ∷ rows) = ground (arith, length-without_le id rows)

length-without :
    (id : Text) (rows : List HistoryRow)
    → has_history id rows ≡ true
    → length (without id rows) < length rows
unfolding without has_history
length-without id [] h = cc
length-without id (row ∷ rows) h = ground (arith, length-without id rows, length-without_le id rows)

-- Some id numbered after `seq`, within as many as there are records, is not in use.
pub fresh :
    (prefix : Text) (n seq : ℕ) (rows : List HistoryRow)
    → length rows ≤ n
    → (k : ℕ) × (k ≤ n) × (has_history (numbered prefix (suc (seq + k))) rows ≡ false)
unfolding has_history
fresh prefix zero seq [] h = (0, omega arith, refl)
fresh prefix zero seq (row ∷ rows) h = absurd (omega arith)
fresh prefix (suc n) seq rows h =
    elim (Bool-cases (has_history (numbered prefix (suc (seq + 0))) rows)) [
      | inr unused ↦ (0, omega arith, unused)
      | inl used ↦
          (let id = numbered prefix (suc (seq + 0)) in
            let (k, bound, unused) =
              fresh prefix n (suc seq) (without id rows)
                (omega (arith, length-without id rows used)) in
            let same : suc (suc seq + k) ≡ suc (seq + suc k) = omega arith in
            (
              suc k,
              omega arith,
              sym (
                    has_history-without id (numbered prefix (suc (seq + suc k))) rows
                      (λ e. absurd (omega (arith, numbered-injective prefix _ _ e))))
                  ∙ subst (λ i. has_history (numbered prefix i) (without id rows) ≡ false) same
                      unused,
            ))
    ]

module _ (x : External) (prefix : Text) (h : HistoryRecord) where
  -- A number `k` of used ids before the first that is not.
  abbrev pub FreeAfter : ℕ → Db → Type 0
  FreeAfter k d = has_history (numbered prefix (suc (d.history_sequence + k))) d.history ≡ false

  pub history_to_row-id :
      (record' : HistoryRecord) (row : HistoryRow)
      → history_to_row x record' ≡ ok row
      → row.id ≡ record'.id
  unfolding history_to_row
  history_to_row-id record' row e =
      let (json, h₁, k₁) = >>=-eq-ok (request_to_text x record'.request) _ e in cc k₁

  -- A round that did not insert found its id in use, and left the records as they were.
  insert_ignored :
      (row : HistoryRow) (d : Db) (inserted : ℕ)
      → (insert_history_or_ignore row d).0 ≡ ok inserted
      → (inserted == 1) ≡ false
      → (has_history row.id d.history ≡ true) × ((insert_history_or_ignore row d).1 ≡ d)
  unfolding insert_history_or_ignore
  insert_ignored row d inserted e no_row = ground arith

  -- What a round that did not insert says of the database before and after it.
  pub round-used :
      (n inserted : ℕ) (row : HistoryRow) (c c₁ c₂ c₃ : Connection Db)
      → statement next_history_sequence c ≡ (ok n, c₁)
      → lift (history_to_row x (record h { id = numbered prefix n })) c₁ ≡ (ok row, c₂)
      → statement (insert_history_or_ignore row) c₂ ≡ (ok inserted, c₃)
      → (inserted == 1) ≡ false
      → (has_history (numbered prefix (suc c.db.history_sequence)) c.db.history ≡ true)
        × (c₃.db ≡ record c.db { history_sequence = suc c.db.history_sequence })
  unfolding next_history_sequence
  round-used n inserted row c c₁ c₂ c₃ e₁ e₂ e₃ again =
      let (number, numbered_db) = statement-ok next_history_sequence c n c₁ e₁ in
      let (encoded, same₂) =
        lift-ok (history_to_row x (record h { id = numbered prefix n })) c₁ row c₂ e₂ in
      let (tried, same₃) = statement-ok (insert_history_or_ignore row) c₂ inserted c₃ e₃ in
      let (used, unchanged) = insert_ignored row c₂.db inserted tried again in
      let before : c₂.db ≡ record c.db { history_sequence = suc c.db.history_sequence } =
        ap (λ (k : Connection Db). k.db) same₂ ∙ numbered_db in
      let id : row.id ≡ numbered prefix (suc c.db.history_sequence) =
        history_to_row-id (record h { id = numbered prefix n }) row encoded
        ∙ ap (numbered prefix) (cc number) in
      (
        sym (
              ap (λ (d : Db). has_history row.id d.history) before
              ∙ ap (λ i. has_history i c.db.history) id)
            ∙ used,
        same₃ ∙ unchanged ∙ before,
      )

  free-next :
      (k : ℕ) (d d' : Db)
      → d' ≡ record d { history_sequence = suc d.history_sequence }
      → FreeAfter (suc k) d
      → FreeAfter k d'
  free-next k d d' e free =
      subst (FreeAfter k) (sym e)
        (subst (λ i. has_history (numbered prefix i) d.history ≡ false) (omega arith) free)

  not_free-used :
      (d : Db)
      → FreeAfter 0 d
      → has_history (numbered prefix (suc d.history_sequence)) d.history ≡ false
  not_free-used d free =
      subst (λ i. has_history (numbered prefix i) d.history ≡ false) (omega arith) free

  -- With more fuel than there are used ids ahead, the amount of fuel makes no difference, whatever
  -- the statements report.
  pub insert_terminal_loop-fuel :
      (f g k : ℕ) (c : Connection Db)
      → k < f
      → k < g
      → FreeAfter k c.db
      → insert_terminal_loop x f prefix h c ≡ insert_terminal_loop x g prefix h c
  unfolding insert_terminal_loop return_if
  insert_terminal_loop-fuel zero g k c kf kg free = absurd (omega arith)
  insert_terminal_loop-fuel (suc f) zero k c kf kg free = absurd (omega arith)
  insert_terminal_loop-fuel (suc f) (suc g) zero c kf kg free =
      >>=-cong (statement next_history_sequence) _ _ c λ n c₁ e₁.
        >>=-cong (lift (history_to_row x (record h { id = numbered prefix n }))) _ _ c₁ λ row c₂ e₂.
          >>=-cong (statement (insert_history_or_ignore row)) _ _ c₂ λ inserted c₃ e₃.
            elim (Bool-cases (inserted == 1)) [
              | inl done ↦ rw (done, return_if)
              | inr again ↦
                  cc (
                    (round-used n inserted row c c₁ c₂ c₃ e₁ e₂ e₃ again).0,
                    not_free-used c.db free,
                  )
            ]
  insert_terminal_loop-fuel (suc f) (suc g) (suc k) c kf kg free =
      >>=-cong (statement next_history_sequence) _ _ c λ n c₁ e₁.
        >>=-cong (lift (history_to_row x (record h { id = numbered prefix n }))) _ _ c₁ λ row c₂ e₂.
          >>=-cong (statement (insert_history_or_ignore row)) _ _ c₂ λ inserted c₃ e₃.
            elim (Bool-cases (inserted == 1)) [
              | inl done ↦ rw (done, return_if)
              | inr again ↦
                  rw (again, return_if)
                    (insert_terminal_loop-fuel f g k c₃ (omega arith) (omega arith) (
                      free-next k c.db c₃.db (round-used n inserted row c c₁ c₂ c₃ e₁ e₂ e₃ again).1
                        free))
            ]

-- The rounds that `insert_terminal_history` is given are enough: with any more of them the loop
-- returns the same result and leaves the same connection, whatever the statements report.
pub insert_terminal_history-fuel :
    (x : External) (prefix : Text) (request : PublishRequest) (state : PublishState)
    (recorded_at : Time) (detail : Option Text) (more : ℕ) (c : Connection Db)
    → insert_terminal_loop x
        (suc (length c.db.history) + more)
        prefix
        (terminal_record prefix request state recorded_at detail)
        c
      ≡ insert_terminal_history x prefix request state recorded_at detail c
unfolding insert_terminal_history
insert_terminal_history-fuel x prefix request state recorded_at detail more c =
    let n = length c.db.history in
    let (k, bound, unused) = fresh prefix n c.db.history_sequence c.db.history (omega arith) in
    insert_terminal_loop-fuel x prefix (terminal_record prefix request state recorded_at detail)
      (suc n + more) (suc n) k c (omega arith) (omega arith) unused
