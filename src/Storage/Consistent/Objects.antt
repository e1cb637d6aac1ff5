-- ===== src/Storage/Consistent/Objects.antt =====
-- The statements on business objects and on the history keep the tables consistent.
use matri_xpost.Prelude.{
  ◌≡◌, refl, ap, sym, ◌∙◌, ◌≢◌, inl, inr, Bool, true, false, List, [], ◌∷◌, ◌++◌, map, any, All,
  Pairwise, Elem, some, is_some_and, ok, err, Bool-cases, ℕ,
}
use mathlib.Core.Path.{subst}
use matri_xpost.Error.{Fallible}
use matri_xpost.Text.{Text}
use matri_xpost.Text.Laws.{text_eq_iff}
use matri_xpost.Types.Enums.{BusinessObjectStatus, ApprovalStatus}
use matri_xpost.Types.Article.{Time}
use matri_xpost.Storage.Schema.{External, Db, HistoryRow, BusinessObjectRow}
use matri_xpost.Storage.Table.{update_where}
use matri_xpost.Storage.Rows.{sql_u64}
use matri_xpost.Storage.History.{has_history, insert_history, insert_history_or_ignore}
use matri_xpost.Storage.Objects.{has_object_id, update_objects}
use matri_xpost.Storage.Objects.Inserts.{has_external_id, object_conflicts, insert_object_row}
use matri_xpost.Storage.Consistent.{
  ObjectKey, object_key, Apart, object_id, history_id_of, IsConsistent,
}
use matri_xpost.Storage.Consistent.Lists.{All-map, any-All, map-update_where}
use matri_xpost.Storage.Consistent.Statements.{
  either_no, differ, column-append, column-keeps, IsEntry-more, IsRelation-more, IsAttribution-more,
}

has_external_id-same :
    (row r : BusinessObjectRow) (e : Text)
    → r.kind ≡ row.kind
    → r.external_id ≡ some e
    → has_external_id row.kind e r ≡ true
unfolding has_external_id
has_external_id-same row r e k x =
    rw (x, (text_eq_iff r.kind row.kind).1 k) ((text_eq_iff e e).1 refl)

no_conflict :
    (row r : BusinessObjectRow)
    → has_object_id row.id r ≡ false
    → ((e : Text) → row.external_id ≡ some e → has_external_id row.kind e r ≡ false)
    → Apart (object_key r) (object_key row)
unfolding has_object_id
no_conflict row r h k = record {
  ids = differ r.id row.id h;
  external_ids = λ s.
      absurd
        (no (sym (has_external_id-same row r s.external s.kinds s.earlier) ∙ k s.external s.later));
}
  where
    no : true ≢ false
    no q = cc q

external_free :
    (row : BusinessObjectRow) (rows : List BusinessObjectRow)
    → is_some_and row.external_id (λ e. any (has_external_id row.kind e) rows) ≡ false
    → All
        (λ (r : BusinessObjectRow).
          (e : Text) → row.external_id ≡ some e → has_external_id row.kind e r ≡ false)
        rows
external_free row rows h = spread rows (λ e at. rw at at h)
  where
    spread :
        (rs : List BusinessObjectRow)
        → ((e : Text) → row.external_id ≡ some e → any (has_external_id row.kind e) rs ≡ false)
        → All
            (λ (r : BusinessObjectRow).
              (e : Text) → row.external_id ≡ some e → has_external_id row.kind e r ≡ false)
            rs
    spread [] k = tt
    spread (r ∷ rs) k =
        ((λ e at. (either_no _ _ (k e at)).0), spread rs (λ e at. (either_no _ _ (k e at)).1))

both-Apart :
    (row : BusinessObjectRow) (rows : List BusinessObjectRow)
    → All (λ r. has_object_id row.id r ≡ false) rows
    → All
        (λ (r : BusinessObjectRow).
          (e : Text) → row.external_id ≡ some e → has_external_id row.kind e r ≡ false)
        rows
    → All (λ r. Apart (object_key r) (object_key row)) rows
both-Apart row [] h k = tt
both-Apart row (r ∷ rs) h k = (no_conflict row r h.0 k.0, both-Apart row rs h.1 k.1)

-- The objects after an update that leaves their keys.
objects_rewritten :
    (matches : BusinessObjectRow → Bool) (g : BusinessObjectRow → BusinessObjectRow) (d : Db)
    → ((r : BusinessObjectRow) → object_key (g r) ≡ object_key r)
    → IsConsistent d
    → IsConsistent (record d { business_objects = update_where matches g d.business_objects })
objects_rewritten matches g d k h =
    let keys = map-update_where object_key matches g d.business_objects k in
    let ids =
      map-update_where object_id matches g d.business_objects
        (λ r. ap (λ (q : ObjectKey). q.0) (k r)) in
    let more =
      λ (t : Text) (q : Elem t (map object_id d.business_objects)). subst (Elem t) (sym ids) q in
    (
      record {
        objects = subst (Pairwise Apart) (sym keys) h.0.objects;
        history_ids = h.0.history_ids;
        ledger_ids = h.0.ledger_ids;
        entries = All-map _ _ d.ledger_entries (IsEntry-more _ _ more) h.0.entries;
        attribution_keys = h.0.attribution_keys;
        attributions =
            All-map _ _ d.content_attributions (λ r. IsAttribution-more _ _ more _ _ r (λ t q. q))
              h.0.attributions;
        relation_ids = h.0.relation_ids;
        relation_keys = h.0.relation_keys;
        relations = All-map _ _ d.business_relations (IsRelation-more _ _ more) h.0.relations;
      },
      h.1,
    )

module _ (x : External) where
  pub insert_object_row-IsConsistent :
      (row : BusinessObjectRow) (d : Db)
      → IsConsistent d
      → IsConsistent (insert_object_row x row d).1
  unfolding insert_object_row object_conflicts
  insert_object_row-IsConsistent row d h =
      elim (Bool-cases (object_conflicts row d.business_objects)) [
        | inl conflict ↦ rw conflict h
        | inr free ↦
            let (ids, externals) = either_no _ _ free in
            let apart =
              both-Apart row d.business_objects (any-All _ _ ids)
                (external_free row d.business_objects externals) in
            let more = column-keeps object_id d.business_objects row in
            rw free (
              (
                record {
                  objects = column-append object_key Apart d.business_objects row h.0.objects apart;
                  history_ids = h.0.history_ids;
                  ledger_ids = h.0.ledger_ids;
                  entries = All-map _ _ d.ledger_entries (IsEntry-more _ _ more) h.0.entries;
                  attribution_keys = h.0.attribution_keys;
                  attributions =
                      All-map _ _ d.content_attributions
                        (λ r. IsAttribution-more _ _ more _ _ r (λ t q. q)) h.0.attributions;
                  relation_ids = h.0.relation_ids;
                  relation_keys = h.0.relation_keys;
                  relations =
                      All-map _ _ d.business_relations (IsRelation-more _ _ more) h.0.relations;
                },
                h.1,
              ))
      ]

  -- An update of the states leaves the columns that the others refer to.
  pub update_objects-IsConsistent :
      (matches : BusinessObjectRow → Bool) (s : BusinessObjectStatus) (a : ApprovalStatus)
      (revision : ℕ) (time : Time) (d : Db)
      → IsConsistent d
      → IsConsistent (update_objects x matches s a revision time d).1
  unfolding update_objects
  update_objects-IsConsistent matches s a revision time d h =
      stored_or_not (sql_u64 x revision) refl
    where
      stored_or_not :
          (o : Fallible ℕ)
          → sql_u64 x revision ≡ o
          → IsConsistent (update_objects x matches s a revision time d).1
      stored_or_not (err e) at = rw (update_objects, at) h
      stored_or_not (ok stored) at =
          rw (update_objects, at) (objects_rewritten matches _ d (λ r. refl) h)

history_free :
    (row : HistoryRow) (rows : List HistoryRow)
    → has_history row.id rows ≡ false
    → All (λ (r : HistoryRow). r.id ≢ row.id) rows
unfolding has_history
history_free row [] h = tt
history_free row (r ∷ rs) h =
    let (here, later) = either_no _ _ h in (differ r.id row.id here, history_free row rs later)

-- The history with one record more.
history_grows :
    (row : HistoryRow) (d : Db)
    → has_history row.id d.history ≡ false
    → IsConsistent d
    → IsConsistent (record d { history = d.history ++ row ∷ [] })
history_grows row d free h = (
  record {
    objects = h.0.objects;
    history_ids =
        column-append history_id_of ◌≢◌ d.history row h.0.history_ids
          (history_free row d.history free);
    ledger_ids = h.0.ledger_ids;
    entries = h.0.entries;
    attribution_keys = h.0.attribution_keys;
    attributions =
        All-map _ _ d.content_attributions
          (λ r. IsAttribution-more _ _ (λ t q. q) _ _ r (column-keeps history_id_of d.history row))
          h.0.attributions;
    relation_ids = h.0.relation_ids;
    relation_keys = h.0.relation_keys;
    relations = h.0.relations;
  },
  h.1,
)

pub insert_history-IsConsistent :
    (x : External) (row : HistoryRow) (d : Db)
    → IsConsistent d
    → IsConsistent (insert_history x row d).1
unfolding insert_history
insert_history-IsConsistent x row d h = elim (Bool-cases (has_history row.id d.history)) [
  | inl there ↦ rw there h
  | inr free ↦ rw free (history_grows row d free h)
]

pub insert_history_or_ignore-IsConsistent :
    (row : HistoryRow) (d : Db) → IsConsistent d → IsConsistent (insert_history_or_ignore row d).1
unfolding insert_history_or_ignore
insert_history_or_ignore-IsConsistent row d h = elim (Bool-cases (has_history row.id d.history)) [
  | inl there ↦ rw there h
  | inr free ↦ rw free (history_grows row d free h)
]
