-- ===== src/Storage/Consistent/Links.antt =====
-- The statements on ledger entries, attributions and relations keep the tables consistent.
use matri_xpost.Prelude.{
  ◌≡◌, ap, sym, ◌∙◌, ◌≢◌, inl, inr, true, false, ◌||◌, ◌&&◌, not, List, map, any, All, Elem, arith,
  Bool-cases,
}
use matri_xpost.Text.{Text, text_eq}
use matri_xpost.Text.Laws.{text_eq_iff}
use matri_xpost.Lifecycle.Validation.{is_not_positive, is_bad_currency}
use matri_xpost.Storage.Schema.{
  External, Db, HistoryRow, BusinessObjectRow, LedgerRow, AttributionRow, RelationRow,
}
use matri_xpost.Storage.Objects.{has_object_id}
use matri_xpost.Storage.Objects.Ledger.{has_ledger_id, insert_ledger_row}
use matri_xpost.Storage.Objects.Attributions.{is_history, is_attribution, insert_attribution_row}
use matri_xpost.Storage.Objects.Relations.{has_relation_id, is_relation, insert_relation_row}
use matri_xpost.Storage.Consistent.{
  object_id, history_id_of, ledger_id, attribution_key, relation_id, relation_key, IsEntry,
  IsAttribution, IsRelation, IsConsistent,
}
use matri_xpost.Storage.Consistent.Lists.{All-append, All-map, any-All, any-Elem}
use matri_xpost.Storage.Consistent.Statements.{either_no, not-not, differ, column-append}

ledger_free :
    (row : LedgerRow) (rows : List LedgerRow)
    → any (has_ledger_id row.id) rows ≡ false
    → All (λ (r : LedgerRow). r.id ≢ row.id) rows
unfolding has_ledger_id
ledger_free row rows h =
    All-map _ _ rows (λ r q. differ r.id row.id q) (any-All (has_ledger_id row.id) rows h)

-- The column that a test on an id finds.
object_there :
    (id : Text) (rows : List BusinessObjectRow)
    → any (has_object_id id) rows ≡ true
    → Elem id (map object_id rows)
unfolding has_object_id
object_there id rows h =
    any-Elem object_id (has_object_id id) id rows (λ r q. (text_eq_iff r.id id).0 q) h

history_there :
    (id : Text) (rows : List HistoryRow)
    → any (is_history id) rows ≡ true
    → Elem id (map history_id_of rows)
unfolding is_history
history_there id rows h =
    any-Elem history_id_of (is_history id) id rows (λ r q. (text_eq_iff r.id id).0 q) h

module _ (x : External) where
  pub insert_ledger_row-IsConsistent :
      (row : LedgerRow) (d : Db)
      → is_not_positive row.amount_minor ≡ false
      → is_bad_currency row.currency ≡ false
      → IsConsistent d
      → IsConsistent (insert_ledger_row x row d).1
  unfolding insert_ledger_row
  insert_ledger_row-IsConsistent row d positive currency h =
      elim (Bool-cases (any (has_ledger_id row.id) d.ledger_entries)) [
        | inl taken ↦ rw taken h
        | inr free ↦
            elim (Bool-cases
              (not (any (has_object_id row.business_object_id) d.business_objects))) [
                | inl unknown ↦ rw (free, unknown) h
                | inr known ↦
                    let there =
                      object_there row.business_object_id d.business_objects (not-not _ known) in
                    rw (free, known)
                      ((
                        record {
                          objects = h.0.objects;
                          history_ids = h.0.history_ids;
                          ledger_ids =
                              column-append ledger_id ◌≢◌ d.ledger_entries row h.0.ledger_ids
                                (ledger_free row d.ledger_entries free);
                          entries =
                              All-append (IsEntry (map object_id d.business_objects))
                                d.ledger_entries row h.0.entries
                                (record {
                                  object = there;
                                  positive = positive;
                                  currency = currency;
                                });
                          attribution_keys = h.0.attribution_keys;
                          attributions = h.0.attributions;
                          relation_ids = h.0.relation_ids;
                          relation_keys = h.0.relation_keys;
                          relations = h.0.relations;
                        },
                        h.1,
                      ))
              ]
      ]

pair_differ :
    (a b c e : Text) → (text_eq a c && text_eq b e) ≡ false → ◌≢◌ {A = Text × Text} (a, b) (c, e)
pair_differ a b c e h q = absurd (
    no (
      sym (
        both ((text_eq_iff a c).1 (ap (λ (p : Text × Text). p.0) q))
          ((text_eq_iff b e).1 (ap (λ (p : Text × Text). p.1) q)))
      ∙ h))
  where
    no : true ≢ false
    no r = cc r

    both : text_eq a c ≡ true → text_eq b e ≡ true → (text_eq a c && text_eq b e) ≡ true
    both p r = ground arith

triple_differ :
    (a b c a' b' c' : Text)
    → (text_eq a a' && text_eq b b' && text_eq c c') ≡ false
    → ◌≢◌ {A = Text × Text × Text} (a, b, c) (a', b', c')
triple_differ a b c a' b' c' h q = absurd (
    no (
      sym (
        each ((text_eq_iff a a').1 (ap (λ (p : Text × Text × Text). p.0) q))
          ((text_eq_iff b b').1 (ap (λ (p : Text × Text × Text). p.1) q))
          ((text_eq_iff c c').1 (ap (λ (p : Text × Text × Text). p.2) q)))
      ∙ h))
  where
    no : true ≢ false
    no r = cc r

    each :
        text_eq a a' ≡ true
        → text_eq b b' ≡ true
        → text_eq c c' ≡ true
        → (text_eq a a' && text_eq b b' && text_eq c c') ≡ true
    each p r s = ground arith

attribution_free :
    (row : AttributionRow) (rows : List AttributionRow)
    → any (is_attribution row.business_object_id row.history_id) rows ≡ false
    → All (λ (r : AttributionRow). attribution_key r ≢ attribution_key row) rows
unfolding is_attribution
attribution_free row rows h =
    All-map _ _ rows
      (λ r q. pair_differ r.business_object_id r.history_id row.business_object_id row.history_id q)
      (any-All (is_attribution row.business_object_id row.history_id) rows h)

relation_id_free :
    (row : RelationRow) (rows : List RelationRow)
    → any (has_relation_id row.id) rows ≡ false
    → All (λ (r : RelationRow). r.id ≢ row.id) rows
unfolding has_relation_id
relation_id_free row rows h =
    All-map _ _ rows (λ r q. differ r.id row.id q) (any-All (has_relation_id row.id) rows h)

relation_key_free :
    (row : RelationRow) (rows : List RelationRow)
    → any
        (is_relation row.source_business_object_id row.target_business_object_id row.relation_type)
        rows
      ≡ false
    → All (λ (r : RelationRow). relation_key r ≢ relation_key row) rows
unfolding is_relation
relation_key_free row rows h =
    All-map _ _ rows
      (λ r q.
        triple_differ r.source_business_object_id r.target_business_object_id r.relation_type
          row.source_business_object_id row.target_business_object_id row.relation_type q)
      (any-All
        (is_relation row.source_business_object_id row.target_business_object_id row.relation_type)
        rows h)

module _ (x : External) where
  pub insert_attribution_row-IsConsistent :
      (row : AttributionRow) (d : Db)
      → IsConsistent d
      → IsConsistent (insert_attribution_row x row d).1
  unfolding insert_attribution_row
  insert_attribution_row-IsConsistent row d h =
      elim (Bool-cases
        (any (is_attribution row.business_object_id row.history_id) d.content_attributions)) [
          | inl taken ↦ rw taken h
          | inr free ↦
              elim (Bool-cases (
                not (any (has_object_id row.business_object_id) d.business_objects)
                || not (any (is_history row.history_id) d.history))) [
                  | inl unknown ↦ rw (free, unknown) h
                  | inr known ↦
                      let (object_known, history_known) = either_no _ _ known in
                      rw (free, known)
                        ((
                          record {
                            objects = h.0.objects;
                            history_ids = h.0.history_ids;
                            ledger_ids = h.0.ledger_ids;
                            entries = h.0.entries;
                            attribution_keys =
                                column-append attribution_key ◌≢◌ d.content_attributions row
                                  h.0.attribution_keys
                                  (attribution_free row d.content_attributions free);
                            attributions =
                                All-append
                                  (IsAttribution (map object_id d.business_objects)
                                    (map history_id_of d.history))
                                  d.content_attributions row h.0.attributions
                                  (record {
                                    object =
                                        object_there _ d.business_objects (not-not _ object_known);
                                    record_there =
                                        history_there _ d.history (not-not _ history_known);
                                  });
                            relation_ids = h.0.relation_ids;
                            relation_keys = h.0.relation_keys;
                            relations = h.0.relations;
                          },
                          h.1,
                        ))
                ]
        ]

  pub insert_relation_row-IsConsistent :
      (row : RelationRow) (d : Db)
      → row.source_business_object_id ≢ row.target_business_object_id
      → IsConsistent d
      → IsConsistent (insert_relation_row x row d).1
  unfolding insert_relation_row
  insert_relation_row-IsConsistent row d ends h =
      elim (Bool-cases (
        any (has_relation_id row.id) d.business_relations
        || any
            (is_relation row.source_business_object_id row.target_business_object_id
              row.relation_type)
            d.business_relations)) [
              | inl taken ↦ rw taken h
              | inr free ↦
                  elim (Bool-cases (
                    not (any (has_object_id row.source_business_object_id) d.business_objects)
                    || not
                        (any (has_object_id row.target_business_object_id) d.business_objects))) [
                          | inl unknown ↦ rw (free, unknown) h
                          | inr known ↦
                              let (source_known, target_known) = either_no _ _ known in
                              let (id_free, key_free) = either_no _ _ free in
                              rw (free, known)
                                ((
                                  record {
                                    objects = h.0.objects;
                                    history_ids = h.0.history_ids;
                                    ledger_ids = h.0.ledger_ids;
                                    entries = h.0.entries;
                                    attribution_keys = h.0.attribution_keys;
                                    attributions = h.0.attributions;
                                    relation_ids =
                                        column-append relation_id ◌≢◌ d.business_relations row
                                          h.0.relation_ids
                                          (relation_id_free row d.business_relations id_free);
                                    relation_keys =
                                        column-append relation_key ◌≢◌ d.business_relations row
                                          h.0.relation_keys
                                          (relation_key_free row d.business_relations key_free);
                                    relations =
                                        All-append (IsRelation (map object_id d.business_objects))
                                          d.business_relations row h.0.relations
                                          (record {
                                            source =
                                                object_there _ d.business_objects
                                                  (not-not _ source_known);
                                            target =
                                                object_there _ d.business_objects
                                                  (not-not _ target_known);
                                            differ = ends;
                                          });
                                  },
                                  h.1,
                                ))
                        ]
            ]
