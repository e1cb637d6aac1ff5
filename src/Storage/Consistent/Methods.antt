-- ===== src/Storage/Consistent/Methods.antt =====
-- The methods of `LifecycleRepository` keep the tables consistent.
use matri_xpost.Prelude.{
  ◌≡◌, ap, sym, ◌∙◌, Bool, false, [], map_err, Option, none, some, ok, err, ℕ, reject_if, ◌>>◌,
  reject_if->>-ok, >>=-eq-ok,
}
use matri_xpost.Text.{Text, text_eq, is_blank}
use matri_xpost.Error.{DomainError, Fallible, serialization}
use matri_xpost.Types.Enums.{BusinessObjectStatus, ApprovalStatus}
use matri_xpost.Types.Article.{Time}
use matri_xpost.Lifecycle.Records.{
  BusinessObject, LedgerEntry, ContentAttribution, BusinessRelation,
}
use matri_xpost.Lifecycle.Validation.{
  is_not_positive, is_bad_currency, validate_ledger_entry, validate_business_relation,
  validate_business_object, validate_non_empty,
}
use matri_xpost.Storage.Schema.{External, RelationRow}
use matri_xpost.Storage.ObjectRows.{relation_to_row, ledger_to_row}
use matri_xpost.Storage.Sql.{locked}
use matri_xpost.Storage.Sql.Keeps.{
  Keeps, pure-Keeps, lift-Keeps, statement-Keeps, query-Keeps, >>=-Keeps, check-Keeps, locked-Keeps,
  transaction-Keeps,
}
use matri_xpost.Storage.Objects.{
  load_object, require_object, business_object_exists, move_object, transition_business_object,
}
use matri_xpost.Storage.Objects.Inserts.{check_external_id, store_object, insert_business_object}
use matri_xpost.Storage.Objects.Ledger.{store_ledger_entry, insert_ledger_entry}
use matri_xpost.Storage.Objects.Attributions.{store_attribution, insert_content_attribution}
use matri_xpost.Storage.Objects.Relations.{store_relation, insert_business_relation}
use matri_xpost.Storage.Consistent.{IsConsistent}
use matri_xpost.Storage.Consistent.Statements.{differ}
use matri_xpost.Storage.Consistent.Objects.{
  insert_object_row-IsConsistent, update_objects-IsConsistent,
}
use matri_xpost.Storage.Consistent.Links.{
  insert_ledger_row-IsConsistent, insert_attribution_row-IsConsistent,
  insert_relation_row-IsConsistent,
}

module _ (x : External) where
  require_object-Keeps : (id : Text) → Keeps IsConsistent (require_object x id)
  unfolding require_object business_object_exists
  require_object-Keeps id =
      >>=-Keeps IsConsistent _ _ (query-Keeps IsConsistent _) (λ e. lift-Keeps IsConsistent _)

  check_external_id-Keeps :
      (kind : Text) (external_id : Option Text)
      → Keeps IsConsistent (check_external_id x kind external_id)
  unfolding check_external_id
  check_external_id-Keeps kind none = pure-Keeps IsConsistent _
  check_external_id-Keeps kind (some e) =
      >>=-Keeps IsConsistent _ _ (query-Keeps IsConsistent _) (λ b. lift-Keeps IsConsistent _)

  pub insert_business_object-Keeps :
      (object : BusinessObject) → Keeps IsConsistent (insert_business_object x object)
  unfolding insert_business_object store_object
  insert_business_object-Keeps object =
      check-Keeps IsConsistent (validate_business_object object)
        (λ u. locked (store_object x object))
        (λ u valid. locked-Keeps IsConsistent _ (
          >>=-Keeps IsConsistent _ _ (query-Keeps IsConsistent _) (λ duplicate.
            >>=-Keeps IsConsistent _ _ (lift-Keeps IsConsistent _) (λ u.
              >>=-Keeps IsConsistent _ _ (check_external_id-Keeps object.kind object.external_id)
                (λ u. >>=-Keeps IsConsistent _ _ (lift-Keeps IsConsistent _) (λ row.
                  statement-Keeps IsConsistent _ (insert_object_row-IsConsistent x row)))))))

  pub transition_business_object-Keeps :
      (id : Text) (revision : ℕ) (s : BusinessObjectStatus) (a : ApprovalStatus) (time : Time)
      → Keeps IsConsistent (transition_business_object x id revision s a time)
  unfolding transition_business_object move_object load_object
  transition_business_object-Keeps id revision s a time = locked-Keeps IsConsistent _ (
      transaction-Keeps IsConsistent _ (
        >>=-Keeps IsConsistent _ _ (query-Keeps IsConsistent _) (λ found.
          >>=-Keeps IsConsistent _ _ (lift-Keeps IsConsistent _) (λ current.
            >>=-Keeps IsConsistent _ _ (lift-Keeps IsConsistent _) (λ fresh.
              >>=-Keeps IsConsistent _ _ (lift-Keeps IsConsistent _) (λ checked.
                >>=-Keeps IsConsistent _ _ (lift-Keeps IsConsistent _) (λ n.
                  >>=-Keeps IsConsistent _ _
                    (statement-Keeps IsConsistent _ (update_objects-IsConsistent x _ s a n time))
                    (λ changed.
                      >>=-Keeps IsConsistent _ _ (lift-Keeps IsConsistent _)
                        (λ u. pure-Keeps IsConsistent _)))))))))

-- The rest of a chain whose first three checks passed.
after_three :
    (a b c : Bool) (e₁ e₂ e₃ : DomainError) (rest : Fallible Unit) (u : Unit {0})
    → (reject_if a e₁ >> (reject_if b e₂ >> (reject_if c e₃ >> rest))) ≡ ok u
    → rest ≡ ok u
after_three a b c e₁ e₂ e₃ rest u h =
    (reject_if->>-ok c e₃ rest u (reject_if->>-ok b e₂ _ u (reject_if->>-ok a e₁ _ u h).1).1).1

entry_valid :
    (entry : LedgerEntry) (u : Unit {0})
    → validate_ledger_entry entry ≡ ok u
    → (is_not_positive entry.amount_minor ≡ false) × (is_bad_currency entry.currency ≡ false)
unfolding validate_ledger_entry validate_non_empty
entry_valid entry u h =
    let (positive, rest) = reject_if->>-ok (is_not_positive entry.amount_minor) _ _ u (
      after_three (is_blank entry.id) (is_blank entry.business_object_id) (is_blank entry.category)
        _ _ _ _ u h) in
    (positive, (reject_if->>-ok (is_bad_currency entry.currency) _ _ u rest).0)

relation_valid :
    (relation : BusinessRelation) (u : Unit {0})
    → validate_business_relation relation ≡ ok u
    → text_eq relation.source_business_object_id relation.target_business_object_id ≡ false
unfolding validate_business_relation validate_non_empty
relation_valid relation u h =
    let rest =
      after_three (is_blank relation.id) (is_blank relation.source_business_object_id)
        (is_blank relation.target_business_object_id) _ _ _ _ u h in
    let (typed, rest') = reject_if->>-ok (is_blank relation.relation_type) _ _ u rest in
    (reject_if->>-ok (text_eq relation.source_business_object_id relation.target_business_object_id)
      _ _ u rest').0

module _ (x : External) where
  row_ends :
      (relation : BusinessRelation) (row : RelationRow)
      → relation_to_row x relation ≡ ok row
      → (row.source_business_object_id ≡ relation.source_business_object_id)
        × (row.target_business_object_id ≡ relation.target_business_object_id)
  unfolding relation_to_row
  row_ends relation row h =
      let (attributes, e, k) =
        >>=-eq-ok (map_err serialization (x.attributes_json relation.attributes)) _ h in
      (ap (λ r. source_of r) (sym k), ap (λ r. target_of r) (sym k))
    where
      source_of : Fallible RelationRow → Text
      source_of (ok r) = r.source_business_object_id
      source_of (err e) = []

      target_of : Fallible RelationRow → Text
      target_of (ok r) = r.target_business_object_id
      target_of (err e) = []

  pub insert_ledger_entry-Keeps :
      (entry : LedgerEntry) → Keeps IsConsistent (insert_ledger_entry x entry)
  unfolding insert_ledger_entry store_ledger_entry ledger_to_row
  insert_ledger_entry-Keeps entry =
      check-Keeps IsConsistent (validate_ledger_entry entry)
        (λ u. locked (store_ledger_entry x entry))
        (λ u valid.
          let (positive, currency) = entry_valid entry u valid in
          locked-Keeps IsConsistent _ (
            >>=-Keeps IsConsistent _ _ (require_object-Keeps x entry.business_object_id) (λ u.
              >>=-Keeps IsConsistent _ _ (query-Keeps IsConsistent _) (λ duplicate.
                >>=-Keeps IsConsistent _ _ (lift-Keeps IsConsistent _) (λ u.
                  statement-Keeps IsConsistent _
                    (λ d. insert_ledger_row-IsConsistent x _ d positive currency))))))

  pub insert_content_attribution-Keeps :
      (attribution : ContentAttribution)
      → Keeps IsConsistent (insert_content_attribution x attribution)
  unfolding insert_content_attribution store_attribution
  insert_content_attribution-Keeps attribution =
      >>=-Keeps IsConsistent _ _ (lift-Keeps IsConsistent _) (λ u.
        >>=-Keeps IsConsistent _ _ (lift-Keeps IsConsistent _) (λ u. locked-Keeps IsConsistent _ (
          >>=-Keeps IsConsistent _ _ (require_object-Keeps x attribution.business_object_id) (λ u.
            >>=-Keeps IsConsistent _ _ (query-Keeps IsConsistent _) (λ exists.
              >>=-Keeps IsConsistent _ _ (lift-Keeps IsConsistent _) (λ u.
                >>=-Keeps IsConsistent _ _ (query-Keeps IsConsistent _) (λ duplicate.
                  >>=-Keeps IsConsistent _ _ (lift-Keeps IsConsistent _) (λ u.
                    statement-Keeps IsConsistent _ (insert_attribution_row-IsConsistent x _)))))))))

  pub insert_business_relation-Keeps :
      (relation : BusinessRelation) → Keeps IsConsistent (insert_business_relation x relation)
  unfolding insert_business_relation store_relation
  insert_business_relation-Keeps relation =
      check-Keeps IsConsistent (validate_business_relation relation)
        (λ u. locked (store_relation x relation))
        (λ u valid. locked-Keeps IsConsistent _ (
          >>=-Keeps IsConsistent _ _ (require_object-Keeps x relation.source_business_object_id)
            (λ u₁.
              >>=-Keeps IsConsistent _ _ (require_object-Keeps x relation.target_business_object_id)
                (λ u₂. >>=-Keeps IsConsistent _ _ (query-Keeps IsConsistent _) (λ duplicate_id.
                  >>=-Keeps IsConsistent _ _ (lift-Keeps IsConsistent _) (λ u₃.
                    >>=-Keeps IsConsistent _ _ (query-Keeps IsConsistent _) (λ duplicate.
                      >>=-Keeps IsConsistent _ _ (lift-Keeps IsConsistent _) (λ u₄.
                        check-Keeps IsConsistent (relation_to_row x relation) _ (λ row written.
                          let (source, target) = row_ends relation row written in
                          let ends = differ _ _ (relation_valid relation u valid) in
                          statement-Keeps IsConsistent _ (λ d.
                            insert_relation_row-IsConsistent x row d
                              (λ e. ends (sym source ∙ e ∙ target))))))))))))
