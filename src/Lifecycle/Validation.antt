-- ===== src/Lifecycle/Validation.antt =====
-- The checks on business objects, ledger entries and relations at the end of
-- crates/matrixpost-core/src/storage/lifecycle.rs.
use matri_xpost.Prelude.{
  ℕ, zero, suc, ℤ, pos, negsuc, Bool, true, false, ◌||◌, not, [], ◌∷◌, Option, none, some, ok, ◌==◌,
  length, all, reject_if, ◌>>◌,
}
use matri_xpost.Text.{
  Text, codes, bytes, is_blank, is_ascii_alphanumeric, is_ascii_uppercase, text_eq,
}
use matri_xpost.Error.{
  DomainError, Fallible, empty_lifecycle_field, invalid_initial_business_object_revision,
  invalid_business_object_attribute_key, sensitive_business_object_attribute_key,
  invalid_business_object_attribute_value, invalid_ledger_amount, invalid_currency,
  business_relation_self_reference, invalid_business_relation_attribute_key,
  sensitive_business_relation_attribute_key, invalid_business_relation_attribute_value,
}
use matri_xpost.Lifecycle.Records.{Attributes, BusinessObject, LedgerEntry, BusinessRelation}
use matri_xpost.Runner.Config.{contains_credential_like_term}

unfoldable pub validate_non_empty : Text → Text → Fallible Unit
unfolding is_blank
validate_non_empty field value = reject_if (is_blank value) (empty_lifecycle_field field)

-- `if let Some(value) = value { validate_non_empty(name, value)?; }`
abbrev pub validate_optional : Text → Option Text → Fallible Unit
validate_optional field none = ok tt
validate_optional field (some value) = validate_non_empty field value

-- The closure over the bytes of a key.
abbrev pub is_key_byte : ℕ → Bool
is_key_byte byte = is_ascii_alphanumeric byte || (byte == b'_' || (byte == b'-' || byte == b'.'))

unfoldable pub is_bad_key : Text → Bool
unfolding is_blank bytes is_ascii_alphanumeric
is_bad_key key = is_blank key || not (all is_key_byte (bytes key))

-- The loop over the attributes, which ends differently only in its errors.
unfoldable pub validate_attributes :
    (Text → DomainError) → (Text → DomainError) → (Text → DomainError) → Attributes → Fallible Unit
unfolding is_bad_key contains_credential_like_term is_blank
validate_attributes bad_key sensitive bad_value [] = ok tt
validate_attributes bad_key sensitive bad_value ((key, value) ∷ rest) = do
  reject_if (is_bad_key key) (bad_key key)
  reject_if (contains_credential_like_term key) (sensitive key)
  reject_if (is_blank value) (bad_value key)
  validate_attributes bad_key sensitive bad_value rest

unfoldable pub validate_business_object : BusinessObject → Fallible Unit
unfolding validate_non_empty validate_attributes
validate_business_object object = do
  validate_non_empty (codes "business object id") object.id
  validate_non_empty (codes "business object kind") object.kind
  validate_non_empty (codes "business object display name") object.display_name
  reject_if (not (object.revision == 0)) (invalid_initial_business_object_revision object.revision)
  validate_optional (codes "business object external id") object.external_id
  validate_attributes invalid_business_object_attribute_key sensitive_business_object_attribute_key
      invalid_business_object_attribute_value object.attributes

-- `amount_minor <= 0`
abbrev pub is_not_positive : ℤ → Bool
is_not_positive (pos zero) = true
is_not_positive (pos (suc n)) = false
is_not_positive (negsuc n) = true

unfoldable pub is_bad_currency : Text → Bool
unfolding bytes is_ascii_uppercase
is_bad_currency currency =
    not (length (bytes currency) == 3) || not (all is_ascii_uppercase (bytes currency))

unfoldable pub validate_ledger_entry : LedgerEntry → Fallible Unit
unfolding validate_non_empty is_bad_currency
validate_ledger_entry entry = do
  validate_non_empty (codes "ledger entry id") entry.id
  validate_non_empty (codes "ledger entry business object id") entry.business_object_id
  validate_non_empty (codes "ledger entry category") entry.category
  reject_if (is_not_positive entry.amount_minor) (invalid_ledger_amount entry.amount_minor)
  reject_if (is_bad_currency entry.currency) (invalid_currency entry.currency)
  validate_optional (codes "ledger counterparty") entry.counterparty
  validate_optional (codes "ledger reference") entry.reference
  validate_optional (codes "ledger description") entry.description

unfoldable pub validate_business_relation : BusinessRelation → Fallible Unit
unfolding validate_non_empty validate_attributes text_eq
validate_business_relation relation = do
  validate_non_empty (codes "business relation id") relation.id
  validate_non_empty (codes "business relation source business object id")
      relation.source_business_object_id
  validate_non_empty (codes "business relation target business object id")
      relation.target_business_object_id
  validate_non_empty (codes "business relation type") relation.relation_type
  reject_if (text_eq relation.source_business_object_id relation.target_business_object_id)
      (business_relation_self_reference relation.source_business_object_id)
  validate_attributes invalid_business_relation_attribute_key
      sensitive_business_relation_attribute_key invalid_business_relation_attribute_value
      relation.attributes
