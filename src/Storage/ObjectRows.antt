-- ===== src/Storage/ObjectRows.antt =====
-- The rows of business objects, ledger entries, attributions and relations, written and read as crates/matrixpost-core/src/storage/lifecycle.rs does.
use matri_xpost.Prelude.{Option, none, some, ok, map_err, ◌>>=◌}
use matri_xpost.Error.{Fallible, serialization}
use matri_xpost.Lifecycle.Records.{
  BusinessObject, LedgerEntry, ContentAttribution, BusinessRelation,
}
use matri_xpost.Lifecycle.Status.{
  status_db, status_from_db, approval_db, approval_from_db, direction_db, direction_from_db,
}
use matri_xpost.Storage.Schema.{External, BusinessObjectRow, LedgerRow, AttributionRow, RelationRow}
use matri_xpost.Storage.Rows.{parse_time, sql_u64}

module _ (x : External) where
  -- `row_to_business_object`
  unfoldable pub row_to_business_object : BusinessObjectRow → Fallible BusinessObject
  row_to_business_object row = do
    lifecycle_status ← status_from_db row.lifecycle_status
    approval_status ← approval_from_db row.approval_status
    attributes ← map_err serialization (x.attributes_from_json row.attributes_json)
    created_at ← parse_time x row.created_at
    updated_at ← parse_time x row.updated_at
    ok (record {
      id = row.id;
      kind = row.kind;
      external_id = row.external_id;
      display_name = row.display_name;
      lifecycle_status = lifecycle_status;
      approval_status = approval_status;
      revision = row.revision;
      attributes = attributes;
      created_at = created_at;
      updated_at = updated_at;
    })

  unfoldable pub decode_object : Option BusinessObjectRow → Fallible (Option BusinessObject)
  decode_object none = ok none
  decode_object (some row) = do object ← row_to_business_object row; ok (some object)

  -- The parameters of `INSERT INTO business_objects`.
  unfoldable pub object_to_row : BusinessObject → Fallible BusinessObjectRow
  object_to_row object = do
    attributes ← map_err serialization (x.attributes_json object.attributes)
    revision ← sql_u64 x object.revision
    ok (record {
      id = object.id;
      kind = object.kind;
      external_id = object.external_id;
      display_name = object.display_name;
      lifecycle_status = status_db object.lifecycle_status;
      approval_status = approval_db object.approval_status;
      revision = revision;
      attributes_json = attributes;
      created_at = x.to_rfc3339 object.created_at;
      updated_at = x.to_rfc3339 object.updated_at;
    })

  unfoldable pub row_to_ledger_entry : LedgerRow → Fallible LedgerEntry
  row_to_ledger_entry row = do
    direction ← direction_from_db row.direction
    occurred_at ← parse_time x row.occurred_at
    approval_status ← approval_from_db row.approval_status
    created_at ← parse_time x row.created_at
    ok (record {
      id = row.id;
      business_object_id = row.business_object_id;
      direction = direction;
      category = row.category;
      amount_minor = row.amount_minor;
      currency = row.currency;
      occurred_at = occurred_at;
      approval_status = approval_status;
      counterparty = row.counterparty;
      reference = row.reference;
      description = row.description;
      created_at = created_at;
    })

  -- The parameters of `INSERT INTO ledger_entries`.
  unfoldable pub ledger_to_row : LedgerEntry → LedgerRow
  ledger_to_row entry = record {
    id = entry.id;
    business_object_id = entry.business_object_id;
    direction = direction_db entry.direction;
    category = entry.category;
    amount_minor = entry.amount_minor;
    currency = entry.currency;
    occurred_at = x.to_rfc3339 entry.occurred_at;
    approval_status = approval_db entry.approval_status;
    counterparty = entry.counterparty;
    reference = entry.reference;
    description = entry.description;
    created_at = x.to_rfc3339 entry.created_at;
  }

  unfoldable pub row_to_content_attribution : AttributionRow → Fallible ContentAttribution
  row_to_content_attribution row = do
    created_at ← parse_time x row.created_at
    ok (record {
      business_object_id = row.business_object_id;
      history_id = row.history_id;
      created_at = created_at;
    })

  -- The parameters of `INSERT INTO content_attributions`.
  unfoldable pub attribution_to_row : ContentAttribution → AttributionRow
  attribution_to_row attribution = record {
    business_object_id = attribution.business_object_id;
    history_id = attribution.history_id;
    created_at = x.to_rfc3339 attribution.created_at;
  }

  unfoldable pub row_to_business_relation : RelationRow → Fallible BusinessRelation
  row_to_business_relation row = do
    attributes ← map_err serialization (x.attributes_from_json row.attributes_json)
    created_at ← parse_time x row.created_at
    ok (record {
      id = row.id;
      source_business_object_id = row.source_business_object_id;
      target_business_object_id = row.target_business_object_id;
      relation_type = row.relation_type;
      attributes = attributes;
      created_at = created_at;
    })

  -- The parameters of `INSERT INTO business_relations`.
  unfoldable pub relation_to_row : BusinessRelation → Fallible RelationRow
  relation_to_row relation = do
    attributes ← map_err serialization (x.attributes_json relation.attributes)
    ok (record {
      id = relation.id;
      source_business_object_id = relation.source_business_object_id;
      target_business_object_id = relation.target_business_object_id;
      relation_type = relation.relation_type;
      attributes_json = attributes;
      created_at = x.to_rfc3339 relation.created_at;
    })
