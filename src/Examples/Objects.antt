-- ===== src/Examples/Objects.antt =====
-- An update of a business object, and the theorem on it.
use matri_xpost.Prelude.{◌≡◌, refl, [], ◌∷◌, none, ok}
use matri_xpost.Examples.{sample_external, db_with, connect}
use matri_xpost.Text.{codes, text_eq}
use matri_xpost.Types.Enums.{active, approved}
use matri_xpost.Lifecycle.Records.{BusinessObject}
use matri_xpost.Lifecycle.Status.{
  status_eq, approval_eq, status_can_transition_to, approval_can_transition_to, status_from_db,
  approval_from_db, status_db, approval_db,
}
use matri_xpost.Storage.Schema.{Db, BusinessObjectRow}
use matri_xpost.Storage.Table.{count_where, update_where}
use matri_xpost.Storage.Rows.{parse_time, sql_u64}
use matri_xpost.Storage.ObjectRows.{row_to_business_object, decode_object}
use matri_xpost.Storage.Sql.{Connection, statement, query, lift, locked, transaction, pure, ◌>>=◌}
use matri_xpost.Storage.Objects.{
  has_object_id, object_at_revision, check_statuses, next_revision, update_objects, load_object,
  move_object, transition_business_object,
}
use matri_xpost.Storage.Objects.Updates.{Updated, transition_business_object-Updated}

abbrev campaign : BusinessObjectRow
campaign = record {
  id = codes "campaign-1";
  kind = codes "campaign";
  external_id = none;
  display_name = codes "Spring";
  lifecycle_status = codes "draft";
  approval_status = codes "pending";
  revision = 3;
  attributes_json = codes "{}";
  created_at = 1 ∷ [];
  updated_at = 2 ∷ [];
}

abbrev before : Connection Db
before = connect (record (db_with []) { business_objects = campaign ∷ [] })

abbrev after : Connection Db
after = connect (record (db_with []) {
  business_objects =
      record campaign {
        lifecycle_status = codes "active";
        approval_status = codes "approved";
        revision = 4;
        updated_at = 5 ∷ [];
      }
      ∷ [];
})

abbrev active_campaign : BusinessObject
active_campaign = record {
  id = codes "campaign-1";
  kind = codes "campaign";
  external_id = none;
  display_name = codes "Spring";
  lifecycle_status = active;
  approval_status = approved;
  revision = 4;
  attributes = [];
  created_at = 1;
  updated_at = 5;
}

update_run :
    transition_business_object sample_external (codes "campaign-1") 3 active approved 5 before
    ≡ (ok active_campaign, after)
unfolding transition_business_object move_object load_object has_object_id object_at_revision
    check_statuses next_revision update_objects count_where update_where parse_time sql_u64
    row_to_business_object decode_object statement query lift locked transaction pure ◌>>=◌
    status_eq approval_eq status_can_transition_to approval_can_transition_to status_from_db
    approval_from_db status_db approval_db text_eq
update_run = refl

transition_business_object-Updated_example :
    Updated sample_external (codes "campaign-1") 3 active approved before.db active_campaign
transition_business_object-Updated_example =
    transition_business_object-Updated sample_external (codes "campaign-1") 3 active approved 5
      before active_campaign after update_run
