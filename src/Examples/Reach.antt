-- ===== src/Examples/Reach.antt =====
-- A database that one call reaches, and the theorem on it.
use matri_xpost.Prelude.{[], none, false}
use matri_xpost.Text.{codes}
use matri_xpost.Examples.{sample_external}
use matri_xpost.Types.Enums.{BusinessObjectStatus, pending}
use matri_xpost.Lifecycle.Records.{BusinessObject}
use matri_xpost.Storage.Schema.{Db}
use matri_xpost.Storage.Sql.{Connection}
use matri_xpost.Storage.Consistent.{IsConsistent}
use matri_xpost.Storage.Consistent.Reach.{
  create_object, new_db, opened, called, run, Reachable-IsConsistent,
}

abbrev new_object : BusinessObject
new_object = record {
  id = codes "object-9";
  kind = codes "campaign";
  external_id = none;
  display_name = codes "Spring";
  lifecycle_status = BusinessObjectStatus.draft;
  approval_status = pending;
  revision = 0;
  attributes = [];
  created_at = 5;
  updated_at = 5;
}

abbrev reached : Connection Db
reached =
    run sample_external (create_object new_object)
      (record { db = new_db; poisoned = false; faults = [] })

Reachable-IsConsistent_example : IsConsistent reached.db
Reachable-IsConsistent_example =
    Reachable-IsConsistent sample_external reached
      (called (opened false []) (create_object new_object))
