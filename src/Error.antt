-- ===== src/Error.antt =====
-- crates/matrixpost-core/src/error.rs: the failures at domain and persistence boundaries. A payload
-- that is a Rust `u64` is a number, an `i64` a ℤ, and a `String` a text.
use matri_xpost.Prelude.{ℕ, ℤ, Result}
use matri_xpost.Text.{Text}
use matri_xpost.Types.Enums.{Platform, PublishState, BusinessObjectStatus, ApprovalStatus}

pub data DomainError : Type 0 where
  unknown_platform : Text → DomainError
  empty_title invalid_account_route empty_short_title empty_task_name : DomainError
  empty_article_content missing_targets duplicate_targets duplicate_overrides : DomainError
  override_outside_targets : DomainError
  provider_platform_not_target : Platform → DomainError
  empty_local_path : DomainError
  unsupported_remote_scheme invalid_schedule : Text → DomainError
  invalid_state_transition : PublishState → PublishState → DomainError
  unknown_job : Text → DomainError
  stale_job_revision : Text → ℕ → ℕ → DomainError
  concurrent_job_update corrupt_state : Text → DomainError
  repository_poisoned : DomainError
  database serialization io remote_media disallowed_content_type : Text → DomainError
  remote_media_too_large : ℕ → ℕ → DomainError
  empty_lifecycle_field invalid_business_object_attribute_key : Text → DomainError
  sensitive_business_object_attribute_key invalid_business_object_attribute_value :
      Text → DomainError
  invalid_ledger_amount : ℤ → DomainError
  invalid_currency duplicate_business_object_id : Text → DomainError
  duplicate_business_object_external_id : Text → Text → DomainError
  unknown_business_object : Text → DomainError
  invalid_initial_business_object_revision : ℕ → DomainError
  invalid_business_object_lifecycle_transition :
      BusinessObjectStatus → BusinessObjectStatus → DomainError
  invalid_business_object_approval_transition : ApprovalStatus → ApprovalStatus → DomainError
  business_object_transition_noop : Text → DomainError
  stale_business_object_revision : Text → ℕ → ℕ → DomainError
  concurrent_business_object_update business_object_revision_overflow : Text → DomainError
  duplicate_ledger_entry_id duplicate_business_relation_id : Text → DomainError
  duplicate_business_relation : Text → Text → Text → DomainError
  business_relation_self_reference invalid_business_relation_attribute_key : Text → DomainError
  sensitive_business_relation_attribute_key invalid_business_relation_attribute_value :
      Text → DomainError
  unknown_history_record : Text → DomainError
  duplicate_content_attribution : Text → Text → DomainError

-- A computation with `?` on `DomainError`.
abbrev pub Fallible : Type 0 → Type 0
Fallible A = Result DomainError A
