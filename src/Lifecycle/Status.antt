-- ===== src/Lifecycle/Status.antt =====
-- The controlled states of business objects and ledger entries, of
-- crates/matrixpost-core/src/lifecycle.rs.
pub mod Laws
use matri_xpost.Prelude.{
  ◌≡◌, Bool, true, false, List, [], ◌∷◌, ◌++◌, Result, ok, err, if◌then◌else◌,
}
use matri_xpost.Text.{Text, codes, text_eq}
use matri_xpost.Error.{DomainError, Fallible, corrupt_state}
use matri_xpost.Types.Enums.{
  BusinessObjectStatus, draft, active, completed, archived, ApprovalStatus, pending, approved,
  rejected, LedgerDirection, expense, revenue,
}

-- The derived equality of `BusinessObjectStatus` and of `ApprovalStatus`.
unfoldable pub status_eq : BusinessObjectStatus → BusinessObjectStatus → Bool
status_eq BusinessObjectStatus.draft BusinessObjectStatus.draft = true
status_eq active active = true
status_eq completed completed = true
status_eq archived archived = true
status_eq _ _ = false

unfoldable pub approval_eq : ApprovalStatus → ApprovalStatus → Bool
approval_eq pending pending = true
approval_eq approved approved = true
approval_eq rejected rejected = true
approval_eq _ _ = false

-- `BusinessObjectStatus::can_transition_to`
unfoldable pub status_can_transition_to : BusinessObjectStatus → BusinessObjectStatus → Bool
status_can_transition_to BusinessObjectStatus.draft active = true
status_can_transition_to BusinessObjectStatus.draft archived = true
status_can_transition_to active completed = true
status_can_transition_to active archived = true
status_can_transition_to completed archived = true
status_can_transition_to _ _ = false

-- `BusinessObjectStatus::db`
unfoldable pub status_db : BusinessObjectStatus → Text
status_db BusinessObjectStatus.draft = codes "draft"
status_db active = codes "active"
status_db completed = codes "completed"
status_db archived = codes "archived"

-- `BusinessObjectStatus::from_db`
unfoldable pub status_from_db : Text → Fallible BusinessObjectStatus
unfolding text_eq
status_from_db value =
    if text_eq value (codes "draft")
    then ok BusinessObjectStatus.draft
    else if text_eq value (codes "active")
    then ok active
    else if text_eq value (codes "completed")
    then ok completed
    else if text_eq value (codes "archived")
    then ok archived
    else err (corrupt_state (codes "business object status: " ++ value))

-- `ApprovalStatus::can_transition_to`
unfoldable pub approval_can_transition_to : ApprovalStatus → ApprovalStatus → Bool
approval_can_transition_to pending approved = true
approval_can_transition_to pending rejected = true
approval_can_transition_to rejected pending = true
approval_can_transition_to _ _ = false

-- `ApprovalStatus::db`
unfoldable pub approval_db : ApprovalStatus → Text
approval_db pending = codes "pending"
approval_db approved = codes "approved"
approval_db rejected = codes "rejected"

-- `ApprovalStatus::from_db`
unfoldable pub approval_from_db : Text → Fallible ApprovalStatus
unfolding text_eq
approval_from_db value =
    if text_eq value (codes "pending")
    then ok pending
    else if text_eq value (codes "approved")
    then ok approved
    else if text_eq value (codes "rejected")
    then ok rejected
    else err (corrupt_state (codes "approval status: " ++ value))

-- `LedgerDirection::db`
unfoldable pub direction_db : LedgerDirection → Text
direction_db expense = codes "expense"
direction_db revenue = codes "revenue"

-- `LedgerDirection::from_db`
unfoldable pub direction_from_db : Text → Fallible LedgerDirection
unfolding text_eq
direction_from_db value =
    if text_eq value (codes "expense")
    then ok expense
    else if text_eq value (codes "revenue")
    then ok revenue
    else err (corrupt_state (codes "ledger direction: " ++ value))
