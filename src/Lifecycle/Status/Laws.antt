-- ===== src/Lifecycle/Status/Laws.antt =====
-- Where the controlled states can lead, and their texts in the database.
use matri_xpost.Prelude.{ℕ, ◌+◌, ◌<◌, ◌≤◌, ◌≡◌, refl, true, List, [], ◌∷◌, length, ok, arith}
use matri_xpost.Types.Enums.{
  BusinessObjectStatus, active, completed, archived, ApprovalStatus, pending, LedgerDirection,
  expense,
}
use matri_xpost.Lifecycle.Status.{
  status_can_transition_to, status_db, status_from_db, approval_db, approval_from_db, direction_db,
  direction_from_db,
}

-- A sequence of lifecycle states, each reached from the one before by a legal update.
pub data Leads : BusinessObjectStatus → List BusinessObjectStatus → Type 0 where
  stay : {s : BusinessObjectStatus} → Leads s []
  step :
      {s t : BusinessObjectStatus} {ts : List BusinessObjectStatus}
      → status_can_transition_to s t ≡ true
      → Leads t ts
      → Leads s (t ∷ ts)

rank : BusinessObjectStatus → ℕ
rank BusinessObjectStatus.draft = 0
rank active = 1
rank completed = 2
rank archived = 3

rank-rises : (s t : BusinessObjectStatus) → status_can_transition_to s t ≡ true → rank s < rank t
unfolding rank status_can_transition_to
rank-rises s t h = ground arith

rank_le : (s : BusinessObjectStatus) → rank s ≤ 3
unfolding rank
rank_le s = ground arith

length-rank_le :
    (s : BusinessObjectStatus) (ts : List BusinessObjectStatus)
    → Leads s ts
    → length ts + rank s ≤ 3
length-rank_le s [] stay = omega (arith, rank_le s)
length-rank_le s (t ∷ ts) (step legal rest) =
    omega (arith, rank-rises s t legal, length-rank_le t ts rest)

-- A business object changes its lifecycle state three times at most, whatever the updates.
pub length-Leads_le :
    (s : BusinessObjectStatus) (ts : List BusinessObjectStatus) → Leads s ts → length ts ≤ 3
length-Leads_le s ts leads = omega (arith, length-rank_le s ts leads)

status_from_db-status_db : (s : BusinessObjectStatus) → status_from_db (status_db s) ≡ ok s
unfolding status_from_db status_db
status_from_db-status_db active = refl
status_from_db-status_db _ = refl

approval_from_db-approval_db : (s : ApprovalStatus) → approval_from_db (approval_db s) ≡ ok s
unfolding approval_from_db approval_db
approval_from_db-approval_db pending = refl
approval_from_db-approval_db _ = refl

direction_from_db-direction_db : (s : LedgerDirection) → direction_from_db (direction_db s) ≡ ok s
unfolding direction_from_db direction_db
direction_from_db-direction_db expense = refl
direction_from_db-direction_db _ = refl

-- Each state of a business object, each approval and each direction of a ledger entry is read back
-- from the text that it is stored as.
pub from_db-db :
    (s : BusinessObjectStatus) (a : ApprovalStatus) (d : LedgerDirection)
    → (status_from_db (status_db s) ≡ ok s)
      × (approval_from_db (approval_db a) ≡ ok a)
      × (direction_from_db (direction_db d) ≡ ok d)
from_db-db s a d =
    (status_from_db-status_db s, approval_from_db-approval_db a, direction_from_db-direction_db d)
