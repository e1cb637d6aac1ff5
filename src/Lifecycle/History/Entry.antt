-- ===== src/Lifecycle/History/Entry.antt =====
-- What the public view of a history record, of crates/matrixpost-core/src/lifecycle.rs, tells.
use matri_xpost.Prelude.{
  ◌≡◌, refl, ap₂, ◌↔◌, List, [], ◌∷◌, map, Option, none, some, true, ◌&&◌, ok,
}
use matri_xpost.Types.Enums.{Platform, PublishState, queued, state_eq}
use matri_xpost.Types.Account.{as_str, from_str}
use matri_xpost.Types.Account.Laws.{from_str-as_str}
use matri_xpost.Types.Request.{LocalSchedule}
use matri_xpost.Types.State.{state_from_db}
use matri_xpost.Lifecycle.Records.{HistoryRecord}
use matri_xpost.Lifecycle.History.{history_entry, publication_state_label, is_some}
use matri_xpost.Storage.Schema.{External}

state_from_db-publication_state_label :
    (s : PublishState) → state_from_db (publication_state_label s) ≡ ok s
unfolding state_from_db publication_state_label
state_from_db-publication_state_label PublishState.draft = refl
state_from_db-publication_state_label _ = refl

from_str-targets : (ps : List Platform) → map from_str (map as_str ps) ≡ map (λ p. ok p) ps
from_str-targets [] = refl
from_str-targets (p ∷ ps) = ap₂ (λ q qs. q ∷ qs) (from_str-as_str p) (from_str-targets ps)

scheduled_iff :
    (s : PublishState) (at : Option LocalSchedule)
    → ((state_eq s queued && is_some at) ≡ true)
      ↔ ((s ≡ queued) × ((t : LocalSchedule) × (at ≡ some t)))
unfolding state_eq
scheduled_iff queued (some t) = (λ h. (refl, (t, refl)), λ h. refl)
scheduled_iff queued none = (λ h. cc h, λ h. cc h.1.1)
scheduled_iff _ at = (λ h. cc h, λ h. cc h.0)

module _ (x : External) (r : HistoryRecord) where
  -- The state and the targets of a public entry read back as those of the record, and the entry is
  -- scheduled exactly when the record is queued and its request has a schedule.
  pub history_entry-reads :
      (state_from_db (history_entry x r).state ≡ ok r.state)
      × ((map from_str (history_entry x r).targets ≡ map (λ p. ok p) r.request.targets)
          × (((history_entry x r).scheduled ≡ true)
              ↔ ((r.state ≡ queued) × ((t : LocalSchedule) × (r.request.scheduled_at ≡ some t)))))
  unfolding history_entry
  history_entry-reads = (
    state_from_db-publication_state_label r.state,
    (from_str-targets r.request.targets, scheduled_iff r.state r.request.scheduled_at),
  )
