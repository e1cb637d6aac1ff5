-- ===== src/Types/State.antt =====
-- `PublishState` of crates/matrixpost-core/src/types/article.rs: the transition graph of a job and
-- the text under which a state is stored.
pub mod Laws
use matri_xpost.Prelude.{Bool, true, false, List, [], ◌∷◌, if◌then◌else◌, ok, err}
use matri_xpost.Text.{Text, codes, text_eq}
use matri_xpost.Error.{Fallible, invalid_state_transition, corrupt_state}
use matri_xpost.Types.Enums.{
  PublishState, draft, queued, dispatching, published, failed, unavailable,
}

-- `PublishState::can_transition_to`
unfoldable pub can_transition_to : PublishState → PublishState → Bool
can_transition_to PublishState.draft queued = true
can_transition_to PublishState.draft PublishState.unavailable = true
can_transition_to queued dispatching = true
can_transition_to queued failed = true
can_transition_to queued PublishState.unavailable = true
can_transition_to dispatching published = true
can_transition_to dispatching failed = true
can_transition_to dispatching PublishState.unavailable = true
can_transition_to _ _ = false

-- `PublishState::transition`
unfoldable pub transition : PublishState → PublishState → Fallible PublishState
unfolding can_transition_to
transition from to =
    if can_transition_to from to then ok to else err (invalid_state_transition from to)

-- `PublishState::db`
unfoldable pub state_db : PublishState → Text
state_db PublishState.draft = codes "draft"
state_db queued = codes "queued"
state_db dispatching = codes "dispatching"
state_db published = codes "published"
state_db failed = codes "failed"
state_db PublishState.unavailable = codes "unavailable"

-- `PublishState::from_db`
unfoldable pub state_from_db : Text → Fallible PublishState
unfolding text_eq
state_from_db value =
    if text_eq value (codes "draft")
    then ok PublishState.draft
    else if text_eq value (codes "queued")
    then ok queued
    else if text_eq value (codes "dispatching")
    then ok dispatching
    else if text_eq value (codes "published")
    then ok published
    else if text_eq value (codes "failed")
    then ok failed
    else if text_eq value (codes "unavailable")
    then ok PublishState.unavailable
    else err (corrupt_state value)
