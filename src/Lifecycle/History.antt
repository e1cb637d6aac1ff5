-- ===== src/Lifecycle/History.antt =====
-- The history query and the public view of a history record, of
-- crates/matrixpost-core/src/lifecycle.rs.
pub mod Selects
pub mod Entry
use matri_xpost.Prelude.{
  ℕ, ◌+◌, ◌*◌, ◌-◌, Bool, true, false, ◌&&◌, List, [], ◌∷◌, map, filter, Option, none, some, Result,
  ok, err, if◌then◌else◌, ltb, leb, ◌==◌,
}
use matri_xpost.Text.{Text, codes, text_eq, trim, to_ascii_lowercase}
use matri_xpost.Types.Enums.{Platform, PublishState, queued, dispatching, published, state_eq}
use matri_xpost.Types.Account.{as_str}
use matri_xpost.Types.Request.{contains_platform}
use matri_xpost.Types.Article.{Time}
use matri_xpost.Lifecycle.Records.{HistoryRecord}
use matri_xpost.Storage.Schema.{External}

pub data HistoryStatus : Type 0 where
  success failed publishing scheduled : HistoryStatus

pub data HistoryFilterError : Type 0 where
  non_positive_days : HistoryFilterError
  invalid_status : Text → HistoryFilterError

-- `HistoryStatus::from_str`
unfoldable pub history_status_from_str : Text → Result HistoryFilterError HistoryStatus
unfolding text_eq trim to_ascii_lowercase
history_status_from_str value =
    let status = to_ascii_lowercase (trim value) in
    if text_eq status (codes "success")
    then ok success
    else if text_eq status (codes "failed")
    then ok HistoryStatus.failed
    else if text_eq status (codes "publishing")
    then ok publishing
    else if text_eq status (codes "scheduled")
    then ok scheduled
    else err (invalid_status value)

pub record HistoryFilter : Type 0 where
  pub cutoff : Option Time
  pub platform : Option Platform
  pub status : Option HistoryStatus

-- The nanoseconds of a day.
abbrev pub day : ℕ
day = 86400000000000

-- `days.unwrap_or(7)`
abbrev pub trailing_days : Option ℕ → ℕ
trailing_days none = 7
trailing_days (some days) = days

-- `HistoryFilter::from_query`: `none` is the panic of `DateTime - TimeDelta` where the difference is
-- before chrono's earliest instant. `days` is a `u16`.
unfoldable pub from_query :
    Option ℕ
    → Bool
    → Option Platform
    → Option HistoryStatus
    → Time
    → Option (Result HistoryFilterError HistoryFilter)
from_query days true platform status now =
    some (ok (record { cutoff = none; platform = platform; status = status }))
from_query days false platform status now =
    if trailing_days days == 0
    then some (err non_positive_days)
    else if ltb now (trailing_days days * day)
    then none
    else some (
        ok (record {
          cutoff = some (now - trailing_days days * day);
          platform = platform;
          status = status;
        }))

-- `Option::is_none_or`
abbrev pub is_none_or {ℓ} : {A : Type ℓ} → Option A → (A → Bool) → Bool
is_none_or none p = true
is_none_or (some a) p = p a

-- `HistoryStatus::matches`
unfoldable pub status_matches : HistoryStatus → PublishState → Bool
unfolding state_eq
status_matches success state = state_eq state published
status_matches HistoryStatus.failed state = state_eq state PublishState.failed
status_matches publishing state = state_eq state dispatching
status_matches scheduled state = state_eq state queued

-- `HistoryFilter::matches`
unfoldable pub matches : HistoryFilter → HistoryRecord → Bool
unfolding contains_platform status_matches
matches f r =
    is_none_or f.cutoff (λ cutoff. leb cutoff r.recorded_at)
    && (is_none_or f.platform (λ platform. contains_platform platform r.request.targets)
        && is_none_or f.status (λ status. status_matches status r.state))

-- `HistoryFilter::filter`
unfoldable pub filter_history : HistoryFilter → List HistoryRecord → List HistoryRecord
unfolding matches
filter_history f history = filter (matches f) history

-- `PublicationHistoryEntry`
pub record PublicationHistoryEntry : Type 0 where
  pub id : Text
  pub state : Text
  pub recorded_at : Text
  pub title : Text
  pub targets : List Text
  pub draft : Bool
  pub scheduled : Bool

unfoldable pub publication_state_label : PublishState → Text
publication_state_label PublishState.draft = codes "draft"
publication_state_label queued = codes "queued"
publication_state_label dispatching = codes "dispatching"
publication_state_label published = codes "published"
publication_state_label PublishState.failed = codes "failed"
publication_state_label PublishState.unavailable = codes "unavailable"

abbrev pub is_some {ℓ} : {A : Type ℓ} → Option A → Bool
is_some none = false
is_some (some a) = true

-- `PublicationHistoryEntry::from`, of a record or of a reference to one.
unfoldable pub history_entry : External → HistoryRecord → PublicationHistoryEntry
unfolding publication_state_label as_str state_eq
history_entry x r = record {
  id = r.id;
  state = publication_state_label r.state;
  recorded_at = x.to_rfc3339 r.recorded_at;
  title = r.request.title;
  targets = map as_str r.request.targets;
  draft = r.request.draft;
  scheduled = state_eq r.state queued && is_some r.request.scheduled_at;
}
