-- ===== src/Storage/Dispatch.antt =====
-- `record_provider_dispatch_history` of crates/matrixpost-core/src/storage.rs: the history of a
-- dispatch that was made at once, without the queue.
pub mod Recorded
use matri_xpost.Prelude.{
  Bool, true, false, ◌&&◌, not, List, [], ◌∷◌, all, Option, some, if◌then◌else◌,
}
use matri_xpost.Text.{Text, codes}
use matri_xpost.Types.Enums.{PublishState, published, failed, unavailable}
use matri_xpost.Types.Request.{PublishRequest, runner_safe}
use matri_xpost.Types.Article.{Time}
use matri_xpost.Lifecycle.Records.{HistoryRecord}
use matri_xpost.Storage.Schema.{External, Db}
use matri_xpost.Storage.History.{insert_terminal_history}
use matri_xpost.Storage.Sql.{Sql, locked, transaction}
use matri_xpost.Runner.Outcomes.{DispatchOutcome, is_queued, is_unavailable, values}
use matri_xpost.Runner.Registry.{ProviderDispatchReport}

abbrev pub is_nil : {A : Type 0} → List A → Bool
is_nil [] = true
is_nil (a ∷ rest) = false

abbrev local_dispatch_completed : Text
local_dispatch_completed =
    codes "local provider workflow completed; remote platform processing is not confirmed"

abbrev local_dispatch_unavailable : Text
local_dispatch_unavailable =
    codes "all local providers were unavailable; no remote provider workflow was attempted"

abbrev local_dispatch_incomplete : Text
local_dispatch_incomplete =
    codes "local provider workflow was incomplete; remote platform processing is not confirmed"

-- `provider_dispatch_history_outcome`
unfoldable pub provider_dispatch_history_outcome : ProviderDispatchReport → PublishState × Text
provider_dispatch_history_outcome report =
    let outcomes = values report in
    if not (is_nil outcomes) && all is_queued outcomes
    then (published, local_dispatch_completed)
    else if not (is_nil outcomes) && all is_unavailable outcomes
    then (unavailable, local_dispatch_unavailable)
    else (failed, local_dispatch_incomplete)

-- `record_provider_dispatch_history`
unfoldable pub record_provider_dispatch_history :
    External → PublishRequest → ProviderDispatchReport → Time → Sql Db HistoryRecord
unfolding provider_dispatch_history_outcome
record_provider_dispatch_history x request report recorded_at =
    let (state, detail) = provider_dispatch_history_outcome report in
    locked (
      transaction (
        insert_terminal_history x (codes "dispatch-history") (runner_safe request) state recorded_at
          (some detail)))
