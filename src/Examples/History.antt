-- ===== src/Examples/History.antt =====
-- A history query on a small history.
use matri_xpost.Prelude.{◌*◌, ◌≡◌, refl, ◌↔◌, true, map, false, List, [], ◌∷◌, none, some, ok}
use matri_xpost.Examples.{sample_request, sample_external}
use matri_xpost.Text.{codes}
use matri_xpost.Types.Enums.{PublishState, queued, douyin, published}
use matri_xpost.Types.Request.{LocalSchedule, contains_platform}
use matri_xpost.Types.Account.{from_str}
use matri_xpost.Types.State.{state_from_db}
use matri_xpost.Types.Article.{Time}
use matri_xpost.Lifecycle.Records.{HistoryRecord}
use matri_xpost.Lifecycle.History.{
  history_entry, success, HistoryFilter, day, from_query, status_matches, matches, filter_history,
}
use matri_xpost.Lifecycle.History.Selects.{Answer, from_query-Answer}
use matri_xpost.Lifecycle.History.Entry.{history_entry-reads}

abbrev record_at : PublishState → Time → HistoryRecord
record_at state time = record {
  id = codes "history-1";
  request = sample_request;
  state = state;
  recorded_at = time;
  detail = none;
}

abbrev history : List HistoryRecord
history =
    record_at published (9 * day)
    ∷ record_at PublishState.failed (9 * day)
    ∷ record_at published (2 * day)
    ∷ []

abbrev last_week : HistoryFilter
last_week = record { cutoff = some (3 * day); platform = some douyin; status = some success }

last_week-history : filter_history last_week history ≡ record_at published (9 * day) ∷ []
unfolding filter_history matches contains_platform status_matches
last_week-history = refl

from_query-Answer_example :
    Answer none
      (some douyin)
      (some success)
      (10 * day)
      false
      history
      (from_query none false (some douyin) (some success) (10 * day))
from_query-Answer_example =
    from_query-Answer none (some douyin) (some success) (10 * day) history false

abbrev queued_record : HistoryRecord
queued_record = record_at queued (9 * day)

history_entry-reads_example :
    (state_from_db (history_entry sample_external queued_record).state ≡ ok queued)
    × ((map from_str (history_entry sample_external queued_record).targets
          ≡ map (λ p. ok p) sample_request.targets)
        × (((history_entry sample_external queued_record).scheduled ≡ true)
            ↔ ((queued ≡ queued) × ((t : LocalSchedule) × (sample_request.scheduled_at ≡ some t)))))
history_entry-reads_example = history_entry-reads sample_external queued_record
