-- ===== src/Examples/Requests.antt =====
-- The theorems on requests, platform names and job states, on small inputs.
use matri_xpost.Prelude.{
  ◌≡◌, refl, ◌↔◌, inl, Bool, true, false, List, [], ◌∷◌, none, some, ok, Elem,
}
use matri_xpost.Examples.{sample_request}
use matri_xpost.Text.{Text, codes, trim, to_ascii_lowercase}
use matri_xpost.Types.Enums.{douyin, PublishState, queued, dispatching, published}
use matri_xpost.Types.Account.{from_str, platform_alternatives}
use matri_xpost.Types.Account.Laws.{from_str_iff}
use matri_xpost.Types.Request.{PublishRequest, runner_safe, has_account_routing, validate}
use matri_xpost.Types.Request.Laws.{has_account_routing-runner_safe, validate-runner_safe}
use matri_xpost.Types.Request.Valid.{IsValid, validate_iff}
use matri_xpost.Prelude.{length, ◌≤◌}
use matri_xpost.Types.Enums.{BusinessObjectStatus, active, rejected, revenue}
use matri_xpost.Lifecycle.Status.{
  status_can_transition_to, status_db, status_from_db, approval_db, approval_from_db, direction_db,
  direction_from_db,
}
use matri_xpost.Lifecycle.Status.Laws.{stay, step, length-Leads_le, from_db-db}
use matri_xpost.Types.State.{transition, can_transition_to}
use matri_xpost.Types.State.Laws.{walk, walk_terminal, walk_published}

abbrev accept_all : Text → Bool
accept_all _ = true

abbrev routed : PublishRequest
routed = record sample_request { account = record { phone = some (codes "1"); partition = none } }

validate_iff_example :
    (validate accept_all sample_request ≡ ok tt) ↔ IsValid accept_all sample_request
validate_iff_example = validate_iff accept_all sample_request

has_account_routing-runner_safe_example : has_account_routing (runner_safe routed) ≡ false
has_account_routing-runner_safe_example = has_account_routing-runner_safe routed

validate-runner_safe_example : validate accept_all (runner_safe routed) ≡ validate accept_all routed
validate-runner_safe_example = validate-runner_safe accept_all routed

from_str_iff_example :
    (from_str (codes " DouYin ") ≡ ok douyin)
    ↔ Elem (to_ascii_lowercase (trim (codes " DouYin "))) (platform_alternatives douyin)
from_str_iff_example = from_str_iff (codes " DouYin ") douyin

published_run : walk queued (dispatching ∷ published ∷ []) ≡ ok published
unfolding walk transition can_transition_to
published_run = refl

walk_published_example : Elem dispatching (dispatching ∷ published ∷ [])
walk_published_example =
    walk_published queued (dispatching ∷ published ∷ []) (λ e. cc e) (λ e. cc e) published_run

abbrev no_more : List PublishState
no_more = []

stays_run : walk published no_more ≡ ok published
unfolding walk
stays_run = refl

walk_terminal_example : (no_more ≡ []) × (published ≡ published)
walk_terminal_example = walk_terminal published no_more published (inl refl) stays_run

legal_run : status_can_transition_to BusinessObjectStatus.draft active ≡ true
unfolding status_can_transition_to
legal_run = refl

length-Leads_le_example : length (active ∷ []) ≤ 3
length-Leads_le_example =
    length-Leads_le BusinessObjectStatus.draft (active ∷ []) (step legal_run stay)

from_db-db_example :
    (status_from_db (status_db active) ≡ ok active)
    × (approval_from_db (approval_db rejected) ≡ ok rejected)
    × (direction_from_db (direction_db revenue) ≡ ok revenue)
from_db-db_example = from_db-db active rejected revenue
