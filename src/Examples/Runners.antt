-- ===== src/Examples/Runners.antt =====
-- The theorems on the registry, the scheduler and the article queue, on small inputs.
use matri_xpost.Prelude.{ℕ, ◌≡◌, ◌↔◌, ◌⊎◌, refl, ◌==◌, true, [], ◌∷◌, none, some, ok, err}
use matri_xpost.Examples.{due, sample_request, sample_external, waiting, later, db_with, connect}
use matri_xpost.Text.{Text, codes, is_blank, trim, is_whitespace}
use matri_xpost.Error.{DomainError, repository_poisoned}
use matri_xpost.Types.Enums.{
  Platform, douyin, index, platform_eq, dispatching, published, unavailable, failed,
}
use matri_xpost.Types.Request.{
  validate, validate_schedule, as_naive, validate_source, platform_set, insert_platform,
  contains_platform,
}
use matri_xpost.Lifecycle.Records.{ScheduledJob}
use matri_xpost.Storage.Schema.{Db}
use matri_xpost.Storage.Sql.{Connection, locked}
use matri_xpost.Storage.Articles.{requeue_article_claim}
use matri_xpost.Storage.Articles.Safe.{article_requeue_failed, article_error-unchanged}
use matri_xpost.Storage.Dispatch.{provider_dispatch_history_outcome}
use matri_xpost.Storage.Dispatch.Recorded.{
  AllOf, IsQueued, IsUnavailable, provider_dispatch_history_outcome_iff,
}
use matri_xpost.Runner.Outcomes.{available, queued, empty, insert, values}
use matri_xpost.Runner.Config.{Net, ProviderRunner, tcp, validate_transport}
use matri_xpost.Runner.Registry.{
  Provider, ProviderRegistry, ProviderDispatchReport, declare_runners, install_runners,
  from_runners, dispatch_all,
}
use matri_xpost.Runner.Registry.Laws.{Answer, dispatch_all-Answer}
use matri_xpost.Runner.Registry.Declared.{IsLoopback, from_runners-IsLoopback}
use matri_xpost.Scheduler.{settle_job}
use matri_xpost.Scheduler.Settled.{Settled, settle_job-Settled}

abbrev quiet : DomainError → Text
quiet e = codes "failed"

-- A provider that leaves its address in the world.
abbrev noting : Platform → ℕ → Provider ℕ
noting p address = record {
  platform = p;
  availability = λ w. available;
  enqueue = λ r w. (ok (queued (codes "remote-1")), address);
}

-- Address 0 is the loopback.
abbrev net : Net ℕ
net = record {
  is_absolute = λ t. true;
  to_string_lossy = λ t. t;
  is_loopback = λ a. a == 0;
  parse_address = λ t. none;
}

abbrev declared : ProviderRunner ℕ
declared = record { platform = douyin; transport = tcp 0 }

abbrev built : ProviderRegistry ℕ ℕ
built = record {
  providers = insert douyin (noting douyin 0) empty;
  runners = insert douyin declared empty;
}

built_run : from_runners net noting (declared ∷ []) ≡ ok built
unfolding from_runners declare_runners validate_transport install_runners values insert
built_run = refl

at_douyin : built.providers douyin ≡ some (noting douyin 0)
unfolding insert platform_eq index
at_douyin = refl

valid_run : validate sample_external.valid_schedule sample_request ≡ ok tt
unfolding validate is_blank trim is_whitespace platform_set insert_platform contains_platform
    platform_eq index validate_schedule as_naive validate_source
valid_run = refl

from_runners-IsLoopback_example : IsLoopback net noting douyin (noting douyin 0)
from_runners-IsLoopback_example =
    from_runners-IsLoopback net noting (declared ∷ []) built douyin (noting douyin 0) built_run
      at_douyin

dispatch_all-Answer_example :
    (report : ProviderDispatchReport) × (w' : ℕ) × (dispatch_all sample_external.valid_schedule
        built sample_request quiet 7
      ≡ (ok report, w'))
    × ((q : Platform)
        → Answer sample_external.valid_schedule built sample_request quiet q
            (contains_platform q sample_request.targets)
            (report q))
dispatch_all-Answer_example =
    dispatch_all-Answer sample_external.valid_schedule built sample_request quiet 7 valid_run

abbrev one_outcome : ProviderDispatchReport
one_outcome = insert douyin (queued (codes "remote-1")) empty

provider_dispatch_history_outcome_iff_example :
    (((provider_dispatch_history_outcome one_outcome).0 ≡ published) ↔ AllOf IsQueued one_outcome)
    × (((provider_dispatch_history_outcome one_outcome).0 ≡ unavailable)
        ↔ AllOf IsUnavailable one_outcome)
    × (((provider_dispatch_history_outcome one_outcome).0 ≡ published)
        ⊎ (((provider_dispatch_history_outcome one_outcome).0 ≡ unavailable)
            ⊎ ((provider_dispatch_history_outcome one_outcome).0 ≡ failed)))
provider_dispatch_history_outcome_iff_example = provider_dispatch_history_outcome_iff one_outcome

abbrev claimed : ScheduledJob
claimed = record {
  id = codes "job-1";
  request = sample_request;
  state = dispatching;
  due_at = some (record { text = due });
  revision = 1;
  updated_at = 7;
}

abbrev start : Connection Db
start = connect (
    db_with (
      record waiting { state = codes "dispatching"; revision = 1; updated_at = 7 ∷ [] }
      ∷ later
      ∷ []))

settle_job-Settled_example :
    Settled sample_external 9 claimed start
      (settle_job sample_external built quiet 9 claimed (start, 7)).0
settle_job-Settled_example = settle_job-Settled sample_external built quiet 9 claimed start 7

abbrev poisoned : Connection Db
poisoned = record start { poisoned = true }

poisoned_run :
    requeue_article_claim sample_external (codes "article-job-1") 0 9 poisoned
    ≡ (err repository_poisoned, poisoned)
unfolding requeue_article_claim locked
poisoned_run = refl

article_error-unchanged_example : poisoned.db ≡ poisoned.db
article_error-unchanged_example =
    article_error-unchanged sample_external poisoned poisoned
      (article_requeue_failed repository_poisoned (codes "article-job-1") 0 9 poisoned_run)
