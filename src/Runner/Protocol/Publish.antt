-- ===== src/Runner/Protocol/Publish.antt =====
-- The messages of the publication protocol in crates/matrixpost-core/src/runner/provider/transport.rs.
use matri_xpost.Prelude.{ℕ, ◌&&◌, not, Option}
use matri_xpost.Text.{Text, is_blank}
use matri_xpost.Types.Enums.{Platform, platform_eq}
use matri_xpost.Types.Request.{PublishRequest}
use matri_xpost.Runner.Outcomes.{DispatchOutcome, queued, unavailable_outcome, rejected}
use matri_xpost.Runner.Protocol.{some_if, is_answer}

-- `PROVIDER_RUNNER_PROTOCOL_VERSION`
abbrev pub provider_version : ℕ
provider_version = 1

pub record ProviderRunnerRequest : Type 0 where
  pub version : ℕ
  pub platform : Platform
  pub request : PublishRequest

-- The text is the job id or the reason.
pub data ProviderRunnerResponse : Type 0 where
  queued_response unavailable_response rejected_response :
      ℕ → Platform → Text → ProviderRunnerResponse

unfoldable pub into_dispatch : Platform → ProviderRunnerResponse → Option DispatchOutcome
unfolding platform_eq is_blank
into_dispatch expected (queued_response version platform job_id) =
    some_if (is_answer provider_version version platform expected && not (is_blank job_id))
      (queued job_id)
into_dispatch expected (unavailable_response version platform reason) =
    some_if (is_answer provider_version version platform expected) (unavailable_outcome reason)
into_dispatch expected (rejected_response version platform reason) =
    some_if (is_answer provider_version version platform expected) (rejected reason)
