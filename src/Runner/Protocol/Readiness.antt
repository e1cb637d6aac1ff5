-- ===== src/Runner/Protocol/Readiness.antt =====
-- The account-readiness protocol of crates/matrixpost-core/src/runner/protocol.rs.
use matri_xpost.Prelude.{ℕ, Option}
use matri_xpost.Types.Enums.{Platform, platform_eq}
use matri_xpost.Runner.Protocol.{some_if, is_answer}

-- `ACCOUNT_STATUS_RUNNER_PROTOCOL_VERSION`
abbrev pub account_status_version : ℕ
account_status_version = 1

pub record AccountStatusRunnerRequest : Type 0 where
  pub version : ℕ
  pub platform : Platform

pub data AccountStatusRunnerResponse : Type 0 where
  ready_response not_ready_response unavailable_response rejected_response :
      ℕ → Platform → AccountStatusRunnerResponse

pub data AccountReadiness : Type 0 where
  ready not_ready unavailable rejected : AccountReadiness

unfoldable pub into_readiness : Platform → AccountStatusRunnerResponse → Option AccountReadiness
unfolding platform_eq
into_readiness expected (ready_response version platform) =
    some_if (is_answer account_status_version version platform expected) ready
into_readiness expected (not_ready_response version platform) =
    some_if (is_answer account_status_version version platform expected) not_ready
into_readiness expected (unavailable_response version platform) =
    some_if (is_answer account_status_version version platform expected) unavailable
into_readiness expected (rejected_response version platform) =
    some_if (is_answer account_status_version version platform expected) rejected
