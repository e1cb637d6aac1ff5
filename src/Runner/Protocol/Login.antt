-- ===== src/Runner/Protocol/Login.antt =====
-- The manual-login protocol of crates/matrixpost-core/src/runner/protocol.rs.
use matri_xpost.Prelude.{ℕ, Bool, true, false, Option, none}
use matri_xpost.Text.{Text}
use matri_xpost.Types.Enums.{Platform, platform_eq}
use matri_xpost.Runner.Protocol.{some_if, is_answer}

-- `LOGIN_RUNNER_PROTOCOL_VERSION`
abbrev pub login_version : ℕ
login_version = 1

pub record LoginRunnerRequest : Type 0 where
  pub version : ℕ
  pub platform : Platform

-- `manual_login_required` is the Boolean of `opened_response`, the reason the text of the others.
pub data LoginRunnerResponse : Type 0 where
  opened_response : ℕ → Platform → Bool → LoginRunnerResponse
  unavailable_response rejected_response : ℕ → Platform → Text → LoginRunnerResponse

pub data ManualLoginOutcome : Type 0 where
  opened unavailable rejected : ManualLoginOutcome

unfoldable pub into_manual_login : Platform → LoginRunnerResponse → Option ManualLoginOutcome
unfolding platform_eq
into_manual_login expected (opened_response version platform true) =
    some_if (is_answer login_version version platform expected) opened
into_manual_login expected (opened_response version platform false) = none
into_manual_login expected (unavailable_response version platform reason) =
    some_if (is_answer login_version version platform expected) unavailable
into_manual_login expected (rejected_response version platform reason) =
    some_if (is_answer login_version version platform expected) rejected
