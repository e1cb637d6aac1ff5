-- ===== src/Runner/Protocol/TerminalQr.antt =====
-- The terminal QR login protocol of crates/matrixpost-core/src/runner/protocol.rs.
use matri_xpost.Prelude.{ℕ, ◌+◌, Bool, true, false, ◌&&◌, ◌||◌, not, Option, ◌==◌, leb, length, all}
use matri_xpost.Text.{Text, bytes, is_empty, is_ascii_alphanumeric}
use matri_xpost.Types.Enums.{Platform, douyin, wechat_channels, platform_eq}
use matri_xpost.Runner.Protocol.{some_if}
use matri_xpost.Runner.Png.{png_base64_max_bytes, png_base64_is_valid}

-- `TERMINAL_QR_LOGIN_RUNNER_PROTOCOL_VERSION`
abbrev pub terminal_qr_version : ℕ
terminal_qr_version = 1

-- `TERMINAL_QR_LOGIN_ATTEMPT_TOKEN_MAX_BYTES`
abbrev pub attempt_token_max_bytes : ℕ
attempt_token_max_bytes = 128

-- `TERMINAL_QR_LOGIN_RESPONSE_MAX_BYTES`
abbrev pub response_max_bytes : ℕ
response_max_bytes = png_base64_max_bytes + 4096

pub record TerminalQrLoginRunnerRequest : Type 0 where
  pub version : ℕ
  pub platform : Platform

pub record TerminalQrLoginRefreshRequest : Type 0 where
  pub version : ℕ
  pub platform : Platform
  pub attempt_token : Text

pub record TerminalQrLoginCancelRequest : Type 0 where
  pub version : ℕ
  pub platform : Platform
  pub attempt_token : Text

-- `matches!(platform, Platform::Douyin | Platform::WechatChannels)`
abbrev pub has_terminal_qr : Platform → Bool
has_terminal_qr douyin = true
has_terminal_qr wechat_channels = true
has_terminal_qr _ = false

abbrev pub terminal_qr_request_matches : ℕ → Platform → Bool
terminal_qr_request_matches version platform =
    version == terminal_qr_version && has_terminal_qr platform

abbrev pub terminal_qr_response_matches : ℕ → Platform → Platform → Bool
terminal_qr_response_matches version platform expected =
    version == terminal_qr_version && platform_eq platform expected && has_terminal_qr platform

-- The closure over the bytes of a token.
abbrev pub is_token_byte : ℕ → Bool
is_token_byte byte = is_ascii_alphanumeric byte || (byte == b'-' || byte == b'_')

unfoldable pub attempt_token_is_valid : Text → Bool
unfolding bytes is_ascii_alphanumeric
attempt_token_is_valid value =
    not (is_empty value)
    && leb (length (bytes value)) attempt_token_max_bytes
    && all is_token_byte (bytes value)

-- `TerminalQrLoginRunnerRequest::validate`
unfoldable pub qr_request_is_valid : TerminalQrLoginRunnerRequest → Bool
qr_request_is_valid request =
    request.version == terminal_qr_version && has_terminal_qr request.platform

-- `TerminalQrLoginRefreshRequest::validate`
unfoldable pub refresh_request_is_valid : TerminalQrLoginRefreshRequest → Bool
unfolding attempt_token_is_valid
refresh_request_is_valid request =
    terminal_qr_request_matches request.version request.platform
    && attempt_token_is_valid request.attempt_token

-- `TerminalQrLoginCancelRequest::validate`
unfoldable pub cancel_request_is_valid : TerminalQrLoginCancelRequest → Bool
unfolding attempt_token_is_valid
cancel_request_is_valid request =
    terminal_qr_request_matches request.version request.platform
    && attempt_token_is_valid request.attempt_token

-- The texts are the attempt token and the base64 of the image.
pub data TerminalQrLoginRunnerResponse : Type 0 where
  qr_available_response : ℕ → Platform → Text → Text → TerminalQrLoginRunnerResponse
  pending_response : ℕ → Platform → Text → TerminalQrLoginRunnerResponse
  timed_out_response cancelled_response unavailable_response rejected_response :
      ℕ → Platform → TerminalQrLoginRunnerResponse

pub data TerminalQrLoginOutcome : Type 0 where
  qr_available : Text → Text → TerminalQrLoginOutcome
  pending : Text → TerminalQrLoginOutcome
  timed_out cancelled unavailable rejected : TerminalQrLoginOutcome

unfoldable pub into_terminal_qr_login :
    Platform → TerminalQrLoginRunnerResponse → Option TerminalQrLoginOutcome
unfolding attempt_token_is_valid png_base64_is_valid platform_eq
into_terminal_qr_login expected (qr_available_response version platform token png) =
    some_if
      (terminal_qr_response_matches version platform expected
        && attempt_token_is_valid token
        && png_base64_is_valid png)
      (qr_available token png)
into_terminal_qr_login expected (pending_response version platform token) =
    some_if (terminal_qr_response_matches version platform expected && attempt_token_is_valid token)
      (pending token)
into_terminal_qr_login expected (timed_out_response version platform) =
    some_if (terminal_qr_response_matches version platform expected) timed_out
into_terminal_qr_login expected (cancelled_response version platform) =
    some_if (terminal_qr_response_matches version platform expected) cancelled
into_terminal_qr_login expected (unavailable_response version platform) =
    some_if (terminal_qr_response_matches version platform expected) unavailable
into_terminal_qr_login expected (rejected_response version platform) =
    some_if (terminal_qr_response_matches version platform expected) rejected
