-- ===== src/Runner/Client/TerminalQr.antt =====
-- crates/matrixpost-core/src/runner/provider/terminal_qr.rs.
use matri_xpost.Prelude.{
  ℕ, not, ◌||◌, Option, none, some, Result, ok, err, if◌then◌else◌, ltb, length, ◌==◌,
}
use matri_xpost.Text.{Text, codes, bytes}
use matri_xpost.Error.{Fallible, serialization}
use matri_xpost.Types.Enums.{Platform}
use matri_xpost.Runner.Config.{Net, ProviderRunner, loopback_tcp_address}
use matri_xpost.Runner.Protocol.TerminalQr.{
  TerminalQrLoginRunnerRequest, TerminalQrLoginRefreshRequest, TerminalQrLoginCancelRequest,
  TerminalQrLoginRunnerResponse, TerminalQrLoginOutcome, unavailable, rejected, terminal_qr_version,
  response_max_bytes, qr_request_is_valid, refresh_request_is_valid, cancel_request_is_valid,
  into_terminal_qr_login,
}
use matri_xpost.Runner.Client.{TerminalQrLoginTransportError, Transport, http_endpoint, from_body}

-- `serde_json` at the three requests and at the response.
pub record QrCodec : Type 0 where
  pub start_to_string : TerminalQrLoginRunnerRequest → Result Text Text
  pub refresh_to_string : TerminalQrLoginRefreshRequest → Result Text Text
  pub cancel_to_string : TerminalQrLoginCancelRequest → Result Text Text
  pub from_str : Text → Option TerminalQrLoginRunnerResponse

module _ {Address W : Type 0} (net : Net Address) (show_address : Address → Text) (codec : QrCodec)
    (post_json : Transport TerminalQrLoginTransportError W) where
  -- What is made of the answer to a post.
  unfoldable pub read_qr_answer :
      Platform → Result TerminalQrLoginTransportError (ℕ × Text) → TerminalQrLoginOutcome
  unfolding into_terminal_qr_login bytes
  read_qr_answer platform (err failure) = rejected
  read_qr_answer platform (ok (status, body)) =
      if not (status == 200) || ltb response_max_bytes (length (bytes body))
      then rejected
      else from_body rejected (into_terminal_qr_login platform) (codec.from_str body)

  unfoldable pub terminal_qr_login_request_with :
      Text → Text → ProviderRunner Address → W → Fallible TerminalQrLoginOutcome × W
  unfolding loopback_tcp_address read_qr_answer
  terminal_qr_login_request_with path payload runner w = elim (loopback_tcp_address net runner) [
    | none ↦ (ok unavailable, w)
    | some address ↦
        let (answer, w') = post_json (http_endpoint (show_address address) path) payload w in
        (ok (read_qr_answer runner.platform answer), w')
  ]

  -- A request that was printed, or the failure to print it.
  abbrev pub send_printed :
      Result Text Text → Text → ProviderRunner Address → W → Fallible TerminalQrLoginOutcome × W
  send_printed (err failure) path runner w = (err (serialization failure), w)
  send_printed (ok payload) path runner w = terminal_qr_login_request_with path payload runner w

  unfoldable pub request_terminal_qr_login_with :
      ProviderRunner Address → W → Fallible TerminalQrLoginOutcome × W
  unfolding terminal_qr_login_request_with qr_request_is_valid
  request_terminal_qr_login_with runner w =
      let request : TerminalQrLoginRunnerRequest = record {
        version = terminal_qr_version;
        platform = runner.platform;
      } in
      if not (qr_request_is_valid request)
      then (ok rejected, w)
      else send_printed (codec.start_to_string request) (codes "/v1/login/terminal-qr") runner w

  unfoldable pub refresh_terminal_qr_login_with :
      Text → ProviderRunner Address → W → Fallible TerminalQrLoginOutcome × W
  unfolding terminal_qr_login_request_with refresh_request_is_valid
  refresh_terminal_qr_login_with attempt_token runner w =
      let request : TerminalQrLoginRefreshRequest = record {
        version = terminal_qr_version;
        platform = runner.platform;
        attempt_token = attempt_token;
      } in
      if not (refresh_request_is_valid request)
      then (ok rejected, w)
      else send_printed (codec.refresh_to_string request) (codes "/v1/login/terminal-qr/refresh")
          runner w

  unfoldable pub cancel_terminal_qr_login_with :
      Text → ProviderRunner Address → W → Fallible TerminalQrLoginOutcome × W
  unfolding terminal_qr_login_request_with cancel_request_is_valid
  cancel_terminal_qr_login_with attempt_token runner w =
      let request : TerminalQrLoginCancelRequest = record {
        version = terminal_qr_version;
        platform = runner.platform;
        attempt_token = attempt_token;
      } in
      if not (cancel_request_is_valid request)
      then (ok rejected, w)
      else send_printed (codec.cancel_to_string request) (codes "/v1/login/terminal-qr/cancel")
          runner w
