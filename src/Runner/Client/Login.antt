-- ===== src/Runner/Client/Login.antt =====
-- `request_manual_login_with` of crates/matrixpost-core/src/runner/provider/login.rs.
use matri_xpost.Prelude.{none, some, ok}
use matri_xpost.Text.{Text, codes}
use matri_xpost.Error.{Fallible}
use matri_xpost.Runner.Config.{Net, ProviderRunner, loopback_tcp_address}
use matri_xpost.Runner.Protocol.Login.{
  LoginRunnerRequest, LoginRunnerResponse, ManualLoginOutcome, unavailable, rejected, login_version,
  into_manual_login,
}
use matri_xpost.Runner.Client.{
  ManualLoginTransportError, Transport, Codec, http_endpoint, read_answer, exchange,
}

module _ {Address W : Type 0} (net : Net Address) (show_address : Address → Text)
    (codec : Codec LoginRunnerRequest LoginRunnerResponse)
    (post_json : Transport ManualLoginTransportError W) where
  unfoldable pub request_manual_login_with :
      ProviderRunner Address → W → Fallible ManualLoginOutcome × W
  unfolding loopback_tcp_address into_manual_login
  request_manual_login_with runner w = elim (loopback_tcp_address net runner) [
    | none ↦ (ok unavailable, w)
    | some address ↦
        exchange codec post_json (read_answer codec rejected (into_manual_login runner.platform))
          (http_endpoint (show_address address) (codes "/v1/login"))
          (record { version = login_version; platform = runner.platform }) w
  ]
