-- ===== src/Runner/Client/Readiness.antt =====
-- `account_readiness_with` of crates/matrixpost-core/src/runner/provider/login.rs.
use matri_xpost.Prelude.{none, some, ok}
use matri_xpost.Text.{Text, codes}
use matri_xpost.Error.{Fallible}
use matri_xpost.Runner.Config.{Net, ProviderRunner, loopback_tcp_address}
use matri_xpost.Runner.Protocol.Readiness.{
  AccountStatusRunnerRequest, AccountStatusRunnerResponse, AccountReadiness, unavailable, rejected,
  account_status_version, into_readiness,
}
use matri_xpost.Runner.Client.{
  ManualLoginTransportError, Transport, Codec, http_endpoint, read_answer, exchange,
}

module _ {Address W : Type 0} (net : Net Address) (show_address : Address → Text)
    (codec : Codec AccountStatusRunnerRequest AccountStatusRunnerResponse)
    (post_json : Transport ManualLoginTransportError W) where
  unfoldable pub account_readiness_with : ProviderRunner Address → W → Fallible AccountReadiness × W
  unfolding loopback_tcp_address into_readiness
  account_readiness_with runner w = elim (loopback_tcp_address net runner) [
    | none ↦ (ok unavailable, w)
    | some address ↦
        exchange codec post_json (read_answer codec rejected (into_readiness runner.platform))
          (http_endpoint (show_address address) (codes "/v1/account-status"))
          (record { version = account_status_version; platform = runner.platform }) w
  ]
