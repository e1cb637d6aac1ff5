-- ===== src/Runner/Client/Publish.antt =====
-- `TcpRunnerProvider` of crates/matrixpost-core/src/runner/provider/transport.rs.
use matri_xpost.Text.{Text, codes}
use matri_xpost.Error.{Fallible}
use matri_xpost.Types.Enums.{Platform}
use matri_xpost.Types.Request.{PublishRequest, runner_safe}
use matri_xpost.Runner.Outcomes.{available, DispatchOutcome, rejected}
use matri_xpost.Runner.Registry.{Provider}
use matri_xpost.Runner.Protocol.Publish.{
  ProviderRunnerRequest, ProviderRunnerResponse, provider_version, into_dispatch,
}
use matri_xpost.Runner.Client.{Transport, Codec, http_endpoint, read_answer, exchange}

-- `TcpRunnerProvider::rejected`
abbrev pub rejected_answer : DispatchOutcome
rejected_answer = rejected (codes "local provider runner did not return a valid accepted response")

-- The request that a runner gets: without its routing.
abbrev pub runner_request : Platform → PublishRequest → ProviderRunnerRequest
unfolding runner_safe
runner_request platform request = record {
  version = provider_version;
  platform = platform;
  request = runner_safe request;
}

module _ {Address W : Type 0} (show_address : Address → Text)
    (codec : Codec ProviderRunnerRequest ProviderRunnerResponse)
    (post_json : Transport (Unit {0}) W) (platform : Platform) (address : Address) where
  unfoldable pub enqueue_with : PublishRequest → W → Fallible DispatchOutcome × W
  unfolding into_dispatch runner_safe
  enqueue_with request w =
      exchange codec post_json (read_answer codec rejected_answer (into_dispatch platform))
        (http_endpoint (show_address address) (codes "/v1/publish"))
        (runner_request platform request) w

  -- `impl PublishProvider for TcpRunnerProvider`
  abbrev pub tcp_runner_provider : Provider W
  tcp_runner_provider = record {
    platform = platform;
    availability = λ w. available;
    enqueue = enqueue_with;
  }
