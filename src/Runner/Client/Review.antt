-- ===== src/Runner/Client/Review.antt =====
-- `fanqie_review_status_with` of crates/matrixpost-core/src/runner/provider/login.rs.
use matri_xpost.Prelude.{◌||◌, not, none, some, ok, if◌then◌else◌}
use matri_xpost.Text.{Text, codes}
use matri_xpost.Error.{Fallible}
use matri_xpost.Types.Enums.{fanqie_video, platform_eq}
use matri_xpost.Runner.Config.{Net, ProviderRunner, loopback_tcp_address}
use matri_xpost.Runner.Protocol.Review.{
  ReviewStatusRunnerRequest, ReviewStatusRunnerResponse, ReviewStatus, unavailable, rejected,
  review_status_version, review_request_is_valid, normalize_review_title_query, into_review_status,
}
use matri_xpost.Runner.Client.{
  ManualLoginTransportError, Transport, Codec, http_endpoint, read_answer, exchange,
}

-- The request for a title.
abbrev pub review_request : Text → ReviewStatusRunnerRequest
review_request title_query = record {
  version = review_status_version;
  platform = fanqie_video;
  title_query = normalize_review_title_query title_query;
}

module _ {Address W : Type 0} (net : Net Address) (show_address : Address → Text)
    (codec : Codec ReviewStatusRunnerRequest ReviewStatusRunnerResponse)
    (post_json : Transport ManualLoginTransportError W) where
  unfoldable pub fanqie_review_status_with :
      Text → ProviderRunner Address → W → Fallible ReviewStatus × W
  unfolding loopback_tcp_address into_review_status platform_eq review_request_is_valid
      normalize_review_title_query
  fanqie_review_status_with title_query runner w =
      if not (platform_eq runner.platform fanqie_video)
        || not (review_request_is_valid (review_request title_query))
      then (ok rejected, w)
      else elim (loopback_tcp_address net runner) [
        | none ↦ (ok unavailable, w)
        | some address ↦
            exchange codec post_json (read_answer codec rejected into_review_status)
              (http_endpoint (show_address address) (codes "/v1/review-status"))
              (review_request title_query) w
      ]
