-- ===== src/Runner/Client/Article.antt =====
-- `dispatch_with` of crates/matrixpost-core/src/runner/article.rs.
use matri_xpost.Prelude.{Bool, true, false, is_some, ok, err, if◌then◌else◌}
use matri_xpost.Text.{Text, codes}
use matri_xpost.Error.{Fallible}
use matri_xpost.Types.Article.{
  PublishArticleRequest, article_runner_safe, article_platform, article_validate,
}
use matri_xpost.Runner.Protocol.Article.{
  ArticleRunnerRequest, ArticleRunnerResponse, ArticleDispatchOutcome, article_rejected,
  article_version, into_article_dispatch, ArticleRunner,
}
use matri_xpost.Runner.Client.{
  ArticleRunnerTransportError, Transport, Codec, http_endpoint, read_answer, exchange,
}

-- `ArticleRunner::rejected`
abbrev pub rejected_article_answer : Bool → ArticleDispatchOutcome
rejected_article_answer attempted =
    article_rejected (codes "local article runner did not return a valid accepted response")
      attempted

abbrev pub scheduled_article : ArticleDispatchOutcome
scheduled_article = article_rejected (codes "scheduled article dispatch is not supported") false

-- The request that a runner gets: without its routing.
abbrev pub article_runner_request : PublishArticleRequest → ArticleRunnerRequest
unfolding article_runner_safe
article_runner_request request = record {
  version = article_version;
  request = article_runner_safe request;
}

module _ {Address W : Type 0} (valid_schedule : Text → Bool) (show_address : Address → Text)
    (codec : Codec ArticleRunnerRequest ArticleRunnerResponse)
    (post_json : Transport ArticleRunnerTransportError W) where
  unfoldable pub dispatch_with :
      ArticleRunner Address → PublishArticleRequest → W → Fallible ArticleDispatchOutcome × W
  unfolding article_validate article_platform into_article_dispatch article_runner_safe
  dispatch_with runner request w = elim (article_validate valid_schedule request) [
    | err failure ↦ (err failure, w)
    | ok checked ↦
        if is_some request.scheduled_at
        then (ok scheduled_article, w)
        else elim (article_platform request) [
          | err failure ↦ (err failure, w)
          | ok expected ↦
              exchange codec post_json
                (read_answer codec (rejected_article_answer true) (into_article_dispatch expected))
                (http_endpoint (show_address runner.address) (codes "/v1/publish-article"))
                (article_runner_request request) w
        ]
  ]
