-- ===== src/Runner/Protocol/Article.antt =====
-- The article protocol and the declaration of its runner in crates/matrixpost-core/src/runner/article.rs.
use matri_xpost.Prelude.{
  ℕ, Bool, true, false, ◌&&◌, not, Option, none, Result, ok, err, ◌==◌, ok_or, map_err,
  if◌then◌else◌, ◌>>=◌, ◌>>◌,
}
use matri_xpost.Text.{Text, codes, is_blank}
use matri_xpost.Types.Enums.{ArticlePlatform, juejin}
use matri_xpost.Types.Article.{PublishArticleRequest}
use matri_xpost.Runner.Config.{Net, strip_prefix, reject_credential_like_endpoint}
use matri_xpost.Runner.Protocol.{some_if}

-- `ARTICLE_RUNNER_PROTOCOL_VERSION`
abbrev pub article_version : ℕ
article_version = 1

pub record ArticleRunnerRequest : Type 0 where
  pub version : ℕ
  pub request : PublishArticleRequest

-- The text is the job id or the reason, the Boolean `automation_attempted`.
pub data ArticleRunnerResponse : Type 0 where
  queued_response unavailable_response rejected_response :
      ℕ → ArticlePlatform → Text → Bool → ArticleRunnerResponse

-- `ArticleDispatchOutcome`; the payload is a job id or a reason, and of a rejection
-- whether automation was attempted.
pub data ArticleDispatchOutcome : Type 0 where
  article_queued article_unavailable : Text → ArticleDispatchOutcome
  article_rejected : Text → Bool → ArticleDispatchOutcome

-- `==` of the platforms, of which there is one
abbrev pub article_platform_eq : ArticlePlatform → ArticlePlatform → Bool
article_platform_eq juejin juejin = true

abbrev pub is_article_answer : ℕ → ArticlePlatform → ArticlePlatform → Bool
is_article_answer version platform expected =
    version == article_version && article_platform_eq platform expected

unfoldable pub into_article_dispatch :
    ArticlePlatform → ArticleRunnerResponse → Option ArticleDispatchOutcome
unfolding is_blank
into_article_dispatch expected (queued_response version platform job_id true) =
    some_if (is_article_answer version platform expected && not (is_blank job_id))
      (article_queued job_id)
into_article_dispatch expected (queued_response version platform job_id false) = none
into_article_dispatch expected (unavailable_response version platform reason false) =
    some_if (is_article_answer version platform expected) (article_unavailable reason)
into_article_dispatch expected (unavailable_response version platform reason true) = none
into_article_dispatch expected (rejected_response version platform reason attempted) =
    some_if (is_article_answer version platform expected) (article_rejected reason attempted)

pub record ArticleRunner (Address : Type 0) : Type 0 where
  pub address : Address

pub data ArticleRunnerConfigError : Type 0 where
  article_tcp_must_be_loopback article_credential_like_endpoint article_invalid_argument :
      ArticleRunnerConfigError

module _ {Address : Type 0} (net : Net Address) where
  -- `ArticleRunner::validate`
  unfoldable pub validate_article_runner :
      ArticleRunner Address → Result ArticleRunnerConfigError (Unit {0})
  validate_article_runner runner =
      if net.is_loopback runner.address then ok tt else err article_tcp_must_be_loopback

  -- `ArticleRunner::parse_cli`
  unfoldable pub parse_article_cli : Text → Result ArticleRunnerConfigError (ArticleRunner Address)
  unfolding reject_credential_like_endpoint strip_prefix validate_article_runner
  parse_article_cli value = do
    map_err (λ _. article_credential_like_endpoint) (reject_credential_like_endpoint value)
    rest ← ok_or (strip_prefix value (codes "tcp:")) article_invalid_argument
    address ← ok_or (net.parse_address rest) article_invalid_argument
    validate_article_runner (record { address = address })
    ok (record { address = address })
