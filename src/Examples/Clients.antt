-- ===== src/Examples/Clients.antt =====
-- The theorems on the clients of the local runners, on small inputs.
use matri_xpost.Prelude.{ℕ, suc, ap, sym, ◌==◌, ◌≡◌, ◌↔◌, refl, true, [], none, some, ok, Bool}
use matri_xpost.Text.{Text, codes, text_eq, bytes, is_blank, trim, is_whitespace, utf8}
use matri_xpost.Types.Enums.{Platform, douyin, fanqie_video, juejin, platform_eq}
use matri_xpost.Types.Account.{no_selection}
use matri_xpost.Types.Request.{runner_safe, has_account_routing}
use matri_xpost.Types.Article.{PublishArticleRequest, article_validate, article_platform}
use matri_xpost.Examples.{sample_request}
use matri_xpost.Runner.Config.{
  Net, ProviderRunner, ProviderRunnerTransport, tcp, loopback_tcp_address,
}
use matri_xpost.Runner.Png.{png_base64_is_valid}
use matri_xpost.Runner.Png.Agrees.{IsPng, png_base64_is_valid_iff}
use matri_xpost.Runner.Protocol.Login
use matri_xpost.Runner.Protocol.Readiness
use matri_xpost.Runner.Protocol.Review
use matri_xpost.Runner.Protocol.TerminalQr
use matri_xpost.Runner.Protocol.Publish
use matri_xpost.Runner.Protocol.Article
use matri_xpost.Runner.Client.{
  ManualLoginTransportError, TerminalQrLoginTransportError, ArticleRunnerTransportError, Transport,
  Codec, http_endpoint,
}
use matri_xpost.Runner.Client.Loopback.{FromRunner}
use matri_xpost.Runner.Client.Answers.{Accepted}
use matri_xpost.Runner.Client.Answers.Confirmed.{
  request_manual_login_with-opened, account_readiness_with-ready,
  fanqie_review_status_with-published,
}
use matri_xpost.Runner.Client.Answers.Queued.{enqueue_with-queued}
use matri_xpost.Runner.Client.Answers.Articles.{dispatch_with-queued, article_endpoint}
use matri_xpost.Runner.Client.Answers.Qr.{start, Shown, run_qr, run_qr-Shown}
use matri_xpost.Runner.Client.Silent.{clients-silent}
use matri_xpost.Runner.Client.Queries.{Asked, fanqie_review_status_with-Asked}
use matri_xpost.Runner.Client.Login.{request_manual_login_with}
use matri_xpost.Runner.Client.Readiness.{account_readiness_with}
use matri_xpost.Runner.Client.Review.{fanqie_review_status_with, review_request}
use matri_xpost.Runner.Client.TerminalQr.{QrCodec, request_terminal_qr_login_with}
use matri_xpost.Runner.Client.Publish.{enqueue_with}
use matri_xpost.Runner.Client.Article.{dispatch_with, article_runner_request}

abbrev signature_text : Text
signature_text = codes "iVBORw0KGgo="

png_base64_is_valid_iff_example : (png_base64_is_valid signature_text ≡ true) ↔ IsPng signature_text
png_base64_is_valid_iff_example = png_base64_is_valid_iff signature_text

-- Address 0 is the loopback.
abbrev local_net : Net ℕ
local_net = record {
  is_absolute = λ t. true;
  to_string_lossy = λ t. t;
  is_loopback = λ a. a == 0;
  parse_address = λ t. none;
}

abbrev shown : ℕ → Text
shown a = codes "127.0.0.1:4100"

abbrev runner_of : Platform → ProviderRunner ℕ
runner_of p = record { platform = p; transport = tcp 0 }

-- Every post is answered by the same body; the world counts the posts.
abbrev answering : Text → Transport ManualLoginTransportError ℕ
answering body endpoint payload w = (ok (200, body), suc w)

abbrev answering_qr : Text → Transport TerminalQrLoginTransportError ℕ
answering_qr body endpoint payload w = (ok (200, body), suc w)

abbrev answering_publish : Transport (Unit {0}) ℕ
answering_publish endpoint payload w = (ok (200, codes "{}"), suc w)

abbrev answering_article : Transport ArticleRunnerTransportError ℕ
answering_article endpoint payload w = (ok (200, codes "{}"), suc w)

-- A codec whose every body is one response.
abbrev constant_codec : {Q R : Type 0} → R → Codec Q R
constant_codec response = record {
  to_string = λ q. ok (codes "{}");
  from_str = λ body. some response;
}

abbrev login_codec : Codec Login.LoginRunnerRequest Login.LoginRunnerResponse
login_codec = constant_codec (Login.opened_response 1 douyin true)

request_manual_login_with-opened_example :
    FromRunner local_net shown login_codec
      (answering (codes "{}"))
      (codes "/v1/login")
      (record { version = 1; platform = douyin })
      0
      (Login.opened_response 1 douyin true)
      1
unfolding request_manual_login_with loopback_tcp_address Login.into_manual_login platform_eq
request_manual_login_with-opened_example =
    request_manual_login_with-opened local_net shown login_codec (answering (codes "{}"))
      (runner_of douyin) 0 1 refl

abbrev readiness_codec :
    Codec Readiness.AccountStatusRunnerRequest Readiness.AccountStatusRunnerResponse
readiness_codec = constant_codec (Readiness.ready_response 1 douyin)

account_readiness_with-ready_example :
    FromRunner local_net shown readiness_codec
      (answering (codes "{}"))
      (codes "/v1/account-status")
      (record { version = 1; platform = douyin })
      0
      (Readiness.ready_response 1 douyin)
      1
unfolding account_readiness_with loopback_tcp_address Readiness.into_readiness platform_eq
account_readiness_with-ready_example =
    account_readiness_with-ready local_net shown readiness_codec (answering (codes "{}"))
      (runner_of douyin) 0 1 refl

abbrev review_codec : Codec Review.ReviewStatusRunnerRequest Review.ReviewStatusRunnerResponse
review_codec = constant_codec (Review.published_response 1 fanqie_video)

abbrev sample_title : Text
sample_title = codes "A title"

fanqie_review_status_with-published_example :
    (fanqie_video ≡ fanqie_video)
    × (Review.review_request_is_valid (review_request sample_title) ≡ true)
    × FromRunner local_net shown review_codec
        (answering (codes "{}"))
        (codes "/v1/review-status")
        (review_request sample_title)
        0
        (Review.published_response 1 fanqie_video)
        1
unfolding fanqie_review_status_with loopback_tcp_address Review.into_review_status platform_eq
    Review.review_request_is_valid Review.normalize_review_title_query is_whitespace is_blank trim
    bytes utf8
fanqie_review_status_with-published_example =
    fanqie_review_status_with-published local_net shown review_codec (answering (codes "{}"))
      sample_title (runner_of fanqie_video) 0 1 refl

fanqie_review_status_with-Asked_example :
    Asked local_net shown review_codec
      (answering (codes "{}"))
      sample_title
      (runner_of fanqie_video)
      0
      (fanqie_review_status_with local_net shown review_codec
        (answering (codes "{}"))
        sample_title
        (runner_of fanqie_video)
        0).1
fanqie_review_status_with-Asked_example =
    fanqie_review_status_with-Asked local_net shown review_codec (answering (codes "{}"))
      sample_title (runner_of fanqie_video) 0

abbrev qr_response : TerminalQr.TerminalQrLoginRunnerResponse
qr_response = TerminalQr.qr_available_response 1 douyin (codes "attempt-1") signature_text

abbrev qr_codec : QrCodec
qr_codec = record {
  start_to_string = λ q. ok (codes "{}");
  refresh_to_string = λ q. ok (codes "{}");
  cancel_to_string = λ q. ok (codes "{}");
  from_str = λ body. some qr_response;
}

qr_run :
    run_qr local_net shown qr_codec (answering_qr (codes "{}")) start (runner_of douyin) 0
    ≡ (ok (TerminalQr.qr_available (codes "attempt-1") signature_text), 1)
unfolding request_terminal_qr_login_with loopback_tcp_address TerminalQr.into_terminal_qr_login
    platform_eq text_eq
qr_run = refl

run_qr-Shown_example :
    Shown local_net shown qr_codec
      (answering_qr (codes "{}"))
      (codes "/v1/login/terminal-qr")
      douyin
      (codes "attempt-1")
      signature_text
      0
      1
run_qr-Shown_example =
    run_qr-Shown local_net shown qr_codec (answering_qr (codes "{}")) start (runner_of douyin)
      (codes "attempt-1") signature_text 0 1 qr_run

-- A runner at another address than the loopback.
abbrev remote_runner : ProviderRunner ℕ
remote_runner = record { platform = douyin; transport = tcp 1 }

abbrev is_local : ProviderRunnerTransport ℕ → Bool
is_local (tcp a) = a == 0
is_local _ = Bool.false

clients-silent_example :
    ((request_manual_login_with local_net shown login_codec
        (answering (codes "{}"))
        remote_runner
        3).1
      ≡ 3)
    × ((account_readiness_with local_net shown readiness_codec
          (answering (codes "{}"))
          remote_runner
          3).1
        ≡ 3)
    × ((fanqie_review_status_with local_net shown review_codec
          (answering (codes "{}"))
          sample_title
          remote_runner
          3).1
        ≡ 3)
    × ((run_qr local_net shown qr_codec (answering_qr (codes "{}")) start remote_runner 3).1 ≡ 3)
clients-silent_example =
    clients-silent local_net shown login_codec readiness_codec review_codec qr_codec
      (answering (codes "{}")) (answering_qr (codes "{}")) remote_runner sample_title start 3
      (λ a e. ap is_local (sym e))

abbrev publish_codec : Codec Publish.ProviderRunnerRequest Publish.ProviderRunnerResponse
publish_codec = constant_codec (Publish.queued_response 1 douyin (codes "job-1"))

enqueue_with-queued_example :
    Accepted publish_codec answering_publish
      (http_endpoint (codes "127.0.0.1:4100") (codes "/v1/publish"))
      (record { version = 1; platform = douyin; request = runner_safe sample_request })
      0
      (Publish.queued_response 1 douyin (codes "job-1"))
      1
    × (has_account_routing (runner_safe sample_request) ≡ Bool.false)
    × (is_blank (codes "job-1") ≡ Bool.false)
unfolding enqueue_with Publish.into_dispatch platform_eq is_blank
enqueue_with-queued_example =
    enqueue_with-queued shown publish_codec answering_publish douyin 0 sample_request 0 1
      (codes "job-1") refl

abbrev article_codec : Codec Article.ArticleRunnerRequest Article.ArticleRunnerResponse
article_codec = constant_codec (Article.queued_response 1 juejin (codes "job-1") true)

abbrev sample_article : PublishArticleRequest
sample_article = record {
  platform = codes "juejin";
  account = no_selection;
  title = codes "A title";
  content = some (codes "Text");
  file = none;
  cover = none;
  category = none;
  tags = [];
  summary = none;
  scheduled_at = none;
}

abbrev article_runner : Article.ArticleRunner ℕ
article_runner = record { address = 0 }

dispatch_with-queued_example :
    (article_validate (λ t. true) sample_article ≡ ok tt)
    × (sample_article.scheduled_at ≡ none)
    × Accepted article_codec answering_article
        (article_endpoint (λ t. true) shown article_codec answering_article article_runner)
        (article_runner_request sample_article)
        0
        (Article.queued_response 1 juejin (codes "job-1") true)
        1
    × (is_blank (codes "job-1") ≡ Bool.false)
unfolding dispatch_with article_validate article_platform Article.into_article_dispatch is_blank
dispatch_with-queued_example =
    dispatch_with-queued (λ t. true) shown article_codec answering_article article_runner
      sample_article 0 1 (codes "job-1") refl
