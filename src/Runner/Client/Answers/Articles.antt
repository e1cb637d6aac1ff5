-- ===== src/Runner/Client/Answers/Articles.antt =====
-- What a queued dispatch of `ArticleRunner` says.
use mathlib.Core.Path.{subst}
use matri_xpost.Prelude.{
  ℕ, ◌≡◌, refl, ap, sym, ◌∙◌, inl, inr, Bool, true, false, not, none, some, ok, err, ◌==◌, ==_iff,
  Option-cases, &&-true,
}
use matri_xpost.Text.{Text, codes, is_blank}
use matri_xpost.Error.{Fallible}
use matri_xpost.Types.Enums.{ArticlePlatform, juejin}
use matri_xpost.Types.Article.{PublishArticleRequest, article_platform, article_validate}
use matri_xpost.Runner.Protocol.Article.{
  ArticleRunner, ArticleRunnerRequest, ArticleRunnerResponse, article_queued, queued_response,
  unavailable_response, rejected_response, into_article_dispatch, is_article_answer,
  article_platform_eq, article_version,
}
use matri_xpost.Runner.Client.{
  ArticleRunnerTransportError, Transport, Codec, http_endpoint, exchange, read_answer,
}
use matri_xpost.Runner.Client.Answers.{Accepted, exchange-Accepted, some_if-some}
use matri_xpost.Runner.Client.Answers.Queued.{not-true}
use matri_xpost.Runner.Client.Article.{
  article_runner_request, rejected_article_answer, dispatch_with,
}

is_article_answer-version :
    (version : ℕ) (platform expected : ArticlePlatform)
    → is_article_answer version platform expected ≡ true
    → version ≡ article_version
is_article_answer-version version platform expected h =
    (==_iff version article_version).0
      (&&-true (version == article_version) (article_platform_eq platform expected) h).0

article_text : (a b : Text) → article_queued a ≡ article_queued b → a ≡ b
article_text a b h = cc h

one_platform : (a b : ArticlePlatform) → a ≡ b
one_platform juejin juejin = refl

-- The only response that converts to a queued article.
into_article_dispatch-queued :
    (expected : ArticlePlatform) (response : ArticleRunnerResponse) (id : Text)
    → into_article_dispatch expected response ≡ some (article_queued id)
    → (response ≡ queued_response article_version expected id true) × (is_blank id ≡ false)
unfolding into_article_dispatch
into_article_dispatch-queued expected (queued_response version platform job_id true) id h =
    let (guard, same) = some_if-some _ _ _ h in
    let (answer, filled) =
      &&-true (is_article_answer version platform expected) (not (is_blank job_id)) guard in
    let v = is_article_answer-version version platform expected answer in
    let p = one_platform platform expected in
    let i = article_text job_id id same in
    (cc (v, p, i), ap is_blank (sym i) ∙ not-true (is_blank job_id) filled)
into_article_dispatch-queued expected (queued_response version platform job_id false) id h = cc h
into_article_dispatch-queued expected (unavailable_response version platform reason true) id h =
    cc h
into_article_dispatch-queued expected (unavailable_response version platform reason false) id h =
    let (guard, same) = some_if-some _ _ _ h in cc same
into_article_dispatch-queued expected (rejected_response version platform reason attempted) id h =
    let (guard, same) = some_if-some _ _ _ h in cc same

module _ {Address W : Type 0} (valid_schedule : Text → Bool) (show_address : Address → Text)
    (codec : Codec ArticleRunnerRequest ArticleRunnerResponse)
    (post_json : Transport ArticleRunnerTransportError W) (runner : ArticleRunner Address) where
  -- The endpoint of the runner.
  abbrev pub article_endpoint : Text
  article_endpoint = http_endpoint (show_address runner.address) (codes "/v1/publish-article")

  -- An article is queued only if its request is valid and unscheduled, and the runner answered the
  -- post of the request made from it with the status 200 and a response of this
  -- protocol version that says automation was attempted and carries the job's id, which is not blank.
  pub dispatch_with-queued :
      (request : PublishArticleRequest) (w w' : W) (id : Text)
      → dispatch_with valid_schedule show_address codec post_json runner request w
        ≡ (ok (article_queued id), w')
      → (article_validate valid_schedule request ≡ ok tt)
        × (request.scheduled_at ≡ none)
        × Accepted codec post_json article_endpoint
            (article_runner_request request)
            w
            (queued_response article_version juejin id true)
            w'
        × (is_blank id ≡ false)
  unfolding dispatch_with
  dispatch_with-queued request w w' id h = checked (article_validate valid_schedule request) refl
    where
      Goal : Type 0
      Goal =
          (article_validate valid_schedule request ≡ ok tt)
          × (request.scheduled_at ≡ none)
          × Accepted codec post_json article_endpoint (article_runner_request request) w
              (queued_response article_version juejin id true) w'
          × (is_blank id ≡ false)

      posted :
          (article_validate valid_schedule request ≡ ok tt)
          → (request.scheduled_at ≡ none)
          → (expected : ArticlePlatform)
          → exchange codec post_json
              (read_answer codec (rejected_article_answer true) (into_article_dispatch expected))
              article_endpoint
              (article_runner_request request)
              w
            ≡ (ok (article_queued id), w')
          → Goal
      posted v s expected k =
          let (response, accepted, converted) =
            exchange-Accepted codec post_json (rejected_article_answer true)
              (into_article_dispatch expected) article_endpoint (article_runner_request request) w
              w' (article_queued id) k (λ e. cc e) in
          let (same, filled) = into_article_dispatch-queued expected response id converted in
          let juejins =
            same
            ∙ ap (λ p. queued_response article_version p id true) (one_platform expected juejin) in
          (
            v,
            s,
            subst
                (λ r.
                  Accepted codec post_json article_endpoint (article_runner_request request) w r w')
                juejins accepted,
            filled,
          )

      on_platform :
          (article_validate valid_schedule request ≡ ok tt)
          → (request.scheduled_at ≡ none)
          → (o : Fallible ArticlePlatform) → article_platform request ≡ o
          → Goal
      on_platform v s (err e) p = cc (rw (dispatch_with, v, s, p) at h)
      on_platform v s (ok expected) p = posted v s expected (rw (dispatch_with, v, s, p) at h)

      checked : (o : Fallible Unit) → article_validate valid_schedule request ≡ o → Goal
      checked (err e) v = cc (rw (dispatch_with, v) at h)
      checked (ok u) v = elim (Option-cases request.scheduled_at) [
        | inl unscheduled ↦ on_platform v unscheduled (article_platform request) refl
        | inr (s, scheduled) ↦ cc (rw (dispatch_with, v, scheduled) at h)
      ]
