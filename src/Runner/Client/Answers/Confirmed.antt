-- ===== src/Runner/Client/Answers/Confirmed.antt =====
-- What the positive outcomes of the three probes say: of a login page, an account and a review.
use mathlib.Core.Path.{subst}
use matri_xpost.Prelude.{◌≡◌, inl, inr, Bool, true, false, ◌||◌, not, some, ok, arith, Bool-cases}
use matri_xpost.Text.{Text, codes}
use matri_xpost.Types.Enums.{Platform, platform_eq, platform_eq_iff, fanqie_video}
use matri_xpost.Runner.Config.{Net, ProviderRunner}
use matri_xpost.Runner.Protocol.Login
use matri_xpost.Runner.Protocol.Readiness
use matri_xpost.Runner.Protocol.Review
use matri_xpost.Runner.Client.{ManualLoginTransportError, Transport, Codec}
use matri_xpost.Runner.Client.Answers.{some_if-some, is_answer-eq}
use matri_xpost.Runner.Client.Loopback.{asked-FromRunner, FromRunner}
use matri_xpost.Runner.Client.Login.{request_manual_login_with}
use matri_xpost.Runner.Client.Readiness.{account_readiness_with}
use matri_xpost.Runner.Client.Review.{fanqie_review_status_with, review_request}

into_manual_login-opened :
    (expected : Platform) (response : Login.LoginRunnerResponse)
    → Login.into_manual_login expected response ≡ some Login.opened
    → response ≡ Login.opened_response Login.login_version expected true
unfolding Login.into_manual_login
into_manual_login-opened expected (Login.opened_response version platform true) h =
    let (guard, same) = some_if-some _ _ _ h in
    let (v, p) = is_answer-eq Login.login_version version platform expected guard in cc (v, p)
into_manual_login-opened expected (Login.opened_response version platform false) h = cc h
into_manual_login-opened expected (Login.unavailable_response version platform reason) h =
    let (guard, same) = some_if-some _ _ _ h in cc same
into_manual_login-opened expected (Login.rejected_response version platform reason) h =
    let (guard, same) = some_if-some _ _ _ h in cc same

into_readiness-ready :
    (expected : Platform) (response : Readiness.AccountStatusRunnerResponse)
    → Readiness.into_readiness expected response ≡ some Readiness.ready
    → response ≡ Readiness.ready_response Readiness.account_status_version expected
unfolding Readiness.into_readiness
into_readiness-ready expected (Readiness.ready_response version platform) h =
    let (guard, same) = some_if-some _ _ _ h in
    let (v, p) = is_answer-eq Readiness.account_status_version version platform expected guard in
    cc (v, p)
into_readiness-ready expected (Readiness.not_ready_response version platform) h =
    let (guard, same) = some_if-some _ _ _ h in cc same
into_readiness-ready expected (Readiness.unavailable_response version platform) h =
    let (guard, same) = some_if-some _ _ _ h in cc same
into_readiness-ready expected (Readiness.rejected_response version platform) h =
    let (guard, same) = some_if-some _ _ _ h in cc same

into_review_status-published :
    (response : Review.ReviewStatusRunnerResponse)
    → Review.into_review_status response ≡ some Review.published
    → response ≡ Review.published_response Review.review_status_version fanqie_video
unfolding Review.into_review_status
into_review_status-published (Review.published_response version platform) h =
    let (guard, same) = some_if-some _ _ _ h in
    let (v, p) = is_answer-eq Review.review_status_version version platform fanqie_video guard in
    cc (v, p)
into_review_status-published (Review.under_review_response version platform) h =
    let (guard, same) = some_if-some _ _ _ h in cc same
into_review_status-published (Review.rejected_response version platform) h =
    let (guard, same) = some_if-some _ _ _ h in cc same
into_review_status-published (Review.not_found_response version platform) h =
    let (guard, same) = some_if-some _ _ _ h in cc same
into_review_status-published (Review.unavailable_response version platform) h =
    let (guard, same) = some_if-some _ _ _ h in cc same

-- The test by which a review lookup is refused before anything is sent.
abbrev pub refused : {Address : Type 0} → Text → ProviderRunner Address → Bool
refused title_query runner =
    not (platform_eq runner.platform fanqie_video)
    || not (Review.review_request_is_valid (review_request title_query))

neither_not : (a b : Bool) → (not a || not b) ≡ false → (a ≡ true) × (b ≡ true)
neither_not a b h = ground arith

pub not_refused :
    {Address : Type 0} (title_query : Text) (runner : ProviderRunner Address)
    → refused title_query runner ≡ false
    → (runner.platform ≡ fanqie_video)
      × (Review.review_request_is_valid (review_request title_query) ≡ true)
not_refused title_query runner h =
    let (p, v) = neither_not (platform_eq runner.platform fanqie_video) _ h in
    ((platform_eq_iff runner.platform fanqie_video).0 p, v)

module _ {Address W : Type 0} (net : Net Address) (show_address : Address → Text)
    (codec : Codec Login.LoginRunnerRequest Login.LoginRunnerResponse)
    (post_json : Transport ManualLoginTransportError W) where
  -- A login page counts as opened only if the runner, at a loopback address, answered the post of the
  -- version and the platform with the status 200 and an opened response of the same version and
  -- platform that requires a manual login.
  pub request_manual_login_with-opened :
      (runner : ProviderRunner Address) (w w' : W)
      → request_manual_login_with net show_address codec post_json runner w ≡ (ok Login.opened, w')
      → FromRunner net show_address codec post_json
          (codes "/v1/login")
          (record { version = Login.login_version; platform = runner.platform })
          w
          (Login.opened_response Login.login_version runner.platform true)
          w'
  unfolding request_manual_login_with
  request_manual_login_with-opened runner w w' h =
      let (response, given, converted) =
        asked-FromRunner net show_address codec post_json Login.rejected Login.unavailable
          (Login.into_manual_login runner.platform) (codes "/v1/login")
          (record { version = Login.login_version; platform = runner.platform }) runner w w'
          Login.opened h (λ q. cc q) (λ q. cc q) in
      subst
        (λ r.
          FromRunner net show_address codec post_json (codes "/v1/login")
            (record { version = Login.login_version; platform = runner.platform }) w r w')
        (into_manual_login-opened runner.platform response converted) given

module _ {Address W : Type 0} (net : Net Address) (show_address : Address → Text)
    (codec : Codec Readiness.AccountStatusRunnerRequest Readiness.AccountStatusRunnerResponse)
    (post_json : Transport ManualLoginTransportError W) where
  -- An account counts as ready only if the runner, at a loopback address, answered the post of the
  -- version and the platform with the status 200 and a ready response of the same version and
  -- platform.
  pub account_readiness_with-ready :
      (runner : ProviderRunner Address) (w w' : W)
      → account_readiness_with net show_address codec post_json runner w ≡ (ok Readiness.ready, w')
      → FromRunner net show_address codec post_json
          (codes "/v1/account-status")
          (record { version = Readiness.account_status_version; platform = runner.platform })
          w
          (Readiness.ready_response Readiness.account_status_version runner.platform)
          w'
  unfolding account_readiness_with
  account_readiness_with-ready runner w w' h =
      let (response, given, converted) =
        asked-FromRunner net show_address codec post_json Readiness.rejected Readiness.unavailable
          (Readiness.into_readiness runner.platform) (codes "/v1/account-status")
          (record { version = Readiness.account_status_version; platform = runner.platform }) runner
          w w' Readiness.ready h (λ q. cc q) (λ q. cc q) in
      subst
        (λ r.
          FromRunner net show_address codec post_json (codes "/v1/account-status")
            (record { version = Readiness.account_status_version; platform = runner.platform }) w r
            w')
        (into_readiness-ready runner.platform response converted) given

module _ {Address W : Type 0} (net : Net Address) (show_address : Address → Text)
    (codec : Codec Review.ReviewStatusRunnerRequest Review.ReviewStatusRunnerResponse)
    (post_json : Transport ManualLoginTransportError W) where
  -- A video counts as published on Fanqie only if the runner is Fanqie's, the title that is asked for is
  -- valid, and the runner, at a loopback address, answered the post of it with the status 200
  -- and a published response of this version and platform.
  pub fanqie_review_status_with-published :
      (title_query : Text) (runner : ProviderRunner Address) (w w' : W)
      → fanqie_review_status_with net show_address codec post_json title_query runner w
        ≡ (ok Review.published, w')
      → (runner.platform ≡ fanqie_video)
        × (Review.review_request_is_valid (review_request title_query) ≡ true)
        × FromRunner net show_address codec post_json
            (codes "/v1/review-status")
            (review_request title_query)
            w
            (Review.published_response Review.review_status_version fanqie_video)
            w'
  unfolding fanqie_review_status_with
  fanqie_review_status_with-published title_query runner w w' h =
      elim (Bool-cases (refused title_query runner)) [
        | inl refusal ↦ cc (rw (fanqie_review_status_with, refusal) at h)
        | inr asked ↦
            let (here, valid) = not_refused title_query runner asked in
            let (response, given, converted) =
              asked-FromRunner net show_address codec post_json Review.rejected Review.unavailable
                Review.into_review_status (codes "/v1/review-status") (review_request title_query)
                runner w w' Review.published (rw (fanqie_review_status_with, asked) at h)
                (λ q. cc q) (λ q. cc q) in
            (
              here,
              valid,
              subst
                  (λ r.
                    FromRunner net show_address codec post_json (codes "/v1/review-status")
                      (review_request title_query) w r w')
                  (into_review_status-published response converted) given,
            )
      ]
