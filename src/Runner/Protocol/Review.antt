-- ===== src/Runner/Protocol/Review.antt =====
-- The review-status protocol of crates/matrixpost-core/src/runner/protocol.rs.
use matri_xpost.Prelude.{ℕ, Bool, ◌&&◌, not, Option, leb, length, filter}
use matri_xpost.Text.{Text, bytes, is_blank, is_whitespace}
use matri_xpost.Types.Enums.{Platform, fanqie_video, platform_eq}
use matri_xpost.Runner.Protocol.{some_if, is_answer}

-- `REVIEW_STATUS_RUNNER_PROTOCOL_VERSION`
abbrev pub review_status_version : ℕ
review_status_version = 1

-- `REVIEW_STATUS_TITLE_QUERY_MAX_BYTES`
abbrev pub title_query_max_bytes : ℕ
title_query_max_bytes = 200

pub record ReviewStatusRunnerRequest : Type 0 where
  pub version : ℕ
  pub platform : Platform
  pub title_query : Text

pub data ReviewStatusRunnerResponse : Type 0 where
  published_response under_review_response rejected_response not_found_response
        unavailable_response :
      ℕ → Platform → ReviewStatusRunnerResponse

pub data ReviewStatus : Type 0 where
  published under_review rejected not_found unavailable : ReviewStatus

-- `ReviewStatusRunnerRequest::validate`
unfoldable pub review_request_is_valid : ReviewStatusRunnerRequest → Bool
unfolding platform_eq is_blank bytes
review_request_is_valid request =
    platform_eq request.platform fanqie_video
    && not (is_blank request.title_query)
    && leb (length (bytes request.title_query)) title_query_max_bytes

unfoldable pub normalize_review_title_query : Text → Text
unfolding is_whitespace
normalize_review_title_query value = filter (λ c. not (is_whitespace c)) value

unfoldable pub into_review_status : ReviewStatusRunnerResponse → Option ReviewStatus
unfolding platform_eq
into_review_status (published_response version platform) =
    some_if (is_answer review_status_version version platform fanqie_video) published
into_review_status (under_review_response version platform) =
    some_if (is_answer review_status_version version platform fanqie_video) under_review
into_review_status (rejected_response version platform) =
    some_if (is_answer review_status_version version platform fanqie_video) rejected
into_review_status (not_found_response version platform) =
    some_if (is_answer review_status_version version platform fanqie_video) not_found
into_review_status (unavailable_response version platform) =
    some_if (is_answer review_status_version version platform fanqie_video) unavailable
