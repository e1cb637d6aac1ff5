-- ===== src/Types/Article.antt =====
-- crates/matrixpost-core/src/types/article.rs: the article request, its validation, its scheduled
-- job and its redacted history record.
use matri_xpost.Prelude.{
  ℕ, Bool, ◌&&◌, not, List, [], ◌∷◌, Option, is_some, is_none_or, if◌then◌else◌, ok, err, reject_if,
  ◌>>=◌, ◌>>◌,
}
use matri_xpost.Text.{Text, codes, one_of, trim, to_ascii_lowercase, is_blank}
use matri_xpost.Error.{Fallible, empty_title, empty_article_content, unknown_platform}
use matri_xpost.Types.Enums.{ArticlePlatform, juejin, PublishState}
use matri_xpost.Types.Account.{AccountSelection, no_selection, selection_is_empty}
use matri_xpost.Types.Request.{LocalSchedule, validate_schedule}

pub record PublishArticleRequest : Type 0 where
  pub platform : Text
  pub account : AccountSelection
  pub title : Text
  pub content : Option Text
  pub file : Option Text
  pub cover : Option Text
  pub category : Option Text
  pub tags : List Text
  pub summary : Option Text
  pub scheduled_at : Option LocalSchedule

-- `PublishArticleRequest::runner_safe`
unfoldable pub article_runner_safe : PublishArticleRequest → PublishArticleRequest
article_runner_safe r = record r { account = no_selection }

-- `PublishArticleRequest::has_account_routing`
unfoldable pub article_has_account_routing : PublishArticleRequest → Bool
unfolding selection_is_empty
article_has_account_routing r = not (selection_is_empty r.account)

-- `PublishArticleRequest::article_platform`
unfoldable pub article_platform : PublishArticleRequest → Fallible ArticlePlatform
unfolding one_of trim to_ascii_lowercase
article_platform r =
    if one_of (to_ascii_lowercase (trim r.platform)) (codes "juejin" ∷ codes "掘金" ∷ [])
    then ok juejin
    else err (unknown_platform r.platform)

-- `PublishArticleRequest::validate`
unfoldable pub article_validate : (Text → Bool) → PublishArticleRequest → Fallible Unit
unfolding validate_schedule article_platform
article_validate valid_schedule r = do
  reject_if (is_blank r.title) empty_title
  reject_if (is_none_or r.content is_blank && not (is_some r.file)) empty_article_content
  validate_schedule valid_schedule r.scheduled_at
  platform ← article_platform r
  ok tt

-- An instant of `DateTime<Utc>`: the nanoseconds since chrono's earliest instant.
abbrev pub Time : Type 0
Time = ℕ

pub record ArticleScheduledJob : Type 0 where
  pub id : Text
  pub request : PublishArticleRequest
  pub state : PublishState
  pub due_at : LocalSchedule
  pub revision : ℕ
  pub updated_at : Time

pub record ArticleHistoryRecord : Type 0 where
  pub id : Text
  pub platform : ArticlePlatform
  pub title : Text
  pub state : PublishState
  pub recorded_at : Time
  pub detail : Option Text
