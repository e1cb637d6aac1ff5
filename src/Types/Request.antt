-- ===== src/Types/Request.antt =====
-- crates/matrixpost-core/src/types/video: schedules, media sources, overrides and the publication
-- request with its validation. The date parser of chrono and the URL parser of the url crate are
-- parameters: a schedule is accepted by `valid_schedule`, and of a URL the code reads `scheme`.
pub mod Laws
pub mod Valid
use matri_xpost.Prelude.{
  ℕ, ◌≡◌, Bool, true, false, ◌&&◌, ◌||◌, not, List, [], ◌∷◌, map, Option, none, some, is_some_and,
  if◌then◌else◌, ok, err, any, all, length, ◌==◌, reject_if, ◌>>=◌, ◌>>◌,
}
use matri_xpost.Text.{Text, codes, one_of, is_blank, is_empty}
use matri_xpost.Error.{
  Fallible, empty_title, empty_short_title, empty_task_name, missing_targets, duplicate_targets,
  duplicate_overrides, override_outside_targets, empty_local_path, unsupported_remote_scheme,
  invalid_schedule,
}
use matri_xpost.Types.Enums.{Platform, platform_eq, index}
use matri_xpost.Types.Account.{AccountSelection, no_selection, selection_is_empty}

pub record LocalSchedule : Type 0 where
  pub text : Text

-- `Url` of the url crate: what it prints, and `scheme()`.
pub record Url : Type 0 where
  pub href : Text
  pub scheme : Text

pub data MediaSource : Type 0 where
  local_file : Text → MediaSource
  remote_url : Url → MediaSource

pub record WechatLink : Type 0 where
  pub product_id : Option Text
  pub link_type : Option Text
  pub link_value : Option Text

pub record PlatformOverride : Type 0 where
  pub platform : Platform
  pub title : Option Text
  pub short_title : Option Text
  pub tags : Option (List Text)
  pub creative_statement : Option Text
  pub account : Option AccountSelection
  pub wechat_link : Option WechatLink

pub record PublishRequest : Type 0 where
  pub source : MediaSource
  pub title : Text
  pub short_title : Option Text
  pub tags : List Text
  pub address : Option Text
  pub draft : Bool
  pub bt2 : Option Text
  pub scheduled_at : Option LocalSchedule
  pub task_name : Option Text
  pub account : AccountSelection
  pub wechat_link : WechatLink
  pub overrides : List PlatformOverride
  pub targets : List Platform

-- The loop of `runner_safe` over the overrides.
unfoldable pub clear_account : PlatformOverride → PlatformOverride
clear_account o = record o { account = none }

-- `PublishRequest::runner_safe`
unfoldable pub runner_safe : PublishRequest → PublishRequest
unfolding clear_account
runner_safe r = record r { account = no_selection; overrides = map clear_account r.overrides }

-- The closure of `has_account_routing`: an override that has a selection which is not empty.
unfoldable pub override_routes : PlatformOverride → Bool
unfolding selection_is_empty
override_routes o = is_some_and o.account (λ a. not (selection_is_empty a))

-- `PublishRequest::has_account_routing`
unfoldable pub has_account_routing : PublishRequest → Bool
unfolding selection_is_empty override_routes
has_account_routing r = not (selection_is_empty r.account) || any override_routes r.overrides

-- `targets.contains`
unfoldable pub contains_platform : Platform → List Platform → Bool
unfolding platform_eq
contains_platform p ps = any (platform_eq p) ps

-- `collect::<BTreeSet<_>>()`: one element is inserted unless it is there already.
unfoldable pub insert_platform : Platform → List Platform → List Platform
unfolding contains_platform
insert_platform p ps = if contains_platform p ps then ps else p ∷ ps

unfoldable pub platform_set : List Platform → List Platform
unfolding insert_platform
platform_set [] = []
platform_set (p ∷ ps) = insert_platform p (platform_set ps)

abbrev pub override_platform : PlatformOverride → Platform
override_platform o = o.platform

-- `value.trim().is_empty()` of an optional text that is there
abbrev pub is_blank_some : Option Text → Bool
is_blank_some o = is_some_and o is_blank

-- The schemes that a remote source may have.
unfoldable pub is_http : Text → Bool
unfolding one_of
is_http scheme = one_of scheme (codes "http" ∷ codes "https" ∷ [])

-- The last `match` of `validate`.
unfoldable pub validate_source : MediaSource → Fallible Unit
unfolding is_http
validate_source (local_file path) = reject_if (is_empty path) empty_local_path
validate_source (remote_url url) =
    reject_if (not (is_http url.scheme)) (unsupported_remote_scheme url.scheme)

module _ (valid_schedule : Text → Bool) where
  -- `LocalSchedule::parse`
  unfoldable pub parse_schedule : Text → Fallible LocalSchedule
  parse_schedule value =
      if valid_schedule value then ok (record { text = value }) else err (invalid_schedule value)

  -- `LocalSchedule::as_naive`, of which the callers use only whether it fails
  unfoldable pub as_naive : LocalSchedule → Fallible Unit
  as_naive s = reject_if (not (valid_schedule s.text)) (invalid_schedule s.text)

  unfoldable pub validate_schedule : Option LocalSchedule → Fallible Unit
  validate_schedule none = ok tt
  validate_schedule (some s) = as_naive s

  -- `PublishRequest::validate`
  unfoldable pub validate : PublishRequest → Fallible Unit
  validate r = do
    reject_if (is_blank r.title) empty_title
    reject_if (is_blank_some r.short_title) empty_short_title
    reject_if (is_blank_some r.task_name) empty_task_name
    reject_if (length r.targets == 0) missing_targets
    reject_if (not (length (platform_set r.targets) == length r.targets)) duplicate_targets
    let named = map override_platform r.overrides
    reject_if (not (length (platform_set named) == length r.overrides)) duplicate_overrides
    reject_if (any (λ o. not (contains_platform o.platform r.targets)) r.overrides)
        override_outside_targets
    validate_schedule r.scheduled_at
    validate_source r.source
