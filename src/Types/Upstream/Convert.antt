-- ===== src/Types/Upstream/Convert.antt =====
-- `TryFrom<UpstreamPublishDto> for PublishRequest`. The URL parser of the url crate and the date parser of
-- chrono are parameters.
use matri_xpost.Prelude.{
  Bool, List, [], ◌++◌, map, find?, Option, none, some, is_some, if◌then◌else◌, or_else, ok, err,
  collect, ◌>>=◌, ◌>>◌,
}
use matri_xpost.Text.{Text, codes}
use matri_xpost.Error.{Fallible, unsupported_remote_scheme}
use matri_xpost.Types.Enums.{wechat_channels, platform_eq}
use matri_xpost.Types.Account.{from_str}
use matri_xpost.Types.Request.{
  Url, MediaSource, local_file, remote_url, LocalSchedule, WechatLink, PlatformOverride,
  PublishRequest, override_platform, is_http, parse_schedule, validate,
}
use matri_xpost.Runner.Outcomes.{empty, values}
use matri_xpost.Types.Upstream.{
  UpstreamSphLink, UpstreamPlatformOption, UpstreamTargets, UpstreamPlatformOptions,
  UpstreamPublishDto, target_options, tag_values, platform_options_list, to_override,
  set_statements, normalize,
}

abbrev pub optional_targets : Option UpstreamTargets → List UpstreamPlatformOption
unfolding target_options
optional_targets none = []
optional_targets (some chosen) = target_options chosen

abbrev pub optional_options : Option UpstreamPlatformOptions → List UpstreamPlatformOption
unfolding platform_options_list
optional_options none = []
optional_options (some options) = platform_options_list options

-- All options, in the order in which they are collected.
unfoldable pub upstream_options : UpstreamPublishDto → List UpstreamPlatformOption
unfolding target_options platform_options_list
upstream_options value =
    (optional_targets value.platform ++ optional_targets value.platforms)
    ++ optional_options value.platform_options

abbrev pub entries_or_empty : Option (List (Text × Text)) → List (Text × Text)
entries_or_empty none = []
entries_or_empty (some entries) = entries

-- The overrides, one for each platform, in the order of the platforms.
unfoldable pub upstream_overrides : UpstreamPublishDto → Fallible (List PlatformOverride)
unfolding upstream_options from_str
upstream_overrides value = do
  let options = upstream_options value
  parsed ← collect (λ (item : UpstreamPlatformOption). from_str item.platform) options
  named ← collect (to_override value.phone value.partition) options
  stated ← set_statements (entries_or_empty value.creative_statements) named
  ok (values (normalize stated empty))

-- `if override_value.creative_statement.is_none()`, where the request has a statement for all.
abbrev pub default_statement : Option Text → PlatformOverride → PlatformOverride
default_statement none o = o
default_statement (some statement) o =
    if is_some o.creative_statement then o else record o { creative_statement = some statement }

-- `and_then` on the fields of a link that may be there
abbrev pub sph_type : Option UpstreamSphLink → Option Text
sph_type none = none
sph_type (some link) = link.link_type

abbrev pub sph_value : Option UpstreamSphLink → Option Text
sph_value none = none
sph_value (some link) = link.link_value

abbrev pub option_type : Option WechatLink → Option Text
option_type none = none
option_type (some link) = link.link_type

abbrev pub option_value : Option WechatLink → Option Text
option_value none = none
option_value (some link) = link.link_value

abbrev pub link_of_override : Option PlatformOverride → Option WechatLink
link_of_override none = none
link_of_override (some o) = o.wechat_link

-- `option_link`
unfoldable pub find_option_link : List PlatformOverride → Option WechatLink
unfolding platform_eq
find_option_link overrides =
    link_of_override
      (find? (λ (o : PlatformOverride). platform_eq o.platform wechat_channels) overrides)

-- `product_link_type`
abbrev pub product_link_type : Option Text → Option Text
product_link_type none = none
product_link_type (some product) = some (codes "product")

-- The link of the request: its own fields, then those of the WeChat option, then the type of a product.
unfoldable pub upstream_link : UpstreamPublishDto → List PlatformOverride → WechatLink
unfolding find_option_link
upstream_link value overrides = record {
  product_id = value.sph_product_id;
  link_type =
      or_else (or_else (sph_type value.sph_link) (option_type (find_option_link overrides)))
        (product_link_type value.sph_product_id);
  link_value = or_else (sph_value value.sph_link) (option_value (find_option_link overrides));
}

-- The request that is built, before it is validated.
unfoldable pub upstream_request :
    UpstreamPublishDto → List PlatformOverride → MediaSource → Option LocalSchedule → PublishRequest
unfolding tag_values upstream_link
upstream_request value overrides source scheduled_at = record {
  source = source;
  title = value.title;
  short_title = value.short_title;
  tags = tag_values value.tags;
  address = value.address;
  draft = value.draft;
  bt2 = value.bt2;
  scheduled_at = scheduled_at;
  task_name = value.task_name;
  account = record { phone = value.phone; partition = value.partition };
  wechat_link = upstream_link value overrides;
  overrides = map (default_statement value.creative_statement) overrides;
  targets = map override_platform overrides;
}

module _ (parse_url : Text → Option Url) (valid_schedule : Text → Bool) where
  unfoldable pub upstream_source : Text → Fallible MediaSource
  unfolding is_http
  upstream_source file = elim (parse_url file) [
    | none ↦ ok (local_file file)
    | some url ↦
        if is_http url.scheme
        then ok (remote_url url)
        else err (unsupported_remote_scheme url.scheme)
  ]

  -- `value.publish_at.as_deref().map(LocalSchedule::parse).transpose()`
  unfoldable pub upstream_schedule : Option Text → Fallible (Option LocalSchedule)
  unfolding parse_schedule
  upstream_schedule none = ok none
  upstream_schedule (some value) = do s ← parse_schedule valid_schedule value; ok (some s)

  -- `PublishRequest::try_from`
  unfoldable pub from_upstream : UpstreamPublishDto → Fallible PublishRequest
  unfolding upstream_overrides validate upstream_request
  from_upstream value = do
    overrides ← upstream_overrides value
    source ← upstream_source value.file
    scheduled_at ← upstream_schedule value.publish_at
    validate valid_schedule (upstream_request value overrides source scheduled_at)
    ok (upstream_request value overrides source scheduled_at)
