-- ===== src/Types/Upstream.antt =====
-- crates/matrixpost-core/src/types/video/upstream.rs: the input of MatrixMedia and its parts. A
-- `BTreeMap<String, V>` is the list of its entries in the order of its keys.
pub mod Convert
pub mod Laws
use matri_xpost.Prelude.{
  Bool, true, false, ◌||◌, not, List, [], ◌∷◌, map, filter, Option, none, some, if◌then◌else◌, ◌==◌,
  or_else, ok, ◌>>=◌,
}
use matri_xpost.Text.{Text, is_empty}
use matri_xpost.Error.{Fallible}
use matri_xpost.Types.Enums.{Platform, platform_eq}
use matri_xpost.Types.Account.{AccountSelection, from_str}
use matri_xpost.Types.Request.{PlatformOverride, WechatLink}
use matri_xpost.Runner.Outcomes.{PlatformMap, insert}

pub record UpstreamSphLink : Type 0 where
  pub link_type : Option Text
  pub link_value : Option Text

pub record UpstreamPlatformOption : Type 0 where
  pub platform : Text
  pub phone : Option Text
  pub partition : Option Text
  pub title : Option Text
  pub short_title : Option Text
  pub tags : Option (List Text)
  pub creative_statement : Option Text
  pub link : Option UpstreamSphLink

pub data UpstreamTargets : Type 0 where
  name : Text → UpstreamTargets
  names : List Text → UpstreamTargets
  target : UpstreamPlatformOption → UpstreamTargets
  targets : List UpstreamPlatformOption → UpstreamTargets

pub data UpstreamTags : Type 0 where
  text_tags : Text → UpstreamTags
  value_tags : List Text → UpstreamTags
  empty_tags : UpstreamTags

pub data UpstreamPlatformOptions : Type 0 where
  option_map : List (Text × UpstreamPlatformOption) → UpstreamPlatformOptions
  option_values : List UpstreamPlatformOption → UpstreamPlatformOptions

pub record UpstreamPublishDto : Type 0 where
  pub platform : Option UpstreamTargets
  pub platforms : Option UpstreamTargets
  pub file : Text
  pub title : Text
  pub tags : UpstreamTags
  pub phone : Option Text
  pub partition : Option Text
  pub publish_at : Option Text
  pub sph_product_id : Option Text
  pub sph_link : Option UpstreamSphLink
  pub platform_options : Option UpstreamPlatformOptions
  pub creative_statement : Option Text
  pub creative_statements : Option (List (Text × Text))
  pub bt2 : Option Text
  pub draft : Bool
  pub short_title : Option Text
  pub address : Option Text
  pub task_name : Option Text  -- `name`

-- `UpstreamPlatformOption { platform, ..Default::default() }`
abbrev pub named_option : Text → UpstreamPlatformOption
named_option platform = record {
  platform = platform;
  phone = none;
  partition = none;
  title = none;
  short_title = none;
  tags = none;
  creative_statement = none;
  link = none;
}

-- `UpstreamTargets::into_options`
unfoldable pub target_options : UpstreamTargets → List UpstreamPlatformOption
target_options (name platform) = named_option platform ∷ []
target_options (names items) = map named_option items
target_options (target item) = item ∷ []
target_options (targets items) = items

-- `split([' ', ','])`
unfoldable pub split_tags : Text → List Text
split_tags [] = [] ∷ []
split_tags (c ∷ rest) =
    let later = split_tags rest in
    if c == b' ' || c == b','
    then [] ∷ later
    else elim later [ [] ↦ (c ∷ []) ∷ [] | first ∷ others ↦ (c ∷ first) ∷ others ]

-- `UpstreamTags::values`
unfoldable pub tag_values : UpstreamTags → List Text
unfolding split_tags
tag_values (text_tags value) = filter (λ item. not (is_empty item)) (split_tags value)
tag_values (value_tags values) = values
tag_values empty_tags = []

-- An entry of the map: its key is the platform where it names none.
abbrev pub keyed_option : Text × UpstreamPlatformOption → UpstreamPlatformOption
keyed_option (key, option) =
    if is_empty option.platform then record option { platform = key } else option

-- `UpstreamPlatformOptions::into_options`
unfoldable pub platform_options_list : UpstreamPlatformOptions → List UpstreamPlatformOption
platform_options_list (option_values values) = values
platform_options_list (option_map entries) = map keyed_option entries

abbrev pub link_of : Option UpstreamSphLink → Option WechatLink
link_of none = none
link_of (some link) =
    some (record { product_id = none; link_type = link.link_type; link_value = link.link_value })

-- The override of one option; `phone` and `partition` are those of the whole request.
unfoldable pub to_override :
    Option Text → Option Text → UpstreamPlatformOption → Fallible PlatformOverride
unfolding from_str
to_override phone partition item = do
  platform ← from_str item.platform
  ok (record {
    platform = platform;
    title = item.title;
    short_title = item.short_title;
    tags = item.tags;
    creative_statement = item.creative_statement;
    account =
        some (record {
          phone = or_else item.phone phone;
          partition = or_else item.partition partition;
        });
    wechat_link = link_of item.link;
  })

-- The override that holds a creative statement only.
abbrev pub statement_override : Platform → Text → PlatformOverride
statement_override platform statement = record {
  platform = platform;
  title = none;
  short_title = none;
  tags = none;
  creative_statement = some statement;
  account = none;
  wechat_link = none;
}

-- The first override of the platform gets the statement, or a new one at the end.
unfoldable pub set_statement : Platform → Text → List PlatformOverride → List PlatformOverride
unfolding platform_eq
set_statement platform statement [] = statement_override platform statement ∷ []
set_statement platform statement (o ∷ rest) =
    let later = set_statement platform statement rest in
    if platform_eq o.platform platform
    then record o { creative_statement = some statement } ∷ rest
    else o ∷ later

-- The loop over `creative_statements`.
unfoldable pub set_statements :
    List (Text × Text) → List PlatformOverride → Fallible (List PlatformOverride)
unfolding set_statement from_str
set_statements [] overrides = ok overrides
set_statements ((key, statement) ∷ rest) overrides = do
  platform ← from_str key
  set_statements rest (set_statement platform statement overrides)

-- `and_modify`: each field that is there replaces that of the override before.
abbrev pub merge_override : PlatformOverride → PlatformOverride → PlatformOverride
merge_override later current = record {
  platform = current.platform;
  title = or_else later.title current.title;
  short_title = or_else later.short_title current.short_title;
  tags = or_else later.tags current.tags;
  creative_statement = or_else later.creative_statement current.creative_statement;
  account = or_else later.account current.account;
  wechat_link = or_else later.wechat_link current.wechat_link;
}

-- The loop that fills `normalized`.
unfoldable pub normalize :
    List PlatformOverride → PlatformMap PlatformOverride → PlatformMap PlatformOverride
unfolding insert
normalize [] normalized = normalized
normalize (o ∷ rest) normalized = normalize rest (
    insert o.platform
      (elim (normalized o.platform) [ none ↦ o | some current ↦ merge_override o current ])
      normalized)
