-- ===== src/Types/Account.antt =====
-- crates/matrixpost-core/src/types/account.rs: platform codes, accounts and account routing.
pub mod Laws
use matri_xpost.Prelude.{
  Bool, true, false, ◌&&◌, List, [], ◌∷◌, Option, none, some, is_some, not, if◌then◌else◌, ok, err,
}
use matri_xpost.Text.{Text, codes, one_of, trim, to_ascii_lowercase}
use matri_xpost.Error.{Fallible, unknown_platform}
use matri_xpost.Types.Enums.{
  Platform, douyin, wechat_channels, bilibili, baijiahao, toutiao, kuaishou, xiaohongshu,
  fanqie_video, AccountStatus, ArticlePlatform, ArticleAccountStatus,
}

-- `Platform::as_str`
unfoldable pub as_str : Platform → Text
as_str douyin = codes "dy"
as_str wechat_channels = codes "sph"
as_str bilibili = codes "blbl"
as_str baijiahao = codes "bjh"
as_str toutiao = codes "tt"
as_str kuaishou = codes "ks"
as_str xiaohongshu = codes "xhs"
as_str fanqie_video = codes "fqsp"

-- The alternatives of the `match` in `from_str`, in the order of its arms.
unfoldable pub platform_alternatives : Platform → List Text
platform_alternatives douyin = codes "dy" ∷ codes "douyin" ∷ codes "抖音" ∷ []
platform_alternatives wechat_channels =
    codes "sph"
    ∷ codes "wechat_channels"
    ∷ codes "wechat-channels"
    ∷ codes "wechat"
    ∷ codes "视频号"
    ∷ codes "微信视频号"
    ∷ []
platform_alternatives bilibili = codes "blbl" ∷ codes "bilibili" ∷ codes "哔哩哔哩" ∷ codes "b站" ∷ []
platform_alternatives baijiahao = codes "bjh" ∷ codes "baijiahao" ∷ codes "百家号" ∷ []
platform_alternatives toutiao = codes "tt" ∷ codes "toutiao" ∷ codes "今日头条" ∷ codes "头条" ∷ []
platform_alternatives kuaishou = codes "ks" ∷ codes "kuaishou" ∷ codes "快手" ∷ []
platform_alternatives xiaohongshu = codes "xhs" ∷ codes "xiaohongshu" ∷ codes "小红书" ∷ []
platform_alternatives fanqie_video =
    codes "fqsp"
    ∷ codes "fanqie_video"
    ∷ codes "fanqie-video"
    ∷ codes "fanqie"
    ∷ codes "fq"
    ∷ codes "番茄视频"
    ∷ []

-- The `match`, on the text that is already trimmed and in lower case; `value` is for the error.
match_platform : Text → Text → Fallible Platform
match_platform value s =
    if one_of s (platform_alternatives douyin)
    then ok douyin
    else if one_of s (platform_alternatives wechat_channels)
    then ok wechat_channels
    else if one_of s (platform_alternatives bilibili)
    then ok bilibili
    else if one_of s (platform_alternatives baijiahao)
    then ok baijiahao
    else if one_of s (platform_alternatives toutiao)
    then ok toutiao
    else if one_of s (platform_alternatives kuaishou)
    then ok kuaishou
    else if one_of s (platform_alternatives xiaohongshu)
    then ok xiaohongshu
    else if one_of s (platform_alternatives fanqie_video)
    then ok fanqie_video
    else err (unknown_platform value)

-- `Platform::from_str`
unfoldable pub from_str : Text → Fallible Platform
unfolding match_platform platform_alternatives one_of trim to_ascii_lowercase
from_str value = match_platform value (to_ascii_lowercase (trim value))

pub record Account : Type 0 where
  pub id : Text
  pub platform : Platform
  pub display_name : Text
  pub status : AccountStatus
  pub phone : Text
  pub partition : Text

pub record ArticleAccount : Type 0 where
  pub id : Text
  pub platform : ArticlePlatform
  pub display_name : Text
  pub status : ArticleAccountStatus
  pub phone : Text
  pub partition : Text

pub record AccountSelection : Type 0 where
  pub phone : Option Text
  pub partition : Option Text

-- `AccountSelection::default()`
abbrev pub no_selection : AccountSelection
no_selection = record { phone = none; partition = none }

-- `AccountSelection::is_empty`
unfoldable pub selection_is_empty : AccountSelection → Bool
selection_is_empty s = not (is_some s.phone) && not (is_some s.partition)
