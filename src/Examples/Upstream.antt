-- ===== src/Examples/Upstream.antt =====
-- An upstream input, and the theorem on the request that it becomes.
use matri_xpost.Prelude.{Bool, true, false, ◌≡◌, refl, [], ◌∷◌, Option, none, some, ok, collect}
use matri_xpost.Text.{Text, codes, is_blank}
use matri_xpost.Types.Enums.{Platform, douyin, bilibili}
use matri_xpost.Types.Request.{
  PublishRequest, PlatformOverride, Url, local_file, platform_set, validate_schedule,
  validate_source,
}
use matri_xpost.Types.Account.{no_selection}
use matri_xpost.Types.Upstream.{
  UpstreamPublishDto, names, empty_tags, to_override, set_statements, normalize,
}
use matri_xpost.Types.Upstream.Convert.{from_upstream, upstream_source, upstream_schedule}
use matri_xpost.Runner.Outcomes.{values}
use matri_xpost.Types.Upstream.Laws.{Converted, from_upstream-Converted}

abbrev no_url : Text → Option Url
no_url text = none

abbrev any_schedule : Text → Bool
any_schedule text = true

abbrev input : UpstreamPublishDto
input = record {
  platform = some (names (codes "blbl" ∷ codes "douyin" ∷ []));
  platforms = none;
  file = codes "video.mp4";
  title = codes "A title";
  tags = empty_tags;
  phone = none;
  partition = none;
  publish_at = none;
  sph_product_id = none;
  sph_link = none;
  platform_options = none;
  creative_statement = some (codes "Own work");
  creative_statements = none;
  bt2 = none;
  draft = false;
  short_title = none;
  address = none;
  task_name = none;
}

abbrev plain_override : Platform → PlatformOverride
plain_override platform = record {
  platform = platform;
  title = none;
  short_title = none;
  tags = none;
  creative_statement = some (codes "Own work");
  account = some no_selection;
  wechat_link = none;
}

abbrev output : PublishRequest
output = record {
  source = local_file (codes "video.mp4");
  title = codes "A title";
  short_title = none;
  tags = [];
  address = none;
  draft = false;
  bt2 = none;
  scheduled_at = none;
  task_name = none;
  account = no_selection;
  wechat_link = record { product_id = none; link_type = none; link_value = none };
  overrides = plain_override douyin ∷ plain_override bilibili ∷ [];
  targets = douyin ∷ bilibili ∷ [];
}

conversion : from_upstream no_url any_schedule input ≡ ok output
unfolding from_upstream collect to_override set_statements upstream_source upstream_schedule
    is_blank values normalize platform_set validate_schedule validate_source
conversion = refl

from_upstream-Converted_example : Converted any_schedule input output
from_upstream-Converted_example =
    from_upstream-Converted no_url any_schedule input output conversion
