-- ===== src/Types/Request/Laws.antt =====
-- Validation and stripping of a publication request.
use matri_xpost.Prelude.{
  suc, ◌≡◌, refl, ap, ap₂, Bool, false, ◌||◌, not, List, [], ◌∷◌, map, any, length,
}
use matri_xpost.Text.{Text}
use matri_xpost.Types.Enums.{Platform}
use matri_xpost.Types.Account.{no_selection, selection_is_empty}
use matri_xpost.Types.Request.{
  PublishRequest, PlatformOverride, clear_account, runner_safe, override_routes,
  has_account_routing, contains_platform, override_platform, validate,
}

cleared-routes : (os : List PlatformOverride) → any override_routes (map clear_account os) ≡ false
unfolding override_routes clear_account
cleared-routes [] = refl
cleared-routes (o ∷ os) = cleared-routes os

-- A request made safe for a runner carries no account routing, on the request or on any override.
pub has_account_routing-runner_safe :
    (r : PublishRequest) → has_account_routing (runner_safe r) ≡ false
unfolding has_account_routing runner_safe selection_is_empty override_routes
has_account_routing-runner_safe r = cleared-routes r.overrides

cleared-cleared :
    (os : List PlatformOverride) → map clear_account (map clear_account os) ≡ map clear_account os
unfolding clear_account
cleared-cleared [] = refl
cleared-cleared (o ∷ os) = ap₂ (λ a b. a ∷ b) refl (cleared-cleared os)

pub runner_safe_idem : (r : PublishRequest) → runner_safe (runner_safe r) ≡ runner_safe r
unfolding runner_safe
runner_safe_idem r =
    ap (λ os. record r { account = no_selection; overrides = os }) (cleared-cleared r.overrides)

cleared-platforms :
    (os : List PlatformOverride)
    → map override_platform (map clear_account os) ≡ map override_platform os
unfolding clear_account
cleared-platforms [] = refl
cleared-platforms (o ∷ os) = ap (λ ps. o.platform ∷ ps) (cleared-platforms os)

cleared-length : (os : List PlatformOverride) → length (map clear_account os) ≡ length os
cleared-length [] = refl
cleared-length (o ∷ os) = ap suc (cleared-length os)

cleared-any :
    (p : Platform → Bool) (os : List PlatformOverride)
    → any (λ o. p (override_platform o)) (map clear_account os)
      ≡ any (λ o. p (override_platform o)) os
unfolding clear_account
cleared-any p [] = refl
cleared-any p (o ∷ os) = ap (λ b. p o.platform || b) (cleared-any p os)

-- Stripping the routing changes nothing that validation looks at.
pub validate-runner_safe :
    (valid_schedule : Text → Bool) (r : PublishRequest)
    → validate valid_schedule (runner_safe r) ≡ validate valid_schedule r
unfolding validate runner_safe
validate-runner_safe valid_schedule r = simp (
  cleared-platforms r.overrides,
  cleared-length r.overrides,
  cleared-any (λ p. not (contains_platform p r.targets)) r.overrides,
)
