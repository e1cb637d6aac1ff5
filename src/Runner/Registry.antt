-- ===== src/Runner/Registry.antt =====
-- crates/matrixpost-core/src/runner/provider/registry.rs. A provider is a trait object, so code that
-- the registry does not know: a record of functions on the world `W` outside.
pub mod Laws
pub mod Declared
use matri_xpost.Prelude.{
  ◌≡◌, Bool, true, false, not, List, [], ◌∷◌, ◌++◌, Option, none, some, is_some, Result, ok, err,
  if◌then◌else◌, reject_if, ◌>>=◌, ◌>>◌,
}
use matri_xpost.Text.{Text, codes}
use matri_xpost.Error.{DomainError, Fallible, provider_platform_not_target}
use matri_xpost.Types.Enums.{Platform, all_platforms}
use matri_xpost.Types.Account.{as_str}
use matri_xpost.Types.Request.{PublishRequest, contains_platform, validate}
use matri_xpost.Runner.Outcomes.{
  ProviderAvailability, available, unavailable, DispatchOutcome, unavailable_outcome, rejected,
  PlatformMap, empty, insert, values,
}
use matri_xpost.Runner.Config.{
  Net, ProviderRunner, ProviderRunnerTransport, unix_socket, named_pipe, tcp,
  ProviderRunnerConfigError, duplicate_platform, validate_runner, unavailable_reason,
}

-- `PublishProvider`
pub record Provider (W : Type 0) : Type 0 where
  pub platform : Platform
  pub availability : W → ProviderAvailability
  pub enqueue : PublishRequest → W → Fallible DispatchOutcome × W

pub data ProviderRegistrationError : Type 0 where
  duplicate : Platform → ProviderRegistrationError

-- `ProviderDispatchReport`
abbrev pub ProviderDispatchReport : Type 0
ProviderDispatchReport = PlatformMap DispatchOutcome

pub record ProviderRegistry (Address W : Type 0) : Type 0 where
  pub providers : PlatformMap (Provider W)
  pub runners : PlatformMap (ProviderRunner Address)

-- The `match` of `dispatch` on the availability of a provider.
unfoldable pub dispatch_to :
    {W : Type 0} → Provider W → PublishRequest → W → Fallible DispatchOutcome × W
dispatch_to provider request w = elim (provider.availability w) [
  | available ↦ provider.enqueue request w
  | unavailable reason ↦ (ok (unavailable_outcome reason), w)
]

module _ {Address W : Type 0} where
  abbrev pub new : ProviderRegistry Address W
  new = record { providers = empty; runners = empty }

  -- `ProviderRegistry::register`
  unfoldable pub register :
      Provider W
      → ProviderRegistry Address W
      → Result ProviderRegistrationError (ProviderRegistry Address W)
  register provider registry =
      if is_some (registry.providers provider.platform)
      then err (duplicate provider.platform)
      else ok (record registry { providers = insert provider.platform provider registry.providers })

  -- `unregistered_reason`
  unfoldable pub unregistered_reason : ProviderRegistry Address W → Platform → Text
  unregistered_reason registry p = elim (registry.runners p) [
    | some runner ↦ unavailable_reason runner
    | none ↦ codes "no provider registered for " ++ as_str p
  ]

  -- `ProviderRegistry::availability`
  unfoldable pub availability : ProviderRegistry Address W → Platform → W → ProviderAvailability
  availability registry p w = elim (registry.providers p) [
    | some provider ↦ provider.availability w
    | none ↦ unavailable (unregistered_reason registry p)
  ]

  -- `ProviderRegistry::availability_report`
  unfoldable pub availability_report :
      ProviderRegistry Address W → W → PlatformMap ProviderAvailability
  unfolding availability
  availability_report registry w p = some (availability registry p w)

  -- `dispatch` after its two checks.
  unfoldable pub dispatch_checked :
      ProviderRegistry Address W → Platform → PublishRequest → W → Fallible DispatchOutcome × W
  dispatch_checked registry p request w = elim (registry.providers p) [
    | none ↦ (ok (unavailable_outcome (unregistered_reason registry p)), w)
    | some provider ↦ dispatch_to provider request w
  ]

-- `from_runners`: the declarations, none of a platform that has one already.
module _ {Address W : Type 0} (net : Net Address)
    (tcp_provider : Platform → Address → Provider W) where
  unfoldable pub declare_runners :
      List (ProviderRunner Address)
      → ProviderRegistry Address W
      → Result ProviderRunnerConfigError (ProviderRegistry Address W)
  declare_runners [] registry = ok registry
  declare_runners (runner ∷ rest) registry = do
    validate_runner net runner
    reject_if (is_some (registry.runners runner.platform)) (duplicate_platform runner.platform)
    declare_runners rest
        (record registry { runners = insert runner.platform runner registry.runners })

  -- The second loop, over the runners in the order of the platforms.
  unfoldable pub install_runners :
      List (ProviderRunner Address)
      → ProviderRegistry Address W
      → Result ProviderRunnerConfigError (ProviderRegistry Address W)
  install_runners [] registry = ok registry
  install_runners (runner ∷ rest) registry =
      let provide = λ (address : Address). record registry {
        providers =
            insert runner.platform (tcp_provider runner.platform address) registry.providers;
      } in
      elim runner.transport [
        | tcp address ↦ do
          reject_if (is_some (registry.providers runner.platform))
              (duplicate_platform runner.platform)
          install_runners rest (provide address)
        | unix_socket path ↦ install_runners rest registry
        | named_pipe name ↦ install_runners rest registry
      ]

  unfoldable pub from_runners :
      List (ProviderRunner Address) → Result ProviderRunnerConfigError (ProviderRegistry Address W)
  from_runners runners = do
    registry ← declare_runners runners new
    install_runners (values registry.runners) registry

module _ {Address W : Type 0} (valid_schedule : Text → Bool) (registry : ProviderRegistry Address W)
    (request : PublishRequest) where
  -- `ProviderRegistry::dispatch`
  unfoldable pub dispatch : Platform → W → Fallible DispatchOutcome × W
  dispatch p w = elim (validate valid_schedule request) [
    | err e ↦ (err e, w)
    | ok checked ↦
        if contains_platform p request.targets
        then dispatch_checked registry p request w
        else (err (provider_platform_not_target p), w)
  ]

  module _ (display : DomainError → Text) where
    -- A failure becomes the rejected outcome of its target; `display` is `to_string`.
    unfoldable pub outcome_of : Fallible DispatchOutcome → DispatchOutcome
    outcome_of (ok outcome) = outcome
    outcome_of (err e) = rejected (display e)

    -- The loop of `dispatch_all`.
    unfoldable pub dispatch_each :
        List Platform → ProviderDispatchReport → W → ProviderDispatchReport × W
    dispatch_each [] outcomes w = (outcomes, w)
    dispatch_each (p ∷ ps) outcomes w =
        let (result, w') = dispatch p w in
        dispatch_each ps (insert p (outcome_of result) outcomes) w'

    -- `ProviderRegistry::dispatch_all`
    unfoldable pub dispatch_all : W → Fallible ProviderDispatchReport × W
    dispatch_all w = elim (validate valid_schedule request) [
      | err e ↦ (err e, w)
      | ok checked ↦ let (report, w') = dispatch_each request.targets empty w in (ok report, w')
    ]
