-- ===== src/Runner/Outcomes.antt =====
-- The answers of a provider, of crates/matrixpost-core/src/runner/protocol.rs, and the maps by
-- platform that hold them.
pub mod Laws
use matri_xpost.Prelude.{Bool, true, false, List, [], ◌∷◌, Option, none, some, if◌then◌else◌}
use matri_xpost.Text.{Text}
use matri_xpost.Types.Enums.{Platform, platform_eq, all_platforms}

pub data ProviderAvailability : Type 0 where
  available : ProviderAvailability
  unavailable : Text → ProviderAvailability

-- `DispatchOutcome`; the payload is a job id or a reason.
pub data DispatchOutcome : Type 0 where
  queued unavailable_outcome rejected : Text → DispatchOutcome

-- `matches!(outcome, DispatchOutcome::Queued { .. })`
abbrev pub is_queued : DispatchOutcome → Bool
is_queued (queued id) = true
is_queued _ = false

-- `matches!(outcome, DispatchOutcome::Unavailable { .. })`
abbrev pub is_unavailable : DispatchOutcome → Bool
is_unavailable (unavailable_outcome reason) = true
is_unavailable _ = false

-- `BTreeMap<Platform, V>`: what the map has at each platform. Its order is that of the platforms.
abbrev pub PlatformMap : Type 0 → Type 0
PlatformMap V = Platform → Option V

module _ {V : Type 0} where
  abbrev pub empty : PlatformMap V
  empty p = none

  unfoldable pub insert : Platform → V → PlatformMap V → PlatformMap V
  unfolding platform_eq
  insert p v m q = if platform_eq q p then some v else m q

  unfoldable pub collect_values : PlatformMap V → List Platform → List V
  collect_values m [] = []
  collect_values m (p ∷ ps) = elim (m p) [
    | none ↦ collect_values m ps
    | some v ↦ v ∷ collect_values m ps
  ]

  -- `values`, in the order of the platforms
  unfoldable pub values : PlatformMap V → List V
  unfolding collect_values all_platforms
  values m = collect_values m all_platforms
