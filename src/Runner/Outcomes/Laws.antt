-- ===== src/Runner/Outcomes/Laws.antt =====
-- What holds of all that a map by platform holds.
use matri_xpost.Prelude.{
  ◌≡◌, refl, sym, inl, inr, List, [], ◌∷◌, All, Option, none, some, Bool-cases,
}
use mathlib.Core.Path.{subst}
use matri_xpost.Types.Enums.{Platform, platform_eq, platform_eq_iff}
use matri_xpost.Runner.Outcomes.{PlatformMap, empty, insert, collect_values}

module _ {V : Type 0} (P : Platform → V → Type 0) where
  -- What a map holds has the property.
  abbrev pub Holds : PlatformMap V → Type 0
  Holds m = (p : Platform) (v : V) → m p ≡ some v → P p v

  held : (v u : V) → some v ≡ some u → v ≡ u
  held v u h = cc h

  pub empty-Holds : Holds empty
  empty-Holds p v h = cc h

  pub insert-Holds :
      (p : Platform) (v : V) (m : PlatformMap V) → P p v → Holds m → Holds (insert p v m)
  unfolding insert
  insert-Holds p v m new old q u h = elim (Bool-cases (platform_eq q p)) [
    | inl same ↦
        subst (λ r. P r u) (sym ((platform_eq_iff q p).0 same))
          (subst (P p) (held v u (rw same at h)) new)
    | inr other ↦ old q u (rw other at h)
  ]

  pub collect_values-All :
      (m : PlatformMap V) (ps : List Platform)
      → Holds m
      → All (λ v. (p : Platform) × P p v) (collect_values m ps)
  unfolding collect_values
  collect_values-All m [] hold = tt
  collect_values-All m (p ∷ ps) hold = found (collect_values-All m ps hold) (m p) refl
    where
      found :
          All (λ v. (q : Platform) × P q v) (collect_values m ps)
          → (o : Option V) → m p ≡ o
          → All
              (λ v. (q : Platform) × P q v)
              (elim o [ none ↦ collect_values m ps | some v ↦ v ∷ collect_values m ps ])
      found later none e = later
      found later (some v) e = ((p, hold p v e), later)
