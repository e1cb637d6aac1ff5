-- ===== src/Prelude/Maybe.antt =====
-- The operator `?` on `Option`.
use matri_xpost.Prelude.{Option, none, some}

infixl 5 ◌>>=◌
abbrev pub ◌>>=◌ {ℓ κ} : {A : Type ℓ} {B : Type κ} → Option A → (A → Option B) → Option B
none >>= next = none
some value >>= next = next value
