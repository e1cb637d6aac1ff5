-- ===== src/Prelude/Outcome.antt =====
-- `Result` of the Rust standard library, with the error first as in a chain by `?`.
use mathlib.Core.Path.{◌≡◌, refl}
use mathlib.Core.Bool.{Bool, true, false}
use mathlib.Core.Option.{Option, none, some}
use mathlib.Core.List.{List, [], ◌∷◌}

pub data Result {ℓ κ} (E : Type ℓ) (A : Type κ) : Type (ℓ ⊔ κ) where
  err : E → Result E A
  ok : A → Result E A

-- The operator `?`: what follows runs only on a result that is not an error.
infixl 5 ◌>>=◌
abbrev pub ◌>>=◌ {ℓ κ λ'} :
    {E : Type ℓ} {A : Type κ} {B : Type λ'} → Result E A → (A → Result E B) → Result E B
err failure >>= next = err failure
ok value >>= next = next value

-- `return Err(e)` under a test.
abbrev pub reject_if {ℓ} : {E : Type ℓ} → Bool → E → Result E (Unit {0})
reject_if true e = err e
reject_if false e = ok tt

-- A check, for its failure only.
infixl 5 ◌>>◌
abbrev pub ◌>>◌ {ℓ λ'} : {E : Type ℓ} {B : Type λ'} → Result E (Unit {0}) → Result E B → Result E B
check >> rest = check >>= λ passed. rest

abbrev pub ok_or {ℓ κ} : {E : Type ℓ} {A : Type κ} → Option A → E → Result E A
ok_or none e = err e
ok_or (some a) e = ok a

abbrev pub map_err {ℓ κ λ'} :
    {E : Type ℓ} {F : Type κ} {A : Type λ'} → (E → F) → Result E A → Result F A
map_err f (ok a) = ok a
map_err f (err e) = err (f e)

abbrev pub is_err {ℓ κ} : {E : Type ℓ} {A : Type κ} → Result E A → Bool
is_err (ok a) = false
is_err (err e) = true

-- A chain that succeeded, taken apart.
pub >>=-eq-ok {ℓ κ λ'} :
    {E : Type ℓ} {A : Type κ} {B : Type λ'} (first : Result E A) (next : A → Result E B) {final : B}
    → (first >>= next) ≡ ok final
    → (value : A) × (first ≡ ok value) × (next value ≡ ok final)
>>=-eq-ok (err failure) next chain = cc
>>=-eq-ok (ok value) next chain = (value, refl, chain)

-- `map(f).collect::<Result<Vec<_>, _>>()`
unfoldable pub collect {ℓ κ λ'} :
    {E : Type ℓ} {A : Type κ} {B : Type λ'} → (A → Result E B) → List A → Result E (List B)
collect f [] = ok []
collect f (a ∷ rest) = do b ← f a; bs ← collect f rest; ok (b ∷ bs)

pub ok_or-ok {ℓ κ} :
    {E : Type ℓ} {A : Type κ} (o : Option A) (e : E) (a : A) → ok_or o e ≡ ok a → o ≡ some a
ok_or-ok none e a h = cc
ok_or-ok (some b) e a h = cc

pub reject_if-ok {ℓ} :
    {E : Type ℓ} (b : Bool) (e : E) (u : Unit {0}) → reject_if b e ≡ ok u → b ≡ false
reject_if-ok true e u h = cc
reject_if-ok false e u h = refl

-- A check that did not fire, before the rest of a chain that succeeded.
pub reject_if->>-ok {ℓ λ'} :
    {E : Type ℓ} {B : Type λ'} (b : Bool) (e : E) (rest : Result E B) (u : B)
    → (reject_if b e >> rest) ≡ ok u
    → (b ≡ false) × (rest ≡ ok u)
reject_if->>-ok true e rest u h = cc h
reject_if->>-ok false e rest u h = (refl, h)
