-- ===== src/Storage/Consistent/Lists.antt =====
-- Lists of rows that grow at their end.
use matri_xpost.Prelude.{
  ◌≡◌, refl, ap, ap₂, Bool, true, false, List, [], ◌∷◌, ◌++◌, map, any, All, Pairwise, Elem, arith,
  Bool-cases, inl, inr,
}
use matri_xpost.Storage.Table.{update_where}

module _ {ℓ} {A : Type ℓ} where
  pub All-append {κ} :
      (P : A → Type κ) (xs : List A) (y : A) → All P xs → P y → All P (xs ++ y ∷ [])
  All-append P [] y h k = (k, tt)
  All-append P (x ∷ xs) y h k = (h.0, All-append P xs y h.1 k)

  pub All-map {κ ι} :
      (P : A → Type κ) (Q : A → Type ι) (xs : List A) → ((x : A) → P x → Q x) → All P xs → All Q xs
  All-map P Q [] f h = tt
  All-map P Q (x ∷ xs) f h = (f x h.0, All-map P Q xs f h.1)

  pub Elem-append : (x : A) (xs : List A) (y : A) → Elem x xs → Elem x (xs ++ y ∷ [])
  Elem-append x _ y Elem.here = Elem.here
  Elem-append x _ y (Elem.there h) = Elem.there (Elem-append x _ y h)

  -- No element passes the test.
  pub any-All : (p : A → Bool) (xs : List A) → any p xs ≡ false → All (λ x. p x ≡ false) xs
  any-All p [] h = tt
  any-All p (x ∷ xs) h = (ground (arith, h), any-All p xs (ground (arith, h)))

  pub Pairwise-append {κ} :
      (R : A → A → Type κ) (xs : List A) (y : A)
      → Pairwise R xs
      → All (λ x. R x y) xs
      → Pairwise R (xs ++ y ∷ [])
  Pairwise-append R [] y h k = (tt, tt)
  Pairwise-append R (x ∷ xs) y h k = (All-append (R x) xs y h.0 k.0, Pairwise-append R xs y h.1 k.1)

module _ {κ} {A : Type 0} {B : Type κ} (f : A → B) where
  pub map-append : (xs : List A) (y : A) → map f (xs ++ y ∷ []) ≡ map f xs ++ f y ∷ []
  map-append [] y = refl
  map-append (x ∷ xs) y = ap (λ l. f x ∷ l) (map-append xs y)

  pub All-mapped {ι} : (P : B → Type ι) (xs : List A) → All (λ x. P (f x)) xs → All P (map f xs)
  All-mapped P [] h = tt
  All-mapped P (x ∷ xs) h = (h.0, All-mapped P xs h.1)

  -- An update that leaves a column leaves the list of its values.
  pub map-update_where :
      (p : A → Bool) (g : A → A) (xs : List A)
      → ((x : A) → f (g x) ≡ f x)
      → map f (update_where p g xs) ≡ map f xs
  unfolding update_where
  map-update_where p g [] h = refl
  map-update_where p g (x ∷ xs) h = elim (Bool-cases (p x)) [
    | inl changed ↦ rw changed (ap₂ (λ b l. b ∷ l) (h x) (map-update_where p g xs h))
    | inr left ↦ rw left (ap (λ l. f x ∷ l) (map-update_where p g xs h))
  ]

  -- An element that passes a test on a column has its value there.
  pub any-Elem :
      (p : A → Bool) (b : B) (xs : List A)
      → ((x : A) → p x ≡ true → f x ≡ b)
      → any p xs ≡ true
      → Elem b (map f xs)
  any-Elem p b [] h k = cc k
  any-Elem p b (x ∷ xs) h k = elim (Bool-cases (p x)) [
    | inl found ↦ rw (h x found) Elem.here
    | inr other ↦ Elem.there (any-Elem p b xs h (ground (arith, k, other)))
  ]
