-- ===== src/Storage/Table.antt =====
-- What the SQL statements do to the rows of one table.
pub mod Laws
use matri_xpost.Prelude.{
  ℕ, zero, suc, ◌≡◌, refl, Bool, true, false, ◌&&◌, List, [], ◌∷◌, ◌++◌, arith, if◌then◌else◌,
  filter, length, ap,
}

module _ {A : Type 0} where
  -- `UPDATE … WHERE …`
  unfoldable pub update_where : (A → Bool) → (A → A) → List A → List A
  update_where matches change [] = []
  update_where matches change (x ∷ xs) =
      (if matches x then change x else x) ∷ update_where matches change xs

  -- the number of rows that such a statement changes
  unfoldable pub count_where : (A → Bool) → List A → ℕ
  count_where matches [] = 0
  count_where matches (x ∷ xs) =
      let rest = count_where matches xs in if matches x then suc rest else rest

  -- `ORDER BY`: a stable sort by the order `le`.
  unfoldable pub insert_by : (A → A → Bool) → A → List A → List A
  insert_by le x [] = x ∷ []
  insert_by le x (y ∷ ys) = let rest = insert_by le x ys in if le x y then x ∷ y ∷ ys else y ∷ rest

  unfoldable pub sort_by : (A → A → Bool) → List A → List A
  unfolding insert_by
  sort_by le [] = []
  sort_by le (x ∷ xs) = insert_by le x (sort_by le xs)
