-- ===== src/Storage/Table/Laws.antt =====
-- Reading a table after an update, and what sorting keeps.
use matri_xpost.Prelude.{
  ℕ, zero, suc, ◌≤◌, ◌≡◌, refl, ap, All, ◌++◌, Bool, true, false, List, [], ◌∷◌, Option, none, some,
  arith, if◌then◌else◌, find?, any, Bool-cases, inl, inr, length, filter, take, ◌⊎◌, Result, ok,
  collect, >>=-eq-ok,
}
use mathlib.Core.Path.{subst}
use matri_xpost.Storage.Table.{update_where, count_where, sort_by, insert_by}

module _ {A : Type 0} where
  abbrev pub if_matches : (A → Bool) → (A → A) → Option A → Option A
  if_matches matches change none = none
  if_matches matches change (some a) = some (if matches a then change a else a)

  -- The change keeps whether a row is the one that is looked for.
  abbrev pub Keeps : (A → Bool) → (A → A) → Type 0
  Keeps test change = (a : A) → test (change a) ≡ test a

  pub find?-update_where :
      (test matches : A → Bool) (change : A → A) (rows : List A)
      → Keeps test change
      → find? test (update_where matches change rows) ≡ if_matches matches change (find? test rows)
  unfolding update_where
  find?-update_where test matches change [] k = refl
  find?-update_where test matches change (a ∷ rows) k =
      ground (arith, k a, find?-update_where test matches change rows k)

  pub any-update_where :
      (test matches : A → Bool) (change : A → A) (rows : List A)
      → Keeps test change
      → any test (update_where matches change rows) ≡ any test rows
  unfolding update_where
  any-update_where test matches change [] k = refl
  any-update_where test matches change (a ∷ rows) k =
      ground (arith, k a, any-update_where test matches change rows k)

  pub length-update_where :
      (matches : A → Bool) (change : A → A) (rows : List A)
      → length (update_where matches change rows) ≡ length rows
  unfolding update_where
  length-update_where matches change [] = refl
  length-update_where matches change (a ∷ rows) = ap suc (length-update_where matches change rows)

  -- What is found passes the test.
  pub find?-test :
      (test : A → Bool) (rows : List A) (a : A) → find? test rows ≡ some a → test a ≡ true
  find?-test test [] a h = cc
  find?-test test (b ∷ rows) a h = ground (arith, find?-test test rows a)

  -- What is found has the property that every row has.
  pub All-find? :
      (P : A → Type 0) (test : A → Bool) (rows : List A) (a : A)
      → All P rows
      → find? test rows ≡ some a
      → P a
  All-find? P test [] a ps h = cc
  All-find? P test (b ∷ rows) a ps h = elim (Bool-cases (test b)) [
    | inl e ↦ subst P (cc (rw e at h)) ps.0
    | inr e ↦ All-find? P test rows a ps.1 (rw e at h)
  ]

  -- An update keeps a property of the rows that its change keeps.
  pub All-update_where :
      (P : A → Type 0) (matches : A → Bool) (change : A → A) (rows : List A)
      → ((a : A) → P a → P (change a))
      → All P rows
      → All P (update_where matches change rows)
  unfolding update_where
  All-update_where P matches change [] keep ps = tt
  All-update_where P matches change (a ∷ rows) keep ps =
      (changed (matches a), All-update_where P matches change rows keep ps.1)
    where
      changed : (b : Bool) → P (if b then change a else a)
      changed true = keep a ps.0
      changed false = ps.0

  pub All-append :
      (P : A → Type 0) (rows : List A) (a : A) → All P rows → P a → All P (rows ++ a ∷ [])
  All-append P [] a ps p = (p, tt)
  All-append P (b ∷ rows) a ps p = (ps.0, All-append P rows a ps.1 p)

  -- What a filter keeps has the property, and has passed the test.
  pub All-filter :
      (P : A → Type 0) (test : A → Bool) (rows : List A)
      → All P rows
      → All (λ a. P a × (test a ≡ true)) (filter test rows)
  All-filter P test [] ps = tt
  All-filter P test (a ∷ rows) ps = kept (test a) refl (All-filter P test rows ps.1)
    where
      kept :
          (b : Bool)
          → test a ≡ b
          → All (λ r. P r × (test r ≡ true)) (filter test rows)
          → All (λ r. P r × (test r ≡ true)) (if b then a ∷ filter test rows else filter test rows)
      kept true e rest = ((ps.0, e), rest)
      kept false e rest = rest

  All-insert_by :
      (P : A → Type 0) (le : A → A → Bool) (a : A) (rows : List A)
      → P a
      → All P rows
      → All P (insert_by le a rows)
  unfolding insert_by
  All-insert_by P le a [] p ps = (p, tt)
  All-insert_by P le a (b ∷ rows) p ps = placed (le a b) (All-insert_by P le a rows p ps.1)
    where
      placed :
          (first : Bool)
          → All P (insert_by le a rows)
          → All P (if first then a ∷ b ∷ rows else b ∷ insert_by le a rows)
      placed true rest = (p, (ps.0, ps.1))
      placed false rest = (ps.0, rest)

  pub All-sort_by :
      (P : A → Type 0) (le : A → A → Bool) (rows : List A) → All P rows → All P (sort_by le rows)
  unfolding sort_by
  All-sort_by P le [] ps = tt
  All-sort_by P le (a ∷ rows) ps =
      unfold insert_by in All-insert_by P le a (sort_by le rows) ps.0 (All-sort_by P le rows ps.1)

  pub All-take : (P : A → Type 0) (n : ℕ) (rows : List A) → All P rows → All P (take n rows)
  All-take P zero rows ps = tt
  All-take P (suc n) [] ps = tt
  All-take P (suc n) (a ∷ rows) ps = (ps.0, All-take P n rows ps.1)

  pub length-take_le : (n : ℕ) (rows : List A) → length (take n rows) ≤ n
  length-take_le zero rows = omega arith
  length-take_le (suc n) [] = omega arith
  length-take_le (suc n) (a ∷ rows) = omega (arith, length-take_le n rows)

  pub All-map : {P Q : A → Type 0} (rows : List A) → ((a : A) → P a → Q a) → All P rows → All Q rows
  All-map [] f ps = tt
  All-map (a ∷ rows) f ps = (f a ps.0, All-map rows f ps.1)

  -- In a list that `le` orders, each element comes before all that follow it.
  abbrev pub IsSorted : (A → A → Bool) → List A → Type 0
  IsSorted le [] = Unit
  IsSorted le (a ∷ rows) = All (λ b. le a b ≡ true) rows × IsSorted le rows

  module _ (le : A → A → Bool) (total : (a b : A) → (le a b ≡ true) ⊎ (le b a ≡ true))
      (trans : (a b c : A) → le a b ≡ true → le b c ≡ true → le a c ≡ true) where
    insert_by-IsSorted :
        (a : A) (rows : List A) → IsSorted le rows → IsSorted le (insert_by le a rows)
    unfolding insert_by
    insert_by-IsSorted a [] s = (tt, tt)
    insert_by-IsSorted a (b ∷ rows) s = placed (le a b) refl (insert_by-IsSorted a rows s.1)
      where
        placed :
            (first : Bool)
            → le a b ≡ first
            → IsSorted le (insert_by le a rows)
            → IsSorted le (if first then a ∷ b ∷ rows else b ∷ insert_by le a rows)
        placed true e rest = ((e, All-map rows (λ c bc. trans a b c e bc) s.0), (s.0, s.1))
        placed false e rest = (All-insert_by (λ c. le b c ≡ true) le a rows after s.0, rest)
          where
            after : le b a ≡ true
            after = elim (total a b) [ inl ab ↦ cc | inr ba ↦ ba ]

    pub sort_by-IsSorted : (rows : List A) → IsSorted le (sort_by le rows)
    unfolding sort_by
    sort_by-IsSorted [] = tt
    sort_by-IsSorted (a ∷ rows) =
        unfold insert_by in insert_by-IsSorted a (sort_by le rows) (sort_by-IsSorted rows)

  pub IsSorted-take :
      (le : A → A → Bool) (n : ℕ) (rows : List A) → IsSorted le rows → IsSorted le (take n rows)
  IsSorted-take le zero rows s = tt
  IsSorted-take le (suc n) [] s = tt
  IsSorted-take le (suc n) (a ∷ rows) s =
      (All-take (λ b. le a b ≡ true) n rows s.0, IsSorted-take le n rows s.1)

  pub count_where-update_where :
      (test matches : A → Bool) (change : A → A) (rows : List A)
      → Keeps test change
      → count_where test (update_where matches change rows) ≡ count_where test rows
  unfolding count_where update_where
  count_where-update_where test matches change [] k = refl
  count_where-update_where test matches change (a ∷ rows) k =
      ground (arith, k a, count_where-update_where test matches change rows k)

  count_where-le :
      (p q : A → Bool) (rows : List A)
      → ((a : A) → q a ≡ true → p a ≡ true)
      → count_where q rows ≤ count_where p rows
  unfolding count_where
  count_where-le p q [] sub = omega arith
  count_where-le p q (a ∷ rows) sub = ground (arith, sub a, count_where-le p q rows sub)

  count_where-zero :
      (p : A → Bool) (rows : List A) → count_where p rows ≤ 0 → All (λ a. p a ≡ false) rows
  unfolding count_where
  count_where-zero p [] z = tt
  count_where-zero p (a ∷ rows) z = (ground arith, count_where-zero p rows (ground arith))

  -- Where one row at most passes `p`, and one passes the narrower `q`, whatever passes `p` passes `q`.
  pub only_match :
      (p q : A → Bool) (rows : List A)
      → ((a : A) → q a ≡ true → p a ≡ true)
      → count_where p rows ≤ 1
      → count_where q rows ≡ 1
      → All (λ a. p a ≡ true → q a ≡ true) rows
  unfolding count_where
  only_match p q [] sub one hit = tt
  only_match p q (a ∷ rows) sub one hit = elim (Bool-cases (q a)) [
    | inl e ↦ (
      (λ _. e),
      All-map rows (λ r no yes'. cc (no, yes')) (count_where-zero p rows (ground (arith, sub a e))),
    )
    | inr e ↦ (
      (λ pa. absurd (ground (arith, count_where-le p q rows sub))),
      only_match p q rows sub (ground arith) (ground arith),
    )
  ]

  -- After an update, what holds of the changed rows and of the others.
  pub All-updated :
      (P Q : A → Type 0) (matches : A → Bool) (change : A → A) (rows : List A)
      → ((a : A) → P a → matches a ≡ true → Q (change a))
      → ((a : A) → P a → matches a ≡ false → Q a)
      → All P rows
      → All Q (update_where matches change rows)
  unfolding update_where
  All-updated P Q matches change [] hit miss ps = tt
  All-updated P Q matches change (a ∷ rows) hit miss ps =
      (updated (matches a) refl, All-updated P Q matches change rows hit miss ps.1)
    where
      updated : (b : Bool) → matches a ≡ b → Q (if b then change a else a)
      updated true e = hit a ps.0 e
      updated false e = miss a ps.0 e

  -- A row that is appended is found, where no row before it passed the test.
  pub find?-append_new :
      (test : A → Bool) (rows : List A) (a : A)
      → any test rows ≡ false
      → test a ≡ true
      → find? test (rows ++ a ∷ []) ≡ some a
  find?-append_new test [] a h t = rw t
  find?-append_new test (b ∷ rows) a h t = ground (arith, find?-append_new test rows a)

module _ {A B E : Type 0} (f : A → Result E B) where
  -- What holds of the rows holds of what they decode to.
  pub collect-All :
      (P : A → Type 0) (Q : B → Type 0) (rows : List A) (bs : List B)
      → ((a : A) (b : B) → P a → f a ≡ ok b → Q b)
      → collect f rows ≡ ok bs
      → All P rows
      → All Q bs
  unfolding collect
  collect-All P Q [] bs step h ps = subst (All Q) {x = []} (cc h) tt
  collect-All P Q (a ∷ rows) bs step h ps =
      let (b, h₁, k₁) = >>=-eq-ok (f a) _ h in
      let (rest, h₂, k₂) = >>=-eq-ok (collect f rows) _ k₁ in
      subst (All Q) {x = b ∷ rest} (cc k₂)
        (step a b ps.0 h₁, collect-All P Q rows rest step h₂ ps.1)

  pub length-collect :
      (rows : List A) (bs : List B) → collect f rows ≡ ok bs → length bs ≡ length rows
  unfolding collect
  length-collect [] bs h = ground arith
  length-collect (a ∷ rows) bs h =
      let (b, h₁, k₁) = >>=-eq-ok (f a) _ h in
      let (rest, h₂, k₂) = >>=-eq-ok (collect f rows) _ k₁ in
      ground (arith, length-collect rows rest h₂)

  pub collect-IsSorted :
      (le : A → A → Bool) (le' : B → B → Bool) (rows : List A) (bs : List B)
      → ((a a' : A) (b b' : B) → f a ≡ ok b → f a' ≡ ok b' → le a a' ≡ true → le' b b' ≡ true)
      → collect f rows ≡ ok bs
      → IsSorted le rows
      → IsSorted le' bs
  unfolding collect
  collect-IsSorted le le' [] bs mono h s = subst (IsSorted le') {x = []} (cc h) tt
  collect-IsSorted le le' (a ∷ rows) bs mono h s =
      let (b, h₁, k₁) = >>=-eq-ok (f a) _ h in
      let (rest, h₂, k₂) = >>=-eq-ok (collect f rows) _ k₁ in
      subst (IsSorted le') {x = b ∷ rest} (cc k₂) (
        collect-All (λ r. le a r ≡ true) (λ r. le' b r ≡ true) rows rest
            (λ r b' ar e. mono a r b b' h₁ e ar) h₂ s.0,
        collect-IsSorted le le' rows rest mono h₂ s.1,
      )
