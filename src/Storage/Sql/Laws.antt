-- ===== src/Storage/Sql/Laws.antt =====
-- Inversion of actions that succeeded, and what an action that failed leaves behind.
use matri_xpost.Prelude.{
  ◌≡◌, refl, ap, sym, ◌∙◌, Bool, true, false, List, [], ◌∷◌, Option, none, some, ok, err, ◌⊎◌, inl,
  inr,
}
use matri_xpost.Text.{Text}
use matri_xpost.Error.{DomainError, Fallible}
use matri_xpost.Storage.Sql.{
  Connection, Sql, pure, lift, statement, query, run_statement, locked, transaction, roll_back,
  continue, ◌>>=◌,
}

module _ {D A : Type 0} where
  pub >>=-ok :
      {B : Type 0} (m : Sql D A) (f : A → Sql D B) (c : Connection D) (b : B) (c'' : Connection D)
      → (m >>= f) c ≡ (ok b, c'')
      → (a : A) × (c' : Connection D) × (m c ≡ (ok a, c')) × (f a c' ≡ (ok b, c''))
  unfolding ◌>>=◌
  >>=-ok m f c b c'' h = split (m c) refl
    where
      split :
          (r : Fallible A × Connection D)
          → m c ≡ r
          → (a : A) × (c' : Connection D) × (m c ≡ (ok a, c')) × (f a c' ≡ (ok b, c''))
      split (ok a, c') e = (a, c', e, rw (← h) (ap (λ r. continue r.0 f r.1) (sym e)))
      split (err x, c') e = cc (ap (λ r. continue r.0 f r.1) e, h)

  pub lift-ok :
      (r : Fallible A) (c : Connection D) (a : A) (c' : Connection D)
      → lift r c ≡ (ok a, c')
      → (r ≡ ok a) × (c' ≡ c)
  unfolding lift
  lift-ok r c a c' h = (ap (λ p. p.0) h, ap (λ p. p.1) (sym h))

  pub pure-ok :
      (b : A) (c : Connection D) (a : A) (c' : Connection D)
      → pure b c ≡ (ok a, c')
      → (a ≡ b) × (c' ≡ c)
  unfolding pure
  pure-ok b c a c' h = (cc (ap (λ p. p.0) h), ap (λ p. p.1) (sym h))

  run_statement-ok :
      (f : D → Fallible A × D) (c : Connection D) (faults : List (Option Text)) (a : A)
      (c' : Connection D)
      → run_statement f c faults ≡ (ok a, c')
      → ((f c.db).0 ≡ ok a) × (c'.db ≡ (f c.db).1)
  unfolding run_statement
  run_statement-ok f c [] a c' h = (ap (λ p. p.0) h, ap (λ p. p.1.db) (sym h))
  run_statement-ok f c (none ∷ rest) a c' h = (ap (λ p. p.0) h, ap (λ p. p.1.db) (sym h))
  run_statement-ok f c (some message ∷ rest) a c' h = cc (ap (λ p. p.0) h)

  -- A statement that succeeded had its effect.
  pub statement-ok :
      (f : D → Fallible A × D) (c : Connection D) (a : A) (c' : Connection D)
      → statement f c ≡ (ok a, c')
      → ((f c.db).0 ≡ ok a) × (c'.db ≡ (f c.db).1)
  unfolding statement
  statement-ok f c a c' h = run_statement-ok f c c.faults a c' h

  -- A query that succeeded read the database and left it.
  pub query-ok :
      (f : D → Fallible A) (c : Connection D) (a : A) (c' : Connection D)
      → query f c ≡ (ok a, c')
      → (f c.db ≡ ok a) × (c'.db ≡ c.db)
  unfolding query
  query-ok f c a c' h = statement-ok (λ d. (f d, d)) c a c' h

  pub locked-ok :
      (m : Sql D A) (c : Connection D) (a : A) (c' : Connection D)
      → locked m c ≡ (ok a, c')
      → m c ≡ (ok a, c')
  unfolding locked
  locked-ok m c a c' h = split c.poisoned refl
    where
      split : (p : Bool) → c.poisoned ≡ p → m c ≡ (ok a, c')
      split true e = cc (ap (λ p. p.0) (rw (e, locked) at h))
      split false e = rw (e, locked) at h

module _ {D A : Type 0} where
  roll_back-ok :
      (before : D) (r : Fallible A × Connection D) (a : A) (c' : Connection D)
      → roll_back before r ≡ (ok a, c')
      → r ≡ (ok a, c')
  unfolding roll_back
  roll_back-ok before (ok b, c) a c' h = h
  roll_back-ok before (err e, c) a c' h = cc (ap (λ p. p.0) h)

  -- A transaction that succeeded ran its body on the database, and kept what the body left.
  pub transaction-ok :
      (m : Sql D A) (c : Connection D) (a : A) (c' : Connection D)
      → transaction m c ≡ (ok a, c')
      → (c₁ c₂ : Connection D) × (c₁.db ≡ c.db) × (m c₁ ≡ (ok a, c₂)) × (c'.db ≡ c₂.db)
  unfolding transaction
  transaction-ok m c a c' h =
      let begin : Sql D (Unit {0}) = statement (λ d. (ok tt, d)) in
      let (_, c₁, began, h₁) =
        >>=-ok begin (λ _. m >>= λ b. begin >>= λ _. pure b) c a c' (roll_back-ok c.db _ a c' h) in
      let (b, c₂, ran, h₂) = >>=-ok m (λ b. begin >>= λ _. pure b) c₁ a c' h₁ in
      let (_, c₃, committed, h₃) = >>=-ok begin (λ _. pure b) c₂ a c' h₂ in
      let (same, last) = pure-ok b c₃ a c' h₃ in
      (
        c₁,
        c₂,
        (statement-ok (λ d. (ok tt, d)) c _ c₁ began).1,
        rw same ran,
        ap (λ (k : Connection D). k.db) last ∙ (statement-ok (λ d. (ok tt, d)) c₂ _ c₃ committed).1,
      )

  roll_back-err :
      (before : D) (r : Fallible A × Connection D) (e : DomainError) (c' : Connection D)
      → roll_back before r ≡ (err e, c')
      → c'.db ≡ before
  unfolding roll_back
  roll_back-err before (ok b, c) e c' h = cc (ap (λ p. p.0) h)
  roll_back-err before (err x, c) e c' h = ap (λ p. p.1.db) (sym h)

  -- A transaction that failed, at whatever statement, left the database as it was.
  pub transaction-err :
      (m : Sql D A) (c : Connection D) (e : DomainError) (c' : Connection D)
      → transaction m c ≡ (err e, c')
      → c'.db ≡ c.db
  unfolding transaction
  transaction-err m c e c' h = roll_back-err c.db _ e c' h

module _ {D A B : Type 0} where
  -- Two ways to go on agree, where they agree on every outcome that the first part may have.
  pub >>=-cong :
      (m : Sql D A) (f g : A → Sql D B) (c : Connection D)
      → ((a : A) (c' : Connection D) → m c ≡ (ok a, c') → f a c' ≡ g a c')
      → (m >>= f) c ≡ (m >>= g) c
  unfolding ◌>>=◌
  >>=-cong m f g c agree = split (m c) agree
    where
      split :
          (r : Fallible A × Connection D)
          → ((a : A) (c' : Connection D) → r ≡ (ok a, c') → f a c' ≡ g a c')
          → continue r.0 f r.1 ≡ continue r.0 g r.1
      split (ok a, c') same = same a c' refl
      split (err e, c') same = refl

-- A connection that is not poisoned and on which no statement fails.
abbrev pub healthy : {D : Type 0} → D → Connection D
healthy d = record { db = d; poisoned = false; faults = [] }

module _ {D A : Type 0} where
  pub locked-err :
      (m : Sql D A) (c : Connection D) (e : DomainError) (c' : Connection D)
      → locked m c ≡ (err e, c')
      → (c'.db ≡ c.db) ⊎ (m c ≡ (err e, c'))
  unfolding locked
  locked-err m c e c' h = split c.poisoned refl
    where
      split : (p : Bool) → c.poisoned ≡ p → (c'.db ≡ c.db) ⊎ (m c ≡ (err e, c'))
      split true p = inl (ap (λ r. r.1.db) (sym (rw (p, locked) at h)))
      split false p = inr (rw (p, locked) at h)

  -- A method that takes the lock and runs one transaction changes nothing when it fails.
  pub locked-transaction-err :
      (m : Sql D A) (c : Connection D) (e : DomainError) (c' : Connection D)
      → locked (transaction m) c ≡ (err e, c')
      → c'.db ≡ c.db
  locked-transaction-err m c e c' h = elim (locked-err (transaction m) c e c' h) [
    | inl same ↦ same
    | inr failed ↦ transaction-err m c e c' failed
  ]
