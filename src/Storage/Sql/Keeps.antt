-- ===== src/Storage/Sql/Keeps.antt =====
-- Actions that keep a property of the database, whatever fails.
use matri_xpost.Prelude.{
  ◌≡◌, refl, Bool, true, false, List, [], ◌∷◌, Option, none, some, ok, err, if◌then◌else◌,
}
use matri_xpost.Text.{Text}
use matri_xpost.Error.{Fallible}
use matri_xpost.Storage.Sql.{
  Connection, Sql, pure, lift, statement, query, run_statement, locked, transaction, roll_back,
  continue, ◌>>=◌,
}

module _ {D : Type 0} (P : D → Type 0) where
  -- After the action the database still has the property, also if the action failed.
  pub record Keeps {A : Type 0} (m : Sql D A) : Type 0 where
    pub keeps : (c : Connection D) → P c.db → P (m c).1.db

  pub pure-Keeps : {A : Type 0} (a : A) → Keeps (pure a)
  unfolding pure
  pure-Keeps a = record { keeps = λ c h. h }

  pub lift-Keeps : {A : Type 0} (r : Fallible A) → Keeps (lift r)
  unfolding lift
  lift-Keeps r = record { keeps = λ c h. h }

  run_statement-keeps :
      {A : Type 0} (f : D → Fallible A × D) (c : Connection D) (faults : List (Option Text))
      → P c.db
      → P (f c.db).1
      → P (run_statement f c faults).1.db
  unfolding run_statement
  run_statement-keeps f c [] h k = k
  run_statement-keeps f c (none ∷ rest) h k = k
  run_statement-keeps f c (some message ∷ rest) h k = h

  pub statement-Keeps :
      {A : Type 0} (f : D → Fallible A × D) → ((d : D) → P d → P (f d).1) → Keeps (statement f)
  unfolding statement
  statement-Keeps f k = record { keeps = λ c h. run_statement-keeps f c c.faults h (k c.db h) }

  pub query-Keeps : {A : Type 0} (f : D → Fallible A) → Keeps (query f)
  unfolding query
  query-Keeps f = statement-Keeps (λ d. (f d, d)) (λ d h. h)

  pub >>=-Keeps :
      {A B : Type 0} (m : Sql D A) (f : A → Sql D B)
      → Keeps m
      → ((a : A) → Keeps (f a))
      → Keeps (m >>= f)
  unfolding ◌>>=◌
  >>=-Keeps {A} m f k l = record { keeps = λ c h. continued (m c).0 (m c).1 (k.keeps c h) }
    where
      continued : (r : Fallible A) (c' : Connection D) → P c'.db → P (continue r f c').1.db
      continued (ok a) c' h' = (l a).keeps c' h'
      continued (err e) c' h' = h'

  -- What follows a check may use that it passed.
  pub check-Keeps :
      {A B : Type 0} (r : Fallible A) (f : A → Sql D B)
      → ((a : A) → r ≡ ok a → Keeps (f a))
      → Keeps (lift r >>= f)
  unfolding ◌>>=◌ lift
  check-Keeps (ok a) f k = record { keeps = (k a refl).keeps }
  check-Keeps (err e) f k = record { keeps = λ c h. h }

  pub locked-Keeps : {A : Type 0} (m : Sql D A) → Keeps m → Keeps (locked m)
  unfolding locked
  locked-Keeps m k = record { keeps = λ c h. by_flag c h c.poisoned refl }
    where
      by_flag : (c : Connection D) → P c.db → (b : Bool) → c.poisoned ≡ b → P (locked m c).1.db
      by_flag c h true e = rw (locked, e) h
      by_flag c h false e = rw (locked, e) (k.keeps c h)

  roll_back-keeps :
      {A : Type 0} (before : D) (r : Fallible A × Connection D)
      → P before
      → P r.1.db
      → P (roll_back before r).1.db
  unfolding roll_back
  roll_back-keeps before (ok a, c') h p = p
  roll_back-keeps before (err e, c') h p = h

  -- A statement that changes nothing, as the beginning and the end of a transaction are.
  idle-Keeps : Keeps (statement (λ (d : D). (ok tt, d)))
  idle-Keeps = statement-Keeps (λ d. (ok tt, d)) (λ d p. p)

  pub transaction-Keeps : {A : Type 0} (m : Sql D A) → Keeps m → Keeps (transaction m)
  unfolding transaction
  transaction-Keeps m k =
      let body =
        >>=-Keeps _ _ idle-Keeps
          (λ u. >>=-Keeps m _ k (λ a. >>=-Keeps _ _ idle-Keeps (λ v. pure-Keeps a))) in
      record { keeps = λ c h. roll_back-keeps c.db _ h (body.keeps c h) }

  pub if-Keeps :
      {A : Type 0} (b : Bool) (m n : Sql D A) → Keeps m → Keeps n → Keeps (if b then m else n)
  if-Keeps true m n k l = k
  if-Keeps false m n k l = l
