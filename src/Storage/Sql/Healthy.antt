-- ===== src/Storage/Sql/Healthy.antt =====
-- How actions run on a connection that works: no statement fails and the mutex is not poisoned.
use matri_xpost.Prelude.{◌≡◌, ap, ok}
use matri_xpost.Error.{Fallible}
use matri_xpost.Storage.Sql.{
  Connection, Sql, pure, lift, statement, query, locked, transaction, ◌>>=◌, continue, roll_back,
  run_statement,
}
use matri_xpost.Storage.Sql.Laws.{healthy}

module _ {D A : Type 0} where
  pub >>=-run :
      {B : Type 0} (m : Sql D A) (f : A → Sql D B) (c c' : Connection D) (a : A)
      → m c ≡ (ok a, c')
      → (m >>= f) c ≡ f a c'
  unfolding ◌>>=◌ continue
  >>=-run m f c c' a e = ap (λ (r : Fallible A × Connection D). continue r.0 f r.1) e

  pub lift-run : (r : Fallible A) (c : Connection D) (a : A) → r ≡ ok a → lift r c ≡ (ok a, c)
  unfolding lift
  lift-run r c a e = ap (λ (s : Fallible A). (s, c)) e

  pub statement-run :
      (f : D → Fallible A × D) (d d' : D) (a : A)
      → f d ≡ (ok a, d')
      → statement f (healthy d) ≡ (ok a, healthy d')
  unfolding statement run_statement
  statement-run f d d' a e = ap (λ (r : Fallible A × D). (r.0, healthy r.1)) e

  pub query-run :
      (f : D → Fallible A) (d : D) (a : A) → f d ≡ ok a → query f (healthy d) ≡ (ok a, healthy d)
  unfolding query
  query-run f d a e = statement-run (λ k. (f k, k)) d d a (ap (λ (r : Fallible A). (r, d)) e)

  -- A transaction whose body succeeds commits it.
  pub locked-transaction-run :
      (m : Sql D A) (d d' : D) (a : A)
      → m (healthy d) ≡ (ok a, healthy d')
      → locked (transaction m) (healthy d) ≡ (ok a, healthy d')
  unfolding locked transaction roll_back ◌>>=◌ continue statement run_statement pure
  locked-transaction-run m d d' a e = rw e
