-- ===== src/Storage/Sql.antt =====
-- The connection behind `SqliteRepository`: a database, the mutex's poison flag and the failures
-- that SQLite reports. rusqlite and SQLite are not code of the repository: what the code relies on
-- is that a statement that fails changes nothing, and that a transaction which is not committed is
-- rolled back. A failure is an input: `faults` says, for each statement in turn, whether it fails
-- and with which message; past its end no statement fails.
pub mod Laws
pub mod Healthy
pub mod Keeps
use matri_xpost.Prelude.{
  ◌≡◌, refl, Bool, true, false, List, [], ◌∷◌, Option, none, some, Result, ok, err,
}
use matri_xpost.Text.{Text}
use matri_xpost.Error.{DomainError, Fallible, database, repository_poisoned}

pub record Connection (D : Type 0) : Type 0 where
  pub db : D
  pub poisoned : Bool
  pub faults : List (Option Text)

-- An action on a connection that may fail. The connection comes back beside an error too.
abbrev pub Sql : Type 0 → Type 0 → Type 0
Sql D A = Connection D → Fallible A × Connection D

module _ {D A : Type 0} where
  unfoldable pub pure : A → Sql D A
  pure a c = (ok a, c)

  unfoldable pub lift : Fallible A → Sql D A
  lift r c = (r, c)

  run_statement :
      (D → Fallible A × D) → Connection D → List (Option Text) → Fallible A × Connection D
  run_statement f c [] = let (r, d) = f c.db in (r, record c { db = d })
  run_statement f c (none ∷ rest) = let (r, d) = f c.db in (r, record c { db = d; faults = rest })
  run_statement f c (some message ∷ rest) = (err (database message), record c { faults = rest })

  -- One SQL statement, with `map_err(DomainError::database)`.
  unfoldable pub statement : (D → Fallible A × D) → Sql D A
  unfolding run_statement
  statement f c = run_statement f c c.faults

  -- A statement that only reads.
  unfoldable pub query : (D → Fallible A) → Sql D A
  unfolding statement
  query f = statement (λ d. (f d, d))

module _ {D A B : Type 0} where
  continue : Fallible A → (A → Sql D B) → Sql D B
  continue (ok a) f c = f a c
  continue (err e) f c = (err e, c)

  infixl 5 ◌>>=◌ ◌>>◌
  unfoldable pub ◌>>=◌ : Sql D A → (A → Sql D B) → Sql D B
  unfolding continue pure lift
  ◌>>=◌ m f c = let (r, c') = m c in continue r f c'

  abbrev pub ◌>>◌ : Sql D A → Sql D B → Sql D B
  m >> k = m >>= λ _. k

module _ {D A : Type 0} where
  -- `self.locked()?` before the rest of a method.
  unfoldable pub locked : Sql D A → Sql D A
  locked m c = elim c.poisoned [ true ↦ (err repository_poisoned, c) | false ↦ m c ]

  roll_back : D → Fallible A × Connection D → Fallible A × Connection D
  roll_back before (ok a, c) = (ok a, c)
  roll_back before (err e, c) = (err e, record c { db = before })

  -- `connection.transaction()`, the body, `commit()`. When the body or the commit returns an error
  -- the transaction is dropped, which rolls it back.
  unfoldable pub transaction : Sql D A → Sql D A
  unfolding roll_back ◌>>=◌ statement
  transaction m c =
      let begin_and_commit = do
        statement (λ d. (ok tt, d))
        a ← m
        statement (λ d. (ok tt, d))
        pure a
      in roll_back c.db (begin_and_commit c)
