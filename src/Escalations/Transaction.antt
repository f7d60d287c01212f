-- ===== src/Escalations/Transaction.antt =====
-- Transactions of backend/crates/modules/escalations as a monad: a transaction reads and writes the
-- tables, and ends with a value or an error. What it wrote before an error is rolled back by its
-- caller. That PostgreSQL refuses the statements after one whose error the code ignores is left out.
pub mod Preserves
pub mod Ensures
use customer_service_chat_sy.Base.{Bool, Result, ok, err, if◌then◌else◌}
use customer_service_chat_sy.Escalations.Rows.{Db, Call, SqlError, failed}

abbrev pub Tx : Type 0 → Type 0 → Type 0
Tx E A = Db → Result (A × Db) E

module _ {E A : Type 0} where
  unfoldable pub pure : A → Tx E A
  pure a db = ok (a, db)

  unfoldable pub throw : E → Tx E A
  throw e db = err e

  unfoldable pub gets : (Db → A) → Tx E A
  gets f db = ok (f db, db)

module _ {E : Type 0} where
  unfoldable pub modify : (Db → Db) → Tx E (Unit {0})
  modify f db = ok (tt, f db)

module _ {E A B : Type 0} where
  abbrev pub after : Result (A × Db) E → (A → Tx E B) → Result (B × Db) E
  after (ok (a, db)) f = f a db
  after (err e) f = err e

  infixl 10 ◌>>=◌ ◌>>◌
  -- opening this opens `pure`, `throw`, `gets` and `modify` too
  unfoldable pub ◌>>=◌ : Tx E A → (A → Tx E B) → Tx E B
  unfolding pure throw gets modify
  ◌>>=◌ m f db = after (m db) f

  abbrev pub ◌>>◌ : Tx E A → Tx E B → Tx E B
  m >> n = m >>= λ _. n

module _ {E F A : Type 0} where
  abbrev pub mapped : (E → F) → Result (A × Db) E → Result (A × Db) F
  mapped f (ok r) = ok r
  mapped f (err e) = err (f e)

  -- `Result::map_err`.
  unfoldable pub map_err : (E → F) → Tx E A → Tx F A
  map_err f m db = mapped f (m db)

module _ {A : Type 0} where
  abbrev pub or_else : A → Result (A × Db) SqlError → Db → Result (A × Db) SqlError
  or_else a (ok r) db = ok r
  or_else a (err e) db = ok (a, db)

  -- An error that is logged or replaced by a default.
  unfoldable pub ignored : A → Tx SqlError A → Tx SqlError A
  ignored a m db = or_else a (m db) db

-- A statement, if the database does not fail at it.
unfoldable pub attempt : (fails : Call → Bool) → Call → Tx SqlError (Unit {0})
unfolding pure throw
attempt fails c = if fails c then throw (failed c) else pure tt

module _ {E A : Type 0} where
  abbrev pub settled : Db → Result (A × Db) E → Db
  settled before (ok (a, db)) = db
  settled before (err e) = before

  -- The tables once the transaction is committed, or rolled back on an error.
  unfoldable pub transact : Tx E A → Db → Db
  transact m db = settled db (m db)
