-- ===== src/Escalations/Transaction/Preserves.antt =====
-- What a transaction keeps when it succeeds, with a rule for each way to build one.
use customer_service_chat_sy.Base.{Bool, true, false, ◌≡◌, refl, Result, ok, err, if◌then◌else◌}
use customer_service_chat_sy.Escalations.Rows.{Db, Call, SqlError}
use customer_service_chat_sy.Escalations.Transaction.{
  Tx, pure, throw, gets, modify, ◌>>=◌, map_err, ignored, attempt, settled, transact, after, mapped,
  or_else,
}

module _ {E A : Type 0} (P : Db → Type 0) where
  abbrev pub Kept : Result (A × Db) E → Type 0
  Kept (ok (a, db)) = P db
  Kept (err e) = Unit

pub record Preserves {E A : Type 0} (P : Db → Type 0) (m : Tx E A) : Type 0 where
  pub from : (db : Db) → P db → Kept P (m db)

module _ {E A : Type 0} (P : Db → Type 0) where
  pub settled-Kept : (db : Db) (r : Result (A × Db) E) → P db → Kept P r → P (settled db r)
  settled-Kept db (ok (a, db')) h h' = h'
  settled-Kept db (err e) h h' = h

module _ {E A : Type 0} {P : Db → Type 0} where
  pub Preserves-pure : (a : A) → Preserves {E = E} P (pure a)
  unfolding pure
  Preserves-pure a = record { from = λ db h. h }

  pub Preserves-throw : (e : E) → Preserves {A = A} P (throw e)
  unfolding throw
  Preserves-throw e = record { from = λ db h. tt }

  pub Preserves-gets : (f : Db → A) → Preserves {E = E} P (gets f)
  unfolding gets
  Preserves-gets f = record { from = λ db h. h }

  pub Preserves-if :
      (test : Bool) (yes_branch no_branch : Tx E A)
      → (test ≡ true → Preserves P yes_branch)
      → (test ≡ false → Preserves P no_branch)
      → Preserves P (if test then yes_branch else no_branch)
  Preserves-if false x y first second = second refl
  Preserves-if true x y first second = first refl

  pub transact-Preserves : {m : Tx E A} {db : Db} → Preserves P m → P db → P (transact m db)
  unfolding transact
  transact-Preserves {m} {db} k h = settled-Kept P db (m db) h (k.from db h)

module _ {E : Type 0} {P : Db → Type 0} where
  pub Preserves-modify :
      (f : Db → Db) → ((db : Db) → P db → P (f db)) → Preserves {E = E} P (modify f)
  unfolding modify
  Preserves-modify f h = record { from = h }

module _ {E A B : Type 0} {P : Db → Type 0} where
  after-Kept :
      (r : Result (A × Db) E) (f : A → Tx E B)
      → Kept P r
      → ((a : A) → Preserves P (f a))
      → Kept P (after r f)
  after-Kept (ok (a, db)) f h kf = (kf a).from db h
  after-Kept (err e) f h kf = tt

  pub Preserves-bind :
      (m : Tx E A) (f : A → Tx E B)
      → Preserves P m
      → ((a : A) → Preserves P (f a))
      → Preserves P (m >>= f)
  unfolding ◌>>=◌
  Preserves-bind m f km kf = record { from = λ db h. after-Kept (m db) f (km.from db h) kf }

  -- The rest of the transaction, at what it reads.
  pub Preserves-bind-gets :
      (g : Db → A) (f : A → Tx E B)
      → ((db : Db) → P db → Preserves P (f (g db)))
      → Preserves P (gets g >>= f)
  unfolding ◌>>=◌
  Preserves-bind-gets g f kf = record { from = λ db h. (kf db h).from db h }

module _ {E F A : Type 0} (P : Db → Type 0) where
  mapped-Kept : (f : E → F) (r : Result (A × Db) E) → Kept P r → Kept P (mapped f r)
  mapped-Kept f (ok r) h = h
  mapped-Kept f (err e) h = tt

module _ {E F A : Type 0} {P : Db → Type 0} where
  pub Preserves-map_err : (f : E → F) (m : Tx E A) → Preserves P m → Preserves P (map_err f m)
  unfolding map_err
  Preserves-map_err f m km = record { from = λ db h. mapped-Kept P f (m db) (km.from db h) }

module _ {A : Type 0} (P : Db → Type 0) where
  or_else-Kept :
      (a : A) (r : Result (A × Db) SqlError) (db : Db) → P db → Kept P r → Kept P (or_else a r db)
  or_else-Kept a (ok r) db h k = k
  or_else-Kept a (err e) db h k = h

module _ {A : Type 0} {P : Db → Type 0} where
  pub Preserves-ignored : (a : A) (m : Tx SqlError A) → Preserves P m → Preserves P (ignored a m)
  unfolding ignored
  Preserves-ignored a m km = record { from = λ db h. or_else-Kept P a (m db) db h (km.from db h) }

pub Preserves-attempt :
    {P : Db → Type 0} (fails : Call → Bool) (c : Call) → Preserves P (attempt fails c)
unfolding attempt
Preserves-attempt fails c =
    Preserves-if (fails c) _ _ (λ _. Preserves-throw _) (λ _. Preserves-pure tt)

pub ruleset preserving = (
  Preserves-pure, Preserves-throw, Preserves-gets, Preserves-if, Preserves-bind, Preserves-map_err,
  Preserves-ignored, Preserves-attempt,
)
