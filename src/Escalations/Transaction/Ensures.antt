-- ===== src/Escalations/Transaction/Ensures.antt =====
-- What a transaction ensures of its value and of the tables when it succeeds.
use mathlib.Core.Path.{subst}
use customer_service_chat_sy.Base.{◌≡◌, refl, Bool, true, false, Result, ok, err, if◌then◌else◌}
use customer_service_chat_sy.Escalations.Rows.{Db}
use customer_service_chat_sy.Escalations.Transaction.{
  Tx, pure, throw, gets, ◌>>=◌, after, map_err, mapped,
}
use customer_service_chat_sy.Escalations.Transaction.Preserves.{Preserves, Kept}

module _ {E A : Type 0} (R : A → Db → Type 0) where
  pub data Outcome : Result (A × Db) E → Type 0 where
    success : {a : A} {db : Db} → R a db → Outcome (ok (a, db))
    failure : {e : E} → Outcome (err e)

  pub if_Outcome :
      (b : Bool) {x y : Result (A × Db) E}
      → (b ≡ true → Outcome x)
      → (b ≡ false → Outcome y)
      → Outcome (if b then x else y)
  if_Outcome true f g = f refl
  if_Outcome false f g = g refl

pub record Ensures {E A : Type 0} (P : Db → Type 0) (R : A → Db → Type 0) (m : Tx E A)
    : Type 0 where
  pub from : (db : Db) → P db → Outcome R (m db)

module _ {E A : Type 0} (P : Db → Type 0) where
  Kept-Outcome : (r : Result (A × Db) E) → Kept P r → Outcome (λ a. P) r
  Kept-Outcome (ok (a, db)) h = success h
  Kept-Outcome (err e) h = failure

  Outcome-Kept : (r : Result (A × Db) E) → Outcome (λ a. P) r → Kept P r
  Outcome-Kept _ (success h) = h
  Outcome-Kept _ failure = tt

module _ {E A : Type 0} {P : Db → Type 0} where
  pub Preserves-Ensures : {m : Tx E A} → Preserves P m → Ensures P (λ a. P) m
  Preserves-Ensures {m} k = record { from = λ db h. Kept-Outcome P (m db) (k.from db h) }

  pub Ensures-Preserves : {m : Tx E A} → Ensures P (λ a. P) m → Preserves P m
  Ensures-Preserves {m} k = record { from = λ db h. Outcome-Kept P (m db) (k.from db h) }

module _ {E A : Type 0} {P : Db → Type 0} {R : A → Db → Type 0} where
  pub Ensures-pure : (a : A) → ((db : Db) → P db → R a db) → Ensures {E = E} P R (pure a)
  unfolding pure
  Ensures-pure a h = record { from = λ db p. success (h db p) }

  pub Ensures-throw : (e : E) → Ensures P R (throw e)
  unfolding throw
  Ensures-throw e = record { from = λ db h. failure }

  pub Ensures-gets : (f : Db → A) → ((db : Db) → P db → R (f db) db) → Ensures {E = E} P R (gets f)
  unfolding gets
  Ensures-gets f h = record { from = λ db p. success (h db p) }

  pub Ensures-if :
      (b : Bool) (m n : Tx E A)
      → (b ≡ true → Ensures P R m)
      → (b ≡ false → Ensures P R n)
      → Ensures P R (if b then m else n)
  Ensures-if true m n km kn = km refl
  Ensures-if false m n km kn = kn refl

module _ {E A B : Type 0} (R : A → Db → Type 0) (S : B → Db → Type 0) where
  after-Outcome :
      (r : Result (A × Db) E) (f : A → Tx E B)
      → Outcome R r
      → ((a : A) → Ensures (R a) S (f a))
      → Outcome S (after r f)
  after-Outcome _ f (success {a} {db} h) k = (k a).from db h
  after-Outcome _ f failure k = failure

module _ {E A B : Type 0} {P : Db → Type 0} {R : A → Db → Type 0} {S : B → Db → Type 0} where
  pub Ensures-bind :
      (m : Tx E A) (f : A → Tx E B)
      → Ensures P R m
      → ((a : A) → Ensures (R a) S (f a))
      → Ensures P S (m >>= f)
  unfolding ◌>>=◌
  Ensures-bind m f km kf = record { from = λ db h. after-Outcome R S (m db) f (km.from db h) kf }

module _ {E A B : Type 0} {P : Db → Type 0} {S : B → Db → Type 0} where
  -- First what keeps the precondition.
  pub Ensures-then :
      (m : Tx E A) (f : A → Tx E B)
      → Preserves P m
      → ((a : A) → Ensures P S (f a))
      → Ensures P S (m >>= f)
  Ensures-then m f km kf = Ensures-bind m f (Preserves-Ensures km) kf

module _ {E A B : Type 0} {P Q : Db → Type 0} where
  -- Last what keeps the postcondition.
  pub Ensures-before :
      (m : Tx E A) (f : A → Tx E B)
      → Ensures P (λ a. Q) m
      → ((a : A) → Preserves Q (f a))
      → Ensures P (λ b. Q) (m >>= f)
  Ensures-before m f km kf = Ensures-bind m f km (λ a. Preserves-Ensures (kf a))

module _ {E F A : Type 0} (R : A → Db → Type 0) where
  mapped-Outcome : (f : E → F) (r : Result (A × Db) E) → Outcome R r → Outcome R (mapped f r)
  mapped-Outcome f _ (success h) = success h
  mapped-Outcome f _ failure = failure

module _ {E F A : Type 0} {P : Db → Type 0} {R : A → Db → Type 0} where
  pub Ensures-map_err : (f : E → F) (m : Tx E A) → Ensures P R m → Ensures P R (map_err f m)
  unfolding map_err
  Ensures-map_err f m km = record { from = λ db h. mapped-Outcome R f (m db) (km.from db h) }

module _ {E A : Type 0} (P Q : Db → Type 0) where
  weak-Outcome :
      (r : Result (A × Db) E) → Outcome (λ a. P) r → ((db : Db) → P db → Q db) → Outcome (λ a. Q) r
  weak-Outcome _ (success {a} {db} h) w = success (w db h)
  weak-Outcome _ failure w = failure

module _ {E A : Type 0} {P Q : Db → Type 0} where
  pub Ensures-weak : {m : Tx E A} → Preserves P m → ((db : Db) → P db → Q db) → Ensures P (λ a. Q) m
  Ensures-weak {m} k w = record {
    from = λ db h. weak-Outcome P Q (m db) ((Preserves-Ensures k).from db h) w;
  }

module _ {E A : Type 0} {P Q : Db → Type 0} {R : A → Db → Type 0} where
  pub Ensures-from : {m : Tx E A} → ((db : Db) → P db → Q db) → Ensures Q R m → Ensures P R m
  Ensures-from w k = record { from = λ db h. k.from db (w db h) }

module _ {E A : Type 0} {P Q : Db → Type 0} where
  -- What a transaction that succeeds has ensured.
  pub Ensures-ok :
      (m : Tx E A) (db : Db) {a : A} {db' : Db}
      → Ensures P (λ a. Q) m
      → P db
      → m db ≡ ok (a, db')
      → Q db'
  Ensures-ok m db k h e = subst (Kept Q) e (Outcome-Kept Q (m db) (k.from db h))

module _ {E A : Type 0} (R : A → Db → Type 0) where
  Outcome-ok : {a : A} {db : Db} → Outcome {E = E} R (ok (a, db)) → R a db
  Outcome-ok (success h) = h

module _ {E A : Type 0} {P : Db → Type 0} {R : A → Db → Type 0} where
  -- The same of a value.
  pub Ensures-value :
      (m : Tx E A) (db : Db) {a : A} {db' : Db}
      → Ensures P R m
      → P db
      → m db ≡ ok (a, db')
      → R a db'
  Ensures-value m db k h e = Outcome-ok R (subst (Outcome R) e (k.from db h))
