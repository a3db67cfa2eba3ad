-- ===== src/Payments/Transaction.antt =====
-- A database transaction of the payment services: it reads and writes a working copy, and an
-- exception discards the copy, as `rollback` does. What is committed is the copy of one that ends.
use book_point.Base.{Option, none, some, inl, inr}
use book_point.Models.{Database}
use book_point.Results.{Error, Result, Result-cases, ok, err}

abbrev pub Tx {ℓ} : Type ℓ → Type ℓ
Tx A = Database → Result (A × Database)

infixl 5 ◌>>=◌ ◌>>◌
module _ {A B : Type 0} where
  abbrev pub ◌>>=◌ : Tx A → (A → Tx B) → Tx B
  ◌>>=◌ m f db = elim (m db) [ ok (a, db') ↦ f a db' | err e ↦ err e ]

  abbrev pub ◌>>◌ : Tx A → Tx B → Tx B
  ◌>>◌ m k db = elim (m db) [ ok (a, db') ↦ k db' | err e ↦ err e ]

module _ {A : Type 0} where
  abbrev pub pure : A → Tx A
  pure a db = ok (a, db)

  abbrev pub gets : (Database → A) → Tx A
  gets f db = ok (f db, db)

  -- `if row is None: raise e`
  abbrev pub or_raise : Option A → Error → Tx A
  or_raise none e db = err e
  or_raise (some a) e db = ok (a, db)

  abbrev pub lift : Result A → Tx A
  lift (ok a) db = ok (a, db)
  lift (err e) db = err e

  abbrev pub finish : Database → Result (A × Database) → Result A × Database
  finish db (ok (a, db')) = (ok a, db')
  finish db (err e) = (err e, db)

  -- `try: ...; db.commit()`, `except: db.rollback(); raise`
  abbrev pub transact : Tx A → Database → Result A × Database
  transact m db = finish db (m db)

abbrev pub modify : (Database → Database) → Tx (Unit {0})
modify f db = ok (tt, f db)

-- What holds of the database that a transaction which ends leaves.
abbrev pub Post : {A : Type 0} → (Database → Type 0) → Result (A × Database) → Type 0
Post P (ok (a, db)) = P db
Post P (err e) = Unit

module _ {A B : Type 0} where
  pub bind-Post :
      (P Q : Database → Type 0) (m : Tx A) (f : A → Tx B) (db : Database)
      → Post P (m db)
      → ((a : A) (db' : Database) → P db' → Post Q (f a db'))
      → Post Q ((m >>= f) db)
  bind-Post P Q m f db h k = by_result (m db) h
    where
      by_result :
          (r : Result (A × Database))
          → Post P r
          → Post Q (elim r [ ok (a, db') ↦ f a db' | err e ↦ err e ])
      by_result (ok (a, db')) p = k a db' p
      by_result (err e) p = tt

  pub then-Post :
      (P Q : Database → Type 0) (m : Tx A) (f : Tx B) (db : Database)
      → Post P (m db)
      → ((db' : Database) → P db' → Post Q (f db'))
      → Post Q ((m >> f) db)
  then-Post P Q m f db h k = bind-Post P Q m (λ _. f) db h (λ a db' p. k db' p)

module _ {A : Type 0} where
  -- A rollback leaves what was there.
  pub transact-Post :
      (P R : Database → Type 0) (m : Tx A) (db : Database)
      → R db
      → ((db' : Database) → P db' → R db')
      → Post P (m db)
      → R (transact m db).1
  transact-Post P R m db h f k = elim (Result-cases (m db)) [
    | inl (e, r) ↦ rw r h
    | inr ((a, db'), r) ↦ rw r (f db' (rw r at k))
  ]

  pub or_raise-Post :
      (P : Database → Type 0) (o : Option A) (e : Error) (db : Database)
      → P db
      → Post P (or_raise o e db)
  or_raise-Post P none e db h = tt
  or_raise-Post P (some a) e db h = h
