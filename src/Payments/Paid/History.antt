-- ===== src/Payments/Paid/History.antt =====
-- Histories of the operations of backend/app/services/payments that write payments.
use book_point.Base.{
  ℕ, ◌+◌, ◌<◌, ◌≡◌, refl, sym, ◌∙◌, ◌⊎◌, ap, Bool, true, false, true≢false, not, Option, none, some,
  inl, inr, List, [], ◌∷◌, All, All_of_In, In, In-of_first, ◌==◌, arith, Bool-cases, if◌then◌else◌,
}
use book_point.Base.Int.{ℤ}
use book_point.Base.Text.{Text, codes, eq_text}
use book_point.Models.{Appointment, Database, Payment, Service}
use book_point.Payments.Checkout.{
  CheckoutProvider, CheckoutSession, checkout_of, checkout_service,
  create_checkout_session_for_appointment, insert_payment, is_empty, new_payment, open_session,
  upper_currency, with_session, announce_checkout,
}
use book_point.Payments.Expiry.{expire_pending_payments}
use book_point.Payments.Paid.{IsKeyed, Kept, RowKept, Kept-update, get_payment-Kept}
use book_point.Payments.Paid.Webhook.{mark_payment_status-Kept}
use book_point.Payments.Paid.Operations.{Evolves, Evolves-IsKeyed, expire_pending_payments-Evolves}
use book_point.Payments.Paid.Refunding.{create_refund-Evolves}
use book_point.Payments.Policy.{required_amount_minor}
use book_point.Payments.RefundPolicy.{service_of}
use book_point.Payments.Refunds.{RefundProvider, create_refund}
use book_point.Payments.Rows.{get_payment, update_payment}
use book_point.Payments.Status.{StatusUpdate, is_paid, mark_payment_status}
use book_point.Payments.Transaction.{
  lift, Post, bind-Post, transact-Post, ◌>>=◌, ◌>>◌, modify, pure,
}
use book_point.Results.{Result, ok, err, unsupported_provider}

-- An operation, with any arguments and any answers of the gateways, and the database after it.
pub data Step (db : Database) : Database → Type 0 where
  checkout :
      (provider : CheckoutProvider) (name : Text) (appointment : Appointment) (now : ℤ)
      → Step db (create_checkout_session_for_appointment provider name appointment now db).1
  webhook : (u : StatusUpdate) (now : ℤ) → Step db (mark_payment_status u now db).1
  expiry :
      (expiration_minutes : ℕ) (now : ℤ)
      → Step db (expire_pending_payments expiration_minutes now db).1
  refund :
      (provider : RefundProvider) (payment : Payment) (amount_minor now : ℤ)
      → Step db (create_refund provider payment amount_minor now db).1

pub data History (start : Database) : Database → Type 0 where
  begins : History start start
  later : {db db' : Database} → History start db → Step db db' → History start db'

-- The payment that an id finds is found later, kept.
abbrev Lasts : Database → Database → Type 0
Lasts db db' =
    (k : ℕ) (p : Payment)
    → get_payment db.payments k ≡ some p
    → (p' : Payment) × (get_payment db'.payments k ≡ some p') × RowKept p p'

Lasts-trans : (a b c : Database) → Lasts a b → Lasts b c → Lasts a c
Lasts-trans a b c h l k p e =
    let (q, f, (i, m, s)) = h k p e in
    let (r, g, (i', m', s')) = l k q f in (r, g, (i' ∙ i, m' ∙ m, λ y. s' (s y)))

Lasts-of_Evolves : (db db' : Database) → Evolves db db' → Lasts db db'
Lasts-of_Evolves db db' (h, l) k p e = get_payment-Kept db.payments db'.payments k h e

new_ids :
    (n : ℕ) (payments : List Payment)
    → All (λ p. p.id < n) payments
    → All (λ q. (q.id == n) ≡ false) payments
new_ids n [] h = tt
new_ids n (p ∷ payments) h = (ground arith, new_ids n payments h.1)

below_suc :
    (n : ℕ) (payments : List Payment)
    → All (λ p. p.id < n) payments
    → All (λ p. p.id < n + 1) payments
below_suc n [] h = tt
below_suc n (p ∷ payments) h = (omega arith, below_suc n payments h.1)

-- A new row under the next id.
module _ (new : Payment) (db : Database) (own : new.id ≡ db.next_id) (k : IsKeyed db) where
  insert_payment-IsKeyed : IsKeyed (insert_payment new db)
  insert_payment-IsKeyed = record {
    below = (omega arith, below_suc db.next_id db.payments k.below);
    distinct = (rw own (new_ids db.next_id db.payments k.below), k.distinct);
  }

  insert_payment-Lasts : Lasts db (insert_payment new db)
  insert_payment-Lasts j p e =
      let (i, own_id) = In-of_first (λ q. q.id == j) db.payments e in
      let below = All_of_In (λ q. q.id < db.next_id) db.payments k.below p i in
      let other : (new.id == j) ≡ false = ground arith in (p, rw other e, (refl, refl, λ s. s))

  session-Kept :
      (s : CheckoutSession)
      → is_paid new.status ≡ false
      → Kept (new ∷ db.payments) (update_payment new.id (with_session s) (new ∷ db.payments))
  session-Kept s unpaid = Kept-update new.id (with_session s) (new ∷ db.payments) row
    where
      row :
          (q : Payment)
          → (q ≡ new) ⊎ In q db.payments
          → q.id ≡ new.id
          → RowKept q (with_session s q)
      row q (inl e) i = (
        refl,
        refl,
        λ y. absurd (true≢false (sym y ∙ ap (λ (x : Payment). is_paid x.status) e ∙ unpaid)),
      )
      row q (inr j) i =
          let below = All_of_In (λ x. x.id < db.next_id) db.payments k.below q j in
          absurd (omega arith)

  open_session-Post :
      (provider : CheckoutProvider)
      → is_paid new.status ≡ false
      → Post (Evolves (insert_payment new db)) (open_session provider new db)
  open_session-Post provider unpaid = by_session (provider new)
    where
      by_session :
          (r : Result CheckoutSession)
          → Post (Evolves (insert_payment new db)) (
              (lift r >>= λ s.
              (modify (λ db. record db {
                payments = update_payment new.id (with_session s) db.payments;
              })
                >> (modify (announce_checkout new) >> pure (with_session s new))))
                (insert_payment new db))
      by_session (err e) = tt
      by_session (ok s) = (session-Kept s unpaid, omega arith)

abbrev Safe : Database → Database → Type 0
Safe db db' = IsKeyed db' × Lasts db db'

Safe-refl : (db : Database) → IsKeyed db → Safe db db
Safe-refl db k = (k, λ j p e. (p, e, (refl, refl, λ s. s)))

Safe-of_Evolves : (db db' : Database) → IsKeyed db → Evolves db db' → Safe db db'
Safe-of_Evolves db db' k e = (Evolves-IsKeyed db db' e k, Lasts-of_Evolves db db' e)

checkout_of-Safe :
    (provider : CheckoutProvider) (appointment : Appointment) (service : Service) (now : ℤ)
    (db : Database) (r : Result ℕ)
    → IsKeyed db
    → Safe db (checkout_of provider appointment service now db r).1
checkout_of-Safe provider appointment service now db (err e) k = Safe-refl db k
checkout_of-Safe provider appointment service now db (ok amount) k =
    let new = new_payment db.next_id appointment service amount now in
    elim (Bool-cases (is_empty (upper_currency service.currency))) [
      | inl y ↦ rw y (Safe-refl db k)
      | inr n ↦ rw n (
          transact-Post (Evolves (insert_payment new db)) (Safe db)
            (λ db'. (open_session provider new >>= λ p. pure (some p)) db') db (Safe-refl db k)
            (λ db' e. (
              Evolves-IsKeyed (insert_payment new db) db' e (insert_payment-IsKeyed new db refl k),
              Lasts-trans db (insert_payment new db) db' (insert_payment-Lasts new db refl k)
                  (Lasts-of_Evolves (insert_payment new db) db' e),
            ))
            (bind-Post (Evolves (insert_payment new db)) (Evolves (insert_payment new db))
              (open_session provider new) (λ p. pure (some p)) db
              (open_session-Post new db refl k provider refl) (λ p db' e. e)))
    ]

checkout_service-Safe :
    (provider : CheckoutProvider) (name : Text) (appointment : Appointment) (o : Option Service)
    (now : ℤ) (db : Database)
    → IsKeyed db
    → Safe db (checkout_service provider name appointment o now db).1
checkout_service-Safe provider name appointment none now db k = Safe-refl db k
checkout_service-Safe provider name appointment (some service) now db k =
    by_tests service.requires_payment (eq_text name (codes "mock"))
  where
    by_tests :
        (required known : Bool)
        → Safe db
            (if not required
              then (ok none, db)
              else if not known
              then (err unsupported_provider, db)
              else checkout_of provider appointment service now db
                  (required_amount_minor service)).1
    by_tests false known = Safe-refl db k
    by_tests true false = Safe-refl db k
    by_tests true true =
        checkout_of-Safe provider appointment service now db (required_amount_minor service) k

Step-Safe : (db db' : Database) → IsKeyed db → Step db db' → Safe db db'
unfolding create_checkout_session_for_appointment
Step-Safe db _ k (checkout provider name appointment now) =
    checkout_service-Safe provider name appointment (service_of db appointment) now db k
Step-Safe db db' k (webhook u now) =
    Safe-of_Evolves db db' k (mark_payment_status-Kept u now db k.distinct)
Step-Safe db db' k (expiry expiration_minutes now) =
    Safe-of_Evolves db db' k (expire_pending_payments-Evolves expiration_minutes now db k.distinct)
Step-Safe db db' k (refund provider payment amount_minor now) =
    Safe-of_Evolves db db' k (create_refund-Evolves provider payment amount_minor now db)

-- From a database whose payments have distinct ids below the next one, after any sequence of
-- checkouts, status updates, expiries and refunds, whatever the gateways answer: the ids are still
-- so, and a payment that an id finds at the start is found by it at the end with the same amount,
-- and is paid (SUCCEEDED or REFUNDED) if it was.
pub History-Lasts :
    (start db : Database)
    → IsKeyed start
    → History start db
    → IsKeyed db
      × ((k : ℕ) (p : Payment)
          → get_payment start.payments k ≡ some p
          → (p' : Payment) × (get_payment db.payments k ≡ some p') × RowKept p p')
History-Lasts start _ k begins = Safe-refl start k
History-Lasts start _ k (later {db} {db'} h step) =
    let (mid, lasts) = History-Lasts start db k h in
    let (end, lasts') = Step-Safe db db' mid step in (end, Lasts-trans start db db' lasts lasts')
