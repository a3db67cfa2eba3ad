-- ===== src/Payments/Paid/Refunding.antt =====
-- What a refund does to the rows of the payments (backend/app/services/payments/refund_service.py).
use book_point.Base.{
  ℕ, refl, Bool, true, false, Option, none, some, List, leb, arith, if◌then◌else◌,
}
use book_point.Base.Int.{ℤ, pos_part}
use book_point.Base.Text.{Text}
use book_point.Models.{Database, Payment, PaymentStatus, Refund}
use book_point.Payments.Paid.{Kept, Kept-refl, Kept-update}
use book_point.Payments.Refunds.{
  RefundProvider, commit_refund_failed, commit_refund_succeeded, create_refund, new_refund,
  open_refund, settle_payment, succeed_refund,
}
use book_point.Payments.Refunds.Outcomes.{create_refund-outcome}
use book_point.Payments.Refunds.Balance.{apply_refund_adjustment-frame}
use book_point.Payments.Rows.{
  get_payment, sum_succeeded_amount_for_payment, update_refund, update_payment,
}
use book_point.Payments.Paid.Operations.{Evolves, Evolves-refl, Evolves-trans}

-- A refund makes a payment REFUNDED at most, which counts as paid.
commit_refund_succeeded-Evolves :
    (reference : Option Text) (now : ℤ) (r : Refund) (db : Database)
    → Evolves db (commit_refund_succeeded reference now r db)
unfolding commit_refund_succeeded
commit_refund_succeeded-Evolves reference now r db =
    by_payment (get_payment db.payments r.payment_id)
      (record db { refunds = update_refund r.id (succeed_refund reference now) db.refunds })
  where
    refunded_kept :
        (k : ℕ) (payments : List Payment) (b : Bool)
        → Kept payments (
            if b
            then update_payment k (λ p. record p { status = PaymentStatus.refunded }) payments
            else payments)
    refunded_kept k payments true =
        Kept-update k (λ p. record p { status = PaymentStatus.refunded }) payments
          (λ q i e. (refl, refl, λ h. refl))
    refunded_kept k payments false = Kept-refl payments

    by_payment : (o : Option Payment) (db' : Database) → Evolves db' (settle_payment r o db')
    by_payment none db' = Evolves-refl db'
    by_payment (some p) db' =
        let covered = leb p.amount_minor (sum_succeeded_amount_for_payment db'.refunds p.id) in
        let payments' =
          if covered
          then update_payment p.id (λ p. record p { status = PaymentStatus.refunded }) db'.payments
          else db'.payments in
        let (e, f, g) =
          apply_refund_adjustment-frame p.id r.amount_minor (record db' { payments = payments' }) in
        (rw f (refunded_kept p.id db'.payments covered), rw g (omega arith))

pub create_refund-Evolves :
    (provider : RefundProvider) (payment : Payment) (amount_minor : ℤ) (now : ℤ) (db : Database)
    → Evolves db (create_refund provider payment amount_minor now db).1
unfolding open_refund commit_refund_failed
create_refund-Evolves provider payment amount_minor now db =
    create_refund-outcome payment amount_minor now db (Evolves db) provider (Evolves-refl db)
      (λ w. opening)
      (λ reference w.
        Evolves-trans db opened (commit_refund_succeeded (some reference) now new opened) opening
          (commit_refund_succeeded-Evolves (some reference) now new opened))
      (λ w. opening)
  where
    new : Refund
    new = new_refund db.next_id payment (pos_part amount_minor)

    opened : Database
    opened = open_refund payment (pos_part amount_minor) db

    opening : Evolves db (open_refund payment (pos_part amount_minor) db)
    opening = (Kept-refl db.payments, omega arith)
