-- ===== src/Payments/Refunds/Outcomes.antt =====
-- The databases that a refund can leave (backend/app/services/payments/refund_service.py).
use book_point.Base.{
  ℕ, ◌≤◌, ◌≡◌, refl, sym, subst, Bool, true, false, not, Option, some, ltb, ◌==◌, arith,
  if◌then◌else◌,
}
use book_point.Base.Int.{ℤ, pos_part, pos, ltb_ℤ}
use book_point.Base.Text.{Text, codes, eq_text}
use book_point.Models.{Database, Payment, Refund, RefundStatus}
use book_point.Payments.RefundPolicy.{get_refundable_remaining_minor, is_refundable}
use book_point.Payments.Refunds.{
  GatewayAnswer, RefundProvider, accepted, broken, rejected, create_refund, mark_refund_failed,
  mark_refund_succeeded, new_refund, open_refund, send_refund, settle_refund,
  commit_refund_succeeded, commit_refund_failed, is_status,
}
use book_point.Payments.Rows.{get_refund}
use book_point.Results.{
  Result, ok, err, negative_refund, refund_needs_success, refund_exceeds_balance,
  unsupported_provider,
}

mark_refund_succeeded-found :
    (k : ℕ) (reference : Option Text) (now : ℤ) (db : Database) (r : Refund)
    → get_refund db.refunds k ≡ some r
    → is_status r.status RefundStatus.succeeded ≡ false
    → (mark_refund_succeeded k reference now db).1 ≡ commit_refund_succeeded reference now r db
unfolding mark_refund_succeeded
mark_refund_succeeded-found k reference now db r e s = ground arith

mark_refund_failed-found :
    (k : ℕ) (now : ℤ) (db : Database) (r : Refund)
    → get_refund db.refunds k ≡ some r
    → is_status r.status RefundStatus.failed ≡ false
    → (mark_refund_failed k now db).1 ≡ commit_refund_failed now r db
unfolding mark_refund_failed
mark_refund_failed-found k now db r e s = ground arith

module _ (payment : Payment) (amount_minor now : ℤ) (db : Database) (P : Database → Type 0) where
  abbrev new : Refund
  new = new_refund db.next_id payment (pos_part amount_minor)

  abbrev opened : Database
  opened = open_refund payment (pos_part amount_minor) db

  -- The row that was just committed is found.
  get_refund-opened : get_refund opened.refunds db.next_id ≡ some new
  unfolding open_refund
  get_refund-opened = ground arith

  settle_refund-outcome :
      (answer : GatewayAnswer)
      → ((reference : Text) → P (commit_refund_succeeded (some reference) now new opened))
      → P (commit_refund_failed now new opened)
      → P (settle_refund answer db.next_id now opened).1
  settle_refund-outcome (accepted reference) s f =
      subst P
        (sym (
          mark_refund_succeeded-found db.next_id (some reference) now opened new get_refund-opened
            refl))
        (s reference)
  settle_refund-outcome rejected s f =
      subst P (sym (mark_refund_failed-found db.next_id now opened new get_refund-opened refl)) f
  settle_refund-outcome broken s f =
      subst P (sym (mark_refund_failed-found db.next_id now opened new get_refund-opened refl)) f

  -- What holds of the database before, and of each way to leave an opened refund, holds after.
  pub create_refund-outcome :
      (provider : RefundProvider)
      → P db
      → (pos_part amount_minor ≤ get_refundable_remaining_minor db.refunds payment → P opened)
      → ((reference : Text)
          → pos_part amount_minor ≤ get_refundable_remaining_minor db.refunds payment
          → P (commit_refund_succeeded (some reference) now new opened))
      → (pos_part amount_minor ≤ get_refundable_remaining_minor db.refunds payment
          → P (commit_refund_failed now new opened))
      → P (create_refund provider payment amount_minor now db).1
  unfolding create_refund send_refund
  create_refund-outcome provider h o s f =
      by_tests (ltb_ℤ amount_minor (pos 0)) (amount == 0) (is_refundable payment.status)
        (ltb remaining amount) (eq_text payment.provider_name (codes "mock")) refl
    where
      amount : ℕ
      amount = pos_part amount_minor

      remaining : ℕ
      remaining = get_refundable_remaining_minor db.refunds payment

      by_tests :
          (negative zero allowed above known : Bool)
          → ltb remaining amount ≡ above
          → P
              (if negative
                then (Result.err negative_refund, db)
                else if zero
                then (ok tt, db)
                else if not allowed
                then (err refund_needs_success, db)
                else if above
                then (err refund_exceeds_balance, db)
                else if known
                then settle_refund
                    (provider payment.id amount payment.currency)
                    db.next_id
                    now
                    opened
                else (err unsupported_provider, opened)).1
      by_tests true zero allowed above known e = h
      by_tests false true allowed above known e = h
      by_tests false false false above known e = h
      by_tests false false true true known e = h
      by_tests false false true false false e = o (ground arith)
      by_tests false false true false true e =
          let within : amount ≤ remaining = ground arith in
          settle_refund-outcome (provider payment.id amount payment.currency)
            (λ reference. s reference within) (f within)
