-- ===== src/Payments/Refunds/Balance.antt =====
-- What has been refunded of a payment never passes its amount
-- (backend/app/services/payments/refund_service.py).
use book_point.Base.{
  ℕ, ◌+◌, ◌≤◌, ◌<◌, ◌≡◌, refl, sym, ◌∙◌, ap, subst, Bool, true, false, Option, none, some, inl, inr,
  List, [], ◌∷◌, All, leb, ◌==◌, arith, Bool-cases, Option-cases, first-map, Option-map-eq_some,
  if◌then◌else◌,
}
use book_point.Base.Int.{ℤ, pos_part}
use book_point.Base.Text.{Text}
use book_point.Models.{Database, Payment, PaymentStatus, Refund}
use book_point.Payments.Earnings.{apply_refund_adjustment_for_payment}
use book_point.Payments.RefundPolicy.{get_refundable_remaining_minor}
use book_point.Payments.Refunds.{
  RefundProvider, create_refund, new_refund, open_refund, succeed_refund, fail_refund,
  commit_refund_succeeded, commit_refund_failed, settle_payment,
}
use book_point.Payments.Refunds.Outcomes.{create_refund-outcome}
use book_point.Payments.Rows.{
  get_earning_of_payment, get_payment, sum_succeeded_amount_for_payment, update_payment,
  update_refund,
}

-- Refund ids lie below the next one, and the refunds that succeeded are covered by their payments.
pub record IsCovered (db : Database) : Type 0 where
  pub fresh : All (λ r. r.id < db.next_id) db.refunds
  pub covered :
      (k : ℕ) (p : Payment)
      → get_payment db.payments k ≡ some p
      → sum_succeeded_amount_for_payment db.refunds k ≤ p.amount_minor

update_refund_fresh :
    (n : ℕ) (f : Refund → Refund) (refunds : List Refund)
    → All (λ r. r.id < n) refunds
    → update_refund n f refunds ≡ refunds
update_refund_fresh n f [] h = refl
update_refund_fresh n f (r ∷ refunds) h =
    let other : (r.id == n) ≡ false = ground arith in
    rw (other, update_refund_fresh n f refunds h.1)

fresh_suc :
    (n : ℕ) (refunds : List Refund) → All (λ r. r.id < n) refunds → All (λ r. r.id < n + 1) refunds
fresh_suc n [] h = tt
fresh_suc n (r ∷ refunds) h = (omega arith, fresh_suc n refunds h.1)

fresh_of :
    {n n' : ℕ} {refunds refunds' : List Refund}
    → refunds' ≡ refunds
    → n' ≡ n
    → All (λ r. r.id < n) refunds
    → All (λ r. r.id < n') refunds'
fresh_of {n} {n'} {refunds} {refunds'} e f h =
    subst (λ rs. All (λ r. r.id < n') rs) (sym e)
      (subst (λ m. All (λ r. r.id < m) refunds) (sym f) h)

-- A change of status leaves every payment's amount.
get_payment-update :
    (j k : ℕ) (payments : List Payment) {p : Payment}
    → get_payment (update_payment j (λ q. record q { status = PaymentStatus.refunded }) payments) k
      ≡ some p
    → (q : Payment) × (get_payment payments k ≡ some q) × (p.amount_minor ≡ q.amount_minor)
get_payment-update j k payments {p} e =
    let (q, found, same) =
      Option-map-eq_some (update j) (get_payment payments k)
        (sym (first-map (λ r. r.id == k) (update j) payments keeps_id) ∙ e) in
    (q, found, ap (λ (r : Payment). r.amount_minor) same ∙ keeps_amount q)
  where
    update : ℕ → Payment → Payment
    update i q = if q.id == i then record q { status = PaymentStatus.refunded } else q

    keeps_id : (q : Payment) → ((update j q).id == k) ≡ (q.id == k)
    keeps_id q = ground arith

    keeps_amount : (q : Payment) → (update j q).amount_minor ≡ q.amount_minor
    keeps_amount q = ground arith

-- What the adjustment of the earning leaves alone.
pub apply_refund_adjustment-frame :
    (k amount : ℕ) (db : Database)
    → let db' = apply_refund_adjustment_for_payment k amount db in
      (db'.refunds ≡ db.refunds) × (db'.payments ≡ db.payments) × (db'.next_id ≡ db.next_id)
unfolding apply_refund_adjustment_for_payment
apply_refund_adjustment-frame k amount db =
    elim (Option-cases (get_earning_of_payment db.earnings k)) [
      | inl e ↦ rw e (refl, refl, refl)
      | inr (a, e) ↦ rw e (refl, refl, refl)
    ]

-- Each payment has kept its amount.
abbrev SameAmounts : List Payment → List Payment → Type 0
SameAmounts payments payments' =
    (k : ℕ) (p : Payment)
    → get_payment payments' k ≡ some p
    → (q : Payment) × (get_payment payments k ≡ some q) × (p.amount_minor ≡ q.amount_minor)

SameAmounts-refl : (payments : List Payment) → SameAmounts payments payments
SameAmounts-refl payments k p e = (p, e, refl)

abbrev Frame : Database → Database → Type 0
Frame db db' =
    (db'.refunds ≡ db.refunds) × (db'.next_id ≡ db.next_id) × SameAmounts db.payments db'.payments

settle_payment-Frame :
    (r : Refund) (o : Option Payment) (db : Database) → Frame db (settle_payment r o db)
settle_payment-Frame r none db = (refl, refl, SameAmounts-refl db.payments)
settle_payment-Frame r (some payment) db =
    let covered =
      leb payment.amount_minor (sum_succeeded_amount_for_payment db.refunds payment.id) in
    let payments' =
      if covered
      then update_payment payment.id (λ p. record p { status = PaymentStatus.refunded }) db.payments
      else db.payments in
    let settled = record db { payments = payments' } in
    let (e, f, g) = apply_refund_adjustment-frame payment.id r.amount_minor settled in
    (e, g, rw f (chosen covered))
  where
    chosen :
        (b : Bool)
        → SameAmounts db.payments (
            if b
            then update_payment payment.id
                (λ p. record p { status = PaymentStatus.refunded })
                db.payments
            else db.payments)
    chosen true = λ k p. get_payment-update payment.id k db.payments
    chosen false = SameAmounts-refl db.payments

-- The success of a refund writes its row, and else only statuses and earnings.
commit_refund_succeeded-frame :
    (reference : Option Text) (now : ℤ) (r : Refund) (db : Database)
    → let db' = commit_refund_succeeded reference now r db in
      (db'.refunds ≡ update_refund r.id (succeed_refund reference now) db.refunds)
      × (db'.next_id ≡ db.next_id)
      × SameAmounts db.payments db'.payments
unfolding commit_refund_succeeded
commit_refund_succeeded-frame reference now r db =
    settle_payment-Frame r (get_payment db.payments r.payment_id)
      (record db { refunds = update_refund r.id (succeed_refund reference now) db.refunds })

module _ (db : Database) (payment : Payment) (amount : ℕ) (now : ℤ) (h : IsCovered db)
    (known : get_payment db.payments payment.id ≡ some payment)
    (within : amount ≤ get_refundable_remaining_minor db.refunds payment) where
  abbrev opened : Database
  opened = open_refund payment amount db

  open_refund-IsCovered : IsCovered opened
  unfolding open_refund sum_succeeded_amount_for_payment
  open_refund-IsCovered = record {
    fresh = (omega arith, fresh_suc db.next_id db.refunds h.fresh);
    covered = λ k p e. ground (arith, h.covered k p e);
  }

  -- The sum after the success of the new refund.
  sum-succeeded :
      (reference : Option Text) (k : ℕ)
      → sum_succeeded_amount_for_payment
          (update_refund db.next_id (succeed_refund reference now) opened.refunds)
          k
        ≡ (if payment.id == k then amount else 0) + sum_succeeded_amount_for_payment db.refunds k
  unfolding open_refund sum_succeeded_amount_for_payment
  sum-succeeded reference k =
      rw (update_refund_fresh db.next_id (succeed_refund reference now) db.refunds h.fresh)
        (ground arith)

  commit-IsCovered :
      (reference : Option Text)
      → IsCovered
          (commit_refund_succeeded reference now (new_refund db.next_id payment amount) opened)
  unfolding open_refund get_refundable_remaining_minor
  commit-IsCovered reference =
      let (e, f, g) =
        commit_refund_succeeded-frame reference now (new_refund db.next_id payment amount) opened in
      record {
        fresh = fresh_of e f (still_fresh reference);
        covered = λ k p q. rw (e, sum-succeeded reference k) (still_covered k p (g k p q));
      }
    where
      still_fresh :
          (reference : Option Text)
          → All
              (λ r. r.id < opened.next_id)
              (update_refund db.next_id (succeed_refund reference now) opened.refunds)
      still_fresh reference =
          rw (update_refund_fresh db.next_id (succeed_refund reference now) db.refunds h.fresh)
            (ground arith, fresh_suc db.next_id db.refunds h.fresh)

      still_covered :
          (k : ℕ) (p : Payment)
          → (q : Payment) × (get_payment opened.payments k ≡ some q)
            × (p.amount_minor ≡ q.amount_minor)
          → (if payment.id == k then amount else 0) + sum_succeeded_amount_for_payment db.refunds k
            ≤ p.amount_minor
      still_covered k p (q, found, same) = elim (Bool-cases (payment.id == k)) [
        | inl y ↦
            let k_is : payment.id ≡ k = ground arith in
            let twice : some payment ≡ some q =
              sym known ∙ ap (get_payment db.payments) k_is ∙ found in
            let payment_is : payment ≡ q = cc in
            let sums = ap (sum_succeeded_amount_for_payment db.refunds) k_is in
            let amounts = ap (λ (r : Payment). r.amount_minor) payment_is in
            let before = h.covered k q found in rw y (omega arith)
        | inr n ↦ let before = h.covered k q found in rw n (omega arith)
      ]

  -- The sum after the failure of the new refund.
  sum-failed :
      (k : ℕ)
      → sum_succeeded_amount_for_payment
          (update_refund db.next_id (fail_refund now) opened.refunds)
          k
        ≡ sum_succeeded_amount_for_payment db.refunds k
  unfolding open_refund sum_succeeded_amount_for_payment
  sum-failed k =
      rw (update_refund_fresh db.next_id (fail_refund now) db.refunds h.fresh) (ground arith)

  fail-IsCovered :
      IsCovered (commit_refund_failed now (new_refund db.next_id payment amount) opened)
  unfolding open_refund commit_refund_failed
  fail-IsCovered = record {
    fresh =
        rw (update_refund_fresh db.next_id (fail_refund now) db.refunds h.fresh)
          (ground arith, fresh_suc db.next_id db.refunds h.fresh);
    covered = λ k p e. rw (sum-failed k) (h.covered k p e);
  }

-- Of a payment that its id finds, in a database where refund ids lie below the next id and the
-- succeeded refunds of each payment are within its amount, `create_refund` of any amount leaves
-- such a database on every branch, whatever the provider answers.
pub create_refund-IsCovered :
    (provider : RefundProvider) (payment : Payment) (amount_minor : ℤ) (now : ℤ) (db : Database)
    → get_payment db.payments payment.id ≡ some payment
    → IsCovered db
    → IsCovered (create_refund provider payment amount_minor now db).1
create_refund-IsCovered provider payment amount_minor now db known h =
    let amount = pos_part amount_minor in
    create_refund-outcome payment amount_minor now db IsCovered provider h
      (λ w. open_refund-IsCovered db payment amount now h known w)
      (λ reference w. commit-IsCovered db payment amount now h known w (some reference))
      (λ w. fail-IsCovered db payment amount now h known w)
