-- ===== src/Payments/Earnings/Sound.antt =====
-- The books of an earning (backend/app/services/payments/earning_service.py).
use book_point.Base.{
  ℕ, ◌+◌, ◌≤◌, ◌≡◌, refl, sym, ◌∙◌, ◌⊎◌, ap, Bool, true, false, some, inl, inr, List, [], ◌∷◌, All,
  ◌==◌, arith, Bool-cases, Option-cases, if◌then◌else◌,
}
use book_point.Base.Int.{pos}
use book_point.Models.{Appointment, Database, Payment, ProviderEarning, Organization}
use book_point.Payments.Commission.{calculate_platform_fee_minor}
use book_point.Payments.Commission.Fee.{calculate_platform_fee_minor-le}
use book_point.Payments.Earnings.{
  adjusted_earning, apply_refund_adjustment_for_payment, create_earning, ensure_earning_for_payment,
  insert_earning, new_earning, provider_refund_impact_minor,
}
use book_point.Payments.Rows.{get_earning_of_payment, update_earning}
use book_point.Repositories.{get_organization}
use book_point.Results.{Result, ok, Result-cases}

-- The fee, the provider's part and what refunds took of it come to the gross amount, and the
-- adjustment still to collect is at most the provider's original part.
pub record IsSound (e : ProviderEarning) : Type 0 where
  pub conserved :
      e.platform_fee_minor + e.provider_amount_minor + e.refunded_amount_minor
      ≡ e.gross_amount_minor
  pub collectable : e.adjustment_pending_minor ≤ e.provider_amount_minor + e.refunded_amount_minor

pub adjusted_earning-IsSound :
    (e : ProviderEarning) (impact : ℕ) → IsSound e → IsSound (adjusted_earning e impact)
unfolding adjusted_earning
adjusted_earning-IsSound e impact h = record {
  conserved = let c = h.conserved in ground arith;
  collectable = let c = h.collectable in ground arith;
}

new_earning-IsSound :
    (k : ℕ) (payment : Payment) (appointment : Appointment) (fee : ℕ)
    → fee ≤ payment.amount_minor
    → IsSound (new_earning k payment appointment fee)
new_earning-IsSound k payment appointment fee h = record {
  conserved = omega arith;
  collectable = omega arith;
}

update_earning-IsSound :
    (k : ℕ) (f : ProviderEarning → ProviderEarning) (earnings : List ProviderEarning)
    → ((e : ProviderEarning) → IsSound e → IsSound (f e))
    → All IsSound earnings
    → All IsSound (update_earning k f earnings)
update_earning-IsSound k f [] keeps h = tt
update_earning-IsSound k f (e ∷ earnings) keeps h =
    (kept (Bool-cases (e.id == k)), update_earning-IsSound k f earnings keeps h.1)
  where
    kept : ((e.id == k) ≡ true) ⊎ ((e.id == k) ≡ false) → IsSound (if e.id == k then f e else e)
    kept (inl y) = rw y (keeps e h.0)
    kept (inr n) = rw n (h.0)

-- If the books of every earning balance (`IsSound`: fee, provider part and refunded part sum up to
-- the gross amount, and the pending adjustment is within the provider's original part), they
-- balance after the adjustment for a refund of any amount to any payment.
pub apply_refund_adjustment_for_payment-IsSound :
    (payment_id refund_amount_minor : ℕ) (db : Database)
    → All IsSound db.earnings
    → All IsSound (apply_refund_adjustment_for_payment payment_id refund_amount_minor db).earnings
unfolding apply_refund_adjustment_for_payment
apply_refund_adjustment_for_payment-IsSound payment_id amount db h =
    elim (Option-cases (get_earning_of_payment db.earnings payment_id)) [
      | inl e ↦ rw e h
      | inr (a, e) ↦ rw e (
          update_earning-IsSound a.id
            (λ r. adjusted_earning r (provider_refund_impact_minor r amount)) db.earnings
            (λ r. adjusted_earning-IsSound r (provider_refund_impact_minor r amount)) h)
    ]

-- What a call that ends has done: it found the earning, or it wrote this one.
unfoldable pub Ensured : Payment → Appointment → Database → Database → ProviderEarning → Type 0
Ensured payment appointment db db' e =
    ((get_earning_of_payment db.earnings payment.id ≡ some e) × (db' ≡ db))
    ⊎ ((fee : ℕ) × (fee ≤ payment.amount_minor)
        × (e ≡ new_earning db.next_id payment appointment fee)
        × (db' ≡ insert_earning e db))

module _ (payment : Payment) (appointment : Appointment) (db db' : Database) (e : ProviderEarning)
    (created : Bool) where
  create_earning-Ensured :
      create_earning payment appointment db ≡ ok ((e, created), db')
      → Ensured payment appointment db db' e
  unfolding Ensured
  create_earning-Ensured q =
      elim (Option-cases (get_organization db.directory appointment.organization_id)) [
        | inl m ↦ let q' = rw m at q in cc
        | inr (o, m) ↦ elim (Result-cases (fee_under o)) [
          | inl (x, f) ↦ let q' = rw (m, f) at q in cc
          | inr (fee, f) ↦
              let q' : ok (
                (new_earning db.next_id payment appointment fee, true),
                insert_earning (new_earning db.next_id payment appointment fee) db,
              )
                  ≡ ok ((e, created), db') =
                rw (m, f) at q in
              let e_is : new_earning db.next_id payment appointment fee ≡ e = cc in
              let db_is : insert_earning (new_earning db.next_id payment appointment fee) db ≡ db' =
                cc in
              let within =
                calculate_platform_fee_minor-le (pos payment.amount_minor) o.commission_type
                  o.commission_percentage o.commission_fixed_minor f in
              inr (fee, within, sym e_is, sym db_is ∙ ap (λ x. insert_earning x db) e_is)
        ]
      ]
    where
      fee_under : Organization → Result ℕ
      fee_under o =
          calculate_platform_fee_minor (pos payment.amount_minor) o.commission_type
            o.commission_percentage o.commission_fixed_minor

  pub ensure-Ensured :
      ensure_earning_for_payment payment appointment db ≡ ok ((e, created), db')
      → Ensured payment appointment db db' e
  unfolding ensure_earning_for_payment Ensured
  ensure-Ensured q = elim (Option-cases (get_earning_of_payment db.earnings payment.id)) [
    | inr (a, found) ↦
        let q' : ok ((a, false), db) ≡ ok ((e, created), db') = rw found at q in
        let a_is : a ≡ e = cc in let db_is : db' ≡ db = cc in inl (found ∙ ap some a_is, db_is)
    | inl missing ↦ create_earning-Ensured (rw missing at q)
  ]

-- If the books of every earning balance (`IsSound`) and `ensure_earning_for_payment` gives an
-- earning, then they balance afterwards, and a second call gives the same earning as not created
-- and leaves the database as it is.
pub ensure_earning_for_payment-idempotent :
    (payment : Payment) (appointment : Appointment) (db db' : Database) (e : ProviderEarning)
    (created : Bool)
    → All IsSound db.earnings
    → ensure_earning_for_payment payment appointment db ≡ ok ((e, created), db')
    → All IsSound db'.earnings
      × (ensure_earning_for_payment payment appointment db' ≡ ok ((e, false), db'))
unfolding Ensured ensure_earning_for_payment
ensure_earning_for_payment-idempotent payment appointment db db' e created h q =
    by_case (ensure-Ensured payment appointment db db' e created q)
  where
    by_case :
        Ensured payment appointment db db' e
        → All IsSound db'.earnings
          × (ensure_earning_for_payment payment appointment db' ≡ ok ((e, false), db'))
    by_case (inl (found, db_is)) = (rw db_is h, rw (db_is, found) refl)
    by_case (inr (fee, within, e_is, db_is)) =
        let found : get_earning_of_payment db'.earnings payment.id ≡ some e =
          rw (db_is, e_is) (ground arith) in
        (
          rw (db_is, e_is) (new_earning-IsSound db.next_id payment appointment fee within, h),
          rw found refl,
        )
