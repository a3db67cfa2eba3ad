-- ===== src/SelfService/Guarded.antt =====
-- The access token guards a booking, and with it the operations of
-- backend/app/services/customer_self_service_booking_service.py are those of the appointment service.
use book_point.Base.{
  ℕ, ◌≡◌, refl, sym, ◌∙◌, subst, true, false, ◌&&◌, some, inl, inr, List, ◌==◌, ==_iff, In-of_first,
  true≢false,
}
use book_point.Base.Int.{ℤ}
use book_point.Base.Text.{Text, eq_text, strip}
use book_point.Customers.Resolve.{is_empty_text}
use book_point.Models.{Appointment, Database}
use book_point.Payments.Refunds.{RefundProvider}
use book_point.Repositories.{get_appointment}
use book_point.Results.{
  Error, Result, Result-cases, ok, err, eq_of_ok, or_raise-eq-ok, raise_if-eq-ok, require-eq-ok,
}
use book_point.SelfService.{
  BookingSummary, Tokens, cancel_booking, cancel_opened, check_reschedule, get_booking,
  get_booking_or_404, is_ascii, reschedule_booking, reschedule_checked,
}
use book_point.Time.{Datetime, Zones}

-- The row that a token opens is the row of the id, and the token is its own.
pub get_booking_or_404-opens :
    (tokens : Tokens) (appointments : List Appointment) (booking_id : ℕ) (access_token : Text)
    (a : Appointment)
    → get_booking_or_404 tokens appointments booking_id access_token ≡ ok a
    → (get_appointment appointments booking_id ≡ some a)
      × (eq_text (tokens booking_id) access_token ≡ true)
unfolding get_booking_or_404
get_booking_or_404-opens tokens appointments booking_id access_token a e =
    let (_, h₁) = raise_if-eq-ok (is_empty_text (strip access_token)) _ _ e in
    let (row, found, h₂) = or_raise-eq-ok (get_appointment appointments booking_id) _ _ h₁ in
    let (_, h₃) = require-eq-ok (is_ascii (tokens row.id) && is_ascii access_token) _ _ h₂ in
    let (matches, h₄) = require-eq-ok (eq_text (tokens row.id) access_token) _ _ h₃ in
    let id_is : row.id ≡ booking_id =
      (==_iff row.id booking_id).0 (In-of_first (λ x. x.id == booking_id) appointments found).1 in
    (
      subst (λ (x : Appointment). get_appointment appointments booking_id ≡ some x) (eq_of_ok h₄)
          found,
      subst (λ (k : ℕ). eq_text (tokens k) access_token ≡ true) id_is matches,
    )

abbrev pub Fails : Result BookingSummary → Type 0
Fails r = (e : Error) × (r ≡ err e)

module _ (tokens : Tokens) (expiration_minutes booking_id : ℕ) (access_token : Text) (db : Database)
    (wrong : eq_text (tokens booking_id) access_token ≡ false) where
  wrong_token-fails :
      (e : Error) × (get_booking_or_404 tokens db.appointments booking_id access_token ≡ err e)
  wrong_token-fails =
      elim (Result-cases (get_booking_or_404 tokens db.appointments booking_id access_token)) [
        | inl failed ↦ failed
        | inr (a, q) ↦
            let (_, right) =
              get_booking_or_404-opens tokens db.appointments booking_id access_token a q in
            absurd (true≢false (sym right ∙ wrong))
      ]

  -- With a token that is not that of the booking, `get_booking`, `cancel_booking` and
  -- `reschedule_booking` fail, and the last two leave the database as it was.
  pub wrong_token-changes_nothing :
      (provider : RefundProvider) (zones : Zones) (scheduled_start : Datetime) (now : ℤ)
      → Fails (get_booking tokens expiration_minutes booking_id access_token db)
        × Fails (cancel_booking tokens provider expiration_minutes booking_id access_token now db).0
        × ((cancel_booking tokens provider expiration_minutes booking_id access_token now db).1
            ≡ db)
        × Fails
            (reschedule_booking tokens zones expiration_minutes booking_id access_token
              scheduled_start now db).0
        × ((reschedule_booking tokens zones expiration_minutes booking_id access_token
              scheduled_start now db).1
            ≡ db)
  unfolding get_booking cancel_booking reschedule_booking check_reschedule cancel_opened
      reschedule_checked
  wrong_token-changes_nothing provider zones scheduled_start now =
      let (e, q) = wrong_token-fails in
      (rw q (e, refl), rw q (e, refl), rw q refl, rw q (e, refl), rw q refl)
