-- ===== src/SelfService/Requests.antt =====
-- Histories of requests to backend/app/services/customer_self_service_booking_service.py, each with
-- a booking, an access token and a clock of its own.
use book_point.Appointments.Cancel.{cancel_appointment, is_cancelled}
use book_point.Appointments.Cancelled.{Sound, cancel_appointment-Sound}
use book_point.Appointments.Booking.{reschedule_appointment}
use book_point.Base.{
  ℕ, ◌≡◌, refl, sym, none, true≢false, ◌∙◌, ap, true, false, inl, inr, ◌==◌, ==_iff, Bool-cases,
  In-of_first,
}
use book_point.Base.Int.{ℤ, ltb_ℤ}
use book_point.Base.Text.{Text, eq_text}
use book_point.Models.{Appointment, Database}
use book_point.Payments.Refunds.{RefundProvider}
use book_point.Repositories.{get_appointment}
use book_point.Results.{Result, Result-cases, ok, err, >>=-eq-ok, eq_of_ok, require-eq-ok}
use book_point.SelfService.{
  Tokens, cancel_booking, cancel_opened, check_reschedule, get_booking_or_404, reschedule_booking,
  reschedule_checked, summarize_result,
}
use book_point.SelfService.Guarded.{get_booking_or_404-opens}
use book_point.SelfService.Others.{
  cancel_appointment-leaves_others, reschedule_appointment-Sound,
  reschedule_appointment-leaves_others,
}
use book_point.Time.{Datetime, Zones, aware, ensure_aware_utc}

-- A request to cancel or to move a booking, with any token but that of the booking `k`. A request to
-- see a booking changes nothing.
pub data Request (tokens : Tokens) (k : ℕ) : Database → Database → Type 0 where
  cancel_asked :
      (provider : RefundProvider) (expiration_minutes booking_id : ℕ) (access_token : Text)
      (now : ℤ) (db : Database)
      → eq_text (tokens k) access_token ≡ false
      → Request tokens k db
          (cancel_booking tokens provider expiration_minutes booking_id access_token now db).1
  move_asked :
      (zones : Zones) (expiration_minutes booking_id : ℕ) (access_token : Text)
      (scheduled_start : Datetime) (now : ℤ) (db : Database)
      → eq_text (tokens k) access_token ≡ false
      → Request tokens k db
          (reschedule_booking tokens zones expiration_minutes booking_id access_token
            scheduled_start now db).1

pub data Requests (tokens : Tokens) (k : ℕ) (db : Database) : Database → Type 0 where
  untouched : Requests tokens k db db
  served :
      {before after : Database}
      → Requests tokens k db before
      → Request tokens k before after
      → Requests tokens k db after

summarize_result-after :
    (expiration_minutes : ℕ) (r : Result Appointment × Database)
    → (summarize_result expiration_minutes r).1 ≡ r.1
unfolding summarize_result
summarize_result-after expiration_minutes (ok a, db) = refl
summarize_result-after expiration_minutes (err e, db) = refl

-- A request leaves the database as it was, or as the appointment service leaves it for the booking
-- that the token opens.
cancel_booking-after :
    (tokens : Tokens) (provider : RefundProvider) (expiration_minutes booking_id : ℕ)
    (access_token : Text) (now : ℤ) (db : Database) (P : Database → Type 0)
    → P db
    → (eq_text (tokens booking_id) access_token ≡ true
        → P (cancel_appointment provider booking_id none now db).1)
    → P (cancel_booking tokens provider expiration_minutes booking_id access_token now db).1
unfolding cancel_booking cancel_opened
cancel_booking-after tokens provider expiration_minutes booking_id access_token now db P same
      changed =
    elim (Result-cases (get_booking_or_404 tokens db.appointments booking_id access_token)) [
      | inl (e, q) ↦ rw q same
      | inr (a, q) ↦
          let (found, right) =
            get_booking_or_404-opens tokens db.appointments booking_id access_token a q in
          let own : a.id ≡ booking_id =
            (==_iff a.id booking_id).0
              (In-of_first (λ x. x.id == booking_id) db.appointments found).1 in
          elim (Bool-cases (is_cancelled a.status)) [
            | inl y ↦ rw (q, y) same
            | inr n ↦
                rw
                  (
                    q,
                    n,
                    own,
                    summarize_result-after expiration_minutes
                        (cancel_appointment provider booking_id none now db),
                  )
                  (changed right)
          ]
    ]

reschedule_booking-after :
    (tokens : Tokens) (zones : Zones) (expiration_minutes booking_id : ℕ) (access_token : Text)
    (scheduled_start : Datetime) (now : ℤ) (db : Database) (P : Database → Type 0)
    → P db
    → (eq_text (tokens booking_id) access_token ≡ true
        → (start : ℤ) → P (reschedule_appointment zones booking_id (aware start) db).1)
    → P
        (reschedule_booking tokens zones expiration_minutes booking_id access_token scheduled_start
          now db).1
unfolding reschedule_booking check_reschedule reschedule_checked
reschedule_booking-after tokens zones expiration_minutes booking_id access_token scheduled_start now
      db P same changed =
    elim (Result-cases
      (check_reschedule tokens db.appointments booking_id access_token scheduled_start now)) [
        | inl (e, q) ↦ rw q same
        | inr ((a, start), q) ↦
            let (row, opened, h₁) =
              >>=-eq-ok (get_booking_or_404 tokens db.appointments booking_id access_token) _ q in
            let (begins, _, h₂) = >>=-eq-ok (ensure_aware_utc scheduled_start) _ h₁ in
            let (_, h₃) = require-eq-ok (ltb_ℤ now begins) _ _ h₂ in
            let (found, right) =
              get_booking_or_404-opens tokens db.appointments booking_id access_token row opened in
            let own : row.id ≡ booking_id =
              (==_iff row.id booking_id).0
                (In-of_first (λ x. x.id == booking_id) db.appointments found).1 in
            let is_row : a.id ≡ row.id = ap (λ (x : Appointment × ℤ). x.0.id) (sym (eq_of_ok h₃)) in
            rw
              (
                q,
                is_row,
                own,
                summarize_result-after expiration_minutes
                    (reschedule_appointment zones booking_id (aware start) db),
              )
              (changed right start)
      ]

-- What the holder of an access token may do to a booking: nothing, or with the token of the booking
-- what the appointment service does with it.
pub data Permitted (tokens : Tokens) (booking_id : ℕ) (access_token : Text) (db : Database)
    : Database → Type 0 where
  unchanged : Permitted tokens booking_id access_token db db
  cancels :
      (provider : RefundProvider) (now : ℤ)
      → eq_text (tokens booking_id) access_token ≡ true
      → Permitted tokens booking_id access_token db
          (cancel_appointment provider booking_id none now db).1
  moves :
      (zones : Zones) (start : ℤ)
      → eq_text (tokens booking_id) access_token ≡ true
      → Permitted tokens booking_id access_token db
          (reschedule_appointment zones booking_id (aware start) db).1

-- Whatever the token, `cancel_booking` and `reschedule_booking` each leave the database as it was,
-- or the token is that of the booking and the database is the one that `cancel_appointment` or
-- `reschedule_appointment` leaves for it (`Permitted`).
pub self_service-Permitted :
    (tokens : Tokens) (provider : RefundProvider) (zones : Zones)
    (expiration_minutes booking_id : ℕ) (access_token : Text) (scheduled_start : Datetime) (now : ℤ)
    (db : Database)
    → Permitted tokens booking_id access_token db
        (cancel_booking tokens provider expiration_minutes booking_id access_token now db).1
      × Permitted tokens booking_id access_token db
          (reschedule_booking tokens zones expiration_minutes booking_id access_token
            scheduled_start now db).1
self_service-Permitted tokens provider zones expiration_minutes booking_id access_token
      scheduled_start now db =
    (
      cancel_booking-after tokens provider expiration_minutes booking_id access_token now db
          (Permitted tokens booking_id access_token db) unchanged (cancels provider now),
      reschedule_booking-after tokens zones expiration_minutes booking_id access_token
          scheduled_start now db (Permitted tokens booking_id access_token db) unchanged
          (λ right start. moves zones start right),
    )

-- What a request without the token of `k` keeps.
abbrev Keeps : ℕ → Database → Database → Type 0
Keeps k db db' =
    Sound db' × (get_appointment db'.appointments k ≡ get_appointment db.appointments k)

-- A request that opens the booking of some id leaves the booking of `k`: the token is not that of `k`.
leaves :
    (tokens : Tokens) (k booking_id : ℕ) (access_token : Text) (db db' : Database)
    → eq_text (tokens k) access_token ≡ false
    → eq_text (tokens booking_id) access_token ≡ true
    → (¬ (booking_id ≡ k) → get_appointment db'.appointments k ≡ get_appointment db.appointments k)
    → get_appointment db'.appointments k ≡ get_appointment db.appointments k
leaves tokens k booking_id access_token db db' wrong right other =
    other (λ same. true≢false (sym right ∙ ap (λ i. eq_text (tokens i) access_token) same ∙ wrong))

Request-Keeps :
    {tokens : Tokens} {k : ℕ} {db db' : Database}
    → Request tokens k db db'
    → Sound db
    → Keeps k db db'
Request-Keeps {tokens} {k}
      (cancel_asked provider expiration_minutes booking_id access_token now db wrong) sound =
    cancel_booking-after tokens provider expiration_minutes booking_id access_token now db
      (Keeps k db) (sound, refl)
      (λ right.
        let db' = (cancel_appointment provider booking_id none now db).1 in
        (
          cancel_appointment-Sound provider booking_id none now db sound,
          leaves tokens k booking_id access_token db db' wrong right
              (cancel_appointment-leaves_others provider booking_id k none now db),
        ))
Request-Keeps {tokens} {k}
      (move_asked zones expiration_minutes booking_id access_token scheduled_start now db wrong)
      sound =
    reschedule_booking-after tokens zones expiration_minutes booking_id access_token scheduled_start
      now db (Keeps k db) (sound, refl)
      (λ right start.
        let db' = (reschedule_appointment zones booking_id (aware start) db).1 in
        (
          reschedule_appointment-Sound zones booking_id (aware start) db sound,
          leaves tokens k booking_id access_token db db' wrong right
              (reschedule_appointment-leaves_others zones booking_id k (aware start) db),
        ))

-- After any sequence of requests to cancel or to reschedule, each of any booking at any time with
-- any access token but that of the booking `k`, a `Sound` database is still `Sound`, and the id `k`
-- finds the row that it found before.
pub Requests-keep :
    {tokens : Tokens} {k : ℕ} {db db' : Database}
    → Requests tokens k db db'
    → Sound db
    → Sound db' × (get_appointment db'.appointments k ≡ get_appointment db.appointments k)
Requests-keep untouched sound = (sound, refl)
Requests-keep (served past step) sound =
    let (before, same) = Requests-keep past sound in
    let (after, still) = Request-Keeps step before in (after, still ∙ same)
