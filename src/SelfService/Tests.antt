-- ===== src/SelfService/Tests.antt =====
-- Requests to backend/app/services/customer_self_service_booking_service.py on the sample of the tests.
use book_point.Appointments.Cancelled.{Sound}
use book_point.Base.{◌+◌, ◌≡◌, refl, [], ◌∷◌}
use book_point.Base.Int.{pos}
use book_point.Base.Text.{codes, strip}
use book_point.Models.{Database}
use book_point.Payments.Refunds.{RefundProvider, mock_refund_provider}
use book_point.Repositories.{get_appointment}
use book_point.Results.{ok}
use book_point.Samples.{two, two-Sound, appointment, at_minute, database, zones}
use book_point.SelfService.{
  Tokens, cancel_booking, get_booking, get_booking_or_404, reschedule_booking,
}
use book_point.SelfService.Guarded.{Fails, wrong_token-changes_nothing}
use book_point.SelfService.Requests.{
  Permitted, Requests, Requests-keep, self_service-Permitted, served, untouched, cancel_asked,
  move_asked,
}
use book_point.Time.{aware}

-- Each booking has the token of its id, the letter after `a` as often as the id counts.
abbrev tokens : Tokens
tokens k = (k + 97) ∷ []

abbrev gateway : RefundProvider
gateway = mock_refund_provider (codes "a")

opened : get_booking_or_404 tokens database.appointments 7 (codes "h") ≡ ok appointment
unfolding get_booking_or_404 strip
opened = refl

wrong_token-changes_nothing_example :
    Fails (get_booking tokens 30 7 (codes "x") database)
    × Fails (cancel_booking tokens gateway 30 7 (codes "x") (pos 0) database).0
    × ((cancel_booking tokens gateway 30 7 (codes "x") (pos 0) database).1 ≡ database)
    × Fails
        (reschedule_booking tokens zones 30 7
          (codes "x")
          (aware (at_minute 605))
          (pos 0)
          database).0
    × ((reschedule_booking tokens zones 30 7 (codes "x") (aware (at_minute 605)) (pos 0) database).1
        ≡ database)
wrong_token-changes_nothing_example =
    wrong_token-changes_nothing tokens 30 7 (codes "x") database refl gateway zones
      (aware (at_minute 605)) (pos 0)

self_service-Permitted_example :
    Permitted tokens 7
      (codes "h")
      database
      (cancel_booking tokens gateway 30 7 (codes "h") (pos 0) database).1
    × Permitted tokens 7
        (codes "h")
        database
        (reschedule_booking tokens zones 30 7
          (codes "h")
          (aware (at_minute 605))
          (pos 0)
          database).1
self_service-Permitted_example =
    self_service-Permitted tokens gateway zones 30 7 (codes "h") (aware (at_minute 605)) (pos 0)
      database

-- The holder of the token of booking 7 moves it, then cancels it; booking 8 is another's.
abbrev moved : Database
moved = (reschedule_booking tokens zones 30 7 (codes "h") (aware (at_minute 605)) (pos 0) two).1

abbrev moved_and_cancelled : Database
moved_and_cancelled = (cancel_booking tokens gateway 30 7 (codes "h") (pos 0) moved).1

moved_and_cancelled-Requests : Requests tokens 8 two moved_and_cancelled
moved_and_cancelled-Requests =
    served
      (served untouched
        (move_asked zones 30 7 (codes "h") (aware (at_minute 605)) (pos 0) two refl))
      (cancel_asked gateway 30 7 (codes "h") (pos 0) moved refl)

Requests-keep_example :
    Sound moved_and_cancelled
    × (get_appointment moved_and_cancelled.appointments 8 ≡ get_appointment two.appointments 8)
Requests-keep_example = Requests-keep moved_and_cancelled-Requests two-Sound
