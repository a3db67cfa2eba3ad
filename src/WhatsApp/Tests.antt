-- ===== src/WhatsApp/Tests.antt =====
-- Ids of buttons in backend/app/services/whatsapp/service.py, and a conversation on the sample.
use book_point.Base.{arith, In, inl, false, [], ◌∷◌, ◌≡◌, refl, none, some}
use book_point.Base.Decimal.{read_int, show, show_int}
use book_point.Base.Int.{◌+ℤ◌, ◌-ℤ◌, pos, negsuc}
use book_point.Base.Text.{codes, strip}
use book_point.WhatsApp.Actions.{Action, parse, print}
use book_point.Models.{Directory}
use book_point.Results.{Result, ok, err}
use book_point.Samples.{
  another, two, two-Sound, database, ten_five, later_slots, directory, service, zones,
}
use book_point.WhatsApp.Choices.{
  begin_booking_flow, handle_provider_selection, handle_service_selection, render_booking_dates,
}
use book_point.WhatsApp.Fitting.{Fits}
use book_point.WhatsApp.Menu.{handle_organization_selection}
use book_point.WhatsApp.State.{ConversationState, Flow, Reply, Step}
use book_point.WhatsApp.Turns.{Turn, Turns, Turns-Fits, answered, begin, organization, silent}
use book_point.Discovery.Visible.{list_visible_slots}
use book_point.Scheduling.Blocking.{
  appointment_blocked_interval, build_service_buffer_lookup, list_relevant_blocking_appointments,
}
use book_point.Scheduling.Slots.{get_available_slots}
use book_point.Scheduling.Slots.Window.{Slot, window_fuel}
use book_point.Time.{as_utc}
use book_point.Appointments.Cancelled.{Sound}
use book_point.Payments.Refunds.{mock_refund_provider}
use book_point.Repositories.{get_appointment}
use book_point.WhatsApp.Manage.{confirm_cancel, confirm_reschedule}
use book_point.WhatsApp.Owned.{conversation-changes_own}
use book_point.WhatsApp.Prompt.{slot_selection-asks}
use book_point.WhatsApp.Slots.{
  ask_confirmation, handle_booking_date_selection, handle_booking_slot_selection, slots_on,
  timestamp,
}
use book_point.WhatsApp.Calendar.{to_ordinal, from_ordinal, Date, fromisoformat, is_date, isoformat}
use book_point.WhatsApp.ReadBack.{parse-print}

abbrev march_8 : Date
march_8 = record { year = 2_026; month = 3; day = 8 }

abbrev new_date : Action
new_date = Action.select_new_date (pos 7) march_8

new_date_id : print new_date ≡ codes "resched_date:7:2026-03-08"
unfolding print show_int show isoformat
new_date_id = refl

parse-print_example : parse (print new_date) ≡ some new_date
unfolding is_date
parse-print_example = parse-print new_date refl

spaced : parse (codes "org: +1_0 ") ≡ some (Action.select_organization (pos 10))
unfolding parse read_int strip
spaced = refl

unread_tail : parse (codes "confirm_cancel:yes:7:x") ≡ some (Action.cancel_confirmed (pos 7))
unfolding parse read_int strip
unread_tail = refl

no_number : parse (codes "org:7:8") ≡ none
unfolding parse read_int strip
no_number = refl

no_such_day : parse (codes "date:2026-02-29") ≡ none
unfolding parse fromisoformat is_date
no_such_day = refl

below_zero : parse (codes "slot:-60") ≡ some (Action.select_slot (negsuc 59))
unfolding parse read_int strip
below_zero = refl

march_8_ordinal : from_ordinal 739_683 ≡ march_8
unfolding from_ordinal
march_8_ordinal = refl

leap_year_end : from_ordinal 739_251 ≡ record { year = 2_024; month = 12; day = 31 }
unfolding from_ordinal
leap_year_end = refl

leap_day : from_ordinal 730_179 ≡ record { year = 2_000; month = 2; day = 29 }
unfolding from_ordinal
leap_day = refl

-- The sample with a service that asks no payment.
abbrev unpaid : Directory
unpaid = record directory { services = record service { requires_payment = false } ∷ [] }

abbrev fresh : ConversationState
fresh = record {
  current_flow = Flow.menu;
  current_step = Step.select_organization;
  selected_organization_id = none;
  selected_provider_id = none;
  selected_service_id = none;
  selected_location_id = none;
  selected_slot_start = none;
  selected_date = none;
  appointment_id = none;
}

abbrev reply_of : Result Reply → Reply
reply_of (ok reply) = reply
reply_of (err e) = ([], fresh)

abbrev organized : ConversationState
organized = (handle_organization_selection unpaid fresh (pos 1)).1

abbrev located : Reply
located = reply_of (begin_booking_flow unpaid organized)

abbrev served : Reply
served = reply_of (handle_service_selection unpaid located.1 (pos 4))

abbrev provided : Reply
provided = reply_of (handle_provider_selection zones (pos 0) unpaid served.1 (pos 3))

provider_is_chosen : provided.1.selected_provider_id ≡ some 3
unfolding handle_provider_selection handle_service_selection begin_booking_flow
    handle_organization_selection render_booking_dates
provider_is_chosen = refl

conversation : Turns unpaid fresh provided.1
unfolding handle_provider_selection handle_service_selection begin_booking_flow
    handle_organization_selection
conversation =
    answered
      (answered (answered (answered silent (organization (pos 1))) (begin located refl))
        (Turn.service (pos 4) served refl))
      (Turn.provider zones (pos 0) (pos 3) provided refl)

fresh-Fits : Fits unpaid fresh
fresh-Fits = record { located = λ k e. cc; served = λ k e. cc; provided = λ k e. cc }

Turns-Fits_example : Fits unpaid provided.1
Turns-Fits_example = Turns-Fits conversation fresh-Fits

-- The day of the sample.
abbrev first_day : Date
first_day = record { year = 1; month = 1; day = 1 }

three_slots : slots_on zones (pos 0) unpaid database.appointments 3 4 2 first_day ≡ ok later_slots
unfolding to_ordinal list_visible_slots get_available_slots window_fuel as_utc ◌+ℤ◌ ◌-ℤ◌
    list_relevant_blocking_appointments appointment_blocked_interval build_service_buffer_lookup
three_slots = refl

slot_selection-asks_example :
    let t = timestamp ten_five.start_datetime in
    (reply : Reply) × (found : Slot) × (handle_booking_date_selection zones
        (pos 0)
        unpaid
        database.appointments
        provided.1
        first_day
      ≡ ok reply)
    × In found later_slots
    × (timestamp found.start_datetime ≡ t)
    × (handle_booking_slot_selection zones (pos 0) unpaid database.appointments reply.1 t
        ≡ ok (ask_confirmation zones (pos 0) unpaid database.appointments reply.1 t (some found)))
unfolding handle_provider_selection handle_service_selection begin_booking_flow
    handle_organization_selection render_booking_dates is_date
slot_selection-asks_example =
    slot_selection-asks zones (pos 0) unpaid database.appointments provided.1 first_day 3 4 2
      later_slots ten_five refl refl three_slots (inl refl)

-- Customer 5 changes the booking 7 of the sample; booking 8 is of customer 6.
conversation-changes_own_example :
    let cancelled =
      (confirm_cancel 5 (pos 0) (mock_refund_provider (codes "a")) fresh (pos 7) two).1 in
    let moved = (confirm_reschedule 5 (pos 0) zones fresh (pos 7) (pos 36_300) two).1 in
    (Sound cancelled × (get_appointment cancelled.appointments 8 ≡ some another))
    × (Sound moved × (get_appointment moved.appointments 8 ≡ some another))
conversation-changes_own_example =
    conversation-changes_own 5 (pos 0) fresh (mock_refund_provider (codes "a")) zones (pos 7)
      (pos 36_300) two 8 another two-Sound refl (λ e. absurd (omega arith))
