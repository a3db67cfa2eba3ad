-- ===== src/WhatsApp/Manage.antt =====
-- The cancellation and the move of a booking in backend/app/services/whatsapp/service.py.
use book_point.Appointments.Booking.{reschedule_appointment}
use book_point.Appointments.Cancel.{cancel_appointment, is_cancelled}
use book_point.Base.{
  ℕ, Bool, true, false, not, ◌&&◌, Option, none, some, List, [], ◌∷◌, ◌==◌, if◌then◌else◌,
}
use book_point.Base.Int.{ℤ, pos, negsuc, ltb_ℤ}
use book_point.Base.Text.{Text}
use book_point.Discovery.Visible.{list_visible_slots}
use book_point.Models.{
  Appointment, AppointmentStatus, Database, Directory, EffectKind, count, event,
  whatsapp_cancel_completed, whatsapp_reschedule_completed,
}
use book_point.Payments.Refunds.{RefundProvider}
use book_point.Repositories.{get_appointment}
use book_point.Results.{
  Error, Result, ok, err, ◌>>=◌, naive_datetime, end_date_before_start, date_range_too_long,
  provider_not_found, provider_inactive, location_not_found, location_inactive,
  organization_inactive, organization_mismatch, provider_not_at_location, service_not_found,
  provider_lacks_service, service_not_at_location, customer_not_found, bad_new_status,
  overlapping_appointment, slot_unavailable, appointment_not_found, not_cancellable,
  not_reschedulable,
}
use book_point.Scheduling.Slots.Window.{Slot}
use book_point.Time.{Zones, as_utc, aware}
use book_point.WhatsApp.Actions.{Action}
use book_point.WhatsApp.Calendar.{fromisoformat, to_ordinal}
use book_point.WhatsApp.Menu.{render_main_menu, stale_action_response}
use book_point.WhatsApp.Slots.{slot_of_timestamp, slots_on, timestamp}
use book_point.WhatsApp.State.{
  ConversationState, Flow, Reply, Step, Template, buttons, prepend, text,
}

-- PENDING, PENDING_PAYMENT and CONFIRMED
abbrev pub is_manageable : AppointmentStatus → Bool
is_manageable AppointmentStatus.pending = true
is_manageable AppointmentStatus.pending_payment = true
is_manageable AppointmentStatus.confirmed = true
is_manageable _ = false

abbrev pub in_selected_organization : Option ℕ → Appointment → Bool
in_selected_organization none a = true
in_selected_organization (some organization_id) a = a.organization_id == organization_id

abbrev pub may_manage : (customer_id : ℕ) → ℤ → ConversationState → Appointment → Bool
may_manage customer_id now state a =
    (a.customer_id == customer_id)
    && (in_selected_organization state.selected_organization_id a
        && (is_manageable a.status && not (ltb_ℤ (as_utc a.start_datetime) now)))

abbrev pub when_managed :
    (customer_id : ℕ) → ℤ → ConversationState → Option Appointment → Option Appointment
when_managed customer_id now state none = none
when_managed customer_id now state (some a) =
    if may_manage customer_id now state a then some a else none

unfoldable pub get_manageable_appointment :
    (customer_id : ℕ) → ℤ → ConversationState → List Appointment → ℤ → Option Appointment
unfolding as_utc
get_manageable_appointment customer_id now state appointments (pos n) =
    when_managed customer_id now state (get_appointment appointments n)
get_manageable_appointment customer_id now state appointments (negsuc n) = none

-- The menu after a change, with the counter and the event.
abbrev pub change_completed :
    Template → EffectKind → ConversationState → Appointment → Database → Result Reply × Database
change_completed template kind state a db = (
  ok (prepend (text template) (render_main_menu state)),
  record db { log = event kind a.id ∷ count kind ∷ db.log },
)

-- The errors that the scheduling and the appointment services raise as ValueError.
abbrev pub is_value_error : Error → Bool
is_value_error naive_datetime = true
is_value_error end_date_before_start = true
is_value_error date_range_too_long = true
is_value_error provider_not_found = true
is_value_error provider_inactive = true
is_value_error location_not_found = true
is_value_error location_inactive = true
is_value_error organization_inactive = true
is_value_error organization_mismatch = true
is_value_error provider_not_at_location = true
is_value_error service_not_found = true
is_value_error provider_lacks_service = true
is_value_error service_not_at_location = true
is_value_error customer_not_found = true
is_value_error bad_new_status = true
is_value_error overlapping_appointment = true
is_value_error slot_unavailable = true
is_value_error appointment_not_found = true
is_value_error not_cancellable = true
is_value_error not_reschedulable = true
is_value_error _ = false

-- `except ValueError`: any other exception is left to the caller.
abbrev pub refusal : Template → ConversationState → Error → Result Reply
refusal template state e = if is_value_error e then ok (text template ∷ [], state) else err e

module _ (customer_id : ℕ) (now : ℤ) where
  abbrev pub ask_to_cancel : Directory → ConversationState → Option Appointment → Reply
  ask_to_cancel d state none = stale_action_response d state
  ask_to_cancel d state (some a) = (
    buttons (Action.cancel_confirmed (pos a.id) ∷ Action.keep_booking (pos a.id) ∷ []) ∷ [],
    record state {
      current_flow = Flow.cancel;
      current_step = Step.confirm_cancel;
      selected_date = none;
      appointment_id = some a.id;
    },
  )

  unfoldable pub confirm_cancel_prompt :
      Directory → ConversationState → List Appointment → ℤ → Reply
  unfolding get_manageable_appointment stale_action_response
  confirm_cancel_prompt d state appointments appointment_id =
      ask_to_cancel d state
        (get_manageable_appointment customer_id now state appointments appointment_id)

  abbrev pub cancel_answer :
      ConversationState → Result Appointment × Database → Result Reply × Database
  cancel_answer state (err e, db) = (refusal Template.cannot_cancel state e, db)
  cancel_answer state (ok a, db) =
      change_completed Template.cancelled whatsapp_cancel_completed state a db

  abbrev pub cancel_managed :
      RefundProvider → ConversationState → Option Appointment → Database → Result Reply × Database
  cancel_managed provider state none db = (ok (stale_action_response db.directory state), db)
  cancel_managed provider state (some a) db =
      if is_cancelled a.status
      then (ok (text Template.already_cancelled ∷ [], state), db)
      else cancel_answer state (cancel_appointment provider a.id none now db)

  unfoldable pub confirm_cancel :
      RefundProvider → ConversationState → ℤ → Database → Result Reply × Database
  unfolding get_manageable_appointment stale_action_response cancel_appointment render_main_menu
  confirm_cancel provider state appointment_id db =
      cancel_managed provider state
        (get_manageable_appointment customer_id now state db.appointments appointment_id) db

  abbrev pub slot_on :
      Zones → Database → Appointment → (service_id : ℕ) → ℤ → Option Text → Result (Option Slot)
  slot_on zones db a service_id slot_timestamp none = ok none
  slot_on zones db a service_id slot_timestamp (some selected_date_text) =
      elim (fromisoformat selected_date_text) [
        | none ↦ ok none
        | some slot_date ↦ do
          slots ←
              slots_on zones now db.directory db.appointments a.provider_id service_id a.location_id
                slot_date
          ok (slot_of_timestamp slot_timestamp slots)
      ]

  unfoldable pub resolve_reschedule_slot :
      Zones → Database → ConversationState → Appointment → ℕ → ℤ → Result (Option Slot)
  unfolding fromisoformat list_visible_slots to_ordinal timestamp
  resolve_reschedule_slot zones db state a service_id slot_timestamp =
      slot_on zones db a service_id slot_timestamp state.selected_date

  abbrev pub reschedule_answer :
      ConversationState → Result Appointment × Database → Result Reply × Database
  reschedule_answer state (err e, db) = (refusal Template.slot_taken state e, db)
  reschedule_answer state (ok a, db) =
      change_completed Template.rescheduled whatsapp_reschedule_completed
        (record state { selected_slot_start = none }) a db

  abbrev pub move_to :
      Zones
      → ConversationState
      → Appointment
      → Result (Option Slot)
      → Database
      → Result Reply × Database
  move_to zones state a (err e) db = (err e, db)
  move_to zones state a (ok none) db = (ok (stale_action_response db.directory state), db)
  move_to zones state a (ok (some slot)) db =
      reschedule_answer state (reschedule_appointment zones a.id (aware slot.start_datetime) db)

  abbrev pub move_managed :
      Zones → ConversationState → ℤ → Option Appointment → Database → Result Reply × Database
  move_managed zones state slot_timestamp none db =
      (ok (stale_action_response db.directory state), db)
  move_managed zones state slot_timestamp (some a) db = elim a.service_id [
    | none ↦ (ok (stale_action_response db.directory state), db)
    | some service_id ↦
        move_to zones state a (resolve_reschedule_slot zones db state a service_id slot_timestamp)
          db
  ]

  unfoldable pub confirm_reschedule :
      Zones → ConversationState → ℤ → ℤ → Database → Result Reply × Database
  unfolding get_manageable_appointment stale_action_response resolve_reschedule_slot
      reschedule_appointment render_main_menu
  confirm_reschedule zones state appointment_id slot_timestamp db =
      move_managed zones state slot_timestamp
        (get_manageable_appointment customer_id now state db.appointments appointment_id) db
