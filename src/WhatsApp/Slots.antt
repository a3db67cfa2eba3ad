-- ===== src/WhatsApp/Slots.antt =====
-- The choice of a slot in backend/app/services/whatsapp/service.py. An instant counts from the Unix epoch.
use book_point.Base.{ℕ, ◌+◌, ◌-◌, ◌/◌, zero, suc, Option, none, some, List, [], ◌∷◌, first, map}
use book_point.Base.Int.{ℤ, pos, negsuc, eq_ℤ}
use book_point.Discovery.Visible.{list_visible_slots}
use book_point.Models.{Appointment, Directory}
use book_point.Results.{Result, ok, ◌>>=◌}
use book_point.Scheduling.Slots.Window.{Slot}
use book_point.Time.{Zones}
use book_point.WhatsApp.Actions.{Action}
use book_point.WhatsApp.Calendar.{Date, from_ordinal, fromisoformat, isoformat, to_ordinal}
use book_point.WhatsApp.Choices.{begin_booking_flow, render_booking_dates}
use book_point.WhatsApp.Menu.{stale_action_response}
use book_point.WhatsApp.State.{
  ConversationState, Flow, Reply, Step, Template, buttons, prepend, rows, slice, text,
}

-- `int(value.timestamp())`, which cuts towards zero.
unfoldable pub timestamp : ℤ → ℤ
timestamp (pos n) = pos (n / 1_000_000)
timestamp (negsuc n) = elim ((n + 1) / 1_000_000) [ zero ↦ pos 0 | suc seconds ↦ negsuc seconds ]

-- `value.date()` of a value in UTC; 1 January 1970 has the ordinal 719163.
unfoldable pub utc_date : ℤ → Date
unfolding from_ordinal
utc_date (pos n) = from_ordinal (719_163 + n / 86_400_000_000)
utc_date (negsuc n) = from_ordinal (719_162 - n / 86_400_000_000)

-- The provider, the service and the location, if all are chosen.
abbrev pub chosen_ids : ConversationState → Option (ℕ × ℕ × ℕ)
chosen_ids state = elim state.selected_provider_id [
  | none ↦ none
  | some provider_id ↦ elim state.selected_service_id [
    | none ↦ none
    | some service_id ↦ elim state.selected_location_id [
      | none ↦ none
      | some location_id ↦ some (provider_id, service_id, location_id)
    ]
  ]
]

abbrev pub slot_of_timestamp : ℤ → List Slot → Option Slot
slot_of_timestamp slot_timestamp = first (λ s. eq_ℤ (timestamp s.start_datetime) slot_timestamp)

module _ (zones : Zones) (now : ℤ) (d : Directory) (appointments : List Appointment) where
  abbrev pub slots_on : (provider_id service_id location_id : ℕ) → Date → Result (List Slot)
  slots_on provider_id service_id location_id slot_date =
      list_visible_slots zones d appointments provider_id service_id location_id
        (to_ordinal slot_date) now

  abbrev pub offer_slots : ConversationState → Date → List Slot → Reply
  offer_slots state slot_date [] =
      prepend (text Template.no_slots) (render_booking_dates zones now d state)
  offer_slots state slot_date (slot ∷ slots) = (
    rows (map (λ s. Action.select_slot (timestamp s.start_datetime)) (slice 10 (slot ∷ slots)))
        ∷ [],
    record state {
      current_flow = Flow.booking;
      current_step = Step.select_slot;
      selected_slot_start = none;
      selected_date = some (isoformat slot_date);
      appointment_id = none;
    },
  )

  unfoldable pub handle_booking_date_selection : ConversationState → Date → Result Reply
  unfolding begin_booking_flow list_visible_slots to_ordinal
  handle_booking_date_selection state slot_date = elim (chosen_ids state) [
    | none ↦ begin_booking_flow d state
    | some (provider_id, service_id, location_id) ↦ do
      slots ← slots_on provider_id service_id location_id slot_date
      ok (offer_slots state slot_date slots)
  ]

  unfoldable pub resolve_slot_from_state : ConversationState → ℤ → Result (Option Slot)
  unfolding fromisoformat list_visible_slots to_ordinal timestamp
  resolve_slot_from_state state slot_timestamp = elim state.selected_date [
    | none ↦ ok none
    | some selected_date_text ↦ elim (fromisoformat selected_date_text) [
      | none ↦ ok none
      | some slot_date ↦ elim (chosen_ids state) [
        | none ↦ ok none
        | some (provider_id, service_id, location_id) ↦ do
          slots ← slots_on provider_id service_id location_id slot_date
          ok (slot_of_timestamp slot_timestamp slots)
      ]
    ]
  ]

  abbrev pub ask_confirmation : ConversationState → ℤ → Option Slot → Reply
  ask_confirmation state slot_timestamp none = stale_action_response d state
  ask_confirmation state slot_timestamp (some slot) = (
    buttons (Action.confirm_booking slot_timestamp ∷ Action.choose_other_date ∷ []) ∷ [],
    record state {
      current_flow = Flow.booking;
      current_step = Step.confirm_booking;
      selected_slot_start = some slot.start_datetime;
      selected_date = some (isoformat (utc_date slot.start_datetime));
      appointment_id = none;
    },
  )

  unfoldable pub handle_booking_slot_selection : ConversationState → ℤ → Result Reply
  unfolding resolve_slot_from_state stale_action_response utc_date isoformat
  handle_booking_slot_selection state slot_timestamp = do
    slot ← resolve_slot_from_state state slot_timestamp
    ok (ask_confirmation state slot_timestamp slot)
