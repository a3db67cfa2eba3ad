-- ===== src/WhatsApp/Turns.antt =====
-- The turns of a conversation that choose what to book, in any order
-- (backend/app/services/whatsapp/service.py).
use book_point.Base.{List, ℕ, ◌≡◌, subst}
use book_point.Base.Int.{ℤ}
use book_point.Models.{Appointment, Database, Directory}
use book_point.Results.{ok}
use book_point.Time.{Zones}
use book_point.WhatsApp.Choices.{
  begin_booking_flow, handle_location_selection, handle_provider_selection,
  handle_service_selection, render_booking_dates,
}
use book_point.WhatsApp.Choosing.{
  begin_booking_flow-Fits, handle_location_selection-Fits, handle_service_selection-Fits,
  render_booking_dates-Fits, handle_provider_selection-Fits,
}
use book_point.WhatsApp.Fitting.{
  Fits, handle_organization_selection-Fits, render_organization_selection-Fits, show_menu-Fits,
  show_menu_hint-Fits, stale-Fits, start_flow-Fits,
}
use book_point.WhatsApp.Menu.{
  handle_organization_selection, render_organization_selection, show_menu_hint,
  show_menu_or_org_selection, stale_action_response, start_flow,
}
use book_point.WhatsApp.Calendar.{Date}
use book_point.WhatsApp.Prompt.{
  handle_booking_date_selection-Fits, handle_booking_slot_selection-Fits,
}
use book_point.WhatsApp.Slots.{handle_booking_date_selection, handle_booking_slot_selection}
use book_point.WhatsApp.State.{ConversationState, Reply}

-- One message of the customer that starts over, shows the menu, or chooses something. A handler that
-- raises leaves the state, and the stale answer follows.
pub data Turn (d : Directory) (state : ConversationState) : ConversationState → Type 0 where
  start :
      (customer_id : ℕ) (db : Database)
      → db.directory ≡ d
      → Turn d state (start_flow customer_id state db).0.1
  menu : Turn d state (show_menu_or_org_selection d state).1
  hint : Turn d state (show_menu_hint d state).1
  stale : Turn d state (stale_action_response d state).1
  change_organization : Turn d state (render_organization_selection d state).1
  organization : (k : ℤ) → Turn d state (handle_organization_selection d state k).1
  begin : (reply : Reply) → begin_booking_flow d state ≡ ok reply → Turn d state reply.1
  location :
      (k : ℤ) (reply : Reply)
      → handle_location_selection d state k ≡ ok reply
      → Turn d state reply.1
  service :
      (k : ℤ) (reply : Reply) → handle_service_selection d state k ≡ ok reply → Turn d state reply.1
  provider :
      (zones : Zones) (now k : ℤ) (reply : Reply)
      → handle_provider_selection zones now d state k ≡ ok reply
      → Turn d state reply.1
  date :
      (zones : Zones) (now : ℤ) (appointments : List Appointment) (slot_date : Date) (reply : Reply)
      → handle_booking_date_selection zones now d appointments state slot_date ≡ ok reply
      → Turn d state reply.1
  slot :
      (zones : Zones) (now : ℤ) (appointments : List Appointment) (slot_timestamp : ℤ)
      (reply : Reply)
      → handle_booking_slot_selection zones now d appointments state slot_timestamp ≡ ok reply
      → Turn d state reply.1
  other_date : (zones : Zones) (now : ℤ) → Turn d state (render_booking_dates zones now d state).1

pub data Turns (d : Directory) (state : ConversationState) : ConversationState → Type 0 where
  silent : Turns d state state
  answered :
      {before after : ConversationState}
      → Turns d state before
      → Turn d before after
      → Turns d state after

Turn-Fits :
    {d : Directory} {state state' : ConversationState}
    → Turn d state state'
    → Fits d state
    → Fits d state'
Turn-Fits {d} {state} (start customer_id db same) f =
    subst (λ (x : Directory). Fits x (start_flow customer_id state db).0.1) same
      (start_flow-Fits customer_id state db)
Turn-Fits {d} {state} menu f = show_menu-Fits d state f
Turn-Fits {d} {state} hint f = show_menu_hint-Fits d state f
Turn-Fits {d} {state} stale f = stale-Fits d state f
Turn-Fits {d} {state} change_organization f = render_organization_selection-Fits d state f
Turn-Fits {d} {state} (organization k) f = handle_organization_selection-Fits d state k f
Turn-Fits {d} {state} (begin reply e) f = begin_booking_flow-Fits d state reply f e
Turn-Fits {d} {state} (location k reply e) f = handle_location_selection-Fits d state k reply f e
Turn-Fits {d} {state} (service k reply e) f = handle_service_selection-Fits d state k reply f e
Turn-Fits {d} {state} (provider zones now k reply e) f =
    handle_provider_selection-Fits zones now d state k reply f e
Turn-Fits {d} {state} (date zones now appointments slot_date reply e) f =
    handle_booking_date_selection-Fits zones now d appointments state slot_date reply f e
Turn-Fits {d} {state} (slot zones now appointments slot_timestamp reply e) f =
    handle_booking_slot_selection-Fits zones now d appointments state slot_timestamp reply f e
Turn-Fits {d} {state} (other_date zones now) f = render_booking_dates-Fits zones now d state f

-- If the choices of a conversation fit (`Fits`), they fit after any sequence of turns that start
-- it, show its menu, or choose an organisation, a location, a service, a provider, a date, a slot
-- or another date, by any ids in any order: a chosen location is one of the chosen organisation, a
-- chosen service is listed for the chosen location and asks no payment, and a chosen provider is
-- listed for the chosen service and location.
pub Turns-Fits :
    {d : Directory} {state state' : ConversationState}
    → Turns d state state'
    → Fits d state
    → Fits d state'
Turns-Fits silent f = f
Turns-Fits (answered past turn) f = Turn-Fits turn (Turns-Fits past f)
