-- ===== src/WhatsApp/State.antt =====
-- The state of a conversation (backend/app/models/conversation_state.py) and the messages that the
-- service answers with. Of a message its kind and the ids that it offers are kept: a text is one
-- constructor of `Template`, titles and descriptions are left out.
use book_point.Base.{ℕ, zero, suc, Option, List, [], ◌∷◌}
use book_point.Base.Int.{ℤ}
use book_point.Base.Text.{Text}
use book_point.WhatsApp.Actions.{Action}

pub data Flow : Type 0 where
  menu booking upcoming cancel reschedule : Flow

pub data Step : Type 0 where
  select_organization select_action select_location select_service select_provider : Step
  select_date select_slot confirm_booking select_booking select_booking_action : Step
  confirm_cancel select_reschedule_date select_reschedule_slot confirm_reschedule : Step

-- `context_json` has at most the keys "selected_date" and "appointment_id".
pub record ConversationState : Type 0 where
  pub current_flow : Flow
  pub current_step : Step
  pub selected_organization_id : Option ℕ
  pub selected_provider_id : Option ℕ
  pub selected_service_id : Option ℕ
  pub selected_location_id : Option ℕ
  pub selected_slot_start : Option ℤ
  pub selected_date : Option Text
  pub appointment_id : Option ℕ

pub data Template : Type 0 where
  welcome use_menu no_longer_valid organization_selected no_organizations first_shown : Template
  no_locations location_selected no_services no_providers no_slots : Template
  cannot_reschedule slot_taken cannot_cancel already_cancelled cancelled rescheduled : Template

pub data Message : Type 0 where
  text : Template → Message
  buttons rows : List Action → Message

-- What a handler answers, and the state that it leaves.
abbrev pub Reply : Type 0
Reply = List Message × ConversationState

abbrev pub prepend : Message → Reply → Reply
prepend message (messages, state) = (message ∷ messages, state)

-- `items[:n]`
abbrev pub slice {ℓ} : {A : Type ℓ} → ℕ → List A → List A
slice zero xs = []
slice (suc n) [] = []
slice (suc n) (x ∷ xs) = x ∷ slice n xs
