-- ===== src/WhatsApp/Menu.antt =====
-- The menu of a conversation in backend/app/services/whatsapp/service.py.
use book_point.Base.{ℕ, Option, none, some, List, [], ◌∷◌, map, length, ltb, if◌then◌else◌}
use book_point.Base.Int.{ℤ, pos, negsuc}
use book_point.Discovery.Visible.{get_visible_organization, list_visible_organizations}
use book_point.Models.{
  Database, Directory, Organization, whatsapp_conversation_started, count, event,
}
use book_point.WhatsApp.Actions.{Action}
use book_point.WhatsApp.State.{
  ConversationState, Flow, Message, Reply, Step, Template, buttons, prepend, rows, slice, text,
}

-- The update of the row that drops every choice.
abbrev pub restarted : ConversationState → ConversationState
restarted state = record state {
  current_flow = Flow.menu;
  current_step = Step.select_organization;
  selected_organization_id = none;
  selected_provider_id = none;
  selected_service_id = none;
  selected_location_id = none;
  selected_slot_start = none;
  selected_date = none;
  appointment_id = none;
}

abbrev pub get_selected_visible_organization : Directory → ConversationState → Option Organization
get_selected_visible_organization d state = elim state.selected_organization_id [
  | none ↦ none
  | some organization_id ↦ get_visible_organization d organization_id
]

abbrev organization_rows : List Organization → Message
organization_rows organizations =
    rows (map (λ o. Action.select_organization (pos o.id)) (slice 10 organizations))

abbrev pub offer_organizations : List Organization → ConversationState → Reply
offer_organizations [] state = (text Template.no_organizations ∷ [], state)
offer_organizations (o ∷ organizations) state = (
  (if ltb 10 (length (o ∷ organizations))
      then text Template.first_shown ∷ organization_rows (o ∷ organizations) ∷ []
      else organization_rows (o ∷ organizations) ∷ []),
  restarted state,
)

unfoldable pub render_organization_selection : Directory → ConversationState → Reply
unfolding list_visible_organizations
render_organization_selection d state = offer_organizations (list_visible_organizations d) state

unfoldable pub render_main_menu : ConversationState → Reply
render_main_menu state = (
  buttons (Action.begin_booking ∷ Action.show_upcoming ∷ Action.change_organization ∷ []) ∷ [],
  record state {
    current_flow = Flow.menu;
    current_step = Step.select_action;
    selected_date = none;
    appointment_id = none;
  },
)

unfoldable pub show_menu_or_org_selection : Directory → ConversationState → Reply
unfolding render_organization_selection render_main_menu
show_menu_or_org_selection d state = elim (get_selected_visible_organization d state) [
  | none ↦ render_organization_selection d state
  | some organization ↦ render_main_menu state
]

unfoldable pub show_menu_hint : Directory → ConversationState → Reply
unfolding show_menu_or_org_selection
show_menu_hint d state = prepend (text Template.use_menu) (show_menu_or_org_selection d state)

unfoldable pub stale_action_response : Directory → ConversationState → Reply
unfolding show_menu_or_org_selection
stale_action_response d state =
    prepend (text Template.no_longer_valid) (show_menu_or_org_selection d state)

-- The welcome, with the counter and the event.
unfoldable pub start_flow : (customer_id : ℕ) → ConversationState → Database → Reply × Database
unfolding render_organization_selection
start_flow customer_id state db = (
  prepend (text Template.welcome) (render_organization_selection db.directory (restarted state)),
  record db {
    log =
        event whatsapp_conversation_started customer_id
        ∷ count whatsapp_conversation_started
        ∷ db.log;
  },
)

abbrev pub visible_organization_of : Directory → ℤ → Option Organization
visible_organization_of d (pos n) = get_visible_organization d n
visible_organization_of d (negsuc n) = none

abbrev pub choose_organization : Organization → ConversationState → ConversationState
choose_organization organization state = record (restarted state) {
  current_step = Step.select_action;
  selected_organization_id = some organization.id;
}

unfoldable pub handle_organization_selection : Directory → ConversationState → ℤ → Reply
unfolding stale_action_response render_main_menu
handle_organization_selection d state organization_id =
    elim (visible_organization_of d organization_id) [
      | none ↦ stale_action_response d state
      | some organization ↦
          prepend (text Template.organization_selected)
            (render_main_menu (choose_organization organization state))
    ]
