-- ===== src/WhatsApp/Choices.antt =====
-- The choices of a booking in backend/app/services/whatsapp/service.py: location, service, provider and
-- date. An exception is left to `_handle_action_id`, which answers that the option is stale.
use book_point.Base.{
  ℕ, ◌+◌, Bool, not, Option, none, some, List, [], ◌∷◌, ◌==◌, first, keep, map, if◌then◌else◌,
}
use book_point.Base.Int.{ℤ, pos, negsuc, eq_ℤ}
use book_point.Discovery.Visible.{
  get_visible_location, list_visible_locations, list_visible_providers_for_service_at_location,
  list_visible_services_for_location,
}
use book_point.Models.{Directory, Location, Organization, Provider, Service}
use book_point.Results.{Result, ok, err, ◌>>=◌, location_not_visible}
use book_point.Time.{Zones, daterange}
use book_point.WhatsApp.Actions.{Action}
use book_point.WhatsApp.Calendar.{from_ordinal}
use book_point.WhatsApp.Menu.{
  get_selected_visible_organization, render_main_menu, render_organization_selection,
  stale_action_response,
}
use book_point.WhatsApp.State.{
  ConversationState, Flow, Reply, Step, Template, prepend, rows, slice, text,
}

abbrev pub is_eligible : Service → Bool
is_eligible service = not service.requires_payment

abbrev pub choose_location : ℕ → ConversationState → ConversationState
choose_location location_id state = record state {
  current_flow = Flow.booking;
  current_step = Step.select_service;
  selected_location_id = some location_id;
  selected_service_id = none;
  selected_provider_id = none;
  selected_slot_start = none;
  selected_date = none;
  appointment_id = none;
}

abbrev pub offer_services : Directory → ConversationState → ℕ → List Service → Reply
offer_services d state location_id [] =
    prepend (text Template.no_services) (elim (get_selected_visible_organization d state) [
      | none ↦ render_organization_selection d state
      | some organization ↦ render_main_menu state
    ])
offer_services d state location_id (s ∷ services) = (
  text Template.location_selected
      ∷ rows (map (λ x. Action.select_service (pos x.id)) (slice 10 (s ∷ services)))
      ∷ [],
  choose_location location_id state,
)

unfoldable pub render_service_selection : Directory → ConversationState → ℕ → Result Reply
unfolding list_visible_services_for_location render_organization_selection render_main_menu
render_service_selection d state location_id = do
  services ← list_visible_services_for_location d location_id
  ok (offer_services d state location_id (keep is_eligible services))

abbrev pub unchosen : ConversationState → ConversationState
unchosen state = record state {
  current_flow = Flow.booking;
  current_step = Step.select_location;
  selected_provider_id = none;
  selected_service_id = none;
  selected_location_id = none;
  selected_slot_start = none;
  selected_date = none;
  appointment_id = none;
}

abbrev pub offer_locations : Directory → ConversationState → List Location → Result Reply
offer_locations d state [] = ok (prepend (text Template.no_locations) (render_main_menu state))
offer_locations d state (location ∷ []) = render_service_selection d state location.id
offer_locations d state (location ∷ other ∷ locations) = ok (
  rows (map (λ x. Action.select_location (pos x.id)) (slice 10 (location ∷ other ∷ locations)))
      ∷ [],
  unchosen state,
)

unfoldable pub begin_booking_flow : Directory → ConversationState → Result Reply
unfolding render_organization_selection render_main_menu render_service_selection
    list_visible_locations
begin_booking_flow d state = elim (get_selected_visible_organization d state) [
  | none ↦ ok (render_organization_selection d state)
  | some organization ↦ do
    locations ← list_visible_locations d organization.id
    offer_locations d state locations
]

abbrev pub visible_location_of : Directory → ℤ → Result Location
visible_location_of d (pos n) = get_visible_location d n
visible_location_of d (negsuc n) = err location_not_visible

abbrev pub in_organization : Directory → ConversationState → Organization → Location → Result Reply
in_organization d state organization location =
    if location.organization_id == organization.id
    then render_service_selection d state location.id
    else ok (stale_action_response d state)

unfoldable pub handle_location_selection : Directory → ConversationState → ℤ → Result Reply
unfolding render_organization_selection stale_action_response render_service_selection
    get_visible_location
handle_location_selection d state location_id = elim (get_selected_visible_organization d state) [
  | none ↦ ok (render_organization_selection d state)
  | some organization ↦ do
    location ← visible_location_of d location_id
    in_organization d state organization location
]

abbrev pub choose_service : ℕ → ConversationState → ConversationState
choose_service service_id state = record state {
  current_flow = Flow.booking;
  current_step = Step.select_provider;
  selected_service_id = some service_id;
  selected_provider_id = none;
  selected_slot_start = none;
  selected_date = none;
  appointment_id = none;
}

abbrev pub offer_providers : ConversationState → ℕ → List Provider → Reply
offer_providers state service_id [] = (text Template.no_providers ∷ [], state)
offer_providers state service_id (p ∷ providers) = (
  rows (map (λ x. Action.select_provider (pos x.id)) (slice 10 (p ∷ providers))) ∷ [],
  choose_service service_id state,
)

abbrev pub service_chosen : Directory → ConversationState → ℕ → Option Service → Result Reply
service_chosen d state location_id none = ok (stale_action_response d state)
service_chosen d state location_id (some selected) = do
  providers ← list_visible_providers_for_service_at_location d location_id selected.id
  ok (offer_providers state selected.id providers)

unfoldable pub handle_service_selection : Directory → ConversationState → ℤ → Result Reply
unfolding begin_booking_flow stale_action_response list_visible_services_for_location
    list_visible_providers_for_service_at_location
handle_service_selection d state service_id = elim state.selected_location_id [
  | none ↦ begin_booking_flow d state
  | some location_id ↦ do
    services ← list_visible_services_for_location d location_id
    service_chosen d state location_id
        (first (λ s. eq_ℤ (pos s.id) service_id) (keep is_eligible services))
]

-- `_build_next_dates`, for seven days
abbrev pub build_next_dates : Zones → (timezone : ℕ) → ℤ → List ℕ
build_next_dates zones timezone now =
    let today = zones.local_date timezone now in daterange today (today + 6)

unfoldable pub render_booking_dates : Zones → ℤ → Directory → ConversationState → Reply
unfolding render_organization_selection from_ordinal daterange
render_booking_dates zones now d state = elim (get_selected_visible_organization d state) [
  | none ↦ render_organization_selection d state
  | some organization ↦ (
    rows (
          map (λ date. Action.select_date (from_ordinal date))
            (build_next_dates zones organization.timezone now))
        ∷ [],
    record state {
      current_flow = Flow.booking;
      current_step = Step.select_date;
      selected_slot_start = none;
      selected_date = none;
      appointment_id = none;
    },
  )
]

abbrev pub choose_provider : ℕ → ConversationState → ConversationState
choose_provider provider_id state = record state {
  current_flow = Flow.booking;
  current_step = Step.select_date;
  selected_provider_id = some provider_id;
  selected_slot_start = none;
  selected_date = none;
  appointment_id = none;
}

abbrev pub provider_chosen : Zones → ℤ → Directory → ConversationState → Option Provider → Reply
provider_chosen zones now d state none = stale_action_response d state
provider_chosen zones now d state (some selected) =
    render_booking_dates zones now d (choose_provider selected.id state)

abbrev pub provider_at :
    Zones → ℤ → Directory → ConversationState → (location_id service_id : ℕ) → ℤ → Result Reply
provider_at zones now d state location_id service_id provider_id = do
  providers ← list_visible_providers_for_service_at_location d location_id service_id
  ok (provider_chosen zones now d state (first (λ p. eq_ℤ (pos p.id) provider_id) providers))

unfoldable pub handle_provider_selection :
    Zones → ℤ → Directory → ConversationState → ℤ → Result Reply
unfolding begin_booking_flow stale_action_response render_booking_dates
    list_visible_providers_for_service_at_location
handle_provider_selection zones now d state provider_id = elim state.selected_location_id [
  | none ↦ begin_booking_flow d state
  | some location_id ↦ elim state.selected_service_id [
    | none ↦ begin_booking_flow d state
    | some service_id ↦ provider_at zones now d state location_id service_id provider_id
  ]
]
