-- ===== src/WhatsApp/Fitting.antt =====
-- The choices of a conversation fit together (backend/app/services/whatsapp/service.py).
use book_point.Base.{
  ℕ, ◌≡◌, sym, ◌∙◌, ap, subst, false, ◌&&◌, none, some, inl, inr, List, [], ◌∷◌, ◌==◌, first, keep,
  In, In-of_first, Option-cases, arith,
}
use book_point.Base.Int.{ℤ}
use book_point.Discovery.Visible.{
  get_visible_organization, list_visible_organizations,
  list_visible_providers_for_service_at_location, list_visible_services_for_location,
}
use book_point.Models.{Database, Directory, Location, Organization, Provider, Service}
use book_point.Results.{ok, >>=-eq-ok, eq_of_ok}
use book_point.WhatsApp.Choices.{is_eligible, offer_services, render_service_selection}
use book_point.WhatsApp.Menu.{
  choose_organization, get_selected_visible_organization, handle_organization_selection,
  offer_organizations, render_main_menu, render_organization_selection, restarted, show_menu_hint,
  show_menu_or_org_selection, stale_action_response, start_flow, visible_organization_of,
}
use book_point.WhatsApp.State.{ConversationState, Reply}

pub none≢some : {A : Type 0} {a : A} → ¬ (none ≡ some a)
none≢some e = cc

pub eq_of_some : {A : Type 0} {a b : A} → some a ≡ some b → a ≡ b
eq_of_some e = cc

-- A chosen location is one of the chosen organisation; a chosen service is listed for the chosen
-- location and asks no payment; a chosen provider is listed for the chosen service and location.
pub record Fits (d : Directory) (state : ConversationState) : Type 0 where
  pub located :
      (k : ℕ)
      → state.selected_location_id ≡ some k
      → (l : Location) × In l d.locations
        × (l.id ≡ k)
        × (state.selected_organization_id ≡ some l.organization_id)
  pub served :
      (k : ℕ)
      → state.selected_service_id ≡ some k
      → (location_id : ℕ) × (services : List Service) × (s : Service) × (state.selected_location_id
          ≡ some location_id)
        × (list_visible_services_for_location d location_id ≡ ok services)
        × In s services
        × (s.id ≡ k)
        × (s.requires_payment ≡ false)
  pub provided :
      (k : ℕ)
      → state.selected_provider_id ≡ some k
      → (location_id : ℕ) × (service_id : ℕ) × (providers : List Provider) × (p : Provider)
        × (state.selected_location_id ≡ some location_id)
        × (state.selected_service_id ≡ some service_id)
        × (list_visible_providers_for_service_at_location d location_id service_id ≡ ok providers)
        × In p providers
        × (p.id ≡ k)

pub restarted-Fits : (d : Directory) (state : ConversationState) → Fits d (restarted state)
restarted-Fits d state = record {
  located = λ k e. absurd (none≢some e);
  served = λ k e. absurd (none≢some e);
  provided = λ k e. absurd (none≢some e);
}

pub render_organization_selection-Fits :
    (d : Directory) (state : ConversationState)
    → Fits d state
    → Fits d (render_organization_selection d state).1
unfolding render_organization_selection
render_organization_selection-Fits d state f = offered (list_visible_organizations d)
  where
    offered :
        (organizations : List Organization) → Fits d (offer_organizations organizations state).1
    offered [] = f
    offered (o ∷ organizations) = restarted-Fits d state

pub render_main_menu-Fits :
    (d : Directory) (state : ConversationState) → Fits d state → Fits d (render_main_menu state).1
unfolding render_main_menu
render_main_menu-Fits d state f = record {
  located = f.located;
  served = f.served;
  provided = f.provided;
}

pub show_menu-Fits :
    (d : Directory) (state : ConversationState)
    → Fits d state
    → Fits d (show_menu_or_org_selection d state).1
unfolding show_menu_or_org_selection
show_menu-Fits d state f = elim (Option-cases (get_selected_visible_organization d state)) [
  | inl e ↦ rw (show_menu_or_org_selection, e) (render_organization_selection-Fits d state f)
  | inr (o, e) ↦ rw (show_menu_or_org_selection, e) (render_main_menu-Fits d state f)
]

pub show_menu_hint-Fits :
    (d : Directory) (state : ConversationState) → Fits d state → Fits d (show_menu_hint d state).1
unfolding show_menu_hint
show_menu_hint-Fits = show_menu-Fits

pub stale-Fits :
    (d : Directory) (state : ConversationState)
    → Fits d state
    → Fits d (stale_action_response d state).1
unfolding stale_action_response
stale-Fits = show_menu-Fits

pub handle_organization_selection-Fits :
    (d : Directory) (state : ConversationState) (organization_id : ℤ)
    → Fits d state
    → Fits d (handle_organization_selection d state organization_id).1
unfolding handle_organization_selection
handle_organization_selection-Fits d state organization_id f =
    elim (Option-cases (visible_organization_of d organization_id)) [
      | inl e ↦ rw (handle_organization_selection, e) (stale-Fits d state f)
      | inr (o, e) ↦
          rw (handle_organization_selection, e)
            (render_main_menu-Fits d (choose_organization o state) (record {
              located = λ k q. absurd (none≢some q);
              served = λ k q. absurd (none≢some q);
              provided = λ k q. absurd (none≢some q);
            }))
    ]

pub start_flow-Fits :
    (customer_id : ℕ) (state : ConversationState) (db : Database)
    → Fits db.directory (start_flow customer_id state db).0.1
unfolding start_flow
start_flow-Fits customer_id state db =
    render_organization_selection-Fits db.directory (restarted state)
      (restarted-Fits db.directory state)

-- The organisation that is found is the one that was chosen.
pub selected-id :
    (d : Directory) (state : ConversationState) (o : Organization)
    → get_selected_visible_organization d state ≡ some o
    → state.selected_organization_id ≡ some o.id
unfolding get_visible_organization
selected-id d state o e = elim (Option-cases state.selected_organization_id) [
  | inl q ↦ absurd (none≢some (rw q at e))
  | inr (k, q) ↦
      let found : first (λ x. (x.id == k) && x.is_active) d.organizations ≡ some o = rw q at e in
      let (_, matches) = In-of_first (λ x. (x.id == k) && x.is_active) d.organizations found in
      let same : o.id ≡ k = ground arith in q ∙ ap some (sym same)
]

pub render_service_selection-Fits :
    (d : Directory) (state : ConversationState) (l : Location) (reply : Reply)
    → Fits d state
    → In l d.locations
    → state.selected_organization_id ≡ some l.organization_id
    → render_service_selection d state l.id ≡ ok reply
    → Fits d reply.1
unfolding render_service_selection
render_service_selection-Fits d state l reply f i own e =
    let (services, _, h) = >>=-eq-ok (list_visible_services_for_location d l.id) _ e in
    subst (λ (r : Reply). Fits d r.1) (eq_of_ok h) (offered (keep is_eligible services))
  where
    offered : (services : List Service) → Fits d (offer_services d state l.id services).1
    offered [] = elim (Option-cases (get_selected_visible_organization d state)) [
      | inl q ↦ rw q (render_organization_selection-Fits d state f)
      | inr (o, q) ↦ rw q (render_main_menu-Fits d state f)
    ]
    offered (s ∷ services) = record {
      located = λ k q. (l, i, eq_of_some q, own);
      served = λ k q. absurd (none≢some q);
      provided = λ k q. absurd (none≢some q);
    }
