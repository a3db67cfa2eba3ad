-- ===== src/WhatsApp/Choosing.antt =====
-- Each handler of a choice in backend/app/services/whatsapp/service.py keeps the choices fitting.
use book_point.Base.{
  ℕ, ◌≡◌, refl, sym, ◌∙◌, ap, subst, true, ◌&&◌, some, inl, inr, List, [], ◌∷◌, ◌==◌, ==_iff, first,
  keep, In, In-of_first, In-of_In-keep, Bool-cases, Option-cases, arith,
}
use book_point.Base.Int.{ℤ, pos, negsuc, eq_ℤ}
use book_point.Base.Lists.{In-of_In-sort_by}
use book_point.Discovery.Visible.{
  get_visible_location, get_visible_organization, list_active_locations, list_visible_locations,
  list_visible_providers_for_service_at_location, list_visible_services_for_location,
}
use book_point.Models.{Directory, Location, Organization, Provider, Service}
use book_point.Repositories.{get_location}
use book_point.Results.{ok, >>=-eq-ok, eq_of_ok, or_raise-eq-ok, require-eq-ok}
use book_point.Time.{Zones}
use book_point.WhatsApp.Choices.{
  begin_booking_flow, choose_provider, handle_location_selection, handle_provider_selection,
  handle_service_selection, in_organization, is_eligible, offer_locations, offer_providers,
  provider_at, render_booking_dates, service_chosen, visible_location_of,
}
use book_point.WhatsApp.Fitting.{
  Fits, eq_of_some, none≢some, render_main_menu-Fits, render_organization_selection-Fits,
  render_service_selection-Fits, selected-id, stale-Fits,
}
use book_point.WhatsApp.Menu.{get_selected_visible_organization}
use book_point.WhatsApp.State.{ConversationState, Reply}

-- A listed location is an active one of the organisation.
In-of_listed :
    (d : Directory) (organization_id : ℕ) (locations : List Location)
    → list_visible_locations d organization_id ≡ ok locations
    → (l : Location) → In l locations
    → In l d.locations × (l.organization_id ≡ organization_id)
unfolding list_visible_locations list_active_locations
In-of_listed d organization_id locations e l i =
    let (o, _, h) = or_raise-eq-ok (get_visible_organization d organization_id) _ _ e in
    let listed : In l (list_active_locations d organization_id) =
      subst (λ (xs : List Location). In l xs) (sym (eq_of_ok h)) i in
    let p = λ (x : Location). (x.organization_id == organization_id) && x.is_active in
    let (row, holds) = In-of_In-keep p l d.locations (In-of_In-sort_by (λ x. x.id) l _ listed) in
    (row, ground arith)

pub begin_booking_flow-Fits :
    (d : Directory) (state : ConversationState) (reply : Reply)
    → Fits d state
    → begin_booking_flow d state ≡ ok reply
    → Fits d reply.1
unfolding begin_booking_flow
begin_booking_flow-Fits d state reply f e =
    elim (Option-cases (get_selected_visible_organization d state)) [
      | inl q ↦
          subst (λ (r : Reply). Fits d r.1) (eq_of_ok (rw (begin_booking_flow, q) at e))
            (render_organization_selection-Fits d state f)
      | inr (o, q) ↦
          let (locations, listed, h) =
            >>=-eq-ok (list_visible_locations d o.id) (offer_locations d state)
              (rw (begin_booking_flow, q) at e) in
          offered o locations (selected-id d state o q) (In-of_listed d o.id locations listed) h
    ]
  where
    offered :
        (o : Organization) (locations : List Location)
        → state.selected_organization_id ≡ some o.id
        → ((l : Location) → In l locations → In l d.locations × (l.organization_id ≡ o.id))
        → offer_locations d state locations ≡ ok reply
        → Fits d reply.1
    offered o [] own rows h =
        subst (λ (r : Reply). Fits d r.1) (eq_of_ok h) (render_main_menu-Fits d state f)
    offered o (l ∷ []) own rows h =
        let (row, same) = rows l (inl refl) in
        render_service_selection-Fits d state l reply f row (own ∙ ap some (sym same)) h
    offered o (l ∷ other ∷ locations) own rows h =
        subst (λ (r : Reply). Fits d r.1) (eq_of_ok h)
          (record {
            located = λ k q. absurd (none≢some q);
            served = λ k q. absurd (none≢some q);
            provided = λ k q. absurd (none≢some q);
          })

In-of_visible_location :
    (d : Directory) (location_id : ℤ) (l : Location)
    → visible_location_of d location_id ≡ ok l
    → In l d.locations
unfolding get_visible_location
In-of_visible_location d (pos n) l e =
    let (row, found, h₁) = or_raise-eq-ok (get_location d n) _ _ e in
    let (_, h₂) = require-eq-ok row.is_active _ _ h₁ in
    let (_, _, h₃) = or_raise-eq-ok (get_visible_organization d row.organization_id) _ _ h₂ in
    subst (λ (x : Location). In x d.locations) (eq_of_ok h₃)
      (In-of_first (λ x. x.id == n) d.locations found).0
In-of_visible_location d (negsuc n) l e = cc

pub handle_location_selection-Fits :
    (d : Directory) (state : ConversationState) (location_id : ℤ) (reply : Reply)
    → Fits d state
    → handle_location_selection d state location_id ≡ ok reply
    → Fits d reply.1
unfolding handle_location_selection
handle_location_selection-Fits d state location_id reply f e =
    elim (Option-cases (get_selected_visible_organization d state)) [
      | inl q ↦
          subst (λ (r : Reply). Fits d r.1) (eq_of_ok (rw (handle_location_selection, q) at e))
            (render_organization_selection-Fits d state f)
      | inr (o, q) ↦
          let (l, visible, h) =
            >>=-eq-ok (visible_location_of d location_id) (in_organization d state o)
              (rw (handle_location_selection, q) at e) in
          elim (Bool-cases (l.organization_id == o.id)) [
            | inl y ↦
                let same : o.id ≡ l.organization_id = sym ((==_iff l.organization_id o.id).0 y) in
                render_service_selection-Fits d state l reply f
                  (In-of_visible_location d location_id l visible)
                  (selected-id d state o q ∙ ap some same) (rw y at h)
            | inr n ↦
                subst (λ (r : Reply). Fits d r.1) (eq_of_ok (rw n at h)) (stale-Fits d state f)
          ]
    ]

eq_ℤ_pos : (n : ℕ) (z : ℤ) → eq_ℤ (pos n) z ≡ true → (z ≡ pos n)
eq_ℤ_pos n (pos m) e = ap pos (ground arith)
eq_ℤ_pos n (negsuc m) e = absurd (ground arith)

pub service_chosen-Fits :
    (d : Directory) (state : ConversationState) (location_id : ℕ) (services : List Service)
    (service_id : ℤ) (reply : Reply)
    → Fits d state
    → state.selected_location_id ≡ some location_id
    → list_visible_services_for_location d location_id ≡ ok services
    → service_chosen d state location_id
        (first (λ s. eq_ℤ (pos s.id) service_id) (keep is_eligible services))
      ≡ ok reply
    → Fits d reply.1
service_chosen-Fits d state location_id services service_id reply f at listed e =
    elim (Option-cases (first (λ s. eq_ℤ (pos s.id) service_id) (keep is_eligible services))) [
      | inl q ↦ subst (λ (r : Reply). Fits d r.1) (eq_of_ok (rw q at e)) (stale-Fits d state f)
      | inr (s, q) ↦
          let (eligible, _) =
            In-of_first (λ x. eq_ℤ (pos x.id) service_id) (keep is_eligible services) q in
          let (providers, _, h) =
            >>=-eq-ok (list_visible_providers_for_service_at_location d location_id s.id) _
              (rw q at e) in
          subst (λ (r : Reply). Fits d r.1) (eq_of_ok h)
            (offered s (In-of_In-keep is_eligible s services eligible) providers)
    ]
  where
    offered :
        (s : Service)
        → In s services × (is_eligible s ≡ true)
        → (providers : List Provider) → Fits d (offer_providers state s.id providers).1
    offered s (row, free) [] = f
    offered s (row, free) (p ∷ providers) = record {
      located = f.located;
      served =
          λ k q. (location_id, services, s, at, listed, row, eq_of_some q, ground (arith, free));
      provided = λ k q. absurd (none≢some q);
    }

pub handle_service_selection-Fits :
    (d : Directory) (state : ConversationState) (service_id : ℤ) (reply : Reply)
    → Fits d state
    → handle_service_selection d state service_id ≡ ok reply
    → Fits d reply.1
unfolding handle_service_selection
handle_service_selection-Fits d state service_id reply f e =
    elim (Option-cases state.selected_location_id) [
      | inl q ↦ begin_booking_flow-Fits d state reply f (rw (handle_service_selection, q) at e)
      | inr (k, q) ↦
          let (services, listed, h) =
            >>=-eq-ok (list_visible_services_for_location d k) _
              (rw (handle_service_selection, q) at e) in
          service_chosen-Fits d state k services service_id reply f q listed h
    ]

pub render_booking_dates-Fits :
    (zones : Zones) (now : ℤ) (d : Directory) (state : ConversationState)
    → Fits d state
    → Fits d (render_booking_dates zones now d state).1
unfolding render_booking_dates
render_booking_dates-Fits zones now d state f =
    elim (Option-cases (get_selected_visible_organization d state)) [
      | inl q ↦ rw (render_booking_dates, q) (render_organization_selection-Fits d state f)
      | inr (o, q) ↦
          rw (render_booking_dates, q)
            (record { located = f.located; served = f.served; provided = f.provided })
    ]

pub provider_at-Fits :
    (zones : Zones) (now : ℤ) (d : Directory) (state : ConversationState)
    (location_id service_id : ℕ) (provider_id : ℤ) (reply : Reply)
    → Fits d state
    → state.selected_location_id ≡ some location_id
    → state.selected_service_id ≡ some service_id
    → provider_at zones now d state location_id service_id provider_id ≡ ok reply
    → Fits d reply.1
provider_at-Fits zones now d state location_id service_id provider_id reply f at by e =
    let (providers, listed, h) =
      >>=-eq-ok (list_visible_providers_for_service_at_location d location_id service_id) _ e in
    subst (λ (r : Reply). Fits d r.1) (eq_of_ok h)
      (elim (Option-cases (first (λ p. eq_ℤ (pos p.id) provider_id) providers)) [
        | inl q ↦ rw q (stale-Fits d state f)
        | inr (p, q) ↦
            let (row, _) = In-of_first (λ x. eq_ℤ (pos x.id) provider_id) providers q in
            rw q (
              render_booking_dates-Fits zones now d (choose_provider p.id state) (record {
                located = f.located;
                served = f.served;
                provided = λ k r.
                    (location_id, service_id, providers, p, at, by, listed, row, eq_of_some r);
              }))
      ])

pub handle_provider_selection-Fits :
    (zones : Zones) (now : ℤ) (d : Directory) (state : ConversationState) (provider_id : ℤ)
    (reply : Reply)
    → Fits d state
    → handle_provider_selection zones now d state provider_id ≡ ok reply
    → Fits d reply.1
unfolding handle_provider_selection
handle_provider_selection-Fits zones now d state provider_id reply f e =
    elim (Option-cases state.selected_location_id) [
      | inl q ↦ begin_booking_flow-Fits d state reply f (rw (handle_provider_selection, q) at e)
      | inr (l, at) ↦ elim (Option-cases state.selected_service_id) [
        | inl q ↦
            begin_booking_flow-Fits d state reply f (rw (handle_provider_selection, at, q) at e)
        | inr (s, by) ↦
            provider_at-Fits zones now d state l s provider_id reply f at by
              (rw (handle_provider_selection, at, by) at e)
      ]
    ]
