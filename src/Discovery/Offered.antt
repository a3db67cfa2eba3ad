-- ===== src/Discovery/Offered.antt =====
-- The lists of backend/app/services/discovery_service.py agree: a service that is listed for a location
-- has a provider there.
use book_point.Base.{
  ℕ, ◌≡◌, refl, sym, subst, true, some, List, ◌==◌, ==_iff, any, keep, In, In-keep, In-of_In-keep,
  In-of_any, arith,
}
use book_point.Base.Lists.{In-of_In-sort_by, In-sort_by, sort_by}
use book_point.Discovery.Visible.{
  get_visible_location, get_visible_organization, get_visible_service, is_offered_at,
  list_visible_providers_for_service_at_location, list_visible_services_for_location, performs_at,
}
use book_point.Models.{Directory, Location, Organization, Provider, Service}
use book_point.Repositories.{get_location, get_service, service_at_location}
use book_point.Results.{eq_of_ok, ok, >>=-eq-ok, or_raise-eq-ok, require-eq-ok}

-- The organisation of a visible location is visible.
visible_location-organization :
    (d : Directory) (location_id : ℕ) (location : Location)
    → get_visible_location d location_id ≡ ok location
    → (o : Organization) × (get_visible_organization d location.organization_id ≡ some o)
unfolding get_visible_location
visible_location-organization d location_id location e =
    let (l, _, h₁) = or_raise-eq-ok (get_location d location_id) _ _ e in
    let (_, h₂) = require-eq-ok l.is_active _ _ h₁ in
    let (o, found, h₃) = or_raise-eq-ok (get_visible_organization d l.organization_id) _ _ h₂ in
    (
      o,
      subst (λ (x : Location). get_visible_organization d x.organization_id ≡ some o) (eq_of_ok h₃)
          found,
    )

get_visible_service-ok :
    (d : Directory) (service_id : ℕ) (s : Service) (o : Organization)
    → get_service d service_id ≡ some s
    → s.is_active ≡ true
    → get_visible_organization d s.organization_id ≡ some o
    → get_visible_service d service_id ≡ ok s
unfolding get_visible_service
get_visible_service-ok d service_id s o found active visible = simp (found, active, visible) refl

list_providers-eq :
    (d : Directory) (location_id service_id : ℕ) (location : Location) (s : Service)
    → get_visible_location d location_id ≡ ok location
    → get_visible_service d service_id ≡ ok s
    → (s.organization_id == location.organization_id) ≡ true
    → service_at_location d s.id location.id ≡ true
    → list_visible_providers_for_service_at_location d location_id service_id
      ≡ ok (sort_by (λ p. p.id) (keep (performs_at d location s.id) d.providers))
unfolding list_visible_providers_for_service_at_location
list_providers-eq d location_id service_id location s l v o t = simp (l, v, o, t) refl

-- If a service is in the list of a visible location, and is the row of its id, then the list of
-- providers for that service and location is given and has an active provider in it.
pub list_visible_services-have_providers :
    (d : Directory) (location_id : ℕ) (services : List Service) (s : Service)
    → list_visible_services_for_location d location_id ≡ ok services
    → In s services
    → get_service d s.id ≡ some s
    → (providers : List Provider) × (p : Provider) × (list_visible_providers_for_service_at_location
          d location_id s.id
        ≡ ok providers)
      × In p providers
      × (p.is_active ≡ true)
unfolding list_visible_services_for_location performs_at
list_visible_services-have_providers d location_id services s e i found =
    let (location, l, h) = >>=-eq-ok (get_visible_location d location_id) _ e in
    let offered = keep (is_offered_at d location) d.services in
    let j =
      In-of_In-sort_by (λ x. x.id) s offered
        (subst (λ (x : List Service). In s x) (sym (eq_of_ok h)) i) in
    let (_, tests) = In-of_In-keep (is_offered_at d location) s d.services j in
    let there : service_at_location d s.id location.id ≡ true = ground arith in
    let active : s.is_active ≡ true = ground arith in
    let same : (s.organization_id == location.organization_id) ≡ true = ground arith in
    let some_one : any (performs_at d location s.id) d.providers ≡ true = ground arith in
    let (p, k, performs) = In-of_any (performs_at d location s.id) d.providers some_one in
    let (o, visible) = visible_location-organization d location_id location l in
    let visible' =
      subst (λ (x : ℕ). get_visible_organization d x ≡ some o)
        (sym ((==_iff s.organization_id location.organization_id).0 same)) visible in
    let serves = get_visible_service-ok d s.id s o found active visible' in
    (
      sort_by (λ x. x.id) (keep (performs_at d location s.id) d.providers),
      p,
      list_providers-eq d location_id s.id location s l serves same there,
      In-sort_by (λ x. x.id) p _ (In-keep (performs_at d location s.id) p d.providers k performs),
      ground arith,
    )
