-- ===== src/Scheduling/Timing/Resolve.antt =====
-- What a resolved timing says of the rows that it was read from.
use book_point.Base.{
  ℕ, zero, suc, ◌<◌, ◌≡◌, ◌≢◌, Bool, not, ◌&&◌, Option, none, some, ◌==◌, All, All_of_In,
  In-of_first, arith,
}
use book_point.Models.{Location, Provider, Directory}
use book_point.Repositories.{
  get_location, get_provider, get_service, get_provider_service, provider_at_location,
  service_at_location,
}
use book_point.Results.{ok, err, diverges, require-eq-ok, raise_if-eq-ok, or_raise-eq-ok}
use book_point.Scheduling.Timing.{
  ServiceTiming, or_duration, timing_of_service, resolve_service_timing,
}

-- The CHECK constraints on the durations of providers and services.
pub record PositiveDurations (d : Directory) : Type 0 where
  pub services : All (λ s. 0 < s.duration_minutes) d.services
  pub providers : All (λ p. 0 < p.appointment_duration_minutes) d.providers

or_duration_pos : (o : Option ℕ) (n : ℕ) → 0 < n → 0 < or_duration o n
or_duration_pos none n h = h
or_duration_pos (some zero) n h = h
or_duration_pos (some (suc k)) n h = omega arith

timing_of_service-positive :
    (d : Directory) (provider : Provider) (location : Location) (active : Bool)
    (service_id : Option ℕ) (timing : ServiceTiming)
    → PositiveDurations d
    → 0 < provider.appointment_duration_minutes
    → timing_of_service d provider location active service_id ≡ ok timing
    → 0 < timing.visible_duration_minutes
unfolding timing_of_service
timing_of_service-positive d provider location active none timing h q e = ground arith
timing_of_service-positive d provider location active (some k) timing h q e =
    let (service, e₁, h₁) = or_raise-eq-ok (get_service d k) _ _ e in
    let positive = All_of_In _ d.services h.services service (In-of_first _ d.services e₁).0 in
    let (_, h₂) = raise_if-eq-ok (active && not service.is_active) _ _ h₁ in
    let same_organization =
      (service.organization_id == provider.organization_id)
      && (service.organization_id == location.organization_id) in
    let (_, h₃) = require-eq-ok same_organization _ _ h₂ in
    let (row, _, h₄) = or_raise-eq-ok (get_provider_service d provider.id service.id) _ _ h₃ in
    let (_, h₅) = require-eq-ok (service_at_location d service.id location.id) _ _ h₄ in
    ground (arith, or_duration_pos row.duration_minutes_override service.duration_minutes positive)

-- A resolved timing has a positive duration.
pub resolve_service_timing-positive :
    (d : Directory) (p l : ℕ) (service_id : Option ℕ) (a b : Bool) (timing : ServiceTiming)
    → PositiveDurations d
    → resolve_service_timing d p l service_id a b ≡ ok timing
    → 0 < timing.visible_duration_minutes
unfolding resolve_service_timing
resolve_service_timing-positive d p l service_id a b timing h e =
    let (provider, e₁, h₁) = or_raise-eq-ok (get_provider d p) _ _ e in
    let positive = All_of_In _ d.providers h.providers provider (In-of_first _ d.providers e₁).0 in
    let (location, _, h₂) = or_raise-eq-ok (get_location d l) _ _ h₁ in
    let (_, h₃) = raise_if-eq-ok (b && not location.is_active) _ _ h₂ in
    let (_, h₄) = require-eq-ok (location.organization_id == provider.organization_id) _ _ h₃ in
    let (_, h₅) = require-eq-ok (provider_at_location d provider.id location.id) _ _ h₄ in
    timing_of_service-positive d provider location a service_id timing h positive h₅

pub resolve_service_timing-ne-diverges :
    (d : Directory) (p l : ℕ) (service_id : Option ℕ) (a b : Bool)
    → resolve_service_timing d p l service_id a b ≢ err diverges
unfolding resolve_service_timing
resolve_service_timing-ne-diverges d p l none a b e = ground arith
resolve_service_timing-ne-diverges d p l (some k) a b e = ground arith
