-- ===== src/Appointments/Checks.antt =====
-- What an interval that passed `check_interval` is known to satisfy.
use book_point.Base.{
  ℕ, ◌≡◌, sym, ◌∙◌, subst, Bool, true, false, not, ◌&&◌, Option, none, some, List, ◌==◌, ==_iff, In,
  any_of_In, In-of_first, arith,
}
use book_point.Appointments.Booking.{check_interval, assert_slot_is_available}
use book_point.Base.Int.{ℤ, ◌+ℤ◌, ◌-ℤ◌}
use book_point.Models.{Location, Provider, Directory, Appointment}
use book_point.Repositories.{
  get_location, get_provider, get_service, get_provider_service, provider_at_location, is_assigned,
  service_at_location, blocks,
}
use book_point.Results.{ok, >>=-eq-ok, require-eq-ok, raise_if-eq-ok, or_raise-eq-ok}
use book_point.Scheduling.Blocking.{compute_blocked_interval, has_blocked_overlap}
use book_point.Scheduling.Blocking.Complete.{
  StaysAssigned, buffers_of, conflict_scan, has_blocked_overlap-eq-conflict_scan,
}
use book_point.Scheduling.Timing.{ServiceTiming, timing_of_service, resolve_service_timing}
use book_point.Time.{minutes, Zones}

-- The timing's buffers are those that the query reads for the service, which is assigned.
abbrev pub ReadFrom : Directory → ℕ → Option ℕ → ServiceTiming → Type 0
ReadFrom d p service_id timing =
    (timing.buffer_before_minutes ≡ (buffers_of d service_id).0)
    × (timing.buffer_after_minutes ≡ (buffers_of d service_id).1)
    × StaysAssigned d p service_id

timing_of_service-ReadFrom :
    (d : Directory) (provider : Provider) (location : Location) (active : Bool)
    (service_id : Option ℕ) (timing : ServiceTiming)
    → timing_of_service d provider location active service_id ≡ ok timing
    → ReadFrom d provider.id service_id timing
unfolding timing_of_service
timing_of_service-ReadFrom d provider location active none timing e =
    (ground arith, ground arith, tt)
timing_of_service-ReadFrom d provider location active (some k) timing e =
    let (service, e₁, h₁) = or_raise-eq-ok (get_service d k) _ _ e in
    let same : service.id ≡ k = (==_iff service.id k).0 (In-of_first _ d.services e₁).1 in
    let (_, h₂) = raise_if-eq-ok (active && not service.is_active) _ _ h₁ in
    let same_organization =
      (service.organization_id == provider.organization_id)
      && (service.organization_id == location.organization_id) in
    let (_, h₃) = require-eq-ok same_organization _ _ h₂ in
    let (row, e₄, h₄) = or_raise-eq-ok (get_provider_service d provider.id service.id) _ _ h₃ in
    let (i, q) =
      In-of_first (λ r. (r.provider_id == provider.id) && (r.service_id == service.id))
        d.provider_services e₄ in
    let (_, h₅) = require-eq-ok (service_at_location d service.id location.id) _ _ h₄ in
    rw e₁ (
      ground arith,
      ground arith,
      subst (λ (t : ℕ). is_assigned d provider.id t ≡ true) same
          (any_of_In _ row d.provider_services i q),
    )

pub resolve_service_timing-ReadFrom :
    (d : Directory) (p l : ℕ) (service_id : Option ℕ) (a b : Bool) (timing : ServiceTiming)
    → resolve_service_timing d p l service_id a b ≡ ok timing
    → ReadFrom d p service_id timing
unfolding resolve_service_timing
resolve_service_timing-ReadFrom d p l service_id a b timing e =
    let (provider, e₁, h₁) = or_raise-eq-ok (get_provider d p) _ _ e in
    let same : provider.id ≡ p = (==_iff provider.id p).0 (In-of_first _ d.providers e₁).1 in
    let (location, _, h₂) = or_raise-eq-ok (get_location d l) _ _ h₁ in
    let (_, h₃) = raise_if-eq-ok (b && not location.is_active) _ _ h₂ in
    let (_, h₄) = require-eq-ok (location.organization_id == provider.organization_id) _ _ h₃ in
    let (_, h₅) = require-eq-ok (provider_at_location d provider.id location.id) _ _ h₄ in
    subst (λ (t : ℕ). ReadFrom d t service_id timing) same
      (timing_of_service-ReadFrom d provider location a service_id timing h₅)

-- No blocking appointment meets the interval with the buffers of its service.
pub check_interval-clear :
    (zones : Zones) (d : Directory) (appointments : List Appointment) (p l : ℕ)
    (service_id exclude : Option ℕ) (start end : ℤ)
    → ((a : Appointment)
        → In a appointments
        → blocks p exclude a ≡ true
        → StaysAssigned d p a.service_id)
    → check_interval zones d appointments p l service_id exclude start ≡ ok end
    → StaysAssigned d p service_id
      × (conflict_scan d appointments p
            (start -ℤ minutes (buffers_of d service_id).0)
            (end +ℤ minutes (buffers_of d service_id).1)
            exclude
          ≡ false)
unfolding check_interval compute_blocked_interval
check_interval-clear zones d appointments p l service_id exclude start end assigned e =
    let (timing, e₁, h₁) = >>=-eq-ok (resolve_service_timing d p l service_id true true) _ e in
    let (before, after, stays) =
      resolve_service_timing-ReadFrom d p l service_id true true timing e₁ in
    let stop = start +ℤ minutes timing.visible_duration_minutes in
    let (clear, h₂) =
      raise_if-eq-ok
        (has_blocked_overlap d appointments p (start -ℤ minutes timing.buffer_before_minutes)
          (stop +ℤ minutes timing.buffer_after_minutes) exclude)
        _ _ h₁ in
    let (_, _, h₃) =
      >>=-eq-ok (assert_slot_is_available zones d appointments p l start stop service_id) _ h₂ in
    let same : stop ≡ end = cc in
    (
      stays,
      subst (λ (t : ℤ × ℤ). conflict_scan d appointments p t.0 t.1 exclude ≡ false)
          (interval before after same)
          (sym (has_blocked_overlap-eq-conflict_scan d appointments p _ _ exclude assigned)
            ∙ clear),
    )
  where
    interval :
        {b c : ℕ} {t : ℤ}
        → b ≡ (buffers_of d service_id).0
        → c ≡ (buffers_of d service_id).1
        → t ≡ end
        → ◌≡◌ {A = ℤ × ℤ}
            (start -ℤ minutes b, t +ℤ minutes c)
            (
              start -ℤ minutes (buffers_of d service_id).0,
              end +ℤ minutes (buffers_of d service_id).1,
            )
    interval p q r = cc
