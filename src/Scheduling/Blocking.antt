-- ===== src/Scheduling/Blocking.antt =====
-- Blocked intervals and the overlap query of backend/app/services/scheduling_service.py.
pub mod Complete
use book_point.Base.{
  ℕ, max, ◌≡◌, Bool, Option, none, some, List, [], ◌∷◌, map, ◌==◌, any, keep, first, false,
}
use book_point.Base.Int.{ℤ, ◌+ℤ◌, ◌-ℤ◌}
use book_point.Models.{Service, Appointment, Directory}
use book_point.Repositories.{list_services, list_blocking_for_provider}
use book_point.Time.{minutes, overlaps, as_utc}

unfoldable pub compute_blocked_interval : ℤ → ℤ → ℕ → ℕ → ℤ × ℤ
compute_blocked_interval visible_start visible_end buffer_before_minutes buffer_after_minutes =
    (visible_start -ℤ minutes buffer_before_minutes, visible_end +ℤ minutes buffer_after_minutes)

-- `max(service.buffer_before_minutes for service in services)`, and 0 for none.
abbrev pub max_of : (Service → ℕ) → List Service → ℕ
max_of field [] = 0
max_of field (s ∷ services) = max (field s) (max_of field services)

-- `_max_provider_buffers`
unfoldable pub max_provider_buffers : Directory → ℕ → ℕ × ℕ
max_provider_buffers d provider_id =
    let services = list_services d provider_id in
    (max_of (λ s. s.buffer_before_minutes) services, max_of (λ s. s.buffer_after_minutes) services)

abbrev pub has_service_id : ℕ → Appointment → Bool
has_service_id k a = elim a.service_id [ none ↦ false | some j ↦ j == k ]

-- `_build_service_buffer_lookup`: the buffers of the services that the appointments name, by id.
unfoldable pub build_service_buffer_lookup : Directory → List Appointment → List (ℕ × (ℕ × ℕ))
build_service_buffer_lookup d appointments =
    map (λ s. (s.id, (s.buffer_before_minutes, s.buffer_after_minutes)))
      (keep (λ s. any (has_service_id s.id) appointments) d.services)

-- `service_buffer_lookup.get(appointment.service_id)`, and no buffers for what it does not hold.
abbrev pub buffers_or_none : Option (ℕ × (ℕ × ℕ)) → ℕ × ℕ
buffers_or_none none = (0, 0)
buffers_or_none (some (_, buffers)) = buffers

unfoldable pub lookup_buffers : List (ℕ × (ℕ × ℕ)) → Option ℕ → ℕ × ℕ
lookup_buffers table none = (0, 0)
lookup_buffers table (some k) = elim (first (λ e. e.0 == k) table) [
  | none ↦ (0, 0)
  | some (_, buffers) ↦ buffers
]

-- `_appointment_blocked_interval`
unfoldable pub appointment_blocked_interval : Appointment → List (ℕ × (ℕ × ℕ)) → ℤ × ℤ
unfolding lookup_buffers compute_blocked_interval
appointment_blocked_interval a table =
    let (before, after) = lookup_buffers table a.service_id in
    compute_blocked_interval (as_utc a.start_datetime) (as_utc a.end_datetime) before after

-- `_list_relevant_blocking_appointments`
unfoldable pub list_relevant_blocking_appointments :
    Directory → List Appointment → ℕ → ℤ → ℤ → Option ℕ → List Appointment
unfolding max_provider_buffers list_blocking_for_provider
list_relevant_blocking_appointments d appointments provider_id interval_start interval_end exclude =
    let (max_before, max_after) = max_provider_buffers d provider_id in
    list_blocking_for_provider appointments provider_id (interval_start -ℤ minutes max_after)
      (interval_end +ℤ minutes max_before) exclude

unfoldable pub has_blocked_overlap : Directory → List Appointment → ℕ → ℤ → ℤ → Option ℕ → Bool
unfolding list_relevant_blocking_appointments build_service_buffer_lookup
    appointment_blocked_interval overlaps
has_blocked_overlap d all_appointments provider_id blocked_start blocked_end exclude =
    let appointments =
      list_relevant_blocking_appointments d all_appointments provider_id blocked_start blocked_end
        exclude in
    let table = build_service_buffer_lookup d appointments in
    any
      (λ a.
        let (start, end) = appointment_blocked_interval a table in
        overlaps blocked_start blocked_end start end)
      appointments
