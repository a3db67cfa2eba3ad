-- ===== src/Scheduling/Tests.antt =====
-- The scheduler on the sample of the tests.
use book_point.Base.{ℕ, ◌≡◌, ◌≢◌, ◌↔◌, refl, arith, inl, inr, true, none, some, List, [], ◌∷◌, In}
use book_point.Base.Int.{◌+ℤ◌, ◌-ℤ◌}
use book_point.Models.{Appointment, Directory}
use book_point.Repositories.{blocks}
use book_point.Results.{ok, err, diverges}
use book_point.Samples.{appointment, at_minute, directory, zones}
use book_point.Scheduling.Blocking.{
  appointment_blocked_interval, build_service_buffer_lookup, has_blocked_overlap,
  list_relevant_blocking_appointments,
}
use book_point.Scheduling.Blocking.Complete.{
  StaysAssigned, conflict_scan, has_blocked_overlap-eq-conflict_scan,
}
use book_point.Scheduling.Slots.{get_available_slots}
use book_point.Scheduling.Slots.Clear.{Offered, get_available_slots-Offered}
use book_point.Scheduling.Slots.Sorted.{IsSorted}
use book_point.Scheduling.Slots.Terminates.{get_available_slots-ne-diverges}
use book_point.Scheduling.Slots.Window.{Slot, slot_at, window_fuel, window_slots}
use book_point.Scheduling.Slots.Window.Exact.{
  IsFree, cursor_after, window_slots_exact, window_slots_total,
}
use book_point.Scheduling.Timing.{ServiceTiming}
use book_point.Time.{as_utc, aware}

-- A conflict is found for 9:35 to 10:05, whose buffers take in 9:30 to 10:15.
has_blocked_overlap-eq-conflict_scan_example :
    has_blocked_overlap directory (appointment ∷ []) 3 (at_minute 570) (at_minute 615) none
    ≡ conflict_scan directory (appointment ∷ []) 3 (at_minute 570) (at_minute 615) none
has_blocked_overlap-eq-conflict_scan_example =
    has_blocked_overlap-eq-conflict_scan directory (appointment ∷ []) 3 (at_minute 570)
      (at_minute 615) none appointments_assigned
  where
    appointments_assigned :
        (a : Appointment)
        → In a (appointment ∷ [])
        → blocks 3 none a ≡ true
        → StaysAssigned directory 3 a.service_id
    appointments_assigned a (inl e) b = rw e refl
    appointments_assigned a (inr i) b = absurd i

abbrev timing : ServiceTiming
timing = record {
  visible_duration_minutes = 30;
  buffer_before_minutes = 5;
  buffer_after_minutes = 10;
}

-- The free slots of 9:00 to 11:00, with 9:00 to 9:45 blocked.
abbrev free_slots : List Slot
free_slots = slot_at timing (at_minute 605) ∷ []

window_slots_run :
    window_slots timing ((at_minute 540, at_minute 585) ∷ []) (at_minute 660) 4 (at_minute 545)
    ≡ ok free_slots
unfolding window_slots ◌+ℤ◌ ◌-ℤ◌
window_slots_run = refl

window_slots_exact_example : In (slot_at timing (at_minute 605)) free_slots ↔ (
    (k : ℕ) × (slot_at timing (at_minute 605)
      ≡ slot_at timing (cursor_after timing (at_minute 545) k))
    × IsFree timing
        ((at_minute 540, at_minute 585) ∷ [])
        (at_minute 660)
        (cursor_after timing (at_minute 545) k))
window_slots_exact_example =
    window_slots_exact timing ((at_minute 540, at_minute 585) ∷ []) (at_minute 660) 4
      (at_minute 545) free_slots window_slots_run (slot_at timing (at_minute 605))

window_slots_total_example :
    (slots : List Slot) × (window_slots timing
        ((at_minute 540, at_minute 585) ∷ [])
        (at_minute 660)
        (window_fuel (at_minute 660) (at_minute 545))
        (at_minute 545)
      ≡ ok slots)
window_slots_total_example =
    window_slots_total timing ((at_minute 540, at_minute 585) ∷ []) (at_minute 660) (at_minute 545)
      (omega arith)

get_available_slots-ne-diverges_example :
    get_available_slots zones directory (appointment ∷ []) 3 2 1 1 (some 4) ≢ err diverges
get_available_slots-ne-diverges_example =
    get_available_slots-ne-diverges zones directory (appointment ∷ []) 3 2 1 1 (some 4)
      (record { services = (omega arith, tt); providers = (omega arith, tt) })

-- The Monday of the sample has three slots left.
abbrev monday_slots : List Slot
monday_slots =
    slot_at timing (at_minute 605)
    ∷ slot_at timing (at_minute 635)
    ∷ slot_at timing (at_minute 665)
    ∷ []

monday_run :
    get_available_slots zones directory (appointment ∷ []) 3 2 1 1 (some 4) ≡ ok monday_slots
unfolding get_available_slots window_fuel as_utc ◌+ℤ◌ ◌-ℤ◌ list_relevant_blocking_appointments
    appointment_blocked_interval build_service_buffer_lookup
monday_run = refl

-- With the provider off from 10:50 to 11:00 the first of them is left.
abbrev with_time_off : Directory
with_time_off = record directory {
  time_offs =
      record {
        id = 8;
        provider_id = 3;
        start_datetime = aware (at_minute 650);
        end_datetime = aware (at_minute 660);
      }
      ∷ [];
}

abbrev slots_left : List Slot
slots_left = slot_at timing (at_minute 605) ∷ slot_at timing (at_minute 665) ∷ []

time_off_run :
    get_available_slots zones with_time_off (appointment ∷ []) 3 2 1 1 (some 4) ≡ ok slots_left
unfolding get_available_slots window_fuel as_utc ◌+ℤ◌ ◌-ℤ◌ list_relevant_blocking_appointments
    appointment_blocked_interval build_service_buffer_lookup
time_off_run = refl

get_available_slots-Offered_example :
    IsSorted slots_left
    × ((s : Slot)
        → In s slots_left
        → Offered zones with_time_off (appointment ∷ []) 3 2 1 1 (some 4) s)
get_available_slots-Offered_example =
    get_available_slots-Offered zones with_time_off (appointment ∷ []) 3 2 1 1 (some 4) slots_left
      time_off_run
