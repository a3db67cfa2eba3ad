-- ===== src/Scheduling/Slots/Window.antt =====
-- The `while True` loop of `get_available_slots` (backend/app/services/scheduling_service.py): the
-- candidates of one window.
pub mod Exact
use book_point.Base.{ℕ, zero, suc, ◌+◌, ◌/◌, Bool, List, [], ◌∷◌, any, if◌then◌else◌}
use book_point.Base.Int.{ℤ, pos_part, ◌+ℤ◌, ◌-ℤ◌, ltb_ℤ}
use book_point.Results.{Result, ok, err, ◌>>=◌, diverges}
use book_point.Scheduling.Blocking.{compute_blocked_interval}
use book_point.Scheduling.Timing.{ServiceTiming}
use book_point.Time.{minutes, overlaps}

pub record Slot : Type 0 where
  pub start_datetime : ℤ
  pub end_datetime : ℤ

abbrev pub Interval : Type 0
Interval = ℤ × ℤ

-- The slot that a cursor stands for, and its blocked interval.
abbrev pub slot_at : ServiceTiming → ℤ → Slot
slot_at timing cursor = record {
  start_datetime = cursor;
  end_datetime = cursor +ℤ minutes timing.visible_duration_minutes;
}

abbrev pub block_at : ServiceTiming → ℤ → ℤ × ℤ
block_at timing cursor =
    compute_blocked_interval cursor (cursor +ℤ minutes timing.visible_duration_minutes)
      timing.buffer_before_minutes timing.buffer_after_minutes

-- `is_blocked`
abbrev pub is_blocked : List Interval → ℤ × ℤ → Bool
is_blocked blocked (start, end) = any (λ b. overlaps start end b.0 b.1) blocked

-- The loop, with fuel for its rounds: `diverges` says that it ran out.
unfoldable pub window_slots : ServiceTiming → List Interval → ℤ → ℕ → ℤ → Result (List Slot)
unfolding compute_blocked_interval overlaps
window_slots timing blocked window_end zero cursor = err diverges
window_slots timing blocked window_end (suc fuel) cursor =
    let block = block_at timing cursor in
    let rest =
      window_slots timing blocked window_end fuel
        (cursor +ℤ minutes timing.visible_duration_minutes) in
    let found = rest >>= λ slots. ok (slot_at timing cursor ∷ slots) in
    if ltb_ℤ window_end block.1 then ok [] else if is_blocked blocked block then rest else found

-- A round more than the whole minutes from the cursor to the window's end.
unfoldable pub window_fuel : ℤ → ℤ → ℕ
window_fuel window_end cursor = pos_part (window_end -ℤ cursor) / 60_000_000 + 1
