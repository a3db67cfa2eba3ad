-- ===== src/Appointments/Move.antt =====
-- `reschedule_appointment` of backend/app/services/appointment_service.py keeps the blocking
-- appointments of a provider apart.
use book_point.Base.{
  ℕ, ◌≡◌, refl, ◌∙◌, subst, true, false, some, inl, inr, List, [], ◌∷◌, ◌==◌, All, All-map,
  Bool-cases, arith,
}
use book_point.Appointments.Apart.{
  Apart, Checked, Checked-clear, IsBooked, IsConsistent, clashes, clashes_comm,
}
use book_point.Appointments.Booking.{
  check_interval, moved_appointment, reschedule_appointment, update_appointment,
}
use book_point.Models.{Appointment, Database, Directory, is_reschedulable}
use book_point.Repositories.{get_appointment, get_provider}
use book_point.Results.{ok, >>=-eq-ok, or_raise-eq-ok, require-eq-ok, Result-cases}
use book_point.Scheduling.Blocking.Complete.{
  StaysAssigned, blocked_end_of, blocked_start_of, conflict_scan,
}
use book_point.Time.{Datetime, Zones, ensure_aware_utc}

Apart-comm : (d : Directory) (a b : Appointment) → Apart d a b → Apart d b a
Apart-comm d a b h = (ground arith, clashes_comm d b a ∙ h.1)

-- The row keeps apart from every row of another id.
abbrev ApartFromOthers : Directory → Appointment → List Appointment → Type 0
ApartFromOthers d a = All (λ b. (b.id == a.id) ≡ false → Apart d a b)

scan-others :
    (d : Directory) (a : Appointment) (rows : List Appointment)
    → conflict_scan d rows a.provider_id (blocked_start_of d a) (blocked_end_of d a) (some a.id)
      ≡ false
    → ApartFromOthers d a rows
unfolding clashes
scan-others d a [] h = tt
scan-others d a (b ∷ rows) h =
    ((λ q. (ground arith, ground arith)), scan-others d a rows (ground arith))

module _ (d : Directory) (n : ℕ) (a : Appointment) where
  update_none :
      (rows : List Appointment)
      → All (λ b. (b.id == a.id) ≡ false) rows
      → update_appointment a.id (λ _. a) rows ≡ rows
  update_none [] h = refl
  update_none (b ∷ rows) h = rw (h.0, update_none rows h.1)

  update_Apart :
      (b : Appointment) (rows : List Appointment)
      → Apart d b a
      → All (Apart d b) rows
      → All (Apart d b) (update_appointment a.id (λ _. a) rows)
  update_Apart b [] h k = tt
  update_Apart b (c ∷ rows) h k = elim (Bool-cases (c.id == a.id)) [
    | inl same ↦ rw same (h, update_Apart b rows h k.1)
    | inr other ↦ rw other (k.0, update_Apart b rows h k.1)
  ]

  others_of_same :
      (b : Appointment) (rows : List Appointment)
      → (b.id == a.id) ≡ true
      → All (Apart d b) rows
      → All (λ c. (c.id == a.id) ≡ false) rows
  others_of_same b rows same h =
      All-map (Apart d b) (λ c. (c.id == a.id) ≡ false) rows (λ c k. ground (arith, k.0)) h

  Apart-All :
      (rows : List Appointment)
      → ApartFromOthers d a rows
      → All (λ b. (b.id == a.id) ≡ false) rows
      → All (Apart d a) rows
  Apart-All [] h k = tt
  Apart-All (b ∷ rows) h k = (h.0 k.0, Apart-All rows h.1 k.1)

  -- Replacing a row by one of its id that keeps apart from the others.
  pub update-IsBooked :
      (rows : List Appointment)
      → StaysAssigned d a.provider_id a.service_id
      → ApartFromOthers d a rows
      → IsBooked d n rows
      → IsBooked d n (update_appointment a.id (λ _. a) rows)
  update-IsBooked [] s h k = tt
  update-IsBooked (b ∷ rows) s h k = elim (Bool-cases (b.id == a.id)) [
    | inl same ↦
        let rest = others_of_same b rows same k.2 in
        rw (same, update_none rows rest) (ground arith, s, Apart-All rows h.1 rest, k.3)
    | inr other ↦ rw other (
      k.0,
      k.1,
      update_Apart b rows (Apart-comm d a b (h.0 other)) k.2,
      update-IsBooked rows s h.1 k.3,
    )
  ]

moved_appointment-Checked :
    (zones : Zones) (db : Database) (k : ℕ) (new_start : Datetime) (a : Appointment)
    → moved_appointment zones db k new_start ≡ ok a
    → Checked zones db (some a.id) a
unfolding moved_appointment
moved_appointment-Checked zones db k new_start a e =
    let (start, _, h₁) = >>=-eq-ok (ensure_aware_utc new_start) _ e in
    let (row, found, h₂) = or_raise-eq-ok (get_appointment db.appointments k) _ _ h₁ in
    let (_, h₃) = require-eq-ok (is_reschedulable row.status) _ _ h₂ in
    let (provider, _, h₄) = or_raise-eq-ok (get_provider db.directory row.provider_id) _ _ h₃ in
    let (_, h₅) = require-eq-ok provider.is_active _ _ h₄ in
    let (end, checked, h₆) =
      >>=-eq-ok
        (check_interval zones db.directory db.appointments row.provider_id row.location_id
          row.service_id (some row.id) start)
        _ h₅ in
    subst (λ (t : Appointment). Checked zones db (some t.id) t) (moved h₆)
      (start, end, row.location_id, refl, refl, checked)
  where
    moved : {b : Appointment} → ok b ≡ ok a → b ≡ a
    moved q = cc

-- From a consistent database `reschedule_appointment`, of any id to any time, leaves a consistent
-- one on every branch: no two blocking appointments of a provider have blocked intervals that meet.
pub reschedule_appointment-IsConsistent :
    (zones : Zones) (k : ℕ) (new_start : Datetime) (db : Database)
    → IsConsistent db
    → IsConsistent (reschedule_appointment zones k new_start db).1
unfolding reschedule_appointment
reschedule_appointment-IsConsistent zones k new_start db h =
    elim (Result-cases (moved_appointment zones db k new_start)) [
      | inl (e, q) ↦ rw q h
      | inr (a, q) ↦
          let (stays, clear) =
            Checked-clear zones db (some a.id) a h
              (moved_appointment-Checked zones db k new_start a q) in
          rw q (
            update-IsBooked db.directory db.next_id a db.appointments stays
              (scan-others db.directory a db.appointments clear) h)
    ]
