-- ===== src/Appointments/Apart.antt =====
-- No double booking: the blocking appointments of a provider keep apart, buffers included, and each
-- booking handler of backend/app/services/appointment_service.py keeps it so.
use book_point.Base.{
  ℕ, ◌+◌, ◌<◌, ◌≡◌, refl, subst, Bool, true, false, ◌&&◌, Option, none, some, inl, inr, List, [],
  ◌∷◌, ◌==◌, In, All, arith,
}
use book_point.Appointments.Booking.{
  AppointmentCreate, check_interval, create_appointment, new_appointment, check_service,
  matches_organization,
}
use book_point.Appointments.Checks.{check_interval-clear}
use book_point.Base.Int.{ℤ}
use book_point.Models.{Appointment, Database, Directory, is_blocking, is_reschedulable}
use book_point.Repositories.{
  blocks, get_provider, get_organization, get_location, provider_at_location, has_customer,
}
use book_point.Results.{Result-cases, ok, >>=-eq-ok, or_raise-eq-ok, require-eq-ok}
use book_point.Scheduling.Blocking.Complete.{
  StaysAssigned, blocked_end_of, blocked_start_of, conflict_scan,
}
use book_point.Time.{Zones, aware, overlaps, overlaps_comm, as_utc, ensure_aware_utc}

-- Two blocking appointments of one provider whose blocked intervals meet.
unfoldable pub clashes : Directory → Appointment → Appointment → Bool
clashes d a b =
    ((a.provider_id == b.provider_id) && (is_blocking a.status && is_blocking b.status))
    && overlaps (blocked_start_of d a) (blocked_end_of d a) (blocked_start_of d b)
        (blocked_end_of d b)

abbrev pub Apart : Directory → Appointment → Appointment → Type 0
Apart d a b = ((a.id == b.id) ≡ false) × (clashes d a b ≡ false)

-- The appointments have ids of their own below `n`, keep apart, and name services that are still
-- assigned to their providers.
abbrev pub IsBooked : Directory → ℕ → List Appointment → Type 0
IsBooked d n [] = Unit
IsBooked d n (a ∷ rows) =
    (a.id < n)
    × StaysAssigned d a.provider_id a.service_id
    × All (Apart d a) rows
    × IsBooked d n rows

abbrev pub IsConsistent : Database → Type 0
IsConsistent db = IsBooked db.directory db.next_id db.appointments

pub clashes_comm : (d : Directory) (a b : Appointment) → clashes d a b ≡ clashes d b a
unfolding clashes
clashes_comm d a b = ground (
  arith,
  overlaps_comm (blocked_start_of d a) (blocked_end_of d a) (blocked_start_of d b)
      (blocked_end_of d b),
)

pub IsBooked-stays :
    (d : Directory) (n : ℕ) (rows : List Appointment)
    → IsBooked d n rows
    → (a : Appointment) → In a rows
    → StaysAssigned d a.provider_id a.service_id
IsBooked-stays d n [] h a i = absurd i
IsBooked-stays d n (b ∷ rows) h a (inl e) = rw e (h.1)
IsBooked-stays d n (b ∷ rows) h a (inr i) = IsBooked-stays d n rows h.3 a i

IsBooked-suc :
    (d : Directory) (n : ℕ) (rows : List Appointment) → IsBooked d n rows → IsBooked d (n + 1) rows
IsBooked-suc d n [] h = tt
IsBooked-suc d n (a ∷ rows) h = (omega arith, h.1, h.2, IsBooked-suc d n rows h.3)

pub blocks_provider :
    (p : ℕ) (exclude : Option ℕ) (a : Appointment) → blocks p exclude a ≡ true → a.provider_id ≡ p
blocks_provider p none a h = ground arith
blocks_provider p (some k) a h = ground arith

-- What the scan of the other rows says of a row that is about to stand among them.
Apart-of_scan :
    (d : Directory) (a : Appointment) (exclude : Option ℕ) (n : ℕ) (rows : List Appointment)
    → conflict_scan d rows a.provider_id (blocked_start_of d a) (blocked_end_of d a) exclude ≡ false
    → All
        (λ b.
          ((a.id == b.id) ≡ false)
          × (blocks a.provider_id exclude b
              ≡ ((b.provider_id == a.provider_id) && is_blocking b.status)))
        rows
    → All (Apart d a) rows
unfolding clashes
Apart-of_scan d a exclude n [] h k = tt
Apart-of_scan d a exclude n (b ∷ rows) h k =
    ((k.0.0, ground arith), Apart-of_scan d a exclude n rows (ground arith) k.1)

-- The row of a new booking: a fresh id and an interval that passed the checks.
abbrev pub Checked : Zones → Database → Option ℕ → Appointment → Type 0
Checked zones db exclude a =
    (start : ℤ) × (end : ℤ) × (l : ℕ) × (a.start_datetime ≡ aware start)
    × (a.end_datetime ≡ aware end)
    × (check_interval zones db.directory db.appointments a.provider_id l a.service_id exclude start
        ≡ ok end)

new_appointment-Checked :
    (zones : Zones) (db : Database) (payload : AppointmentCreate) (a : Appointment)
    → new_appointment zones db payload ≡ ok a
    → (a.id ≡ db.next_id) × Checked zones db none a
unfolding new_appointment
new_appointment-Checked zones db payload a e =
    let d = db.directory in
    let (start, _, h₁) = >>=-eq-ok (ensure_aware_utc payload.start_datetime) _ e in
    let (provider, _, h₂) = or_raise-eq-ok (get_provider d payload.provider_id) _ _ h₁ in
    let (_, h₃) = require-eq-ok provider.is_active _ _ h₂ in
    let (_, h₄) = require-eq-ok (is_reschedulable payload.status) _ _ h₃ in
    let (_, h₅) =
      require-eq-ok (matches_organization payload.organization_id provider.organization_id) _ _
        h₄ in
    let (organization, _, h₆) =
      or_raise-eq-ok (get_organization d provider.organization_id) _ _ h₅ in
    let (_, h₇) = require-eq-ok organization.is_active _ _ h₆ in
    let (location, _, h₈) = or_raise-eq-ok (get_location d payload.location_id) _ _ h₇ in
    let (_, h₉) = require-eq-ok location.is_active _ _ h₈ in
    let (_, g₁) = require-eq-ok (location.organization_id == provider.organization_id) _ _ h₉ in
    let (_, g₂) = require-eq-ok (provider_at_location d provider.id location.id) _ _ g₁ in
    let (_, g₃) = require-eq-ok (has_customer db.customers payload.customer_id) _ _ g₂ in
    let (_, _, g₄) =
      >>=-eq-ok (check_service d provider.organization_id location.id payload.service_id) _ g₃ in
    let (end, checked, g₅) =
      >>=-eq-ok
        (check_interval zones d db.appointments provider.id payload.location_id payload.service_id
          none start)
        _ g₄ in
    subst (λ (t : Appointment). (t.id ≡ db.next_id) × Checked zones db none t) (row g₅)
      (refl, (start, end, payload.location_id, refl, refl, checked))
  where
    row : {b : Appointment} → ok b ≡ ok a → b ≡ a
    row q = cc

pub Checked-clear :
    (zones : Zones) (db : Database) (exclude : Option ℕ) (a : Appointment)
    → IsConsistent db
    → Checked zones db exclude a
    → StaysAssigned db.directory a.provider_id a.service_id
      × (conflict_scan db.directory db.appointments a.provider_id
            (blocked_start_of db.directory a)
            (blocked_end_of db.directory a)
            exclude
          ≡ false)
unfolding as_utc
Checked-clear zones db exclude a h (start, end, l, s, e, checked) =
    rw (s, e)
      (check_interval-clear zones db.directory db.appointments a.provider_id l a.service_id exclude
        start end
        (λ b i k.
          subst (λ (t : ℕ). StaysAssigned db.directory t b.service_id)
            (blocks_provider a.provider_id exclude b k)
            (IsBooked-stays db.directory db.next_id db.appointments h b i))
        checked)

fresh_rows :
    (d : Directory) (a : Appointment) (n : ℕ) (rows : List Appointment)
    → a.id ≡ n
    → IsBooked d n rows
    → All
        (λ b.
          ((a.id == b.id) ≡ false)
          × (blocks a.provider_id none b
              ≡ ((b.provider_id == a.provider_id) && is_blocking b.status)))
        rows
fresh_rows d a n [] e h = tt
fresh_rows d a n (b ∷ rows) e h = ((ground arith, ground arith), fresh_rows d a n rows e h.3)

-- In a consistent database (`IsConsistent`: the appointments have distinct ids below the next one,
-- name services that are still assigned to their providers, and no two blocking ones of a provider
-- have blocked intervals that meet, buffers included), `create_appointment` leaves a consistent
-- database on every branch.
pub create_appointment-IsConsistent :
    (zones : Zones) (payload : AppointmentCreate) (db : Database)
    → IsConsistent db
    → IsConsistent (create_appointment zones payload db).1
unfolding create_appointment
create_appointment-IsConsistent zones payload db h =
    elim (Result-cases (new_appointment zones db payload)) [
      | inl (e, q) ↦ rw q h
      | inr (a, q) ↦
          let (fresh, checked) = new_appointment-Checked zones db payload a q in
          let (stays, clear) = Checked-clear zones db none a h checked in
          rw q (
            omega arith,
            stays,
            Apart-of_scan db.directory a none db.next_id db.appointments clear
                (fresh_rows db.directory a db.next_id db.appointments fresh h),
            IsBooked-suc db.directory db.next_id db.appointments h,
          )
    ]
