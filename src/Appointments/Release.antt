-- ===== src/Appointments/Release.antt =====
-- A change of status that blocks no more than before keeps the appointments apart: what the
-- cancellation and the payments do to the rows of backend/app/models/appointment.py.
use book_point.Appointments.Apart.{Apart, IsBooked, clashes}
use book_point.Appointments.Booking.{update_appointment}
use book_point.Base.{
  ℕ, ◌≤◌, ◌≡◌, refl, ◌⊎◌, true, false, inl, inr, List, [], ◌∷◌, ◌==◌, In, All, Bool-cases, arith,
  if◌then◌else◌,
}
use book_point.Models.{Appointment, Directory, is_blocking}

-- The row keeps its place, and blocks only if it did.
abbrev pub RowEased : Appointment → Appointment → Type 0
RowEased a a' =
    (a'.id ≡ a.id)
    × (a'.provider_id ≡ a.provider_id)
    × (a'.service_id ≡ a.service_id)
    × (a'.start_datetime ≡ a.start_datetime)
    × (a'.end_datetime ≡ a.end_datetime)
    × (is_blocking a'.status ≡ true → is_blocking a.status ≡ true)

abbrev pub Eased : List Appointment → List Appointment → Type 0
Eased [] [] = Unit
Eased [] (a' ∷ rows') = ⊥
Eased (a ∷ rows) [] = ⊥
Eased (a ∷ rows) (a' ∷ rows') = RowEased a a' × Eased rows rows'

pub Eased-refl : (rows : List Appointment) → Eased rows rows
Eased-refl [] = tt
Eased-refl (a ∷ rows) = ((refl, refl, refl, refl, refl, λ h. h), Eased-refl rows)

pub Eased-update :
    (k : ℕ) (f : Appointment → Appointment) (rows : List Appointment)
    → ((a : Appointment) → In a rows → a.id ≡ k → RowEased a (f a))
    → Eased rows (update_appointment k f rows)
Eased-update k f [] h = tt
Eased-update k f (a ∷ rows) h =
    (at_head (Bool-cases (a.id == k)), Eased-update k f rows (λ b i. h b (inr i)))
  where
    at_head :
        ((a.id == k) ≡ true) ⊎ ((a.id == k) ≡ false) → RowEased a (if a.id == k then f a else a)
    at_head (inl y) = rw y (h a (inl refl) (ground arith))
    at_head (inr n) = rw n (refl, refl, refl, refl, refl, λ s. s)

clashes_eased :
    (d : Directory) (a a' b b' : Appointment)
    → RowEased a a'
    → RowEased b b'
    → clashes d a b ≡ false
    → clashes d a' b' ≡ false
unfolding clashes
clashes_eased d a a' b b' (i, p, s, t, e, k) (i', p', s', t', e', k') h =
    rw (p, s, t, e, p', s', t', e') (ground arith)

Apart-Eased :
    (d : Directory) (a a' : Appointment) (rows rows' : List Appointment)
    → RowEased a a'
    → Eased rows rows'
    → All (Apart d a) rows
    → All (Apart d a') rows'
Apart-Eased d a a' [] [] r e h = tt
Apart-Eased d a a' [] (b' ∷ rows') r e h = absurd e
Apart-Eased d a a' (b ∷ rows) [] r e h = absurd e
Apart-Eased d a a' (b ∷ rows) (b' ∷ rows') r (q, e) h = (
  (rw (r.0, q.0) (h.0.0), clashes_eased d a a' b b' r q h.0.1),
  Apart-Eased d a a' rows rows' r e h.1,
)

-- Rows that are eased stay apart, under ids that may only grow.
pub IsBooked-Eased :
    (d : Directory) (n n' : ℕ) (rows rows' : List Appointment)
    → n ≤ n'
    → Eased rows rows'
    → IsBooked d n rows
    → IsBooked d n' rows'
IsBooked-Eased d n n' [] [] l e h = tt
IsBooked-Eased d n n' [] (b' ∷ rows') l e h = absurd e
IsBooked-Eased d n n' (b ∷ rows) [] l e h = absurd e
IsBooked-Eased d n n' (a ∷ rows) (a' ∷ rows') l (r, e) (below, stays, apart, rest) = (
  rw (r.0) (omega arith),
  rw (r.1, r.2) stays,
  Apart-Eased d a a' rows rows' r e apart,
  IsBooked-Eased d n n' rows rows' l e rest,
)
