-- ===== src/Scheduling/Blocking/Complete.antt =====
-- The overlap query against a scan of every appointment: what its time window leaves out cannot meet
-- the interval, as long as the services of the booked appointments stay assigned to the provider.
use book_point.Base.{
  ℕ, ◌≤◌, ◌≡◌, refl, Bool, true, ◌&&◌, Option, none, some, inl, inr, List, [], ◌∷◌, map, ap, ◌∙◌,
  ◌==◌, any, keep, first, In, Bool-cases, Option-cases, arith, any-keep, any_congr, In-of_first,
  In-keep, any_of_In, ==_iff,
}
use mathlib.Core.Option
use book_point.Base.Int.{ℤ, ◌+ℤ◌, ◌-ℤ◌, ◌<ℤ◌, ltb_ℤ, int_laws}
use book_point.Models.{Service, Appointment, Directory}
use book_point.Repositories.{
  get_service, is_assigned, list_services, blocks, list_blocking_for_provider,
}
use book_point.Scheduling.Blocking.{
  compute_blocked_interval, max_of, max_provider_buffers, has_service_id,
  build_service_buffer_lookup, lookup_buffers, buffers_or_none, appointment_blocked_interval,
  list_relevant_blocking_appointments, has_blocked_overlap,
}
use book_point.Time.{minutes, overlaps, overlaps_iff, as_utc}

-- The buffers of an appointment, read from its service directly.
abbrev pub buffers_of_service : Option Service → ℕ × ℕ
buffers_of_service none = (0, 0)
buffers_of_service (some s) = (s.buffer_before_minutes, s.buffer_after_minutes)

abbrev pub buffers_of : Directory → Option ℕ → ℕ × ℕ
buffers_of d none = (0, 0)
buffers_of d (some k) = buffers_of_service (get_service d k)

abbrev pub blocked_start_of : Directory → Appointment → ℤ
blocked_start_of d a = as_utc a.start_datetime -ℤ minutes (buffers_of d a.service_id).0

abbrev pub blocked_end_of : Directory → Appointment → ℤ
blocked_end_of d a = as_utc a.end_datetime +ℤ minutes (buffers_of d a.service_id).1

-- Some blocking appointment of the provider has a blocked interval that meets the given one.
abbrev pub conflict_scan : Directory → List Appointment → ℕ → ℤ → ℤ → Option ℕ → Bool
conflict_scan d appointments p start end exclude =
    any (λ a. blocks p exclude a && overlaps start end (blocked_start_of d a) (blocked_end_of d a))
      appointments

-- The appointment names no service, or one that is still assigned to the provider.
abbrev pub StaysAssigned : Directory → ℕ → Option ℕ → Type 0
StaysAssigned d p none = Unit
StaysAssigned d p (some k) = is_assigned d p k ≡ true

abbrev entry : Service → ℕ × (ℕ × ℕ)
entry s = (s.id, (s.buffer_before_minutes, s.buffer_after_minutes))

first-map-keep :
    (q : Service → Bool) (k : ℕ) (services : List Service)
    → ((s : Service) → (s.id == k) ≡ true → q s ≡ true)
    → first (λ e. e.0 == k) (map entry (keep q services))
      ≡ Option.map entry (first (λ s. s.id == k) services)
first-map-keep q k [] h = refl
first-map-keep q k (s ∷ services) h = elim (Bool-cases (s.id == k)) [
  | inl y ↦ rw (h s y, y)
  | inr n ↦ elim (Bool-cases (q s)) [
    | inl y ↦ rw (y, n) (first-map-keep q k services h)
    | inr m ↦ rw (m, n) (first-map-keep q k services h)
  ]
]

buffers_or_none-map :
    (o : Option Service) → buffers_or_none (Option.map entry o) ≡ buffers_of_service o
buffers_or_none-map none = refl
buffers_or_none-map (some s) = refl

names_self :
    (a : Appointment) (k : ℕ) (s : Service)
    → a.service_id ≡ some k
    → (s.id == k) ≡ true
    → has_service_id s.id a ≡ true
names_self a k s e h = ground arith

lookup_buffers-build :
    (d : Directory) (a : Appointment) (appointments : List Appointment)
    → In a appointments
    → lookup_buffers (build_service_buffer_lookup d appointments) a.service_id
      ≡ buffers_of d a.service_id
unfolding lookup_buffers build_service_buffer_lookup
lookup_buffers-build d a appointments i = elim (Option-cases a.service_id) [
  | inl e ↦ rw e
  | inr (k, e) ↦ rw e (
      ap buffers_or_none (
        first-map-keep (λ s. any (has_service_id s.id) appointments) k d.services
          (λ s h. any_of_In (has_service_id s.id) a appointments i (names_self a k s e h)))
      ∙ buffers_or_none-map (get_service d k))
]

max_of_ge :
    (field : Service → ℕ) (s : Service) (services : List Service)
    → In s services
    → field s ≤ max_of field services
max_of_ge field s [] i = absurd i
max_of_ge field s (t ∷ services) (inl e) = rw e (omega arith)
max_of_ge field s (t ∷ services) (inr i) = omega (arith, max_of_ge field s services i)

-- The provider's largest buffers are at least those of an appointment whose service is assigned.
max_provider_buffers_ge :
    (d : Directory) (p : ℕ) (service_id : Option ℕ)
    → StaysAssigned d p service_id
    → ((buffers_of d service_id).0 ≤ (max_provider_buffers d p).0)
      × ((buffers_of d service_id).1 ≤ (max_provider_buffers d p).1)
unfolding max_provider_buffers
max_provider_buffers_ge d p none h = omega arith
max_provider_buffers_ge d p (some k) h = elim (Option-cases (get_service d k)) [
  | inl e ↦ rw e (omega arith)
  | inr (s, e) ↦ rw e (bounds s (listed s (In-of_first (λ t. t.id == k) d.services e)))
]
  where
    listed : (s : Service) → In s d.services × ((s.id == k) ≡ true) → In s (list_services d p)
    listed s (i, q) =
        In-keep (λ t. is_assigned d p t.id) s d.services i (rw ((==_iff s.id k).0 q) h)

    bounds :
        (s : Service)
        → In s (list_services d p)
        → (s.buffer_before_minutes ≤ max_of (λ t. t.buffer_before_minutes) (list_services d p))
          × (s.buffer_after_minutes ≤ max_of (λ t. t.buffer_after_minutes) (list_services d p))
    bounds s i = (
      max_of_ge (λ t. t.buffer_before_minutes) s (list_services d p) i,
      max_of_ge (λ t. t.buffer_after_minutes) s (list_services d p) i,
    )

-- An interval that meets a blocked interval passes both tests of the query.
window_tests :
    (start end s e : ℤ) (before after max_before max_after : ℕ)
    → before ≤ max_before
    → after ≤ max_after
    → start <ℤ e +ℤ minutes after
    → s -ℤ minutes before <ℤ end
    → (start -ℤ minutes max_after <ℤ e) × (s <ℤ end +ℤ minutes max_before)
window_tests start end s e before after max_before max_after hb ha h k =
    (omega int_laws, omega int_laws)

abbrev pub in_window : Directory → ℕ → ℤ → ℤ → Appointment → Bool
in_window d p start end a =
    ltb_ℤ (start -ℤ minutes (max_provider_buffers d p).1) (as_utc a.end_datetime)
    && ltb_ℤ (as_utc a.start_datetime) (end +ℤ minutes (max_provider_buffers d p).0)

pub in_window_of_overlap :
    (d : Directory) (p : ℕ) (start end : ℤ) (a : Appointment)
    → StaysAssigned d p a.service_id
    → overlaps start end (blocked_start_of d a) (blocked_end_of d a) ≡ true
    → in_window d p start end a ≡ true
in_window_of_overlap d p start end a h o =
    let (k, l) = (overlaps_iff start end (blocked_start_of d a) (blocked_end_of d a)).0 o in
    let (hb, ha) = max_provider_buffers_ge d p a.service_id h in
    let (x, y) =
      window_tests start end (as_utc a.start_datetime) (as_utc a.end_datetime)
        (buffers_of d a.service_id).0 (buffers_of d a.service_id).1 _ _ hb ha k l in
    ground arith

pub table_interval :
    (d : Directory) (a : Appointment) (rows : List Appointment)
    → In a rows
    → appointment_blocked_interval a (build_service_buffer_lookup d rows)
      ≡ (blocked_start_of d a, blocked_end_of d a)
unfolding appointment_blocked_interval compute_blocked_interval
table_interval d a rows i = rw (lookup_buffers-build d a rows i)

-- A row that fails the first test counts for neither; one that passes is measured alike by both.
filtered_test :
    (kept inside narrow wide : Bool)
    → ((kept && inside) ≡ true → narrow ≡ wide)
    → (kept ≡ true → wide ≡ true → inside ≡ true)
    → ((kept && inside) && narrow) ≡ (kept && wide)
filtered_test kept inside narrow wide f g = ground arith

-- If the services of the provider's blocking appointments are still assigned to the provider, the
-- bounded query finds a conflict exactly when a scan of all of them does, each with the buffers of
-- its service.
pub has_blocked_overlap-eq-conflict_scan :
    (d : Directory) (appointments : List Appointment) (p : ℕ) (start end : ℤ) (exclude : Option ℕ)
    → ((a : Appointment)
        → In a appointments
        → blocks p exclude a ≡ true
        → StaysAssigned d p a.service_id)
    → has_blocked_overlap d appointments p start end exclude
      ≡ conflict_scan d appointments p start end exclude
unfolding has_blocked_overlap list_relevant_blocking_appointments list_blocking_for_provider
has_blocked_overlap-eq-conflict_scan d appointments p start end exclude assigned =
    any-keep _ _ appointments
    ∙ any_congr _ _ appointments (λ a i.
      let rows = keep (λ r. blocks p exclude r && in_window d p start end r) appointments in
      filtered_test (blocks p exclude a) (in_window d p start end a) _ _
        (λ k.
          ap (λ (t : ℤ × ℤ). overlaps start end t.0 t.1)
            (table_interval d a rows (In-keep _ a appointments i k)))
        (λ k. in_window_of_overlap d p start end a (assigned a i k)))
