-- ===== src/Scheduling/Slots/Window/Exact.antt =====
-- The loop over the candidates of a window ends, and finds exactly the free ones.
use book_point.Base.{
  ℕ, zero, suc, ◌/◌, ◌<◌, ◌≡◌, refl, sym, ◌∙◌, ◌↔◌, true≢false, ◌⊎◌, inl, inr, true, false, List,
  [], ◌∷◌, In, Bool-cases, arith,
}
use book_point.Base.Int.{ℤ, pos_part, ◌+ℤ◌, ◌-ℤ◌, ◌≤ℤ◌, ◌<ℤ◌, ltb_ℤ, int_laws, one_part}
use book_point.Results.{Result, ok, >>=-eq-ok}
use book_point.Scheduling.Blocking.{compute_blocked_interval}
use book_point.Scheduling.Slots.Window.{
  Slot, Interval, slot_at, block_at, is_blocked, window_slots, window_fuel,
}
use book_point.Scheduling.Timing.{ServiceTiming}
use book_point.Time.{minutes}

-- The cursor after some rounds.
abbrev pub cursor_after : ServiceTiming → ℤ → ℕ → ℤ
cursor_after timing cursor zero = cursor
cursor_after timing cursor (suc k) =
    cursor_after timing (cursor +ℤ minutes timing.visible_duration_minutes) k

pub cursor_after-mono :
    (timing : ServiceTiming) (cursor : ℤ) (k : ℕ) → cursor ≤ℤ cursor_after timing cursor k
cursor_after-mono timing cursor zero = omega arith
cursor_after-mono timing cursor (suc k) =
    omega (int_laws, cursor_after-mono timing (cursor +ℤ minutes timing.visible_duration_minutes) k)

block_end-mono :
    (timing : ServiceTiming) (a b : ℤ) → a ≤ℤ b → (block_at timing a).1 ≤ℤ (block_at timing b).1
unfolding compute_blocked_interval
block_end-mono timing a b h = omega int_laws

-- A round that goes on leaves a minute less to the end of the window.
less_left :
    (timing : ServiceTiming) (window_end cursor : ℤ) (fuel : ℕ)
    → 0 < timing.visible_duration_minutes
    → ltb_ℤ window_end (block_at timing cursor).1 ≡ false
    → pos_part (window_end -ℤ cursor) / 60_000_000 < suc fuel
    → pos_part (window_end -ℤ (cursor +ℤ minutes timing.visible_duration_minutes)) / 60_000_000
      < fuel
unfolding compute_blocked_interval
less_left timing window_end cursor fuel positive fits h =
    let fits' : (block_at timing cursor).1 ≤ℤ window_end = ground arith in
    omega (
      int_laws,
      one_part (window_end -ℤ cursor),
      one_part (window_end -ℤ (cursor +ℤ minutes timing.visible_duration_minutes)),
    )

-- What the loop offers at a cursor: the blocked interval ends in the window, and meets no other.
abbrev pub IsFree : ServiceTiming → List Interval → ℤ → ℤ → Type 0
IsFree timing blocked window_end cursor =
    ((block_at timing cursor).1 ≤ℤ window_end)
    × (is_blocked blocked (block_at timing cursor) ≡ false)

module _ (timing : ServiceTiming) (blocked : List Interval) (window_end : ℤ) where
  rest_slots : ℕ → ℤ → Result (List Slot)
  rest_slots fuel cursor =
      window_slots timing blocked window_end fuel
        (cursor +ℤ minutes timing.visible_duration_minutes)

  -- One round, by how its two tests turn out.
  data Round (fuel : ℕ) (cursor : ℤ) (slots : List Slot) : Type 0 where
    past : window_end <ℤ (block_at timing cursor).1 → slots ≡ [] → Round fuel cursor slots
    taken :
        (block_at timing cursor).1 ≤ℤ window_end
        → is_blocked blocked (block_at timing cursor) ≡ true
        → rest_slots fuel cursor ≡ ok slots
        → Round fuel cursor slots
    free :
        IsFree timing blocked window_end cursor
        → (later : List Slot) → rest_slots fuel cursor ≡ ok later
        → slots ≡ slot_at timing cursor ∷ later
        → Round fuel cursor slots

  round :
      (fuel : ℕ) (cursor : ℤ) {slots : List Slot}
      → window_slots timing blocked window_end (suc fuel) cursor ≡ ok slots
      → Round fuel cursor slots
  unfolding window_slots rest_slots
  round fuel cursor h = elim (Bool-cases (ltb_ℤ window_end (block_at timing cursor).1)) [
    | inl late ↦ past (ground arith) (ground arith)
    | inr fits ↦ elim (Bool-cases (is_blocked blocked (block_at timing cursor))) [
      | inl busy ↦ taken (ground arith) busy (ground arith)
      | inr idle ↦
          let (later, e, q) =
            >>=-eq-ok (rest_slots fuel cursor) (λ s. ok (slot_at timing cursor ∷ s))
              (rw (fits, idle, window_slots) at h) in
          free (ground arith, idle) later e (cc)
    ]
  ]

  abbrev Offered : ℤ → Slot → Type 0
  Offered cursor s =
      (k : ℕ) × (s ≡ slot_at timing (cursor_after timing cursor k))
      × IsFree timing blocked window_end (cursor_after timing cursor k)

  no_fuel :
      (cursor : ℤ) {slots : List Slot}
      → window_slots timing blocked window_end zero cursor ≡ ok slots
      → ⊥
  unfolding window_slots
  no_fuel cursor h = cc

  found :
      (fuel : ℕ) (cursor : ℤ) (slots : List Slot)
      → window_slots timing blocked window_end fuel cursor ≡ ok slots
      → (s : Slot) → In s slots
      → Offered cursor s
  unfolding rest_slots
  found zero cursor slots h s i = absurd (no_fuel cursor h)
  found (suc fuel) cursor slots h s i = elim (round fuel cursor h) [
    | past late e ↦ absurd (rw e at i)
    | taken fits busy e ↦ let (k, q, f) = found fuel _ slots e s i in (suc k, q, f)
    | free f later e q ↦ first_or_later f later (found fuel _ later e s) (rw q at i)
  ]
    where
      first_or_later :
          IsFree timing blocked window_end cursor
          → (later : List Slot)
          → (In s later → Offered (cursor +ℤ minutes timing.visible_duration_minutes) s)
          → (s ≡ slot_at timing cursor) ⊎ In s later
          → Offered cursor s
      first_or_later f later ih (inl e) = (0, e, f)
      first_or_later f later ih (inr i) = let (k, q, g) = ih i in (suc k, q, g)

  offered :
      (fuel : ℕ) (cursor : ℤ) (slots : List Slot)
      → window_slots timing blocked window_end fuel cursor ≡ ok slots
      → (k : ℕ) → IsFree timing blocked window_end (cursor_after timing cursor k)
      → In (slot_at timing (cursor_after timing cursor k)) slots
  unfolding rest_slots
  offered zero cursor slots h k f = absurd (no_fuel cursor h)
  offered (suc fuel) cursor slots h zero f = elim (round fuel cursor h) [
    | past late e ↦ absurd (omega arith)
    | taken fits busy e ↦ absurd (true≢false (sym busy ∙ f.1))
    | free g later e q ↦ rw q (inl refl)
  ]
  offered (suc fuel) cursor slots h (suc k) f = elim (round fuel cursor h) [
    | past late e ↦
        absurd (
          omega
            (int_laws, block_end-mono timing cursor _ (cursor_after-mono timing cursor (suc k))))
    | taken fits busy e ↦ offered fuel _ slots e k f
    | free g later e q ↦ rw q (inr (offered fuel _ later e k f))
  ]

-- The slots that the loop over a window gives are exactly the candidates at whole steps of the
-- duration from the cursor whose blocked interval ends in the window and meets no blocked interval.
pub window_slots_exact :
    (timing : ServiceTiming) (blocked : List Interval) (window_end : ℤ) (fuel : ℕ) (cursor : ℤ)
    (slots : List Slot)
    → window_slots timing blocked window_end fuel cursor ≡ ok slots
    → (s : Slot)
    → In s slots ↔ (
        (k : ℕ) × (s ≡ slot_at timing (cursor_after timing cursor k))
        × IsFree timing blocked window_end (cursor_after timing cursor k))
window_slots_exact timing blocked window_end fuel cursor slots h s = (
  found timing blocked window_end fuel cursor slots h s,
  λ (k, e, f). rw e (offered timing blocked window_end fuel cursor slots h k f),
)

enough_fuel :
    (timing : ServiceTiming) (blocked : List Interval) (window_end : ℤ)
    → 0 < timing.visible_duration_minutes
    → (fuel : ℕ) (cursor : ℤ) → pos_part (window_end -ℤ cursor) / 60_000_000 < fuel
    → (slots : List Slot) × (window_slots timing blocked window_end fuel cursor ≡ ok slots)
unfolding window_slots
enough_fuel timing blocked window_end positive zero cursor h = absurd (omega arith)
enough_fuel timing blocked window_end positive (suc fuel) cursor h =
    elim (Bool-cases (ltb_ℤ window_end (block_at timing cursor).1)) [
      | inl late ↦ ([], ground arith)
      | inr fits ↦
          let (later, e) =
            enough_fuel timing blocked window_end positive fuel
              (cursor +ℤ minutes timing.visible_duration_minutes)
              (less_left timing window_end cursor fuel positive fits h) in
          elim (Bool-cases (is_blocked blocked (block_at timing cursor))) [
            | inl busy ↦ (later, rw (fits, busy) e)
            | inr idle ↦ (slot_at timing cursor ∷ later, rw (fits, idle, e))
          ]
    ]

-- With a positive duration the loop over a window, on the fuel that `window_fuel` gives it, ends
-- with slots.
pub window_slots_total :
    (timing : ServiceTiming) (blocked : List Interval) (window_end cursor : ℤ)
    → 0 < timing.visible_duration_minutes
    → (slots : List Slot) × (window_slots timing blocked window_end
          (window_fuel window_end cursor)
          cursor
        ≡ ok slots)
unfolding window_fuel
window_slots_total timing blocked window_end cursor positive =
    enough_fuel timing blocked window_end positive _ cursor (omega arith)
