-- ===== src/Scheduling/Slots/Sorted.antt =====
-- The stable sort of the slots, and the loop that gathers them.
use book_point.Base.{
  ◌≡◌, refl, ◌⊎◌, inl, inr, List, [], ◌∷◌, ◌++◌, In, All, All-map, Bool-cases, arith,
}
use book_point.Base.Int.{◌≤ℤ◌, ltb_ℤ}
use book_point.Results.{Result, ok, >>=-eq-ok}
use book_point.Scheduling.Slots.{insert_slot, sort_slots, gather}
use book_point.Scheduling.Slots.Window.{Slot}

-- No slot starts before one that stands ahead of it.
abbrev pub IsSorted : List Slot → Type 0
IsSorted [] = Unit
IsSorted (s ∷ slots) = All (λ t. s.start_datetime ≤ℤ t.start_datetime) slots × IsSorted slots

module _ (s : Slot) where
  All-insert_slot :
      (P : Slot → Type 0) (slots : List Slot) → P s → All P slots → All P (insert_slot s slots)
  unfolding insert_slot
  All-insert_slot P [] p h = (p, tt)
  All-insert_slot P (t ∷ slots) p h = elim (Bool-cases (ltb_ℤ t.start_datetime s.start_datetime)) [
    | inl later ↦ rw later (h.0, All-insert_slot P slots p h.1)
    | inr first ↦ rw first (p, h)
  ]

  insert_slot-IsSorted : (slots : List Slot) → IsSorted slots → IsSorted (insert_slot s slots)
  unfolding insert_slot
  insert_slot-IsSorted [] h = (tt, tt)
  insert_slot-IsSorted (t ∷ slots) h = elim (Bool-cases (ltb_ℤ t.start_datetime s.start_datetime)) [
    | inl later ↦ rw later (
      All-insert_slot (λ u. t.start_datetime ≤ℤ u.start_datetime) slots (ground arith) h.0,
      insert_slot-IsSorted slots h.1,
    )
    | inr first ↦
        let here : s.start_datetime ≤ℤ t.start_datetime = ground arith in
        rw first ((here, All-map _ _ slots (λ u q. omega arith) h.0), h)
  ]

  In-of_In-insert_slot :
      (u : Slot) (slots : List Slot) → In u (insert_slot s slots) → (u ≡ s) ⊎ In u slots
  unfolding insert_slot
  In-of_In-insert_slot u [] i = i
  In-of_In-insert_slot u (t ∷ slots) i =
      elim (Bool-cases (ltb_ℤ t.start_datetime s.start_datetime)) [
        | inl later ↦ behind (In-of_In-insert_slot u slots) (rw later at i)
        | inr first ↦ rw first at i
      ]
    where
      behind :
          (In u (insert_slot s slots) → (u ≡ s) ⊎ In u slots)
          → (u ≡ t) ⊎ In u (insert_slot s slots)
          → (u ≡ s) ⊎ ((u ≡ t) ⊎ In u slots)
      behind ih (inl e) = inr (inl e)
      behind ih (inr j) = elim (ih j) [ inl e ↦ inl e | inr k ↦ inr (inr k) ]

pub sort_slots-IsSorted : (slots : List Slot) → IsSorted (sort_slots slots)
unfolding sort_slots
sort_slots-IsSorted [] = tt
sort_slots-IsSorted (s ∷ slots) =
    insert_slot-IsSorted s (sort_slots slots) (sort_slots-IsSorted slots)

pub In-of_In-sort_slots : (u : Slot) (slots : List Slot) → In u (sort_slots slots) → In u slots
unfolding sort_slots
In-of_In-sort_slots u [] i = i
In-of_In-sort_slots u (s ∷ slots) i = elim (In-of_In-insert_slot s u (sort_slots slots) i) [
  | inl e ↦ inl e
  | inr j ↦ inr (In-of_In-sort_slots u slots j)
]

In-split : (u : Slot) (xs ys : List Slot) → In u (xs ++ ys) → In u xs ⊎ In u ys
In-split u [] ys i = inr i
In-split u (x ∷ xs) ys (inl e) = inl (inl e)
In-split u (x ∷ xs) ys (inr i) = elim (In-split u xs ys i) [ inl j ↦ inl (inr j) | inr j ↦ inr j ]

-- What is gathered was given by one of the items.
pub In-of_In-gather :
    {A : Type 0} (f : A → Result (List Slot)) (xs : List A) (out : List Slot)
    → gather f xs ≡ ok out
    → (u : Slot) → In u out
    → (x : A) × In x xs × ((ys : List Slot) × (f x ≡ ok ys) × In u ys)
unfolding gather
In-of_In-gather f [] out h u i = let e : out ≡ [] = cc in absurd (rw e at i)
In-of_In-gather {A} f (x ∷ xs) out h u i =
    let (ys, e, h') = >>=-eq-ok (f x) _ h in
    let (rest, e', h'') = >>=-eq-ok (gather f xs) _ h' in
    let q : out ≡ ys ++ rest = cc in
    elim (In-split u ys rest (rw q at i)) [
      | inl j ↦ (x, inl refl, (ys, e, j))
      | inr j ↦ let (y, k, w) = In-of_In-gather f xs rest e' u j in (y, inr k, w)
    ]
