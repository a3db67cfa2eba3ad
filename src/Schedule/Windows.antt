-- ===== src/Schedule/Windows.antt =====
-- What an orderly schedule gives the search for slots (`day_windows` of the scheduler): the windows of
-- a day are in order and do not overlap.
use book_point.Base.{
  ℕ, ◌≡◌, Bool, true, false, not, ◌&&◌, some, inl, inr, List, [], ◌∷◌, map, leb, ◌==◌, any, keep,
  All, All-map, Bool-cases, arith,
}
use book_point.Models.{Directory, ProviderAvailability, ProviderDateOverride}
use book_point.Repositories.{list_availabilities, list_overrides}
use book_point.Schedule.Dated.{IsDated, IsShaped, Shape, overrides_clash}
use book_point.Schedule.Overrides.{lt_column}
use book_point.Schedule.Pairwise.{KeepsFrom, Pairwise, keep-All, keep-Pairwise}
use book_point.Schedule.Weekly.{IsOrdered, IsWeekly, blocks_clash}
use book_point.Scheduling.Slots.{Window, day_windows, is_empty}
use book_point.Time.{weekday}

abbrev pub IsWindow : Window → Type 0
IsWindow w = Shape true w.0 w.1

abbrev pub windows_meet : Window → Window → Bool
windows_meet v w = lt_column w.0 v.1 && lt_column v.0 w.1

-- Each window starts before it ends, and no two of them overlap.
abbrev pub WindowsApart : List Window → Type 0
WindowsApart [] = Unit
WindowsApart (w ∷ windows) =
    IsWindow w × All (λ v. windows_meet w v ≡ false) windows × WindowsApart windows

keep-All_self : {A : Type 0} (p : A → Bool) (rows : List A) → All (λ a. p a ≡ true) (keep p rows)
keep-All_self p [] = tt
keep-All_self p (a ∷ rows) = elim (Bool-cases (p a)) [
  | inl y ↦ rw y (y, keep-All_self p rows)
  | inr n ↦ rw n (keep-All_self p rows)
]

abbrev weekly_window : ProviderAvailability → Window
weekly_window a = (some a.start_time, some a.end_time)

abbrev special_window : ProviderDateOverride → Window
special_window o = (o.start_time, o.end_time)

-- Rows of one provider and one weekday or date, all active.
abbrev OnWeekday : ℕ → ℕ → ProviderAvailability → Type 0
OnWeekday p day a =
    ((a.provider_id == p) ≡ true) × (a.is_active ≡ true) × ((a.weekday == day) ≡ true)

abbrev OnDate : ℕ → ℕ → ProviderDateOverride → Type 0
OnDate p day o =
    ((o.provider_id == p) ≡ true)
    × (o.is_active ≡ true)
    × ((o.override_date == day) ≡ true)
    × (o.is_available ≡ true)

module _ (p day : ℕ) where
  weekly-away :
      (a : ProviderAvailability) (rows : List ProviderAvailability)
      → OnWeekday p day a
      → All (OnWeekday p day) rows
      → All (KeepsFrom (λ b. b.id) blocks_clash a) rows
      → All (λ v. windows_meet (weekly_window a) v ≡ false) (map weekly_window rows)
  unfolding blocks_clash
  weekly-away a [] s t k = tt
  weekly-away a (b ∷ rows) s t k =
      (ground (arith, k.0.1, t.0.0, t.0.1, t.0.2), weekly-away a rows s t.1 k.1)

  weekly-apart :
      (n : ℕ) (rows : List ProviderAvailability)
      → All (OnWeekday p day) rows
      → Pairwise (λ b. b.id) blocks_clash n rows
      → All IsOrdered rows
      → WindowsApart (map weekly_window rows)
  weekly-apart n [] t w o = tt
  weekly-apart n (a ∷ rows) t w o =
      (o.0, weekly-away a rows t.0 t.1 w.1, weekly-apart n rows t.1 w.2 o.1)

  special-away :
      (a : ProviderDateOverride) (rows : List ProviderDateOverride)
      → OnDate p day a
      → All (OnDate p day) rows
      → All (KeepsFrom (λ b. b.id) overrides_clash a) rows
      → All (λ v. windows_meet (special_window a) v ≡ false) (map special_window rows)
  unfolding overrides_clash
  special-away a [] s t k = tt
  special-away a (b ∷ rows) s t k =
      (ground (arith, k.0.1, t.0.0, t.0.1, t.0.2, t.0.3), special-away a rows s t.1 k.1)

  special-apart :
      (n : ℕ) (rows : List ProviderDateOverride)
      → All (OnDate p day) rows
      → Pairwise (λ b. b.id) overrides_clash n rows
      → All IsShaped rows
      → WindowsApart (map special_window rows)
  special-apart n [] t w o = tt
  special-apart n (a ∷ rows) t w o =
      let shaped : IsWindow (special_window a) = rw (t.0.3) at (o.0) in
      (shaped, special-away a rows t.0 t.1 w.1, special-apart n rows t.1 w.2 o.1)

All-both :
    {A : Type 0} (P Q : A → Type 0) (rows : List A)
    → All P rows
    → All Q rows
    → All (λ a. P a × Q a) rows
All-both P Q [] h k = tt
All-both P Q (a ∷ rows) h k = ((h.0, k.0), All-both P Q rows h.1 k.1)

-- A row that two filters let through meets the first test too.
keep-All_inner :
    {A : Type 0} (p q : A → Bool) (rows : List A)
    → All (λ a. (p a ≡ true) × (q a ≡ true)) (keep p (keep q rows))
keep-All_inner p q rows =
    All-both (λ a. p a ≡ true) (λ a. q a ≡ true) (keep p (keep q rows))
      (keep-All_self p (keep q rows))
      (keep-All (λ a. q a ≡ true) p (keep q rows) (keep-All_self q rows))

module _ (n : ℕ) (p day : ℕ) where
  weekly_windows-apart :
      (rows : List ProviderAvailability)
      → IsWeekly n rows
      → WindowsApart (
          map weekly_window (
            keep
              (λ a. a.weekday == weekday day)
              (keep (λ a. a.is_active) (keep (λ a. a.provider_id == p) rows))))
  weekly_windows-apart rows h =
      let of_provider = keep (λ a. a.provider_id == p) rows in
      let active = keep (λ a. a.is_active) of_provider in
      let on_day = keep (λ a. a.weekday == weekday day) active in
      let inner = keep-All_inner (λ a. a.is_active) (λ a. a.provider_id == p) rows in
      let facts =
        All-both (λ a. (a.weekday == weekday day) ≡ true)
          (λ a. (a.is_active ≡ true) × ((a.provider_id == p) ≡ true)) on_day
          (keep-All_self (λ a. a.weekday == weekday day) active)
          (keep-All (λ a. (a.is_active ≡ true) × ((a.provider_id == p) ≡ true))
            (λ a. a.weekday == weekday day) active inner) in
      let there =
        All-map
          (λ a.
            ((a.weekday == weekday day) ≡ true)
            × ((a.is_active ≡ true) × ((a.provider_id == p) ≡ true)))
          (OnWeekday p (weekday day)) on_day (λ a t. (t.1.1, t.1.0, t.0)) facts in
      weekly-apart p (weekday day) n on_day there
        (keep-Pairwise (λ b. b.id) blocks_clash n (λ a. a.weekday == weekday day) active
          (keep-Pairwise (λ b. b.id) blocks_clash n (λ a. a.is_active) of_provider
            (keep-Pairwise (λ b. b.id) blocks_clash n (λ a. a.provider_id == p) rows h.0)))
        (keep-All IsOrdered (λ a. a.weekday == weekday day) active
          (keep-All IsOrdered (λ a. a.is_active) of_provider
            (keep-All IsOrdered (λ a. a.provider_id == p) rows h.1)))

  special_windows-apart :
      (start_date end_date : ℕ) (d : Directory)
      → IsDated n d.overrides
      → WindowsApart (
          map special_window (
            keep
              (λ o. o.is_available)
              (keep
                (λ o. o.override_date == day)
                (keep (λ o. o.is_active) (list_overrides d p start_date end_date)))))
  special_windows-apart start_date end_date d h =
      let in_range = λ (o : ProviderDateOverride).
        (o.provider_id == p) && (leb start_date o.override_date && leb o.override_date end_date) in
      let listed = keep in_range d.overrides in
      let active = keep (λ o. o.is_active) listed in
      let on_day = keep (λ o. o.override_date == day) active in
      let special = keep (λ o. o.is_available) on_day in
      let facts =
        All-both (λ o. (o.is_available ≡ true) × ((o.override_date == day) ≡ true))
          (λ o. (o.is_active ≡ true) × (in_range o ≡ true)) special
          (keep-All_inner (λ o. o.is_available) (λ o. o.override_date == day) active)
          (keep-All (λ o. (o.is_active ≡ true) × (in_range o ≡ true)) (λ o. o.is_available) on_day
            (keep-All (λ o. (o.is_active ≡ true) × (in_range o ≡ true))
              (λ o. o.override_date == day) active
              (keep-All_inner (λ o. o.is_active) in_range d.overrides))) in
      let there =
        All-map
          (λ o.
            ((o.is_available ≡ true) × ((o.override_date == day) ≡ true))
            × ((o.is_active ≡ true) × (in_range o ≡ true)))
          (OnDate p day) special (λ o t. (of_provider o t.1.1, t.1.0, t.0.1, t.0.0)) facts in
      special-apart p day n special there
        (keep-Pairwise (λ b. b.id) overrides_clash n (λ o. o.is_available) on_day
          (keep-Pairwise (λ b. b.id) overrides_clash n (λ o. o.override_date == day) active
            (keep-Pairwise (λ b. b.id) overrides_clash n (λ o. o.is_active) listed
              (keep-Pairwise (λ b. b.id) overrides_clash n in_range d.overrides h.0))))
        (keep-All IsShaped (λ o. o.is_available) on_day
          (keep-All IsShaped (λ o. o.override_date == day) active
            (keep-All IsShaped (λ o. o.is_active) listed
              (keep-All IsShaped in_range d.overrides h.1))))
    where
      of_provider :
          (o : ProviderDateOverride)
          → ((o.provider_id == p)
              && (leb start_date o.override_date && leb o.override_date end_date))
            ≡ true
          → (o.provider_id == p) ≡ true
      of_provider o t = ground arith

-- In an orderly schedule the windows that the search for slots uses on a day, of any provider,
-- range and day, each have a start before their end, and no two of them overlap.
pub day_windows-apart :
    (n p start_date end_date day : ℕ) (d : Directory)
    → IsWeekly n d.availabilities
    → IsDated n d.overrides
    → WindowsApart (
        day_windows
          (keep (λ o. o.is_active) (list_overrides d p start_date end_date))
          (keep (λ a. a.is_active) (list_availabilities d p))
          day)
unfolding day_windows
day_windows-apart n p start_date end_date day d h k =
    let active = keep (λ o. o.is_active) (list_overrides d p start_date end_date) in
    let on_day = keep (λ o. o.override_date == day) active in
    elim (Bool-cases (is_empty on_day)) [
      | inl none_here ↦ rw none_here (weekly_windows-apart n p day d.availabilities h)
      | inr some_here ↦ elim (Bool-cases (any (λ o. not o.is_available) on_day)) [
        | inl off ↦ rw (some_here, off) tt
        | inr not_off ↦
            rw (some_here, not_off) (special_windows-apart n p day start_date end_date d k)
      ]
    ]
