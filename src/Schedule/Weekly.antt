-- ===== src/Schedule/Weekly.antt =====
-- The weekly blocks that backend/app/services/provider_availability_service.py keeps: no two active
-- blocks of a provider on one weekday overlap.
use book_point.Base.{
  ℕ, ◌<◌, ◌≡◌, refl, Bool, false, ◌&&◌, Option, none, some, inl, inr, List, [], ◌∷◌, ltb, ◌==◌, All,
  arith, not, ltb→lt, subst,
}
use book_point.Models.{Database, ProviderAvailability}
use book_point.Repositories.{get_provider}
use book_point.Results.{
  Result-cases, eq_of_ok, ok, >>=-eq-ok, or_raise-eq-ok, raise_if-eq-ok, require-eq-ok,
}
use book_point.Schedule.Availability.{
  ProviderAvailabilityCreate, ProviderAvailabilityUpdate, availability_row, set_fields,
  check_constraints, create_availability, delete_availability, get_availability, has_overlap,
  is_true, new_availability, target, update_availability, updated_availability,
}
use book_point.Schedule.Pairwise.{
  Pairwise, has_clash, insert-Pairwise, delete_row-All, keep-Pairwise, replace-Pairwise,
  replace_row-All,
}

-- Active blocks of one provider and weekday that overlap.
unfoldable pub blocks_clash : ProviderAvailability → ProviderAvailability → Bool
blocks_clash a b =
    ((a.provider_id == b.provider_id) && (a.weekday == b.weekday))
    && ((a.is_active && b.is_active)
        && (ltb b.start_time a.end_time && ltb a.start_time b.end_time))

abbrev pub IsOrdered : ProviderAvailability → Type 0
IsOrdered a = a.start_time < a.end_time

abbrev pub IsWeekly : ℕ → List ProviderAvailability → Type 0
IsWeekly n rows = Pairwise (λ a. a.id) blocks_clash n rows × All IsOrdered rows

blocks_clash_comm : (a b : ProviderAvailability) → blocks_clash a b ≡ blocks_clash b a
unfolding blocks_clash
blocks_clash_comm a b = ground arith

-- The query of the service finds the rows that the new row would clash with.
has_overlap-has_clash :
    (a : ProviderAvailability) (exclude : Option ℕ) (rows : List ProviderAvailability)
    → (a.is_active
        && has_overlap rows a.provider_id (some a.weekday) a.start_time a.end_time exclude)
      ≡ false
    → has_clash (λ b. b.id) blocks_clash a exclude rows ≡ false
unfolding has_overlap blocks_clash
has_overlap-has_clash a exclude [] h = refl
has_overlap-has_clash a exclude (b ∷ rows) h = ground (arith, has_overlap-has_clash a exclude rows)

abbrev IsFit : ProviderAvailability → Option ℕ → List ProviderAvailability → Type 0
IsFit a exclude rows = IsOrdered a × (has_clash (λ b. b.id) blocks_clash a exclude rows ≡ false)

new_availability-IsFit :
    (payload : ProviderAvailabilityCreate) (db : Database) (a : ProviderAvailability)
    → new_availability payload db ≡ ok a
    → (a.id ≡ db.next_id) × IsFit a none db.directory.availabilities
unfolding new_availability
new_availability-IsFit payload db a e =
    let rows = db.directory.availabilities in
    let row = availability_row db.next_id payload in
    let (provider, _, h₁) = or_raise-eq-ok (get_provider db.directory payload.provider_id) _ _ e in
    let (ordered, h₂) = require-eq-ok (ltb payload.start_time payload.end_time) _ _ h₁ in
    let (clear, h₃) =
      raise_if-eq-ok
        (payload.is_active
          && has_overlap rows payload.provider_id (some payload.weekday) payload.start_time
              payload.end_time none)
        _ _ h₂ in
    let (_, _, made) = >>=-eq-ok (check_constraints rows row) _ h₃ in
    subst (λ (b : ProviderAvailability). (b.id ≡ db.next_id) × IsFit b none rows) (eq_of_ok made)
      (refl, (ltb→lt _ _ ordered, has_overlap-has_clash row none rows clear))

-- The query at targets that are not NULL.
at_targets :
    (rows : List ProviderAvailability) (p start end : ℕ) (exclude : Option ℕ)
    (is_active : Option Bool) (weekday : Option ℕ) {active : Bool} {day : ℕ}
    → is_active ≡ some active
    → weekday ≡ some day
    → (is_true is_active && has_overlap rows p weekday start end exclude) ≡ false
    → (active && has_overlap rows p (some day) start end exclude) ≡ false
at_targets rows p start end exclude is_active weekday e q h = rw (e, q) at h

updated_availability-IsFit :
    (k : ℕ) (payload : ProviderAvailabilityUpdate) (db : Database) (a : ProviderAvailability)
    → updated_availability k payload db ≡ ok a
    → IsFit a (some a.id) db.directory.availabilities
unfolding updated_availability
updated_availability-IsFit k payload db a e =
    let rows = db.directory.availabilities in
    let (old, _, h₁) = or_raise-eq-ok (get_availability db.directory k) _ _ e in
    let (provider, _, h₂) = or_raise-eq-ok (get_provider db.directory old.provider_id) _ _ h₁ in
    let (start, _, h₃) = or_raise-eq-ok (target payload.start_time old.start_time) _ _ h₂ in
    let (end, _, h₄) = or_raise-eq-ok (target payload.end_time old.end_time) _ _ h₃ in
    let (ordered, h₅) = require-eq-ok (ltb start end) _ _ h₄ in
    let (clear, h₆) =
      raise_if-eq-ok
        (is_true (target payload.is_active old.is_active)
          && has_overlap rows old.provider_id (target payload.weekday old.weekday) start end
              (some old.id))
        _ _ h₅ in
    let (day, day_is, h₇) = or_raise-eq-ok (target payload.weekday old.weekday) _ _ h₆ in
    let (active, active_is, h₈) = or_raise-eq-ok (target payload.is_active old.is_active) _ _ h₇ in
    let row = set_fields old day start end active in
    let (_, _, made) = >>=-eq-ok (check_constraints rows row) _ h₈ in
    let clear' =
      at_targets rows old.provider_id start end (some old.id)
        (target payload.is_active old.is_active) (target payload.weekday old.weekday) active_is
        day_is clear in
    subst (λ (b : ProviderAvailability). IsFit b (some b.id) rows) (eq_of_ok made)
      (ltb→lt _ _ ordered, has_overlap-has_clash row (some old.id) rows clear')

module _ (db : Database) (h : IsWeekly db.next_id db.directory.availabilities) where
  pub create_availability-IsWeekly :
      (payload : ProviderAvailabilityCreate)
      → let after = (create_availability payload db).1 in
        IsWeekly after.next_id after.directory.availabilities
  unfolding create_availability
  create_availability-IsWeekly payload = elim (Result-cases (new_availability payload db)) [
    | inl (e, q) ↦ rw q h
    | inr (a, q) ↦
        let (new, (ordered, clear)) = new_availability-IsFit payload db a q in
        rw q (
          insert-Pairwise (λ b. b.id) blocks_clash db.next_id a db.directory.availabilities new
              clear h.0,
          (ordered, h.1),
        )
  ]

  pub update_availability-IsWeekly :
      (k : ℕ) (payload : ProviderAvailabilityUpdate)
      → let after = (update_availability k payload db).1 in
        IsWeekly after.next_id after.directory.availabilities
  unfolding update_availability
  update_availability-IsWeekly k payload = elim (Result-cases (updated_availability k payload db)) [
    | inl (e, q) ↦ rw q h
    | inr (a, q) ↦
        let (ordered, clear) = updated_availability-IsFit k payload db a q in
        rw q (
          replace-Pairwise (λ b. b.id) blocks_clash blocks_clash_comm db.next_id a
              db.directory.availabilities clear h.0,
          replace_row-All (λ b. b.id) IsOrdered a db.directory.availabilities ordered h.1,
        )
  ]

  pub delete_availability-IsWeekly :
      (k : ℕ)
      → let after = delete_availability k db in
        IsWeekly after.next_id after.directory.availabilities
  unfolding delete_availability
  delete_availability-IsWeekly k = (
    keep-Pairwise (λ b. b.id) blocks_clash db.next_id (λ b. not (b.id == k))
        db.directory.availabilities h.0,
    delete_row-All (λ b. b.id) IsOrdered k db.directory.availabilities h.1,
  )
