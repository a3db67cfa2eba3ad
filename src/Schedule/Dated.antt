-- ===== src/Schedule/Dated.antt =====
-- The overrides that backend/app/services/provider_date_override_service.py keeps: on one date an
-- active day off stands alone, and active working hours do not overlap.
use book_point.Base.{
  ℕ, ◌<◌, ◌≡◌, refl, subst, Bool, true, false, not, ◌&&◌, ◌||◌, Option, none, some, inl, inr, List,
  [], ◌∷◌, ltb, ltb→lt, ◌==◌, All, arith,
}
use book_point.Models.{Database, ProviderDateOverride}
use book_point.Repositories.{get_provider}
use book_point.Results.{
  Result-cases, eq_of_ok, ok, >>=-eq-ok, or_raise-eq-ok, raise_if-eq-ok, require-eq-ok,
}
use book_point.Schedule.Availability.{is_true, target}
use book_point.Schedule.Overrides.{
  ProviderDateOverrideCreate, ProviderDateOverrideUpdate, create_override, delete_override,
  get_override, has_active_available_windows, has_active_unavailable_day, has_overlap, lt_column,
  new_override, override_row, set_fields, target_column, update_override, updated_override,
  validate_override_payload,
}
use book_point.Schedule.Pairwise.{
  Pairwise, delete_row-All, has_clash, insert-Pairwise, keep-Pairwise, replace-Pairwise,
  replace_row-All,
}

-- Active overrides of one provider and date that do not go together.
unfoldable pub overrides_clash : ProviderDateOverride → ProviderDateOverride → Bool
overrides_clash a b =
    ((a.provider_id == b.provider_id) && (a.override_date == b.override_date))
    && ((a.is_active && b.is_active)
        && (not (a.is_available && b.is_available)
            || (lt_column b.start_time a.end_time && lt_column a.start_time b.end_time)))

-- Working hours have both times, in order; a day off has none.
abbrev pub Shape : Bool → Option ℕ → Option ℕ → Type 0
Shape true (some start) (some end) = start < end
Shape false none none = Unit
Shape _ _ _ = ⊥

abbrev pub IsShaped : ProviderDateOverride → Type 0
IsShaped o = Shape o.is_available o.start_time o.end_time

abbrev pub IsDated : ℕ → List ProviderDateOverride → Type 0
IsDated n rows = Pairwise (λ o. o.id) overrides_clash n rows × All IsShaped rows

overrides_clash_comm : (a b : ProviderDateOverride) → overrides_clash a b ≡ overrides_clash b a
unfolding overrides_clash
overrides_clash_comm a b = ground arith

abbrev IsClear : ProviderDateOverride → Option ℕ → List ProviderDateOverride → Type 0
IsClear o exclude rows = has_clash (λ b. b.id) overrides_clash o exclude rows ≡ false

inactive-IsClear :
    (o : ProviderDateOverride) (exclude : Option ℕ) (rows : List ProviderDateOverride)
    → o.is_active ≡ false
    → IsClear o exclude rows
unfolding overrides_clash
inactive-IsClear o exclude [] h = refl
inactive-IsClear o exclude (b ∷ rows) h = ground (arith, inactive-IsClear o exclude rows h)

module _ (o : ProviderDateOverride) (exclude : Option ℕ) where
  window-IsClear :
      (start end : ℕ) (rows : List ProviderDateOverride)
      → o.is_available ≡ true
      → o.start_time ≡ some start
      → o.end_time ≡ some end
      → has_active_unavailable_day rows o.provider_id (some o.override_date) exclude ≡ false
      → has_overlap rows o.provider_id (some o.override_date) start end exclude ≡ false
      → IsClear o exclude rows
  unfolding overrides_clash has_active_unavailable_day has_overlap
  window-IsClear start end [] v s e h k = refl
  window-IsClear start end (b ∷ rows) v s e h k =
      let rest = window-IsClear start end rows v s e (ground arith) (ground arith) in
      rw (v, s, e, rest) (ground arith)

  day_off-IsClear :
      (rows : List ProviderDateOverride)
      → has_active_available_windows rows o.provider_id (some o.override_date) exclude ≡ false
      → has_active_unavailable_day rows o.provider_id (some o.override_date) exclude ≡ false
      → IsClear o exclude rows
  unfolding overrides_clash has_active_unavailable_day has_active_available_windows
  day_off-IsClear [] h k = refl
  day_off-IsClear (b ∷ rows) h k =
      let rest = day_off-IsClear rows (ground arith) (ground arith) in rw rest (ground arith)

-- What the validation of a row grants.
module _ (o : ProviderDateOverride) (exclude : Option ℕ) (rows : List ProviderDateOverride) where
  IsClear-of_active :
      (active : Bool)
      → o.is_active ≡ active
      → (active ≡ true → IsClear o exclude rows)
      → IsClear o exclude rows
  IsClear-of_active true e f = f refl
  IsClear-of_active false e f = inactive-IsClear o exclude rows e

  validate-fit :
      (available : Bool) (start end : Option ℕ) (active : Bool)
      → o.is_available ≡ available
      → o.start_time ≡ start
      → o.end_time ≡ end
      → o.is_active ≡ active
      → validate_override_payload rows o.provider_id
          (some o.override_date)
          available
          start
          end
          active
          exclude
        ≡ ok tt
      → Shape available start end × IsClear o exclude rows
  unfolding validate_override_payload
  validate-fit true none end active v s e a h = cc
  validate-fit true (some start) none active v s e a h = cc
  validate-fit true (some start) (some end) active v s e a h =
      let (ordered, h₁) = require-eq-ok (ltb start end) _ _ h in
      let (no_day_off, h₂) =
        raise_if-eq-ok
          (active && has_active_unavailable_day rows o.provider_id (some o.override_date) exclude) _
          _ h₁ in
      let (no_overlap, _) =
        raise_if-eq-ok
          (active && has_overlap rows o.provider_id (some o.override_date) start end exclude) _ _
          h₂ in
      (
        ltb→lt _ _ ordered,
        IsClear-of_active active a (λ y.
            window-IsClear o exclude start end rows v s e (rw y at no_day_off)
              (rw y at no_overlap)),
      )
  validate-fit false (some start) end active v s e a h = cc
  validate-fit false none (some end) active v s e a h = cc
  validate-fit false none none active v s e a h =
      let (no_windows, h₁) =
        raise_if-eq-ok
          (active && has_active_available_windows rows o.provider_id (some o.override_date) exclude)
          _ _ h in
      let (no_day_off, _) =
        raise_if-eq-ok
          (active && has_active_unavailable_day rows o.provider_id (some o.override_date) exclude) _
          _ h₁ in
      (
        tt,
        IsClear-of_active active a
            (λ y. day_off-IsClear o exclude rows (rw y at no_windows) (rw y at no_day_off)),
      )

  validate-IsFit :
      validate_override_payload rows o.provider_id
          (some o.override_date)
          o.is_available
          o.start_time
          o.end_time
          o.is_active
          exclude
        ≡ ok tt
      → IsShaped o × IsClear o exclude rows
  validate-IsFit h =
      validate-fit o.is_available o.start_time o.end_time o.is_active refl refl refl refl h

new_override-IsFit :
    (payload : ProviderDateOverrideCreate) (db : Database) (o : ProviderDateOverride)
    → new_override payload db ≡ ok o
    → (o.id ≡ db.next_id) × (IsShaped o × IsClear o none db.directory.overrides)
unfolding new_override
new_override-IsFit payload db o e =
    let rows = db.directory.overrides in
    let row = override_row db.next_id payload in
    let (provider, _, h₁) = or_raise-eq-ok (get_provider db.directory payload.provider_id) _ _ e in
    let (_, valid, made) =
      >>=-eq-ok
        (validate_override_payload rows payload.provider_id (some payload.override_date)
          payload.is_available payload.start_time payload.end_time payload.is_active none)
        _ h₁ in
    subst (λ (b : ProviderDateOverride). (b.id ≡ db.next_id) × (IsShaped b × IsClear b none rows))
      (eq_of_ok made) (refl, validate-IsFit row none rows valid)

-- The validation at targets that are not NULL.
at_targets :
    (rows : List ProviderDateOverride) (p : ℕ) (start end exclude : Option ℕ) (date : Option ℕ)
    (is_available is_active : Option Bool) {day : ℕ} {available active : Bool}
    → date ≡ some day
    → is_available ≡ some available
    → is_active ≡ some active
    → validate_override_payload rows p date
        (is_true is_available)
        start
        end
        (is_true is_active)
        exclude
      ≡ ok tt
    → validate_override_payload rows p (some day) available start end active exclude ≡ ok tt
at_targets rows p start end exclude date is_available is_active d v a h = rw (d, v, a) at h

updated_override-IsFit :
    (k : ℕ) (payload : ProviderDateOverrideUpdate) (db : Database) (o : ProviderDateOverride)
    → updated_override k payload db ≡ ok o
    → IsShaped o × IsClear o (some o.id) db.directory.overrides
unfolding updated_override
updated_override-IsFit k payload db o e =
    let rows = db.directory.overrides in
    let (old, _, h₁) = or_raise-eq-ok (get_override db.directory k) _ _ e in
    let (provider, _, h₂) = or_raise-eq-ok (get_provider db.directory old.provider_id) _ _ h₁ in
    let date = target payload.override_date old.override_date in
    let available = target payload.is_available old.is_available in
    let active = target payload.is_active old.is_active in
    let start = target_column payload.start_time old.start_time in
    let end = target_column payload.end_time old.end_time in
    let (_, valid, h₃) =
      >>=-eq-ok
        (validate_override_payload rows old.provider_id date (is_true available) start end
          (is_true active) (some old.id))
        _ h₂ in
    let (day, day_is, h₄) = or_raise-eq-ok date _ _ h₃ in
    let (v, v_is, h₅) = or_raise-eq-ok available _ _ h₄ in
    let (a, a_is, made) = or_raise-eq-ok active _ _ h₅ in
    let row = set_fields old day v start end a in
    subst (λ (b : ProviderDateOverride). IsShaped b × IsClear b (some b.id) rows) (eq_of_ok made)
      (validate-IsFit row (some old.id) rows (
        at_targets rows old.provider_id start end (some old.id) date available active day_is v_is
          a_is valid))

module _ (db : Database) (h : IsDated db.next_id db.directory.overrides) where
  pub create_override-IsDated :
      (payload : ProviderDateOverrideCreate)
      → let after = (create_override payload db).1 in
        IsDated after.next_id after.directory.overrides
  unfolding create_override
  create_override-IsDated payload = elim (Result-cases (new_override payload db)) [
    | inl (e, q) ↦ rw q h
    | inr (o, q) ↦
        let (new, (shaped, clear)) = new_override-IsFit payload db o q in
        rw q (
          insert-Pairwise (λ b. b.id) overrides_clash db.next_id o db.directory.overrides new clear
              h.0,
          (shaped, h.1),
        )
  ]

  pub update_override-IsDated :
      (k : ℕ) (payload : ProviderDateOverrideUpdate)
      → let after = (update_override k payload db).1 in
        IsDated after.next_id after.directory.overrides
  unfolding update_override
  update_override-IsDated k payload = elim (Result-cases (updated_override k payload db)) [
    | inl (e, q) ↦ rw q h
    | inr (o, q) ↦
        let (shaped, clear) = updated_override-IsFit k payload db o q in
        rw q (
          replace-Pairwise (λ b. b.id) overrides_clash overrides_clash_comm db.next_id o
              db.directory.overrides clear h.0,
          replace_row-All (λ b. b.id) IsShaped o db.directory.overrides shaped h.1,
        )
  ]

  pub delete_override-IsDated :
      (k : ℕ) → let after = delete_override k db in IsDated after.next_id after.directory.overrides
  unfolding delete_override
  delete_override-IsDated k = (
    keep-Pairwise (λ b. b.id) overrides_clash db.next_id (λ b. not (b.id == k))
        db.directory.overrides h.0,
    delete_row-All (λ b. b.id) IsShaped k db.directory.overrides h.1,
  )
