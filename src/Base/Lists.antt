-- ===== src/Base/Lists.antt =====
-- Lists over the native numbers: length, membership predicates, tests and searches.
use Prim.Native.Nat.{ℕ, suc}
use mathlib.Core.Path.{◌≡◌, refl}
use mathlib.Core.Logic.{◌⊎◌, inl, inr}
use mathlib.Core.Bool.{Bool, true, false, ◌||◌, ◌&&◌}
use mathlib.Core.Option
use mathlib.Core.Option.{Option, none, some}
use mathlib.Core.List.{List, [], ◌∷◌, ◌++◌, map}
use native.Mathlib.Omega.{arith}
use book_point.Base.Tests.{ltb, if◌then◌else◌, Bool-cases}

module _ {ℓ} {A : Type ℓ} where
  abbrev pub length : List A → ℕ
  length [] = 0
  length (_ ∷ xs) = suc (length xs)

  -- `any(p(x) for x in xs)`
  abbrev pub any : (A → Bool) → List A → Bool
  any p [] = false
  any p (x ∷ xs) = p x || any p xs

  -- `[x for x in xs if p(x)]`
  abbrev pub keep : (A → Bool) → List A → List A
  keep p [] = []
  keep p (x ∷ xs) = let rest = keep p xs in if p x then x ∷ rest else rest

  -- The first row that meets a condition, as a query with `limit 1` gives it.
  abbrev pub first : (A → Bool) → List A → Option A
  first p [] = none
  first p (x ∷ xs) = if p x then some x else first p xs

  -- Every row meets a condition.
  abbrev pub All {κ} : (A → Type κ) → List A → Type κ
  All holds [] = Unit
  All holds (row ∷ rows) = holds row × All holds rows

  -- `order_by(column.asc())`
  abbrev pub insert_by : (A → ℕ) → A → List A → List A
  insert_by key a [] = a ∷ []
  insert_by key a (b ∷ xs) =
      let rest = insert_by key a xs in if ltb (key b) (key a) then b ∷ rest else a ∷ b ∷ xs

  unfoldable pub sort_by : (A → ℕ) → List A → List A
  sort_by key [] = []
  sort_by key (a ∷ xs) = insert_by key a (sort_by key xs)

-- Rows of the tables are small types, and so is the place that a row has in a list.
module _ {A : Type 0} where
  abbrev pub In : A → List A → Type 0
  In a [] = ⊥
  In a (x ∷ xs) = (a ≡ x) ⊎ In a xs

  pub In-append_left : (a : A) (xs ys : List A) → In a xs → In a (xs ++ ys)
  In-append_left a [] ys h = absurd h
  In-append_left a (x ∷ xs) ys (inl e) = inl e
  In-append_left a (x ∷ xs) ys (inr h) = inr (In-append_left a xs ys h)

  pub In-append_right : (a : A) (xs ys : List A) → In a ys → In a (xs ++ ys)
  In-append_right a [] ys h = h
  In-append_right a (x ∷ xs) ys h = inr (In-append_right a xs ys h)

  pub any_of_In : (p : A → Bool) (a : A) (xs : List A) → In a xs → p a ≡ true → any p xs ≡ true
  any_of_In p a [] h e = absurd h
  any_of_In p a (x ∷ xs) (inl q) e = ground arith
  any_of_In p a (x ∷ xs) (inr h) e = ground (arith, any_of_In p a xs h e)

  pub In-of_any : (p : A → Bool) (xs : List A) → any p xs ≡ true → (a : A) × In a xs × (p a ≡ true)
  In-of_any p [] e = cc
  In-of_any p (x ∷ xs) e = elim (Bool-cases (p x)) [
    | inl h ↦ (x, inl refl, h)
    | inr h ↦ let (a, i, q) = In-of_any p xs (ground arith) in (a, inr i, q)
  ]

  pub In-keep : (p : A → Bool) (a : A) (xs : List A) → In a xs → p a ≡ true → In a (keep p xs)
  In-keep p a [] h e = absurd h
  In-keep p a (x ∷ xs) (inl q) e = rw (← q, e) (inl refl)
  In-keep p a (x ∷ xs) (inr h) e = elim (Bool-cases (p x)) [
    | inl y ↦ rw y (inr (In-keep p a xs h e))
    | inr n ↦ rw n (In-keep p a xs h e)
  ]

  pub In-of_In-keep :
      (p : A → Bool) (a : A) (xs : List A) → In a (keep p xs) → In a xs × (p a ≡ true)
  In-of_In-keep p a [] h = absurd h
  In-of_In-keep p a (x ∷ xs) h = elim (Bool-cases (p x)) [
    | inl y ↦ kept y (In-of_In-keep p a xs) (rw y at h)
    | inr n ↦ let (i, e) = In-of_In-keep p a xs (rw n at h) in (inr i, e)
  ]
    where
      kept :
          p x ≡ true
          → (In a (keep p xs) → In a xs × (p a ≡ true))
          → (a ≡ x) ⊎ In a (keep p xs)
          → ((a ≡ x) ⊎ In a xs) × (p a ≡ true)
      kept y ih (inl e) = (inl e, rw e y)
      kept y ih (inr i) = let (j, e) = ih i in (inr j, e)

  pub All_of_In : (P : A → Type 0) (xs : List A) → All P xs → (a : A) → In a xs → P a
  All_of_In P [] h a i = absurd i
  All_of_In P (x ∷ xs) h a (inl e) = rw e (h.0)
  All_of_In P (x ∷ xs) h a (inr i) = All_of_In P xs h.1 a i

  pub All-map : (P Q : A → Type 0) (xs : List A) → ((a : A) → P a → Q a) → All P xs → All Q xs
  All-map P Q [] f h = tt
  All-map P Q (x ∷ xs) f h = (f x h.0, All-map P Q xs f h.1)

  pub any-keep : (p q : A → Bool) (xs : List A) → any q (keep p xs) ≡ any (λ x. p x && q x) xs
  any-keep p q [] = refl
  any-keep p q (x ∷ xs) = elim (Bool-cases (p x)) [
    | inl y ↦ rw y (rw (any-keep p q xs))
    | inr n ↦ rw n (any-keep p q xs)
  ]

  pub any_congr :
      (p q : A → Bool) (xs : List A) → ((a : A) → In a xs → p a ≡ q a) → any p xs ≡ any q xs
  any_congr p q [] h = refl
  any_congr p q (x ∷ xs) h = rw (h x (inl refl)) (rw (any_congr p q xs (λ a i. h a (inr i))))

  pub In-of_first :
      (p : A → Bool) (xs : List A) {a : A} → first p xs ≡ some a → In a xs × (p a ≡ true)
  In-of_first p [] e = cc
  In-of_first p (x ∷ xs) {a} e = elim (Bool-cases (p x)) [
    | inl y ↦ found y (rw y at e)
    | inr n ↦ let (i, q) = In-of_first p xs (rw n at e) in (inr i, q)
  ]
    where
      found : p x ≡ true → some x ≡ some a → In a (x ∷ xs) × (p a ≡ true)
      found y q = let r : a ≡ x = cc in (inl r, rw r y)

  -- A search by a test that an update keeps finds the updated row.
  pub first-map :
      (p : A → Bool) (u : A → A) (xs : List A)
      → ((x : A) → p (u x) ≡ p x)
      → first p (map u xs) ≡ Option.map u (first p xs)
  first-map p u [] h = refl
  first-map p u (x ∷ xs) h = elim (Bool-cases (p x)) [
    | inl y ↦ rw (h x, y)
    | inr n ↦ rw (h x, n) (first-map p u xs h)
  ]

  pub Option-map-eq_some :
      {B : Type 0} (u : A → B) (o : Option A) {b : B}
      → Option.map u o ≡ some b
      → (a : A) × (o ≡ some a) × (b ≡ u a)
  Option-map-eq_some u none e = cc
  Option-map-eq_some u (some a) e = (a, refl, (cc))

  pub In-of_In-insert_by :
      (key : A → ℕ) (a b : A) (xs : List A) → In a (insert_by key b xs) → (a ≡ b) ⊎ In a xs
  In-of_In-insert_by key a b [] h = h
  In-of_In-insert_by key a b (x ∷ xs) h = elim (Bool-cases (ltb (key x) (key b))) [
    | inl y ↦ later (rw y at h) (In-of_In-insert_by key a b xs)
    | inr n ↦ rw n at h
  ]
    where
      inserted : (a ≡ b) ⊎ In a xs → (a ≡ b) ⊎ In a (x ∷ xs)
      inserted (inl e) = inl e
      inserted (inr i) = inr (inr i)

      later :
          (a ≡ x) ⊎ In a (insert_by key b xs)
          → (In a (insert_by key b xs) → (a ≡ b) ⊎ In a xs)
          → (a ≡ b) ⊎ In a (x ∷ xs)
      later (inl e) ih = inr (inl e)
      later (inr i) ih = inserted (ih i)

  pub In-of_In-sort_by : (key : A → ℕ) (a : A) (xs : List A) → In a (sort_by key xs) → In a xs
  unfolding sort_by
  In-of_In-sort_by key a [] h = h
  In-of_In-sort_by key a (x ∷ xs) h =
      moved (In-of_In-insert_by key a x (sort_by key xs) h) (In-of_In-sort_by key a xs)
    where
      moved :
          (a ≡ x) ⊎ In a (sort_by key xs) → (In a (sort_by key xs) → In a xs) → (a ≡ x) ⊎ In a xs
      moved (inl e) ih = inl e
      moved (inr i) ih = inr (ih i)

  pub In-insert_by :
      (key : A → ℕ) (a b : A) (xs : List A) → (a ≡ b) ⊎ In a xs → In a (insert_by key b xs)
  In-insert_by key a b [] h = h
  In-insert_by key a b (x ∷ xs) h = elim (Bool-cases (ltb (key x) (key b))) [
    | inl y ↦ rw y (later h (λ k. In-insert_by key a b xs k))
    | inr n ↦ rw n h
  ]
    where
      later :
          (a ≡ b) ⊎ In a (x ∷ xs)
          → ((a ≡ b) ⊎ In a xs → In a (insert_by key b xs))
          → (a ≡ x) ⊎ In a (insert_by key b xs)
      later (inl e) ih = inr (ih (inl e))
      later (inr (inl e)) ih = inl e
      later (inr (inr i)) ih = inr (ih (inr i))

  pub In-sort_by : (key : A → ℕ) (a : A) (xs : List A) → In a xs → In a (sort_by key xs)
  unfolding sort_by
  In-sort_by key a [] h = h
  In-sort_by key a (x ∷ xs) (inl e) = In-insert_by key a x (sort_by key xs) (inl e)
  In-sort_by key a (x ∷ xs) (inr i) =
      In-insert_by key a x (sort_by key xs) (inr (In-sort_by key a xs i))

  pub In-of_append : (a : A) (xs ys : List A) → In a (xs ++ ys) → In a xs ⊎ In a ys
  In-of_append a [] ys h = inr h
  In-of_append a (x ∷ xs) ys (inl e) = inl (inl e)
  In-of_append a (x ∷ xs) ys (inr i) = split (In-of_append a xs ys i)
    where
      split : In a xs ⊎ In a ys → ((a ≡ x) ⊎ In a xs) ⊎ In a ys
      split (inl j) = inl (inr j)
      split (inr j) = inr j
