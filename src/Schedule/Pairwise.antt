-- ===== src/Schedule/Pairwise.antt =====
-- Tables whose rows must not clash with one another, as the schedule services keep theirs: rows with
-- ids of their own, each pair of which passes a test, under insertion, update and deletion by id.
use book_point.Base.{
  ap, sym, In, All_of_In, ℕ, ◌+◌, ◌<◌, ◌≡◌, refl, ◌∙◌, Bool, true, false, not, ◌&&◌, Option, some,
  none, inl, inr, List, [], ◌∷◌, map, ◌==◌, any, keep, All, Bool-cases, arith, if◌then◌else◌,
}
use book_point.Repositories.{differs}

module _ {A : Type 0} where
  pub keep-All : (P : A → Type 0) (p : A → Bool) (rows : List A) → All P rows → All P (keep p rows)
  keep-All P p [] h = tt
  keep-All P p (b ∷ rows) h = elim (Bool-cases (p b)) [
    | inl y ↦ rw y (h.0, keep-All P p rows h.1)
    | inr n ↦ rw n (keep-All P p rows h.1)
  ]

module _ {A : Type 0} (id_of : A → ℕ) where
  -- `setattr` on the row of one id; `db.delete` of it.
  abbrev pub replace_row : A → List A → List A
  replace_row a = map (λ b. if id_of b == id_of a then a else b)

  abbrev pub delete_row : ℕ → List A → List A
  delete_row k = keep (λ b. not (id_of b == k))

  pub replace_row-All :
      (P : A → Type 0) (a : A) (rows : List A) → P a → All P rows → All P (replace_row a rows)
  replace_row-All P a [] h k = tt
  replace_row-All P a (b ∷ rows) h k = elim (Bool-cases (id_of b == id_of a)) [
    | inl same ↦ rw same (h, replace_row-All P a rows h k.1)
    | inr other ↦ rw other (k.0, replace_row-All P a rows h k.1)
  ]

  pub delete_row-All :
      (P : A → Type 0) (k : ℕ) (rows : List A) → All P rows → All P (delete_row k rows)
  delete_row-All P k rows h = keep-All P (λ b. not (id_of b == k)) rows h

module _ {A : Type 0} (id_of : A → ℕ) (clash : A → A → Bool) where
  abbrev pub KeepsFrom : A → A → Type 0
  KeepsFrom a b = ((id_of a == id_of b) ≡ false) × (clash a b ≡ false)

  -- The rows have ids of their own below `n`, and no two of them clash.
  abbrev pub Pairwise : ℕ → List A → Type 0
  Pairwise n [] = Unit
  Pairwise n (a ∷ rows) = (id_of a < n) × All (KeepsFrom a) rows × Pairwise n rows

  -- The query for a row that clashes, apart from an excluded one.
  abbrev pub has_clash : A → Option ℕ → List A → Bool
  has_clash a exclude = any (λ b. clash a b && differs exclude (id_of b))

  pub Pairwise-suc : (n : ℕ) (rows : List A) → Pairwise n rows → Pairwise (n + 1) rows
  Pairwise-suc n [] h = tt
  Pairwise-suc n (a ∷ rows) h = (omega arith, h.1, Pairwise-suc n rows h.2)

  KeepsFrom-new :
      (n : ℕ) (a : A) (rows : List A)
      → id_of a ≡ n
      → has_clash a none rows ≡ false
      → Pairwise n rows
      → All (KeepsFrom a) rows
  KeepsFrom-new n a [] e h w = tt
  KeepsFrom-new n a (b ∷ rows) e h w =
      ((ground arith, ground arith), KeepsFrom-new n a rows e (ground arith) w.2)

  -- A row under a new id that clashes with none.
  pub insert-Pairwise :
      (n : ℕ) (a : A) (rows : List A)
      → id_of a ≡ n
      → has_clash a none rows ≡ false
      → Pairwise n rows
      → Pairwise (n + 1) (a ∷ rows)
  insert-Pairwise n a rows e h w =
      (omega arith, KeepsFrom-new n a rows e h w, Pairwise-suc n rows w)

  pub keep-Pairwise :
      (n : ℕ) (p : A → Bool) (rows : List A) → Pairwise n rows → Pairwise n (keep p rows)
  keep-Pairwise n p [] w = tt
  keep-Pairwise n p (a ∷ rows) w = elim (Bool-cases (p a)) [
    | inl y ↦ rw y (w.0, keep-All (KeepsFrom a) p rows w.1, keep-Pairwise n p rows w.2)
    | inr m ↦ rw m (keep-Pairwise n p rows w.2)
  ]

  -- Two rows of one id are the same row.
  pub same_row :
      (n : ℕ) (rows : List A) (a b : A)
      → Pairwise n rows
      → In a rows
      → In b rows
      → id_of a ≡ id_of b
      → a ≡ b
  same_row n [] a b w i j e = absurd i
  same_row n (c ∷ rows) a b w (inl q) (inl r) e = q ∙ sym r
  same_row n (c ∷ rows) a b w (inl q) (inr j) e =
      let (apart, _) = All_of_In (KeepsFrom c) rows w.1 b j in
      let same : id_of c ≡ id_of b = ap id_of (sym q) ∙ e in absurd (ground arith)
  same_row n (c ∷ rows) a b w (inr i) (inl r) e =
      let (apart, _) = All_of_In (KeepsFrom c) rows w.1 a i in
      let same : id_of c ≡ id_of a = ap id_of (sym r) ∙ sym e in absurd (ground arith)
  same_row n (c ∷ rows) a b w (inr i) (inr j) e = same_row n rows a b w.2 i j e

  -- A change of the rows that keeps their ids and clashes.
  module _ (f : A → A) (keeps_id : (a : A) → id_of (f a) ≡ id_of a)
      (keeps_clash : (a b : A) → clash (f a) (f b) ≡ clash a b) where
    map-All : (a : A) (rows : List A) → All (KeepsFrom a) rows → All (KeepsFrom (f a)) (map f rows)
    map-All a [] h = tt
    map-All a (b ∷ rows) h =
        (rw (keeps_id a, keeps_id b, keeps_clash a b) (h.0), map-All a rows h.1)

    pub map-Pairwise : (n : ℕ) (rows : List A) → Pairwise n rows → Pairwise n (map f rows)
    map-Pairwise n [] w = tt
    map-Pairwise n (a ∷ rows) w =
        (rw (keeps_id a) (w.0), map-All a rows w.1, map-Pairwise n rows w.2)

  module _ (clash_comm : (a b : A) → clash a b ≡ clash b a) (n : ℕ) (a : A) where
    -- Against the rows of other ids.
    abbrev FromOthers : List A → Type 0
    FromOthers = All (λ b. (id_of b == id_of a) ≡ false → clash a b ≡ false)

    FromOthers-of_scan :
        (rows : List A) → has_clash a (some (id_of a)) rows ≡ false → FromOthers rows
    FromOthers-of_scan [] h = tt
    FromOthers-of_scan (b ∷ rows) h = ((λ q. ground arith), FromOthers-of_scan rows (ground arith))

    replace_none :
        (rows : List A)
        → All (λ b. (id_of b == id_of a) ≡ false) rows
        → replace_row id_of a rows ≡ rows
    replace_none [] h = refl
    replace_none (b ∷ rows) h = rw (h.0, replace_none rows h.1)

    others_of_same :
        (b : A) (rows : List A)
        → (id_of b == id_of a) ≡ true
        → All (KeepsFrom b) rows
        → All (λ c. (id_of c == id_of a) ≡ false) rows
    others_of_same b [] same h = tt
    others_of_same b (c ∷ rows) same h = (ground (arith, h.0.0), others_of_same b rows same h.1)

    KeepsFrom-All :
        (rows : List A)
        → FromOthers rows
        → All (λ b. (id_of b == id_of a) ≡ false) rows
        → All (KeepsFrom a) rows
    KeepsFrom-All [] h k = tt
    KeepsFrom-All (b ∷ rows) h k = ((ground (arith, k.0), h.0 k.0), KeepsFrom-All rows h.1 k.1)

    replace-from :
        (rows : List A) → FromOthers rows → Pairwise n rows → Pairwise n (replace_row id_of a rows)
    replace-from [] h w = tt
    replace-from (b ∷ rows) h w = elim (Bool-cases (id_of b == id_of a)) [
      | inl same ↦
          let rest = others_of_same b rows same w.1 in
          rw (same, replace_none rows rest) (ground arith, KeepsFrom-All rows h.1 rest, w.2)
      | inr other ↦ rw other (
        w.0,
        replace_row-All id_of (KeepsFrom b) a rows (other, clash_comm b a ∙ h.0 other) w.1,
        replace-from rows h.1 w.2,
      )
    ]

    -- A row that takes the place of one of its id, and clashes with no row of another id.
    pub replace-Pairwise :
        (rows : List A)
        → has_clash a (some (id_of a)) rows ≡ false
        → Pairwise n rows
        → Pairwise n (replace_row id_of a rows)
    replace-Pairwise rows h w = replace-from rows (FromOthers-of_scan rows h) w
