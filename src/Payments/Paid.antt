-- ===== src/Payments/Paid.antt =====
-- How the payments of the table may change under backend/app/services/payments: each row keeps its
-- id and its amount, and one that is paid stays so.
pub mod Resolve
pub mod Webhook
pub mod Replay
pub mod Operations
pub mod Refunding
pub mod History
use book_point.Base.{
  ℕ, suc, ◌+◌, ◌≤◌, ◌<◌, ◌≡◌, refl, sym, ◌∙◌, ◌⊎◌, ap, subst, Bool, true, false, true≢false, Option,
  none, some, inl, inr, List, [], ◌∷◌, All, All_of_In, In, ltb, ◌==◌, arith, Bool-cases,
  Option-cases, if◌then◌else◌,
}
use book_point.Models.{Database, Payment, PaymentStatus}
use book_point.Payments.Rows.{get_payment, newest_payment, higher_payment, update_payment}
use book_point.Payments.Status.{is_paid}

-- What a row has become.
abbrev pub RowKept : Payment → Payment → Type 0
RowKept p p' =
    (p'.id ≡ p.id)
    × (p'.amount_minor ≡ p.amount_minor)
    × (is_paid p.status ≡ true → is_paid p'.status ≡ true)

abbrev pub Kept : List Payment → List Payment → Type 0
Kept [] [] = Unit
Kept [] (p' ∷ payments') = ⊥
Kept (p ∷ payments) [] = ⊥
Kept (p ∷ payments) (p' ∷ payments') = RowKept p p' × Kept payments payments'

pub Kept-refl : (payments : List Payment) → Kept payments payments
Kept-refl [] = tt
Kept-refl (p ∷ payments) = ((refl, refl, λ h. h), Kept-refl payments)

pub Kept-trans : (a b c : List Payment) → Kept a b → Kept b c → Kept a c
Kept-trans [] [] [] h k = tt
Kept-trans [] [] (r ∷ c) h k = absurd k
Kept-trans [] (q ∷ b) c h k = absurd h
Kept-trans (p ∷ a) [] c h k = absurd h
Kept-trans (p ∷ a) (q ∷ b) [] h k = absurd k
Kept-trans (p ∷ a) (q ∷ b) (r ∷ c) ((i, m, s), h) ((i', m', s'), k) =
    ((i' ∙ i, m' ∙ m, λ y. s' (s y)), Kept-trans a b c h k)

-- An update of rows that keeps each of them.
pub Kept-update :
    (j : ℕ) (f : Payment → Payment) (payments : List Payment)
    → ((q : Payment) → In q payments → q.id ≡ j → RowKept q (f q))
    → Kept payments (update_payment j f payments)
Kept-update j f [] h = tt
Kept-update j f (p ∷ payments) h =
    (at_head (Bool-cases (p.id == j)), Kept-update j f payments (λ q i. h q (inr i)))
  where
    at_head :
        ((p.id == j) ≡ true) ⊎ ((p.id == j) ≡ false) → RowKept p (if p.id == j then f p else p)
    at_head (inl y) = rw y (h p (inl refl) (ground arith))
    at_head (inr n) = rw n (refl, refl, λ s. s)

pub get_payment-Kept :
    (payments payments' : List Payment) (k : ℕ) {p : Payment}
    → Kept payments payments'
    → get_payment payments k ≡ some p
    → (p' : Payment) × (get_payment payments' k ≡ some p') × RowKept p p'
get_payment-Kept [] [] k h e = cc
get_payment-Kept [] (q' ∷ payments') k h e = absurd h
get_payment-Kept (q ∷ payments) [] k h e = absurd h
get_payment-Kept (q ∷ payments) (q' ∷ payments') k {p} ((i, m, s), h) e =
    elim (Bool-cases (q.id == k)) [
      | inl y ↦
          let here : some q ≡ some p = rw y at e in
          let q_is : q ≡ p = cc in (q', rw (i, y) refl, subst (λ x. RowKept x q') q_is (i, m, s))
      | inr n ↦
          let (p', found, kept) = get_payment-Kept payments payments' k h (rw n at e) in
          (p', rw (i, n) found, kept)
    ]

-- Primary keys: ids lie below the next one, and no two rows share one.
abbrev pub Distinct : List Payment → Type 0
Distinct [] = Unit
Distinct (p ∷ payments) = All (λ q. (q.id == p.id) ≡ false) payments × Distinct payments

pub record IsKeyed (db : Database) : Type 0 where
  pub below : All (λ p. p.id < db.next_id) db.payments
  pub distinct : Distinct db.payments

pub Distinct-eq :
    (payments : List Payment) (p q : Payment)
    → Distinct payments
    → In p payments
    → In q payments
    → p.id ≡ q.id
    → p ≡ q
Distinct-eq [] p q h i j e = absurd i
Distinct-eq (x ∷ payments) p q h (inl i) (inl j) e = i ∙ sym j
Distinct-eq (x ∷ payments) p q h (inl i) (inr j) e =
    let other = All_of_In (λ r. (r.id == x.id) ≡ false) payments h.0 q j in
    let own = ap (λ (r : Payment). r.id) i in absurd (ground arith)
Distinct-eq (x ∷ payments) p q h (inr i) (inl j) e =
    let other = All_of_In (λ r. (r.id == x.id) ≡ false) payments h.0 p i in
    let own = ap (λ (r : Payment). r.id) j in absurd (ground arith)
Distinct-eq (x ∷ payments) p q h (inr i) (inr j) e = Distinct-eq payments p q h.1 i j e

others-Kept :
    (k : ℕ) (payments payments' : List Payment)
    → Kept payments payments'
    → All (λ q. (q.id == k) ≡ false) payments
    → All (λ q. (q.id == k) ≡ false) payments'
others-Kept k [] [] h a = tt
others-Kept k [] (q' ∷ payments') h a = absurd h
others-Kept k (q ∷ payments) [] h a = absurd h
others-Kept k (q ∷ payments) (q' ∷ payments') ((i, m, s), h) a =
    (rw i (a.0), others-Kept k payments payments' h a.1)

pub Distinct-Kept :
    (payments payments' : List Payment)
    → Kept payments payments'
    → Distinct payments
    → Distinct payments'
Distinct-Kept [] [] h d = tt
Distinct-Kept [] (q' ∷ payments') h d = absurd h
Distinct-Kept (q ∷ payments) [] h d = absurd h
Distinct-Kept (q ∷ payments) (q' ∷ payments') ((i, m, s), h) d =
    (rw i (others-Kept q.id payments payments' h d.0), Distinct-Kept payments payments' h d.1)

pub below-Kept :
    (n n' : ℕ) (payments payments' : List Payment)
    → n ≤ n'
    → Kept payments payments'
    → All (λ p. p.id < n) payments
    → All (λ p. p.id < n') payments'
below-Kept n n' [] [] l h b = tt
below-Kept n n' [] (q' ∷ payments') l h b = absurd h
below-Kept n n' (q ∷ payments) [] l h b = absurd h
below-Kept n n' (q ∷ payments) (q' ∷ payments') l ((i, m, s), h) b =
    (rw i (omega arith), below-Kept n n' payments payments' l h b.1)

pub In-of_newest :
    (test : Payment → Bool) (payments : List Payment) {p : Payment}
    → newest_payment test payments ≡ some p
    → In p payments
unfolding newest_payment
In-of_newest test [] e = cc
In-of_newest test (x ∷ payments) {p} e = elim (Bool-cases (test x)) [
  | inr n ↦ inr (In-of_newest test payments (rw n at e))
  | inl y ↦
      among (newest_payment test payments) (λ z r. In-of_newest test payments r) refl (rw y at e)
]
  where
    among :
        (o : Option Payment)
        → ((z : Payment) → newest_payment test payments ≡ some z → In z payments)
        → newest_payment test payments ≡ o
        → higher_payment x o ≡ some p
        → In p (x ∷ payments)
    among none ih r q = let x_is : x ≡ p = cc in inl (sym x_is)
    among (some z) ih r q = elim (Bool-cases (ltb z.id x.id)) [
      | inl y ↦ let q' : some x ≡ some p = rw y at q in let x_is : x ≡ p = cc in inl (sym x_is)
      | inr n ↦ inr (ih p (r ∙ (rw n at q)))
    ]
