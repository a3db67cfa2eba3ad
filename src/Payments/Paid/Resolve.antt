-- ===== src/Payments/Paid/Resolve.antt =====
-- How `mark_payment_status` finds its payment (backend/app/services/payments/service.py).
use mathlib.Core.Option
use book_point.Base.{
  ℕ, ◌≡◌, refl, sym, ◌∙◌, ap, subst, Bool, true, Option, none, some, inl, inr, List, [], ◌∷◌, In,
  ◌==◌, map, arith, Bool-cases, if◌then◌else◌,
}
use book_point.Base.Text.{Text, eq_text}
use book_point.Models.{Payment}
use book_point.Payments.Paid.{In-of_newest}
use book_point.Payments.Rows.{newest_payment, higher_payment, has_text, update_payment}
use book_point.Payments.Status.{known_by, resolve_by_intent, resolve_payment}
use book_point.Results.{Result, ok, err, payment_not_found}

known_by-eq-ok :
    (name : Text) (o : Option Payment) {p : Payment}
    → known_by name o ≡ ok p
    → (o ≡ some p) × (eq_text p.provider_name name ≡ true)
known_by-eq-ok name none q = cc
known_by-eq-ok name (some z) {p} q = elim (Bool-cases (eq_text z.provider_name name)) [
  | inl y ↦
      let q' : Result.ok z ≡ ok p = rw y at q in
      let z_is : z ≡ p = cc in
      (ap some z_is, subst (λ (x : Payment). eq_text x.provider_name name ≡ true) z_is y)
  | inr n ↦ let q' : err payment_not_found ≡ Result.ok p = rw n at q in cc
]

known_by-found :
    (name : Text) (o : Option Payment) {p : Payment}
    → o ≡ some p
    → eq_text p.provider_name name ≡ true
    → known_by name o ≡ ok p
known_by-found name o e y = rw (e, y) refl

In-of_known_by :
    (test : Payment → Bool) (payments : List Payment) (name : Text) {p : Payment}
    → known_by name (newest_payment test payments) ≡ ok p
    → In p payments
In-of_known_by test payments name q =
    In-of_newest test payments (known_by-eq-ok name (newest_payment test payments) q).0

In-of_by_intent :
    (payments : List Payment) (name : Text) (intent : Option Text) {p : Payment}
    → resolve_by_intent payments name intent ≡ ok p
    → In p payments
In-of_by_intent payments name none q = cc
In-of_by_intent payments name (some []) q = cc
In-of_by_intent payments name (some (c ∷ t)) q =
    In-of_known_by (λ p. has_text (c ∷ t) p.provider_payment_intent_id) payments name q

pub In-of_resolve :
    (payments : List Payment) (name : Text) (session intent : Option Text) {p : Payment}
    → resolve_payment payments name session intent ≡ ok p
    → In p payments
In-of_resolve payments name none intent q = In-of_by_intent payments name intent q
In-of_resolve payments name (some []) intent q = In-of_by_intent payments name intent q
In-of_resolve payments name (some (c ∷ t)) intent q =
    In-of_known_by (λ p. has_text (c ∷ t) p.provider_checkout_session_id) payments name q

-- A search by a test that an update keeps finds the updated row.
newest_payment-map :
    (test : Payment → Bool) (f : Payment → Payment) (payments : List Payment)
    → ((p : Payment) → (test (f p) ≡ test p) × ((f p).id ≡ p.id))
    → newest_payment test (map f payments) ≡ Option.map f (newest_payment test payments)
unfolding newest_payment
newest_payment-map test f [] h = refl
newest_payment-map test f (p ∷ payments) h = elim (Bool-cases (test p)) [
  | inr n ↦ rw ((h p).0, n) (newest_payment-map test f payments h)
  | inl y ↦
      rw ((h p).0, y, newest_payment-map test f payments h) (higher (newest_payment test payments))
]
  where
    higher :
        (o : Option Payment)
        → higher_payment (f p) (Option.map f o) ≡ Option.map f (higher_payment p o)
    higher none = refl
    higher (some q) =
        let own : (f p).id ≡ p.id = (h p).1 in let own' : (f q).id ≡ q.id = (h q).1 in ground arith

-- An update of the payment found, which keeps what it was found by, is found by the same names.
module _ (j : ℕ) (f : Payment → Payment)
    (keeps : (p : Payment)
      → ((f p).id ≡ p.id)
        × ((f p).provider_name ≡ p.provider_name)
        × ((f p).provider_checkout_session_id ≡ p.provider_checkout_session_id)
        × ((f p).provider_payment_intent_id ≡ p.provider_payment_intent_id)) where
  known_by-update :
      (test : Payment → Bool) (payments : List Payment) (name : Text) {p : Payment}
      → ((x : Payment) → test (f x) ≡ test x)
      → p.id ≡ j
      → known_by name (newest_payment test payments) ≡ ok p
      → known_by name (newest_payment test (update_payment j f payments)) ≡ ok (f p)
  known_by-update test payments name {p} keeps_test e q =
      let (found, known) = known_by-eq-ok name (newest_payment test payments) q in
      let found' : newest_payment test (update_payment j f payments) ≡ some (f p) =
        newest_payment-map test (λ x. if x.id == j then f x else x) payments kept
        ∙ ap (Option.map (λ (x : Payment). if x.id == j then f x else x)) found
        ∙ ap some own in
      let named : eq_text (f p).provider_name name ≡ true =
        subst (λ n. eq_text n name ≡ true) (sym (keeps p).1) known in
      known_by-found name (newest_payment test (update_payment j f payments)) found' named
    where
      own : (if p.id == j then f p else p) ≡ f p
      own = let same : (p.id == j) ≡ true = ground arith in rw same refl

      kept :
          (x : Payment)
          → (test (if x.id == j then f x else x) ≡ test x)
            × ((if x.id == j then f x else x).id ≡ x.id)
      kept x = elim (Bool-cases (x.id == j)) [
        | inl y ↦ rw y (keeps_test x, (keeps x).0)
        | inr n ↦ rw n (refl, refl)
      ]

  by_intent-update :
      (payments : List Payment) (name : Text) (intent : Option Text) {p : Payment}
      → p.id ≡ j
      → resolve_by_intent payments name intent ≡ ok p
      → resolve_by_intent (update_payment j f payments) name intent ≡ ok (f p)
  by_intent-update payments name none e q = cc
  by_intent-update payments name (some []) e q = cc
  by_intent-update payments name (some (c ∷ t)) e q =
      known_by-update (λ p. has_text (c ∷ t) p.provider_payment_intent_id) payments name
        (λ x. ap (has_text (c ∷ t)) (keeps x).3) e q

  pub resolve_payment-update :
      (payments : List Payment) (name : Text) (session intent : Option Text) {p : Payment}
      → p.id ≡ j
      → resolve_payment payments name session intent ≡ ok p
      → resolve_payment (update_payment j f payments) name session intent ≡ ok (f p)
  resolve_payment-update payments name none intent e q = by_intent-update payments name intent e q
  resolve_payment-update payments name (some []) intent e q =
      by_intent-update payments name intent e q
  resolve_payment-update payments name (some (c ∷ t)) intent e q =
      known_by-update (λ p. has_text (c ∷ t) p.provider_checkout_session_id) payments name
        (λ x. ap (has_text (c ∷ t)) (keeps x).2) e q
