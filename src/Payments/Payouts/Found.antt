-- ===== src/Payments/Payouts/Found.antt =====
-- The payout found by an id, before and after the updates of payout_service.py
-- (backend/app/services/payments).
use book_point.Base.{
  ℕ, ◌≡◌, refl, sym, ◌∙◌, ap, some, inl, inr, List, In-of_first, ◌==◌, arith, Bool-cases, first-map,
  Option-map-eq_some, if◌then◌else◌,
}
use book_point.Models.{Database, Payout, PayoutStatus}
use book_point.Payments.Payouts.{start_payout}
use book_point.Payments.Rows.{get_payout, update_payout}

-- A payout found after an update by id is the update of the one found before.
pub get_payout-update :
    (j k : ℕ) (f : Payout → Payout) (payouts : List Payout) {p : Payout}
    → ((q : Payout) → (f q).id ≡ q.id)
    → get_payout (update_payout j f payouts) k ≡ some p
    → (q : Payout) × (get_payout payouts k ≡ some q) × (p ≡ (if q.id == j then f q else q))
get_payout-update j k f payouts {p} keeps e =
    Option-map-eq_some (λ q. if q.id == j then f q else q) (get_payout payouts k)
      (sym (first-map (λ q. q.id == k) (λ q. if q.id == j then f q else q) payouts keeps_id) ∙ e)
  where
    keeps_id : (q : Payout) → ((if q.id == j then f q else q).id == k) ≡ (q.id == k)
    keeps_id q = elim (Bool-cases (q.id == j)) [ inl y ↦ rw (y, keeps q) refl | inr n ↦ rw n refl ]

-- A payout found by an id is found by its own.
pub get_payout_own :
    (k : ℕ) (payouts : List Payout) {p : Payout}
    → get_payout payouts k ≡ some p
    → get_payout payouts p.id ≡ some p
get_payout_own k payouts {p} e =
    let own : p.id ≡ k = ground (arith, (In-of_first (λ q. q.id == k) payouts e).1) in
    ap (get_payout payouts) own ∙ e

abbrev pub started : Payout → Payout
started p = record p { status = PayoutStatus.processing }

pub get_payout-start_payout :
    (db : Database) (p : Payout)
    → get_payout db.payouts p.id ≡ some p
    → get_payout (start_payout p.id db).payouts p.id
      ≡ some (record p { status = PayoutStatus.processing })
unfolding start_payout
get_payout-start_payout db p e =
    first-map (λ q. q.id == p.id) (λ q. if q.id == p.id then started q else q) db.payouts keeps_id
    ∙ rw e (ground arith)
  where
    keeps_id : (q : Payout) → ((if q.id == p.id then started q else q).id == p.id) ≡ (q.id == p.id)
    keeps_id q = ground arith
