-- ===== src/Payments/Payouts/Links.antt =====
-- The links of earnings to payouts (backend/app/services/payments/payout_service.py).
use book_point.Base.{
  ℕ, ◌+◌, ◌<◌, ◌≡◌, refl, false, Option, none, some, inl, inr, List, [], ◌∷◌, All, ◌==◌, arith,
  Bool-cases, if◌then◌else◌,
}
use book_point.Models.{ProviderEarning}
use book_point.Payments.Payouts.{link, link_ready, total_of, unlink, unlink_payout}
use book_point.Payments.Rows.{is_linked, is_payable, list_by_payout, list_ready_for_payout}

abbrev pub LinkedBelow : ℕ → Option ℕ → Type 0
LinkedBelow n none = Unit
LinkedBelow n (some j) = j < n

pub LinkedBelow-suc : (n : ℕ) (o : Option ℕ) → LinkedBelow n o → LinkedBelow (n + 1) o
LinkedBelow-suc n none h = tt
LinkedBelow-suc n (some j) h = omega arith

pub linked_link_ready :
    (p n : ℕ) (earnings : List ProviderEarning)
    → All (λ e. LinkedBelow n e.payout_id) earnings
    → All (λ e. LinkedBelow (n + 1) e.payout_id) (link_ready p n earnings)
linked_link_ready p n [] h = tt
linked_link_ready p n (e ∷ earnings) h = (kept, linked_link_ready p n earnings h.1)
  where
    kept : LinkedBelow (n + 1) (if is_payable p e then link n e else e).payout_id
    kept = elim (Bool-cases (is_payable p e)) [
      | inl y ↦ rw y (omega arith)
      | inr m ↦ rw m (LinkedBelow-suc n e.payout_id h.0)
    ]

pub linked_unlink :
    (n k : ℕ) (earnings : List ProviderEarning)
    → All (λ e. LinkedBelow n e.payout_id) earnings
    → All (λ e. LinkedBelow n e.payout_id) (unlink_payout k earnings)
linked_unlink n k [] h = tt
linked_unlink n k (e ∷ earnings) h = (kept, linked_unlink n k earnings h.1)
  where
    kept : LinkedBelow n (if is_linked k e then unlink e else e).payout_id
    kept = elim (Bool-cases (is_linked k e)) [ inl y ↦ rw y tt | inr m ↦ rw m (h.0) ]

-- The earnings collected are those that the new payout links.
pub sum-link_ready-new :
    (p n : ℕ) (earnings : List ProviderEarning)
    → All (λ e. LinkedBelow n e.payout_id) earnings
    → total_of (list_by_payout (link_ready p n earnings) n)
      ≡ total_of (list_ready_for_payout earnings p)
unfolding total_of list_by_payout list_ready_for_payout
sum-link_ready-new p n [] h = refl
sum-link_ready-new p n (e ∷ earnings) h = ground (arith, sum-link_ready-new p n earnings h.1)

pub sum-link_ready-old :
    (p n k : ℕ) (earnings : List ProviderEarning)
    → (n == k) ≡ false
    → total_of (list_by_payout (link_ready p n earnings) k) ≡ total_of (list_by_payout earnings k)
unfolding total_of list_by_payout
sum-link_ready-old p n k [] h = refl
sum-link_ready-old p n k (e ∷ earnings) h = ground (arith, sum-link_ready-old p n k earnings h)

pub sum-unlink-same :
    (k : ℕ) (earnings : List ProviderEarning)
    → total_of (list_by_payout (unlink_payout k earnings) k) ≡ 0
unfolding total_of list_by_payout
sum-unlink-same k [] = refl
sum-unlink-same k (e ∷ earnings) = ground (arith, sum-unlink-same k earnings)

pub sum-unlink-other :
    (k j : ℕ) (earnings : List ProviderEarning)
    → (k == j) ≡ false
    → total_of (list_by_payout (unlink_payout k earnings) j) ≡ total_of (list_by_payout earnings j)
unfolding total_of list_by_payout
sum-unlink-other k j [] h = refl
sum-unlink-other k j (e ∷ earnings) h = ground (arith, sum-unlink-other k j earnings h)
