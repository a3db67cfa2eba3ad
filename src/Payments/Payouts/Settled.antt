-- ===== src/Payments/Payouts/Settled.antt =====
-- Payouts against the earnings that they pay (backend/app/services/payments/payout_service.py).
use book_point.Base.{
  ℕ, ◌≡◌, refl, sym, ◌∙◌, ◌⊎◌, ap, true, false, some, inl, inr, List, [], ◌∷◌, All, In-of_first,
  leb, ◌==◌, arith, Bool-cases, Option-cases, if◌then◌else◌,
}
use book_point.Base.Text.{Text}
use book_point.Models.{Database, Payout, ProviderEarning}
use book_point.Payments.Payouts.{
  commit_payout, create_payout, in_currency, is_failed_payout, link_ready, new_payout, pay_out,
  total_of,
}
use book_point.Payments.Payouts.Found.{get_payout-update}
use book_point.Payments.Rows.{get_payout, list_by_payout, list_ready_for_payout, update_payout}
use book_point.Repositories.{get_provider}
use book_point.Payments.Payouts.Links.{
  LinkedBelow, linked_link_ready, sum-link_ready-new, sum-link_ready-old,
}

-- What the earnings of a payout owe it.
abbrev pub owed : Payout → ℕ
owed p = if is_failed_payout p.status then 0 else p.total_amount_minor

-- Earnings link to ids in use; the earnings of a payout sum up to its total, of a failed one to 0.
pub record IsSettled (db : Database) : Type 0 where
  pub linked : All (λ e. LinkedBelow db.next_id e.payout_id) db.earnings
  pub settled :
      (k : ℕ) (p : Payout)
      → get_payout db.payouts k ≡ some p
      → total_of (list_by_payout db.earnings k) ≡ owed p

commit_payout-IsSettled :
    (provider_id : ℕ) (currency : Text) (total : ℕ) (db : Database)
    → IsSettled db
    → total ≡ total_of (list_ready_for_payout db.earnings provider_id)
    → IsSettled (commit_payout provider_id currency total db)
unfolding commit_payout
commit_payout-IsSettled provider_id currency total db h e = record {
  linked = linked_link_ready provider_id db.next_id db.earnings h.linked;
  settled = λ k p found. settled_at k p found (Bool-cases (db.next_id == k));
}
  where
    settled_at :
        (k : ℕ) (p : Payout)
        → get_payout (new_payout db.next_id provider_id currency total ∷ db.payouts) k ≡ some p
        → ((db.next_id == k) ≡ true) ⊎ ((db.next_id == k) ≡ false)
        → total_of (list_by_payout (link_ready provider_id db.next_id db.earnings) k) ≡ owed p
    settled_at k p found (inl y) =
        let k_is : db.next_id ≡ k = ground arith in
        let p_is : new_payout db.next_id provider_id currency total ≡ p = ground arith in
        rw (← k_is, ← p_is) (sum-link_ready-new provider_id db.next_id db.earnings h.linked ∙ sym e)
    settled_at k p found (inr n) =
        let old : get_payout db.payouts k ≡ some p = ground arith in
        sum-link_ready-old provider_id db.next_id k db.earnings n ∙ h.settled k p old

pay_out-IsSettled :
    (provider_id : ℕ) (earnings : List ProviderEarning) (db : Database)
    → IsSettled db
    → earnings ≡ list_ready_for_payout db.earnings provider_id
    → IsSettled (pay_out provider_id earnings db).1
pay_out-IsSettled provider_id [] db h e = h
pay_out-IsSettled provider_id (a ∷ earnings) db h e =
    elim (Bool-cases (in_currency a.currency earnings)) [
      | inr n ↦ rw n h
      | inl y ↦ elim (Bool-cases (leb (total_of (a ∷ earnings)) 0)) [
        | inl z ↦ rw (y, z) h
        | inr m ↦
            rw (y, m)
              (commit_payout-IsSettled provider_id a.currency (total_of (a ∷ earnings)) db h
                (ap total_of e))
      ]
    ]

-- If every earning with a payout links to an id below the next one, and the earnings linked to a
-- payout sum up to its total, or to 0 where it failed (`IsSettled`), then so it is after
-- `create_payout` of any provider, on every branch.
pub create_payout-IsSettled :
    (provider_id : ℕ) (db : Database) → IsSettled db → IsSettled (create_payout provider_id db).1
unfolding create_payout
create_payout-IsSettled provider_id db h =
    elim (Option-cases (get_provider db.directory provider_id)) [
      | inl e ↦ rw (create_payout, e) h
      | inr (p, e) ↦
          rw (create_payout, e)
            (pay_out-IsSettled provider_id (list_ready_for_payout db.earnings provider_id) db h
              refl)
    ]

-- Such an update keeps the equality where it keeps what each payout is owed.
pub update-IsSettled :
    (j : ℕ) (f : Payout → Payout) (db db' : Database)
    → ((q : Payout) → (f q).id ≡ q.id)
    → ((q : Payout) → get_payout db.payouts j ≡ some q → owed (f q) ≡ owed q)
    → db'.payouts ≡ update_payout j f db.payouts
    → db'.earnings ≡ db.earnings
    → db'.next_id ≡ db.next_id
    → IsSettled db
    → IsSettled db'
update-IsSettled j f db db' keeps same_owed payouts_are earnings_are next_is h = record {
  linked = rw (next_is, earnings_are) (h.linked);
  settled = λ k p found. rw earnings_are (
      settled_at k p (
        get_payout-update j k f db.payouts keeps
          (sym (ap (λ l. get_payout l k) payouts_are) ∙ found)));
}
  where
    settled_at :
        (k : ℕ) (p : Payout)
        → (q : Payout) × (get_payout db.payouts k ≡ some q) × (p ≡ (if q.id == j then f q else q))
        → total_of (list_by_payout db.earnings k) ≡ owed p
    settled_at k p (q, found, p_is) = elim (Bool-cases (q.id == j)) [
      | inl y ↦
          let k_is : j ≡ k = ground (arith, (In-of_first (λ q'. q'.id == k) db.payouts found).1) in
          let found_j : get_payout db.payouts j ≡ some q =
            ap (get_payout db.payouts) k_is ∙ found in
          let p_is' : p ≡ f q = rw y at p_is in
          h.settled k q found ∙ sym (same_owed q found_j) ∙ ap owed (sym p_is')
      | inr n ↦ let p_is' : p ≡ q = rw n at p_is in h.settled k q found ∙ ap owed (sym p_is')
    ]
