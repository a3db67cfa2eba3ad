-- ===== src/Payments/Payouts/Run.antt =====
-- What the endings of payouts and the run over the pending ones keep
-- (backend/app/services/payments/payout_service.py).
use book_point.Base.{
  ℕ, ◌+◌, ◌≡◌, refl, sym, ◌∙◌, ap, true, false, Option, none, some, inl, inr, List, [], ◌∷◌,
  In-of_first, ◌==◌, arith, Bool-cases, Option-cases, if◌then◌else◌,
}
use book_point.Base.Int.{ℤ}
use book_point.Base.Text.{Text, codes, eq_text}
use book_point.Models.{Database, Payout, PayoutStatus}
use book_point.Payments.Payouts.{
  PayoutAnswer, PayoutCounts, PayoutProvider, commit_payout_completed, commit_payout_failed,
  completed_with, end_payout, is_completed_payout, is_failed_payout, mark_payout_completed,
  mark_payout_failed, other_status, process_payout, process_payouts, process_pending_payouts,
  raised, settle_payout, start_payout, total_of, unlink_payout,
}
use book_point.Payments.Payouts.Found.{
  get_payout-start_payout, get_payout-update, get_payout_own, started,
}
use book_point.Payments.Rows.{get_payout, is_pending_payout, list_by_payout, list_pending_payouts}
use book_point.Payments.Payouts.Links.{linked_unlink, sum-unlink-same, sum-unlink-other}
use book_point.Payments.Payouts.Settled.{IsSettled, owed, update-IsSettled}

commit_payout_failed-IsSettled :
    (k : ℕ) (reference : Option Text) (now : ℤ) (db : Database)
    → IsSettled db
    → IsSettled (commit_payout_failed k reference now db)
unfolding commit_payout_failed
commit_payout_failed-IsSettled k reference now db h = record {
  linked = linked_unlink db.next_id k db.earnings h.linked;
  settled = λ i p found. settled_at i p (
      get_payout-update k i (end_payout PayoutStatus.failed reference now) db.payouts (λ q. refl)
        found);
}
  where
    settled_at :
        (i : ℕ) (p : Payout)
        → (q : Payout) × (get_payout db.payouts i ≡ some q)
          × (p ≡ (if q.id == k then end_payout PayoutStatus.failed reference now q else q))
        → total_of (list_by_payout (unlink_payout k db.earnings) i) ≡ owed p
    settled_at i p (q, found, p_is) =
        let q_is : q.id ≡ i = ground (arith, (In-of_first (λ q'. q'.id == i) db.payouts found).1) in
        elim (Bool-cases (q.id == k)) [
          | inl y ↦
              let k_is : k ≡ i = ground arith in
              let p_is' : p ≡ end_payout PayoutStatus.failed reference now q = rw y at p_is in
              rw (← k_is, p_is') (sum-unlink-same k db.earnings)
          | inr n ↦
              let p_is' : p ≡ q = rw n at p_is in
              sum-unlink-other k i db.earnings (ground arith)
              ∙ h.settled i q found
              ∙ ap owed (sym p_is')
        ]

mark_payout_failed-IsSettled :
    (k : ℕ) (reference : Option Text) (now : ℤ) (db : Database)
    → IsSettled db
    → IsSettled (mark_payout_failed k reference now db).1
unfolding mark_payout_failed
mark_payout_failed-IsSettled k reference now db h = elim (Option-cases (get_payout db.payouts k)) [
  | inl e ↦ rw (mark_payout_failed, e) h
  | inr (p, e) ↦ elim (Bool-cases (is_failed_payout p.status)) [
    | inl y ↦ rw (mark_payout_failed, e, y) h
    | inr n ↦ rw (mark_payout_failed, e, n) (commit_payout_failed-IsSettled k reference now db h)
  ]
]

-- Of a payout that has not failed.
mark_payout_completed-IsSettled :
    (k : ℕ) (reference : Option Text) (now : ℤ) (db : Database) (p : Payout)
    → get_payout db.payouts k ≡ some p
    → is_failed_payout p.status ≡ false
    → IsSettled db
    → IsSettled (mark_payout_completed k reference now db).1
unfolding mark_payout_completed commit_payout_completed
mark_payout_completed-IsSettled k reference now db p e f h =
    elim (Bool-cases (is_completed_payout p.status)) [
      | inl y ↦ rw (mark_payout_completed, e, y) h
      | inr n ↦
          rw (mark_payout_completed, e, n)
            (update-IsSettled k (end_payout PayoutStatus.completed reference now) db
              (commit_payout_completed k reference now db) (λ q. refl) same refl refl refl h)
    ]
  where
    same :
        (q : Payout)
        → get_payout db.payouts k ≡ some q
        → owed (end_payout PayoutStatus.completed reference now q) ≡ owed q
    same q found =
        let both : some p ≡ some q = sym e ∙ found in let q_is : p ≡ q = cc in rw (← q_is, f) refl

start_payout-IsSettled :
    (db : Database) (p : Payout)
    → get_payout db.payouts p.id ≡ some p
    → is_pending_payout p.status ≡ true
    → IsSettled db
    → IsSettled (start_payout p.id db)
unfolding start_payout
start_payout-IsSettled db p e pending h =
    update-IsSettled p.id started db (start_payout p.id db) (λ q. refl) same refl refl refl h
  where
    same : (q : Payout) → get_payout db.payouts p.id ≡ some q → owed (started q) ≡ owed q
    same q found =
        let both : some p ≡ some q = sym e ∙ found in
        let q_is : p ≡ q = cc in rw (← q_is) (ground arith)

settle_payout-IsSettled :
    (answer : PayoutAnswer) (now : ℤ) (counts : PayoutCounts) (db : Database) (p : Payout)
    → get_payout db.payouts p.id ≡ some p
    → is_pending_payout p.status ≡ true
    → IsSettled db
    → IsSettled (settle_payout answer p.id now (counts, start_payout p.id db)).1
settle_payout-IsSettled (completed_with reference) now counts db p e pending h =
    mark_payout_completed-IsSettled p.id reference now (start_payout p.id db)
      (record p { status = PayoutStatus.processing }) (get_payout-start_payout db p e) refl
      (start_payout-IsSettled db p e pending h)
settle_payout-IsSettled (other_status reference) now counts db p e pending h =
    mark_payout_failed-IsSettled p.id reference now (start_payout p.id db)
      (start_payout-IsSettled db p e pending h)
settle_payout-IsSettled raised now counts db p e pending h =
    mark_payout_failed-IsSettled p.id none now (start_payout p.id db)
      (start_payout-IsSettled db p e pending h)

process_payout-IsSettled :
    (provider : PayoutProvider) (now : ℤ) (pending : Payout) (counts : PayoutCounts) (db : Database)
    → IsSettled db
    → IsSettled (process_payout provider now pending (counts, db)).1
unfolding process_payout
process_payout-IsSettled provider now pending counts db h =
    elim (Option-cases (get_payout db.payouts pending.id)) [
      | inl e ↦ rw (process_payout, e) h
      | inr (p, e) ↦ elim (Bool-cases (is_pending_payout p.status)) [
        | inr n ↦ rw (process_payout, e, n) h
        | inl y ↦
            rw (process_payout, e, y)
              (settle_payout-IsSettled (provider (record p { status = PayoutStatus.processing }))
                now (record counts { processed = counts.processed + 1 }) db p
                (get_payout_own pending.id db.payouts e) y h)
      ]
    ]

process_payouts-IsSettled :
    (provider : PayoutProvider) (now : ℤ) (pendings : List Payout) (s : PayoutCounts × Database)
    → IsSettled s.1
    → IsSettled (process_payouts provider now pendings s).1
unfolding process_payouts
process_payouts-IsSettled provider now [] s h = h
process_payouts-IsSettled provider now (p ∷ pendings) s h =
    process_payouts-IsSettled provider now pendings (process_payout provider now p s)
      (process_payout-IsSettled provider now p s.0 s.1 h)

-- A run of `process_pending_payouts` keeps `IsSettled` (the earnings linked to a payout sum up to
-- its total, or to 0 where it failed), whatever the payout provider answers for each payout.
pub process_pending_payouts-IsSettled :
    (provider : PayoutProvider) (provider_name : Text) (now : ℤ) (db : Database)
    → IsSettled db
    → IsSettled (process_pending_payouts provider provider_name now db).1
unfolding process_pending_payouts
process_pending_payouts-IsSettled provider provider_name now db h =
    elim (Bool-cases (eq_text provider_name (codes "mock"))) [
      | inl y ↦ rw y (
          process_payouts-IsSettled provider now (list_pending_payouts db.payouts)
            (record { processed = 0; completed = 0; failed = 0 }, db) h)
      | inr n ↦ rw n h
    ]
