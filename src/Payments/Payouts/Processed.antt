-- ===== src/Payments/Payouts/Processed.antt =====
-- What a run over the pending payouts ends with
-- (backend/app/services/payments/payout_service.py).
use book_point.Base.{
  ℕ, ◌+◌, ◌≤◌, ◌≡◌, refl, sym, ◌∙◌, ◌⊎◌, ap, true, false, true≢false, length, Option, none, some,
  inl, inr, List, [], ◌∷◌, any, In-of_first, any_of_In, In-keep, ◌==◌, arith, Bool-cases,
  Option-cases,
}
use book_point.Base.Int.{ℤ}
use book_point.Base.Text.{Text, codes}
use book_point.Models.{Database, Payout, PayoutStatus}
use book_point.Payments.Payouts.{
  PayoutAnswer, PayoutCounts, PayoutProvider, commit_payout_completed, commit_payout_failed,
  completed_with, end_payout, mark_payout_completed, mark_payout_failed, other_status,
  process_payout, process_payouts, process_pending_payouts, raised, settle_payout, start_payout,
}
use book_point.Payments.Payouts.Found.{
  get_payout-start_payout, get_payout-update, get_payout_own, started,
}
use book_point.Payments.Rows.{get_payout, is_pending_payout, list_pending_payouts, update_payout}
use book_point.Results.{ok}

abbrev ended : PayoutStatus → Option Text → ℤ → Payout → List Payout → List Payout
ended status reference now p payouts =
    update_payout p.id (end_payout status reference now) (update_payout p.id started payouts)

-- Whatever the provider answers, the payout ends as completed or as failed.
settle_payout-ended :
    (answer : PayoutAnswer) (now : ℤ) (counts : PayoutCounts) (db : Database) (p : Payout)
    → get_payout db.payouts p.id ≡ some p
    → (status : PayoutStatus) × (reference : Option Text) × (is_pending_payout status ≡ false)
      × ((settle_payout answer p.id now (counts, start_payout p.id db)).1.payouts
          ≡ ended status reference now p db.payouts)
unfolding mark_payout_completed mark_payout_failed commit_payout_completed commit_payout_failed
    start_payout
settle_payout-ended (completed_with reference) now counts db p e =
    let found = get_payout-start_payout db p e in
    (PayoutStatus.completed, reference, refl, rw found refl)
settle_payout-ended (other_status reference) now counts db p e =
    let found = get_payout-start_payout db p e in
    (PayoutStatus.failed, reference, refl, rw found refl)
settle_payout-ended raised now counts db p e =
    let found = get_payout-start_payout db p e in (PayoutStatus.failed, none, refl, rw found refl)

-- The payouts still to be processed hold every pending one.
abbrev Remaining : Database → List Payout → Type 0
Remaining db pendings =
    (k : ℕ) (p : Payout)
    → get_payout db.payouts k ≡ some p
    → is_pending_payout p.status ≡ true
    → any (λ q. q.id == k) pendings ≡ true

get_payout-ended :
    (k : ℕ) (status : PayoutStatus) (reference : Option Text) (now : ℤ) (p : Payout)
    (payouts : List Payout) {q : Payout}
    → is_pending_payout status ≡ false
    → get_payout (ended status reference now p payouts) k ≡ some q
    → is_pending_payout q.status ≡ true
    → (get_payout payouts k ≡ some q) × ((p.id == k) ≡ false)
get_payout-ended k status reference now p payouts {q} over e pending =
    let (q1, e1, q_is) =
      get_payout-update p.id k (end_payout status reference now)
        (update_payout p.id started payouts) (λ x. refl) e in
    let (q2, e2, q1_is) = get_payout-update p.id k started payouts (λ x. refl) e1 in
    let own : q2.id ≡ k = ground (arith, (In-of_first (λ x. x.id == k) payouts e2).1) in
    elim (Bool-cases (q2.id == p.id)) [
      | inl y ↦
          let q1_is' : q1 ≡ started q2 = rw y at q1_is in
          let y' : (q1.id == p.id) ≡ true = rw q1_is' y in
          let q_is' : q ≡ end_payout status reference now q1 = rw y' at q_is in
          let not_pending : is_pending_payout q.status ≡ false = rw q_is' over in
          absurd (true≢false (sym pending ∙ not_pending))
      | inr n ↦
          let q1_is' : q1 ≡ q2 = rw n at q1_is in
          let n' : (q1.id == p.id) ≡ false = rw q1_is' n in
          let q_is' : q ≡ q1 = rw n' at q_is in (e2 ∙ ap some (sym (q_is' ∙ q1_is')), ground arith)
    ]

-- A step takes its payout off those that remain.
process_payout-Remaining :
    (provider : PayoutProvider) (now : ℤ) (x : Payout) (pendings : List Payout)
    (counts : PayoutCounts) (db : Database)
    → Remaining db (x ∷ pendings)
    → Remaining (process_payout provider now x (counts, db)).1 pendings
unfolding process_payout
process_payout-Remaining provider now x pendings counts db h =
    elim (Option-cases (get_payout db.payouts x.id)) [
      | inl e ↦ rw (process_payout, e) (λ k p found pending. unmet e k p found pending)
      | inr (p, e) ↦ elim (Bool-cases (is_pending_payout p.status)) [
        | inr n ↦ rw (process_payout, e, n) (λ k q found pending. over p e n k q found pending)
        | inl y ↦ rw (process_payout, e, y) (after p e)
      ]
    ]
  where
    unmet :
        get_payout db.payouts x.id ≡ none
        → (k : ℕ) (q : Payout) → get_payout db.payouts k ≡ some q
        → is_pending_payout q.status ≡ true
        → any (λ r. r.id == k) pendings ≡ true
    unmet e k q found pending = elim (Bool-cases (x.id == k)) [
      | inr n ↦ ground (arith, h k q found pending)
      | inl y ↦
          let k_is : x.id ≡ k = ground arith in
          let both : none ≡ some q = sym e ∙ ap (get_payout db.payouts) k_is ∙ found in cc
    ]

    over :
        (p : Payout)
        → get_payout db.payouts x.id ≡ some p
        → is_pending_payout p.status ≡ false
        → (k : ℕ) (q : Payout) → get_payout db.payouts k ≡ some q
        → is_pending_payout q.status ≡ true
        → any (λ r. r.id == k) pendings ≡ true
    over p e n k q found pending = elim (Bool-cases (x.id == k)) [
      | inr m ↦ ground (arith, h k q found pending)
      | inl y ↦
          let k_is : x.id ≡ k = ground arith in
          let both : some p ≡ some q = sym e ∙ ap (get_payout db.payouts) k_is ∙ found in
          let p_is : p ≡ q = cc in
          absurd (
            true≢false
              (sym pending ∙ ap (λ (r : Payout). is_pending_payout r.status) (sym p_is) ∙ n))
    ]

    after :
        (p : Payout)
        → get_payout db.payouts x.id ≡ some p
        → Remaining
            (settle_payout
              (provider (record p { status = PayoutStatus.processing }))
              p.id
              now
              (record counts { processed = counts.processed + 1 }, start_payout p.id db)).1
            pendings
    after p e k q found pending =
        let own : p.id ≡ x.id = ground (arith, (In-of_first (λ r. r.id == x.id) db.payouts e).1) in
        let (status, reference, closed, payouts_are) =
          settle_payout-ended (provider (record p { status = PayoutStatus.processing })) now
            (record counts { processed = counts.processed + 1 }) db p
            (get_payout_own x.id db.payouts e) in
        let (before, other) =
          get_payout-ended k status reference now p db.payouts closed
            (sym (ap (λ l. get_payout l k) payouts_are) ∙ found) pending in
        let still = h k q before pending in ground arith

process_payouts-Remaining :
    (provider : PayoutProvider) (now : ℤ) (pendings : List Payout) (s : PayoutCounts × Database)
    → Remaining s.1 pendings
    → Remaining (process_payouts provider now pendings s).1 []
unfolding process_payouts
process_payouts-Remaining provider now [] s h = h
process_payouts-Remaining provider now (p ∷ pendings) s h =
    process_payouts-Remaining provider now pendings (process_payout provider now p s)
      (process_payout-Remaining provider now p pendings s.0 s.1 h)

list_pending_payouts-Remaining : (db : Database) → Remaining db (list_pending_payouts db.payouts)
unfolding list_pending_payouts
list_pending_payouts-Remaining db k p found pending =
    let (i, own) = In-of_first (λ q. q.id == k) db.payouts found in
    any_of_In (λ q. q.id == k) p (list_pending_payouts db.payouts)
      (In-keep (λ q. is_pending_payout q.status) p db.payouts i pending) own

-- A step counts the payout, and at most one ending of it.
process_payout-counts :
    (provider : PayoutProvider) (now : ℤ) (x : Payout) (counts : PayoutCounts) (db : Database)
    → let after = (process_payout provider now x (counts, db)).0 in
      (after.processed ≡ counts.processed + 1)
      × (after.completed + after.failed ≤ counts.completed + counts.failed + 1)
unfolding process_payout
process_payout-counts provider now x counts db = elim (Option-cases (get_payout db.payouts x.id)) [
  | inl e ↦ rw (process_payout, e) (refl, omega arith)
  | inr (p, e) ↦ elim (Bool-cases (is_pending_payout p.status)) [
    | inr n ↦ rw (process_payout, e, n) (refl, omega arith)
    | inl y ↦
        rw (process_payout, e, y)
          (ended_counts (provider (record p { status = PayoutStatus.processing })) p)
  ]
]
  where
    ended_counts :
        (answer : PayoutAnswer) (p : Payout)
        → let after =
            (settle_payout answer p.id now
              (record counts { processed = counts.processed + 1 }, start_payout p.id db)).0 in
          (after.processed ≡ counts.processed + 1)
          × (after.completed + after.failed ≤ counts.completed + counts.failed + 1)
    ended_counts (completed_with reference) p = (refl, omega arith)
    ended_counts (other_status reference) p = (refl, omega arith)
    ended_counts raised p = (refl, omega arith)

process_payouts-counts :
    (provider : PayoutProvider) (now : ℤ) (pendings : List Payout) (s : PayoutCounts × Database)
    → let after = (process_payouts provider now pendings s).0 in
      (after.processed ≡ s.0.processed + length pendings)
      × (after.completed + after.failed ≤ s.0.completed + s.0.failed + length pendings)
unfolding process_payouts
process_payouts-counts provider now [] s = (omega arith, omega arith)
process_payouts-counts provider now (p ∷ pendings) s =
    let (a, b) = process_payout-counts provider now p s.0 s.1 in
    let (c, d) = process_payouts-counts provider now pendings (process_payout provider now p s) in
    (omega arith, omega arith)

-- Whatever the payout provider answers for each payout, a run of `process_pending_payouts` under
-- the name "mock" ends with counts: `processed` is the number of payouts that were pending, and
-- `completed` and `failed` together come to no more. After it no payout that an id finds is
-- pending.
pub process_pending_payouts-ends :
    (provider : PayoutProvider) (now : ℤ) (db : Database)
    → let (result, db') = process_pending_payouts provider (codes "mock") now db in
      ((counts : PayoutCounts) × (result ≡ ok counts)
        × (counts.processed ≡ length (list_pending_payouts db.payouts))
        × (counts.completed + counts.failed ≤ counts.processed))
      × ((k : ℕ) (p : Payout)
          → get_payout db'.payouts k ≡ some p
          → is_pending_payout p.status ≡ false)
unfolding process_pending_payouts
process_pending_payouts-ends provider now db =
    let pendings = list_pending_payouts db.payouts in
    let start : PayoutCounts × Database =
      (record { processed = 0; completed = 0; failed = 0 }, db) in
    let (a, b) = process_payouts-counts provider now pendings start in
    (
      ((process_payouts provider now pendings start).0, refl, omega arith, omega arith),
      λ k p found. none_left k p found (Bool-cases (is_pending_payout p.status)),
    )
  where
    none_left :
        (k : ℕ) (p : Payout)
        → get_payout
            (process_payouts provider now
              (list_pending_payouts db.payouts)
              (record { processed = 0; completed = 0; failed = 0 }, db)).1.payouts
            k
          ≡ some p
        → (is_pending_payout p.status ≡ true) ⊎ (is_pending_payout p.status ≡ false)
        → is_pending_payout p.status ≡ false
    none_left k p found (inr n) = n
    none_left k p found (inl y) =
        let impossible =
          process_payouts-Remaining provider now (list_pending_payouts db.payouts)
            (record { processed = 0; completed = 0; failed = 0 }, db)
            (list_pending_payouts-Remaining db) k p found y in
        absurd (true≢false (sym impossible))
