-- ===== src/Payments/Payouts.antt =====
-- backend/app/services/payments/payout_service.py
pub mod Found
pub mod Links
pub mod Settled
pub mod Run
pub mod Processed
use book_point.Base.{
  ℕ, suc, ◌+◌, Bool, true, false, not, ◌&&◌, Option, none, some, List, [], ◌∷◌, ◌++◌, map, leb,
  ◌==◌, if◌then◌else◌,
}
use book_point.Base.Int.{ℤ}
use book_point.Base.Text.{Text, codes, eq_text, or_text}
use book_point.Models.{
  Database, Effect, EffectKind, Payout, PayoutStatus, ProviderEarning, ProviderEarningStatus, count,
  event, notify, paid_out, payout_completed, payout_created, payout_failed, ready_for_payout,
}
use book_point.Payments.Rows.{
  get_payout, is_linked, is_payable, is_pending_payout, list_pending_payouts, list_ready_for_payout,
  update_payout,
}
use book_point.Repositories.{get_provider}
use book_point.Results.{
  Result, err, no_earnings_ready, no_positive_payout, ok, payout_currency_mismatch,
  payout_not_found, provider_not_found, unsupported_provider,
}

-- `sum(earning.provider_amount_minor for earning in earnings)`
unfoldable pub total_of : List ProviderEarning → ℕ
total_of [] = 0
total_of (e ∷ earnings) = e.provider_amount_minor + total_of earnings

-- `len({earning.currency for earning in earnings}) == 1`, of a list that begins with this currency.
abbrev pub in_currency : Text → List ProviderEarning → Bool
in_currency c [] = true
in_currency c (e ∷ earnings) = eq_text e.currency c && in_currency c earnings

abbrev pub new_payout : ℕ → ℕ → Text → ℕ → Payout
new_payout k provider_id currency total_amount_minor = record {
  id = k;
  provider_id = provider_id;
  total_amount_minor = total_amount_minor;
  currency = currency;
  status = PayoutStatus.pending;
  provider_payout_reference = none;
  processed_at = none;
}

abbrev pub link : ℕ → ProviderEarning → ProviderEarning
link k e = record e { status = paid_out; payout_id = some k }

-- The update of the collected rows: those that the query of the provider's ready earnings gives.
abbrev pub link_ready : ℕ → ℕ → List ProviderEarning → List ProviderEarning
link_ready provider_id k = map (λ e. if is_payable provider_id e then link k e else e)

abbrev pub announce_payout : EffectKind → ℕ → List Effect → List Effect
announce_payout kind k log = event kind k ∷ count kind ∷ notify kind k ∷ log

-- The commit of `create_payout`.
unfoldable pub commit_payout : ℕ → Text → ℕ → Database → Database
commit_payout provider_id currency total_amount_minor db = record db {
  payouts = new_payout db.next_id provider_id currency total_amount_minor ∷ db.payouts;
  earnings = link_ready provider_id db.next_id db.earnings;
  next_id = db.next_id + 1;
  log = announce_payout payout_created db.next_id db.log;
}

-- `create_payout`, of a provider that exists, from the earnings collected.
abbrev pub pay_out : ℕ → List ProviderEarning → Database → Result (Unit {0}) × Database
pay_out provider_id [] db = (err no_earnings_ready, db)
pay_out provider_id (e ∷ earnings) db =
    if not (in_currency e.currency earnings)
    then (err payout_currency_mismatch, db)
    else if leb (total_of (e ∷ earnings)) 0
    then (err no_positive_payout, db)
    else (ok tt, commit_payout provider_id e.currency (total_of (e ∷ earnings)) db)

unfoldable pub create_payout : ℕ → Database → Result (Unit {0}) × Database
unfolding list_ready_for_payout commit_payout total_of
create_payout provider_id db = elim (get_provider db.directory provider_id) [
  | none ↦ (err provider_not_found, db)
  | some provider ↦ pay_out provider_id (list_ready_for_payout db.earnings provider_id) db
]

abbrev pub is_completed_payout : PayoutStatus → Bool
is_completed_payout PayoutStatus.completed = true
is_completed_payout _ = false

abbrev pub is_failed_payout : PayoutStatus → Bool
is_failed_payout PayoutStatus.failed = true
is_failed_payout _ = false

abbrev pub end_payout : PayoutStatus → Option Text → ℤ → Payout → Payout
end_payout status reference now p = record p {
  status = status;
  provider_payout_reference = or_text reference p.provider_payout_reference;
  processed_at = some now;
}

unfoldable pub commit_payout_completed : ℕ → Option Text → ℤ → Database → Database
commit_payout_completed k reference now db = record db {
  payouts = update_payout k (end_payout PayoutStatus.completed reference now) db.payouts;
  log = announce_payout payout_completed k db.log;
}

abbrev complete_found :
    ℕ → Option Text → ℤ → Option Payout → Database → Result (Unit {0}) × Database
complete_found k reference now none db = (err payout_not_found, db)
complete_found k reference now (some p) db =
    if is_completed_payout p.status
    then (ok tt, db)
    else (ok tt, commit_payout_completed k reference now db)

unfoldable pub mark_payout_completed : ℕ → Option Text → ℤ → Database → Result (Unit {0}) × Database
unfolding commit_payout_completed
mark_payout_completed k reference now db =
    complete_found k reference now (get_payout db.payouts k) db

abbrev pub unlink : ProviderEarning → ProviderEarning
unlink e = record e { status = ready_for_payout; payout_id = none }

abbrev pub unlink_payout : ℕ → List ProviderEarning → List ProviderEarning
unlink_payout k = map (λ e. if is_linked k e then unlink e else e)

-- The commit of `mark_payout_failed`, which returns the earnings of the payout.
unfoldable pub commit_payout_failed : ℕ → Option Text → ℤ → Database → Database
commit_payout_failed k reference now db = record db {
  earnings = unlink_payout k db.earnings;
  payouts = update_payout k (end_payout PayoutStatus.failed reference now) db.payouts;
  log = announce_payout payout_failed k db.log;
}

abbrev fail_found : ℕ → Option Text → ℤ → Option Payout → Database → Result (Unit {0}) × Database
fail_found k reference now none db = (err payout_not_found, db)
fail_found k reference now (some p) db =
    if is_failed_payout p.status
    then (ok tt, db)
    else (ok tt, commit_payout_failed k reference now db)

unfoldable pub mark_payout_failed : ℕ → Option Text → ℤ → Database → Result (Unit {0}) × Database
unfolding commit_payout_failed
mark_payout_failed k reference now db = fail_found k reference now (get_payout db.payouts k) db

-- What the payout provider answers: COMPLETED or another status, each with a reference or none,
-- or an exception.
pub data PayoutAnswer : Type 0 where
  completed_with other_status : Option Text → PayoutAnswer
  raised : PayoutAnswer

-- A payout provider, from the payout. `MockPayoutProvider` completes, with a reference that a
-- random token ends.
abbrev pub PayoutProvider : Type 0
PayoutProvider = Payout → PayoutAnswer

unfoldable pub mock_payout_provider : Text → PayoutProvider
mock_payout_provider token p = completed_with (some (codes "mock_po_" ++ token))

pub record PayoutCounts : Type 0 where
  pub processed : ℕ
  pub completed : ℕ
  pub failed : ℕ

-- The transition to PROCESSING, and its commit.
unfoldable pub start_payout : ℕ → Database → Database
start_payout k db = record db {
  payouts = update_payout k (λ p. record p { status = PayoutStatus.processing }) db.payouts;
}

abbrev pub settle_payout : PayoutAnswer → ℕ → ℤ → PayoutCounts × Database → PayoutCounts × Database
settle_payout (completed_with reference) k now (counts, db) = (
  record counts { completed = counts.completed + 1 },
  (mark_payout_completed k reference now db).1,
)
settle_payout (other_status reference) k now (counts, db) =
    (record counts { failed = counts.failed + 1 }, (mark_payout_failed k reference now db).1)
settle_payout raised k now (counts, db) =
    (record counts { failed = counts.failed + 1 }, (mark_payout_failed k none now db).1)

abbrev pub process_found :
    PayoutProvider → ℤ → Option Payout → PayoutCounts × Database → PayoutCounts × Database
process_found provider now none (counts, db) = (counts, db)
process_found provider now (some p) (counts, db) =
    if not (is_pending_payout p.status)
    then (counts, db)
    else settle_payout (provider (record p { status = PayoutStatus.processing })) p.id now
        (counts, start_payout p.id db)

-- An iteration of the loop of `process_pending_payouts`.
unfoldable pub process_payout :
    PayoutProvider → ℤ → Payout → PayoutCounts × Database → PayoutCounts × Database
unfolding mark_payout_completed mark_payout_failed start_payout
process_payout provider now pending (counts, db) =
    process_found provider now (get_payout db.payouts pending.id)
      (record counts { processed = counts.processed + 1 }, db)

unfoldable pub process_payouts :
    PayoutProvider → ℤ → List Payout → PayoutCounts × Database → PayoutCounts × Database
unfolding process_payout
process_payouts provider now [] s = s
process_payouts provider now (p ∷ pendings) s =
    process_payouts provider now pendings (process_payout provider now p s)

unfoldable pub process_pending_payouts :
    PayoutProvider → Text → ℤ → Database → Result PayoutCounts × Database
unfolding process_payouts list_pending_payouts
process_pending_payouts provider provider_name now db =
    let (counts, db') =
      process_payouts provider now (list_pending_payouts db.payouts)
        (record { processed = 0; completed = 0; failed = 0 }, db) in
    if eq_text provider_name (codes "mock")
    then (ok counts, db')
    else (err unsupported_provider, db)
