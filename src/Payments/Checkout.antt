-- ===== src/Payments/Checkout.antt =====
-- `create_checkout_session_for_appointment` of backend/app/services/payments/service.py.
use book_point.Base.{
  ℕ, ◌+◌, Bool, true, false, not, Option, none, some, [], ◌∷◌, ◌++◌, if◌then◌else◌,
}
use book_point.Base.Int.{ℤ}
use book_point.Base.Text.{Text, codes, eq_text, upper}
use book_point.Models.{
  Appointment, Database, Payment, PaymentStatus, Service, count, event, notify, payment_required,
}
use book_point.Payments.Policy.{required_amount_minor}
use book_point.Payments.RefundPolicy.{service_of}
use book_point.Payments.Rows.{update_payment}
use book_point.Payments.Transaction.{Tx, ◌>>=◌, ◌>>◌, lift, modify, pure, transact}
use book_point.Results.{Result, currency_required, err, ok, unsupported_provider}

pub record CheckoutSession : Type 0 where
  pub checkout_session_id : Text
  pub payment_intent_id : Text
  pub checkout_url : Text
  pub status : PaymentStatus

-- A checkout provider, from the row of the payment; one that raises gives an error.
abbrev pub CheckoutProvider : Type 0
CheckoutProvider = Payment → Result CheckoutSession

-- `MockCheckoutProvider`, with the random tokens of the session and the intent.
unfoldable pub mock_checkout_provider : Text → Text → CheckoutProvider
mock_checkout_provider session_token intent_token payment = ok (record {
  checkout_session_id = codes "mock_cs_" ++ session_token;
  payment_intent_id = codes "mock_pi_" ++ intent_token;
  checkout_url =
      codes "https://mock-pay.bookpoint.local/checkout/" ++ codes "mock_cs_" ++ session_token;
  status = PaymentStatus.requires_action;
})

-- `(service.currency or "").upper()`
abbrev pub upper_currency : Option Text → Text
upper_currency none = []
upper_currency (some c) = upper c

abbrev pub is_empty : Text → Bool
is_empty [] = true
is_empty (c ∷ s) = false

abbrev pub new_payment : ℕ → Appointment → Service → ℕ → ℤ → Payment
new_payment k appointment service amount_minor now = record {
  id = k;
  appointment_id = appointment.id;
  organization_id = appointment.organization_id;
  amount_minor = amount_minor;
  currency = upper_currency service.currency;
  provider_name = codes "mock";
  provider_payment_intent_id = none;
  provider_checkout_session_id = none;
  provider_checkout_url = none;
  status = PaymentStatus.pending;
  payment_type = service.payment_type;
  paid_at = none;
  created_at = now;
}

abbrev pub insert_payment : Payment → Database → Database
insert_payment p db = record db { payments = p ∷ db.payments; next_id = db.next_id + 1 }

abbrev pub with_session : CheckoutSession → Payment → Payment
with_session s p = record p {
  provider_checkout_session_id = some s.checkout_session_id;
  provider_payment_intent_id = some s.payment_intent_id;
  provider_checkout_url = some s.checkout_url;
  status = s.status;
}

-- The notification names the appointment, the event the payment.
abbrev pub announce_checkout : Payment → Database → Database
announce_checkout p db = record db {
  log =
      event payment_required p.id
      ∷ count payment_required
      ∷ notify payment_required p.appointment_id
      ∷ db.log;
}

-- The transaction: the row is written, the provider opens a session, and the row takes it over.
abbrev pub open_session : CheckoutProvider → Payment → Tx Payment
open_session provider payment = do
  modify (insert_payment payment)
  session ← lift (provider payment)
  modify
      (λ db. record db { payments = update_payment payment.id (with_session session) db.payments })
  modify (announce_checkout payment)
  pure (with_session session payment)

abbrev pub checkout_of :
    CheckoutProvider
    → Appointment
    → Service
    → ℤ
    → Database
    → Result ℕ
    → Result (Option Payment) × Database
checkout_of provider appointment service now db (err e) = (err e, db)
checkout_of provider appointment service now db (ok amount_minor) =
    if is_empty (upper_currency service.currency)
    then (err currency_required, db)
    else transact
        (do
          payment ←
              open_session provider (new_payment db.next_id appointment service amount_minor now)
          pure (some payment))
        db

abbrev pub checkout_service :
    CheckoutProvider
    → Text
    → Appointment
    → Option Service
    → ℤ
    → Database
    → Result (Option Payment) × Database
checkout_service provider provider_name appointment none now db = (ok none, db)
checkout_service provider provider_name appointment (some service) now db =
    if not service.requires_payment
    then (ok none, db)
    else if not (eq_text provider_name (codes "mock"))
    then (err unsupported_provider, db)
    else checkout_of provider appointment service now db (required_amount_minor service)

unfoldable pub create_checkout_session_for_appointment :
    CheckoutProvider → Text → Appointment → ℤ → Database → Result (Option Payment) × Database
unfolding required_amount_minor
create_checkout_session_for_appointment provider provider_name appointment now db =
    checkout_service provider provider_name appointment (service_of db appointment) now db
