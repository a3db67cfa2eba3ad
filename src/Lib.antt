-- ===== src/Lib.antt =====
-- BookPoint: the booking, scheduling and payment core of backend/app, modelled and verified.
--
-- The program is a FastAPI backend. Routers call services; a service reads and writes rows through
-- repositories in one database transaction, and after the commit sends a notification, counts a
-- metric and records a domain event. The appointment service asks the scheduler for timing, conflicts
-- and slots; a cancellation starts a refund; a payment that succeeds confirms its appointment and
-- creates the earning of the provider; a refund adjusts the earning; earnings are paid out.
--
-- The files, and the code that each is about:
--   Base, Results: shared helpers; Python's integers (ℤ over the native numbers), text as code points,
--     tests into Bool, lists; exceptions as the values of `Error`, one for each message.
--   Time: utils/datetime.py. An instant counts microseconds. `Zones` stands for the time-zone
--     database; no property needs anything of it.
--   Models: models/*.py. The rows that the services read or write, and `Database`, which holds them.
--     A column that a CHECK keeps from being negative is a natural number, a relationship its foreign
--     key. A UNIQUE constraint is a lookup at the insert, which raises or resolves as the code does, so
--     that no run writes a duplicate. One counter `next_id` gives the ids of all tables. `log`
--     holds the effects that follow a commit (notification, counter, event), the latest first.
--   Repositories, Payments/Rows: repositories/*.py. A query is a function of the rows; a primary-key
--     lookup is the first row of that id.
--   Scheduling: services/scheduling_service.py. Timing (`resolve_service_timing`), Blocking
--     (`compute_blocked_interval`, `has_blocked_overlap` and their helpers), Slots
--     (`get_available_slots`), and below it Window, the `while True` loop over the candidates of one
--     window. Blocking/Complete, Slots/Sorted, Slots/Offered, Slots/Clear, Slots/Terminates,
--     Slots/Window/Exact and Timing/Resolve hold proofs.
--   Appointments: services/appointment_service.py. Booking has `create_appointment` and
--     `reschedule_appointment`, Cancel has `cancel_appointment`. Checks, Apart, Move, Release,
--     Refunded, Cancelled and Bookable hold proofs.
--   Payments: services/payments and utils. Transaction (a transaction as a state monad that rolls back
--     on an exception), Rounding and Commission (utils/commission.py), Policy (utils/payment.py),
--     Earnings (earning_service.py), RefundPolicy and Refunds (refund_service.py), Payouts
--     (payout_service.py), Checkout, Status, Expiry and Summary (service.py). Paid has the histories of
--     all operations that write payments, as a step relation; RefundPolicy/Amount, Refunds/Outcomes,
--     Refunds/Balance, Earnings/Sound, Commission/Fee, and Payouts/Found, Links, Settled, Run and
--     Processed hold proofs.
--   Idempotency: services/idempotency_service.py, on a table of its own. Once and Others hold proofs.
--     `meanwhile` is what other requests commit between the lookup and the insert.
--   RateLimiter: services/rate_limiter.py, with the memory store as a list of entries and the commands
--     of the Redis client as parameters. Window and Fallback hold proofs.
--   Schedule: services/provider_availability_service.py, provider_date_override_service.py and
--     provider_time_off_service.py (Availability, Overrides, TimeOff). A field of an update that is not
--     set, null or a value is a `Patch`. Pairwise has tables whose rows must not clash; Weekly, Dated,
--     History and Windows hold proofs.
--   Customers: utils/phone.py (Phone) and the customers of services/discovery_service.py (Resolve), with
--     repositories/customer_repository.py. Unique and Contact hold proofs. Text is read as ASCII.
--   Discovery: services/discovery_service.py. Visible has the lists that a customer sees, Booking
--     `create_public_booking`, which calls the appointment and the payment services; `meanwhile` is what
--     other requests commit before a customer is inserted. Apart, Bookable and Offered hold proofs.
--   SelfService: services/customer_self_service_booking_service.py, in front of the appointment service.
--     `Tokens` gives the access token of each booking. Guarded, Others and Requests hold proofs.
--   WhatsApp: services/whatsapp/service.py. Actions has the ids of buttons and list rows, with Python's
--     `date` (Calendar), State the conversation's row and the messages, Menu, Choices and Slots the
--     handlers up to the choice of a slot, Manage the cancellation and the confirmed reschedule.
--     ReadBack, Fitting, Choosing, Prompt, Turns and Owned hold proofs.
--   Samples, and the Tests of each part: a small database and runs on it.
--
-- A handler takes the database and gives its result with the database after it, the branches in the
-- order of the code. Where the code commits in several transactions the database of each commit is
-- what the next starts from. Gateways (refund, payout and checkout providers) are parameters:
-- functions that may answer with any status or raise. The current time is an argument.
--
-- Fuel: the loop over a window needs it, and `show`, which writes a number in decimal and has one
-- round more than the number, where each takes off a digit. `window_fuel` gives one round more than
-- there are whole minutes from the first candidate to the window's end; every round moves on by the
-- duration, which is at least a minute where durations are positive.
--
-- Not modelled: routers, schemas, workers and configuration (glue and input/output); the other
-- handlers of the WhatsApp conversation, and authentication (separate components); the ends of
-- Python's datetime range; concurrent transactions, which the row locks put in order; the overlap
-- constraint of the database, a second check behind the one of the service.
pub mod Base
pub mod Results
pub mod Time
pub mod Models
pub mod Repositories
pub mod Scheduling
pub mod Appointments
pub mod Payments
pub mod Idempotency
pub mod RateLimiter
pub mod Schedule
pub mod Customers
pub mod Discovery
pub mod SelfService
pub mod WhatsApp
pub mod Samples
