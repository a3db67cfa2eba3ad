-- ===== src/Samples.antt =====
-- A small directory and its bookings and payments, for the tests: a provider who works three hours on
-- a Monday, a paid service with buffers, and one booking of it.
use book_point.Appointments.Booking.{AppointmentCreate}
use book_point.Appointments.Apart.{clashes}
use book_point.Appointments.Cancelled.{Sound}
use book_point.Base.{refl, arith, List, ℕ, ◌+◌, ◌*◌, ◌/◌, true, none, some, [], ◌∷◌}
use book_point.Base.Int.{◌+ℤ◌, ◌-ℤ◌, ℤ, pos, pos_part}
use book_point.Base.Text.{codes}
use book_point.Models.{
  Appointment, AppointmentStatus, BookingChannel, CancellationPolicyType, CommissionType, Customer,
  Database, Directory, Organization, Payment, PaymentStatus, PaymentType, Payout, PayoutStatus,
  Provider, ProviderEarning, ProviderEarningStatus, Service,
}
use book_point.Payments.Rows.{sum_succeeded_amount_for_payment}
use book_point.Scheduling.Slots.Window.{Slot}
use book_point.Time.{as_utc, overlaps, Zones, aware}

-- A zone at UTC, whose wall clock counts minutes.
abbrev pub zones : Zones
zones = record {
  to_utc = λ zone date time. pos (86_400_000_000 * date + 60_000_000 * time);
  local_date = λ zone t. pos_part t / 86_400_000_000;
}

abbrev pub at_minute : ℕ → ℤ
at_minute m = pos (86_400_000_000 + 60_000_000 * m)

abbrev pub organization : Organization
organization = record {
  id = 1;
  timezone = 0;
  is_active = true;
  commission_type = CommissionType.percentage;
  commission_percentage = some (pos 1_000);
  commission_fixed_minor = some (pos 0);
}

abbrev pub provider : Provider
provider = record {
  id = 3;
  organization_id = 1;
  user_id = none;
  is_active = true;
  appointment_duration_minutes = 30;
}

abbrev pub service : Service
service = record {
  id = 4;
  organization_id = 1;
  is_active = true;
  duration_minutes = 30;
  buffer_before_minutes = 5;
  buffer_after_minutes = 10;
  requires_payment = true;
  payment_type = PaymentType.full;
  price = some 10_000;
  currency = some (codes "USD");
  deposit_amount_minor = none;
  cancellation_policy_type = CancellationPolicyType.flexible;
  cancellation_window_hours = 24;
}

abbrev pub directory : Directory
directory = record {
  organizations = organization ∷ [];
  locations = record { id = 2; organization_id = 1; is_active = true } ∷ [];
  providers = provider ∷ [];
  services = service ∷ [];
  provider_locations = (3, 2) ∷ [];
  provider_services =
      record { provider_id = 3; service_id = 4; duration_minutes_override = none } ∷ [];
  service_locations = (4, 2) ∷ [];
  availabilities =
      record {
        id = 6;
        provider_id = 3;
        weekday = 0;
        start_time = 540;
        end_time = 720;
        is_active = true;
      }
      ∷ [];
  overrides = [];
  time_offs = [];
}

abbrev pub customer : Customer
customer = record {
  id = 5;
  full_name = codes "Ann";
  phone_number = codes "+1 555 0100";
  phone_number_normalized = codes "+15550100";
  email = some (codes "Ann@example.com");
  preferred_language = some (codes "en");
}

-- 9:05 to 9:35
abbrev pub appointment : Appointment
appointment = record {
  id = 7;
  organization_id = 1;
  location_id = 2;
  provider_id = 3;
  service_id = some 4;
  customer_id = 5;
  start_datetime = aware (at_minute 545);
  end_datetime = aware (at_minute 575);
  status = AppointmentStatus.confirmed;
  booking_channel = BookingChannel.web;
  notes = none;
}

abbrev pub payment : Payment
payment = record {
  id = 8;
  appointment_id = 7;
  organization_id = 1;
  amount_minor = 10_000;
  currency = codes "USD";
  provider_name = codes "mock";
  provider_payment_intent_id = some (codes "pi");
  provider_checkout_session_id = some (codes "cs");
  provider_checkout_url = none;
  status = PaymentStatus.succeeded;
  payment_type = PaymentType.full;
  paid_at = some (pos 0);
  created_at = pos 0;
}

abbrev pub earning : ProviderEarning
earning = record {
  id = 9;
  provider_id = 3;
  appointment_id = 7;
  payment_id = 8;
  payout_id = none;
  gross_amount_minor = 10_000;
  platform_fee_minor = 1_000;
  provider_amount_minor = 9_000;
  refunded_amount_minor = 0;
  adjustment_pending_minor = 0;
  currency = codes "USD";
  status = ProviderEarningStatus.ready_for_payout;
}

abbrev pub database : Database
database = record {
  directory = directory;
  customers = customer ∷ [];
  appointments = appointment ∷ [];
  payments = payment ∷ [];
  refunds = [];
  earnings = earning ∷ [];
  payouts = [];
  next_id = 10;
  log = [];
}

abbrev pub pending_payout : Payout
pending_payout = record {
  id = 10;
  provider_id = 3;
  total_amount_minor = 9_000;
  currency = codes "USD";
  status = PayoutStatus.pending;
  provider_payout_reference = none;
  processed_at = none;
}

-- A payout of the earning that the provider has yet to process.
abbrev pub paying : Database
paying = record database {
  earnings = record earning { status = ProviderEarningStatus.paid_out; payout_id = some 10 } ∷ [];
  payouts = pending_payout ∷ [];
  next_id = 11;
}

-- A payment that still waits for the customer.
abbrev pub awaiting : Database
awaiting = record database {
  appointments = record appointment { status = AppointmentStatus.pending_payment } ∷ [];
  payments = record payment { status = PaymentStatus.requires_action; paid_at = none } ∷ [];
  earnings = [];
}

-- A booking at 10:05, the next slot that is free.
abbrev pub payload : AppointmentCreate
payload = record {
  organization_id = some 1;
  location_id = 2;
  provider_id = 3;
  service_id = some 4;
  customer_id = 5;
  start_datetime = aware (at_minute 605);
  status = AppointmentStatus.pending_payment;
  booking_channel = BookingChannel.web;
  notes = none;
}

-- The slot at 10:05.
abbrev pub ten_five : Slot
ten_five = record { start_datetime = at_minute 605; end_datetime = at_minute 635 }

abbrev pub later_slots : List Slot
later_slots =
    ten_five
    ∷ record { start_datetime = at_minute 635; end_datetime = at_minute 665 }
    ∷ record { start_datetime = at_minute 665; end_datetime = at_minute 695 }
    ∷ []

-- A second booking, of another customer.
abbrev pub another : Appointment
another = record appointment {
  id = 8;
  customer_id = 6;
  start_datetime = aware (at_minute 665);
  end_datetime = aware (at_minute 695);
}

abbrev pub two : Database
two = record database { appointments = appointment ∷ another ∷ [] }

pub two-Sound : Sound two
unfolding clashes overlaps as_utc ◌+ℤ◌ ◌-ℤ◌ sum_succeeded_amount_for_payment
two-Sound = (
  (omega arith, refl, ((refl, refl), tt), (omega arith, refl, tt, tt)),
  record { below = (omega arith, tt); distinct = (tt, tt) },
  record { fresh = tt; covered = λ k p e. omega arith },
)
