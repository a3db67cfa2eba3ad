-- ===== src/Models/Enums.antt =====
-- The enumerations of backend/app/models/enums.py.
use book_point.Base.{Bool, true, false}

pub data MembershipRole : Type 0 where
  owner admin provider staff : MembershipRole

pub data BookingChannel : Type 0 where
  whatsapp telegram web mobile dashboard admin_channel : BookingChannel

pub data AppointmentStatus : Type 0 where
  pending pending_payment confirmed cancelled completed no_show : AppointmentStatus

pub data PaymentStatus : Type 0 where
  pending requires_action succeeded failed canceled refunded : PaymentStatus

pub data PaymentType : Type 0 where
  full deposit : PaymentType

pub data CommissionType : Type 0 where
  percentage fixed : CommissionType

pub data CancellationPolicyType : Type 0 where
  flexible moderate strict : CancellationPolicyType

pub data RefundStatus : Type 0 where
  pending succeeded failed : RefundStatus

pub data ProviderEarningStatus : Type 0 where
  pending ready_for_payout paid_out : ProviderEarningStatus

pub data PayoutStatus : Type 0 where
  pending processing completed failed : PayoutStatus

-- `BLOCKING_STATUSES` of the appointment repository; `RESCHEDULABLE_STATUSES` is the same set.
abbrev pub is_blocking : AppointmentStatus → Bool
is_blocking AppointmentStatus.pending = true
is_blocking AppointmentStatus.pending_payment = true
is_blocking AppointmentStatus.confirmed = true
is_blocking _ = false

abbrev pub is_reschedulable : AppointmentStatus → Bool
is_reschedulable AppointmentStatus.pending = true
is_reschedulable AppointmentStatus.pending_payment = true
is_reschedulable AppointmentStatus.confirmed = true
is_reschedulable _ = false
