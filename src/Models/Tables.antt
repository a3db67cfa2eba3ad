-- ===== src/Models/Tables.antt =====
-- The rows of the tables, and the database that holds them. A column with a CHECK that it is not
-- negative is a natural number; a relationship is the foreign key that it follows.
use book_point.Base.{ℕ, Bool, Option, List}
use book_point.Base.Int.{ℤ}
use book_point.Base.Text.{Text}
use book_point.Time.{Datetime}
use book_point.Models.Enums.{
  BookingChannel, AppointmentStatus, PaymentStatus, PaymentType, CommissionType,
  CancellationPolicyType, RefundStatus, ProviderEarningStatus, PayoutStatus,
}

-- `timezone` stands for the name of a zone, and `commission_percentage` counts ten-thousandths.
pub record Organization : Type 0 where
  pub id : ℕ
  pub timezone : ℕ
  pub is_active : Bool
  pub commission_type : CommissionType
  pub commission_percentage : Option ℤ
  pub commission_fixed_minor : Option ℤ

pub record Location : Type 0 where
  pub id : ℕ
  pub organization_id : ℕ
  pub is_active : Bool

pub record Provider : Type 0 where
  pub id : ℕ
  pub organization_id : ℕ
  pub user_id : Option ℕ
  pub is_active : Bool
  pub appointment_duration_minutes : ℕ

-- `price` counts hundredths, as Numeric(10, 2) stores it.
pub record Service : Type 0 where
  pub id : ℕ
  pub organization_id : ℕ
  pub is_active : Bool
  pub duration_minutes : ℕ
  pub buffer_before_minutes : ℕ
  pub buffer_after_minutes : ℕ
  pub requires_payment : Bool
  pub payment_type : PaymentType
  pub price : Option ℕ
  pub currency : Option Text
  pub deposit_amount_minor : Option ℕ
  pub cancellation_policy_type : CancellationPolicyType
  pub cancellation_window_hours : ℕ

pub record ProviderService : Type 0 where
  pub provider_id : ℕ
  pub service_id : ℕ
  pub duration_minutes_override : Option ℕ

pub record ProviderAvailability : Type 0 where
  pub id : ℕ
  pub provider_id : ℕ
  pub weekday : ℕ
  pub start_time : ℕ
  pub end_time : ℕ
  pub is_active : Bool

pub record ProviderDateOverride : Type 0 where
  pub id : ℕ
  pub provider_id : ℕ
  pub override_date : ℕ
  pub is_available : Bool
  pub start_time : Option ℕ
  pub end_time : Option ℕ
  pub is_active : Bool

pub record ProviderTimeOff : Type 0 where
  pub id : ℕ
  pub provider_id : ℕ
  pub start_datetime : Datetime
  pub end_datetime : Datetime

pub record Customer : Type 0 where
  pub id : ℕ
  pub full_name : Text
  pub phone_number : Text
  pub phone_number_normalized : Text
  pub email : Option Text
  pub preferred_language : Option Text

pub record Appointment : Type 0 where
  pub id : ℕ
  pub organization_id : ℕ
  pub location_id : ℕ
  pub provider_id : ℕ
  pub service_id : Option ℕ
  pub customer_id : ℕ
  pub start_datetime : Datetime
  pub end_datetime : Datetime
  pub status : AppointmentStatus
  pub booking_channel : BookingChannel
  pub notes : Option Text

pub record Payment : Type 0 where
  pub id : ℕ
  pub appointment_id : ℕ
  pub organization_id : ℕ
  pub amount_minor : ℕ
  pub currency : Text
  pub provider_name : Text
  pub provider_payment_intent_id : Option Text
  pub provider_checkout_session_id : Option Text
  pub provider_checkout_url : Option Text
  pub status : PaymentStatus
  pub payment_type : PaymentType
  pub paid_at : Option ℤ
  pub created_at : ℤ

pub record Refund : Type 0 where
  pub id : ℕ
  pub payment_id : ℕ
  pub amount_minor : ℕ
  pub currency : Text
  pub provider_refund_id : Option Text
  pub status : RefundStatus
  pub processed_at : Option ℤ

pub record ProviderEarning : Type 0 where
  pub id : ℕ
  pub provider_id : ℕ
  pub appointment_id : ℕ
  pub payment_id : ℕ
  pub payout_id : Option ℕ
  pub gross_amount_minor : ℕ
  pub platform_fee_minor : ℕ
  pub provider_amount_minor : ℕ
  pub refunded_amount_minor : ℕ
  pub adjustment_pending_minor : ℕ
  pub currency : Text
  pub status : ProviderEarningStatus

pub record Payout : Type 0 where
  pub id : ℕ
  pub provider_id : ℕ
  pub total_amount_minor : ℕ
  pub currency : Text
  pub status : PayoutStatus
  pub provider_payout_reference : Option Text
  pub processed_at : Option ℤ

-- What a service does besides its own tables: a task for the notification worker, a counter of the
-- metrics registry, or a row of the domain events. The number is the entity's id.
pub data EffectKind : Type 0 where
  booking_created booking_canceled booking_rescheduled : EffectKind
  payment_required payment_confirmed payment_failed earning_created : EffectKind
  booking_auto_canceled_payment_timeout : EffectKind
  refund_initiated refund_succeeded refund_failed : EffectKind
  payout_created payout_completed payout_failed : EffectKind
  whatsapp_conversation_started whatsapp_cancel_completed whatsapp_reschedule_completed : EffectKind

pub data Effect : Type 0 where
  notify event : EffectKind → ℕ → Effect
  count : EffectKind → Effect

-- The tables that the scheduler only reads.
pub record Directory : Type 0 where
  pub organizations : List Organization
  pub locations : List Location
  pub providers : List Provider
  pub services : List Service
  pub provider_locations : List (ℕ × ℕ)
  pub provider_services : List ProviderService
  pub service_locations : List (ℕ × ℕ)
  pub availabilities : List ProviderAvailability
  pub overrides : List ProviderDateOverride
  pub time_offs : List ProviderTimeOff

-- `next_id` is above every id in use; `log` holds the effects, the latest first.
pub record Database : Type 0 where
  pub directory : Directory
  pub customers : List Customer
  pub appointments : List Appointment
  pub payments : List Payment
  pub refunds : List Refund
  pub earnings : List ProviderEarning
  pub payouts : List Payout
  pub next_id : ℕ
  pub log : List Effect
