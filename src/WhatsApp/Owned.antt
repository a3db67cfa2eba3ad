-- ===== src/WhatsApp/Owned.antt =====
-- A conversation changes the bookings of its own customer only
-- (backend/app/services/whatsapp/service.py).
use book_point.Appointments.Booking.{reschedule_appointment}
use book_point.Appointments.Cancel.{cancel_appointment, is_cancelled}
use book_point.Appointments.Cancelled.{Sound, cancel_appointment-Sound}
use book_point.Base.{
  ℕ, ◌≡◌, sym, ◌∙◌, ap, subst, Option, none, some, inl, inr, List, ◌==◌, ==_iff, In-of_first,
  Bool-cases, Option-cases, arith,
}
use book_point.Base.Int.{ℤ, pos, negsuc}
use book_point.Models.{Appointment, Database, Effect}
use book_point.Payments.Refunds.{RefundProvider}
use book_point.Repositories.{get_appointment}
use book_point.Results.{Result, ok, err}
use book_point.Scheduling.Slots.Window.{Slot}
use book_point.SelfService.Others.{
  cancel_appointment-leaves_others, reschedule_appointment-Sound,
  reschedule_appointment-leaves_others,
}
use book_point.Time.{Zones, aware}
use book_point.WhatsApp.Fitting.{none≢some, eq_of_some}
use book_point.WhatsApp.Manage.{
  cancel_answer, confirm_cancel, confirm_reschedule, get_manageable_appointment, may_manage,
  move_to, reschedule_answer, resolve_reschedule_slot,
}
use book_point.WhatsApp.State.{ConversationState}

module _ (customer_id : ℕ) (now : ℤ) (state : ConversationState) where
  -- What a customer may manage is found by its id and is the customer's.
  manageable-own :
      (appointments : List Appointment) (appointment_id : ℤ) (a : Appointment)
      → get_manageable_appointment customer_id now state appointments appointment_id ≡ some a
      → (get_appointment appointments a.id ≡ some a) × (a.customer_id ≡ customer_id)
  unfolding get_manageable_appointment
  manageable-own appointments (negsuc n) a e = absurd (none≢some e)
  manageable-own appointments (pos n) a e = elim (Option-cases (get_appointment appointments n)) [
    | inl q ↦ absurd (none≢some (rw q at e))
    | inr (row, q) ↦ elim (Bool-cases (may_manage customer_id now state row)) [
      | inl y ↦
          let same : row ≡ a = eq_of_some (rw (q, y) at e) in
          let id_is : row.id ≡ n =
            (==_iff row.id n).0 (In-of_first (λ x. x.id == n) appointments q).1 in
          let found : get_appointment appointments row.id ≡ some row =
            ap (λ i. get_appointment appointments i) id_is ∙ q in
          let own : row.customer_id ≡ customer_id = ground arith in
          subst
            (λ (x : Appointment).
              (get_appointment appointments x.id ≡ some x) × (x.customer_id ≡ customer_id))
            same (found, own)
      | inr m ↦ absurd (none≢some (rw (q, m) at e))
    ]
  ]

  module _ (k : ℕ) (b : Appointment) where
    -- The database is sound, and `k` finds the booking `b`.
    abbrev Kept : Database → Type 0
    Kept db = Sound db × (get_appointment db.appointments k ≡ some b)

    logged : (db : Database) (log : List Effect) → Kept db → Kept (record db { log = log })
    logged db log ((c, keyed, r), q) = (
      (
        c,
        record { below = keyed.below; distinct = keyed.distinct },
        record { fresh = r.fresh; covered = r.covered },
      ),
      q,
    )

    cancel_answer-Kept :
        (state' : ConversationState) (r : Result Appointment × Database)
        → Kept r.1
        → Kept (cancel_answer customer_id now state' r).1
    cancel_answer-Kept state' (err e, db) h = h
    cancel_answer-Kept state' (ok a, db) h = logged db _ h

    reschedule_answer-Kept :
        (state' : ConversationState) (r : Result Appointment × Database)
        → Kept r.1
        → Kept (reschedule_answer customer_id now state' r).1
    reschedule_answer-Kept state' (err e, db) h = h
    reschedule_answer-Kept state' (ok a, db) h = logged db _ h

    -- The booking `b` is another's, so its id is not that of a booking of the customer.
    other_id :
        (appointments : List Appointment) (a : Appointment)
        → get_appointment appointments k ≡ some b
        → ¬ (b.customer_id ≡ customer_id)
        → (get_appointment appointments a.id ≡ some a) × (a.customer_id ≡ customer_id)
        → ¬ (a.id ≡ k)
    other_id appointments a q other (found, own) same =
        let rows : a ≡ b =
          eq_of_some (sym found ∙ ap (λ i. get_appointment appointments i) same ∙ q) in
        other (subst (λ (x : Appointment). x.customer_id ≡ customer_id) rows own)

    confirm_cancel-Kept :
        (provider : RefundProvider) (appointment_id : ℤ) (db : Database)
        → ¬ (b.customer_id ≡ customer_id)
        → Kept db
        → Kept (confirm_cancel customer_id now provider state appointment_id db).1
    unfolding confirm_cancel
    confirm_cancel-Kept provider appointment_id db other (sound, q) =
        elim (Option-cases
          (get_manageable_appointment customer_id now state db.appointments appointment_id)) [
            | inl e ↦ rw (confirm_cancel, e) (sound, q)
            | inr (a, e) ↦
                let apart =
                  other_id db.appointments a q other
                    (manageable-own db.appointments appointment_id a e) in
                elim (Bool-cases (is_cancelled a.status)) [
                  | inl y ↦ rw (confirm_cancel, e, y) (sound, q)
                  | inr n ↦
                      rw (confirm_cancel, e, n)
                        (cancel_answer-Kept state (cancel_appointment provider a.id none now db) (
                          cancel_appointment-Sound provider a.id none now db sound,
                          cancel_appointment-leaves_others provider a.id k none now db apart ∙ q,
                        ))
                ]
          ]

    move_to-Kept :
        (zones : Zones) (a : Appointment) (slot : Result (Option Slot)) (db : Database)
        → ¬ (a.id ≡ k)
        → Kept db
        → Kept (move_to customer_id now zones state a slot db).1
    move_to-Kept zones a (err e) db apart h = h
    move_to-Kept zones a (ok none) db apart h = h
    move_to-Kept zones a (ok (some slot)) db apart (sound, q) =
        reschedule_answer-Kept state
          (reschedule_appointment zones a.id (aware slot.start_datetime) db)
          (
            reschedule_appointment-Sound zones a.id (aware slot.start_datetime) db sound,
            reschedule_appointment-leaves_others zones a.id k (aware slot.start_datetime) db apart
                ∙ q,
          )

    confirm_reschedule-Kept :
        (zones : Zones) (appointment_id slot_timestamp : ℤ) (db : Database)
        → ¬ (b.customer_id ≡ customer_id)
        → Kept db
        → Kept (confirm_reschedule customer_id now zones state appointment_id slot_timestamp db).1
    unfolding confirm_reschedule
    confirm_reschedule-Kept zones appointment_id slot_timestamp db other (sound, q) =
        elim (Option-cases
          (get_manageable_appointment customer_id now state db.appointments appointment_id)) [
            | inl e ↦ rw (confirm_reschedule, e) (sound, q)
            | inr (a, e) ↦
                let apart =
                  other_id db.appointments a q other
                    (manageable-own db.appointments appointment_id a e) in
                elim (Option-cases a.service_id) [
                  | inl n ↦ rw (confirm_reschedule, e, n) (sound, q)
                  | inr (s, n) ↦
                      rw (confirm_reschedule, e, n)
                        (move_to-Kept zones a
                          (resolve_reschedule_slot customer_id now zones db state a s
                            slot_timestamp)
                          db apart (sound, q))
                ]
          ]

-- In a `Sound` database, a booking of another customer is found unchanged by its id after
-- `confirm_cancel` and after `confirm_reschedule` of any appointment id and slot in any state of a
-- conversation, and the database is still `Sound`.
pub conversation-changes_own :
    (customer_id : ℕ) (now : ℤ) (state : ConversationState) (provider : RefundProvider)
    (zones : Zones) (appointment_id slot_timestamp : ℤ) (db : Database) (k : ℕ) (b : Appointment)
    → Sound db
    → get_appointment db.appointments k ≡ some b
    → ¬ (b.customer_id ≡ customer_id)
    → let cancelled = (confirm_cancel customer_id now provider state appointment_id db).1 in
      let moved =
        (confirm_reschedule customer_id now zones state appointment_id slot_timestamp db).1 in
      (Sound cancelled × (get_appointment cancelled.appointments k ≡ some b))
      × (Sound moved × (get_appointment moved.appointments k ≡ some b))
conversation-changes_own customer_id now state provider zones appointment_id slot_timestamp db k b
      sound found other =
    (
      confirm_cancel-Kept customer_id now state k b provider appointment_id db other (sound, found),
      confirm_reschedule-Kept customer_id now state k b zones appointment_id slot_timestamp db other
          (sound, found),
    )
