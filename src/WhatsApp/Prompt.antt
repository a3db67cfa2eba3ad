-- ===== src/WhatsApp/Prompt.antt =====
-- What follows the choice of a slot in backend/app/services/whatsapp/service.py.
use book_point.Base.{
  ℕ, ◌≡◌, refl, sym, ◌∙◌, ap, subst, Bool, true, true≢false, Option, none, some, inl, inr, List, [],
  ◌∷◌, first, In, In-of_first, Bool-cases, Option-cases, arith,
}
use book_point.Base.Int.{ℤ, pos, negsuc, eq_ℤ}
use book_point.Models.{Appointment, Directory}
use book_point.Results.{ok, >>=-eq-ok, eq_of_ok}
use book_point.Scheduling.Slots.Window.{Slot}
use book_point.Time.{Zones}
use book_point.WhatsApp.Calendar.{Date, fromisoformat-isoformat, is_date}
use book_point.WhatsApp.Choosing.{begin_booking_flow-Fits, render_booking_dates-Fits}
use book_point.WhatsApp.Fitting.{Fits, none≢some, stale-Fits}
use book_point.WhatsApp.Slots.{
  ask_confirmation, chosen_ids, handle_booking_date_selection, handle_booking_slot_selection,
  offer_slots, resolve_slot_from_state, slots_on, timestamp,
}
use book_point.WhatsApp.State.{ConversationState, Reply}

eq_ℤ_refl : (z : ℤ) → eq_ℤ z z ≡ true
eq_ℤ_refl z = ground arith

eq_ℤ→eq : (a b : ℤ) → eq_ℤ a b ≡ true → a ≡ b
eq_ℤ→eq (pos m) (pos n) e = ap pos (ground arith)
eq_ℤ→eq (pos m) (negsuc n) e = absurd (ground arith)
eq_ℤ→eq (negsuc m) (pos n) e = absurd (ground arith)
eq_ℤ→eq (negsuc m) (negsuc n) e = ap negsuc (ground arith)

-- A row that meets a test is there for the search to find one.
first_of_In :
    {A : Type 0} (p : A → Bool) (xs : List A) (a : A)
    → In a xs
    → p a ≡ true
    → (b : A) × (first p xs ≡ some b) × In b xs × (p b ≡ true)
first_of_In {A} p xs a i holds = elim (Option-cases (first p xs)) [
  | inl e ↦ absurd (missing xs i e)
  | inr (b, e) ↦ let (row, q) = In-of_first p xs e in (b, e, row, q)
]
  where
    missing : (ys : List A) → In a ys → ¬ (first p ys ≡ none)
    missing [] j e = absurd j
    missing (y ∷ ys) j e = elim (Bool-cases (p y)) [
      | inl t ↦ none≢some (sym (rw t at e))
      | inr t ↦ elim j [
        | inl same ↦ true≢false (sym holds ∙ ap p same ∙ t)
        | inr k ↦ missing ys k (rw t at e)
      ]
    ]

module _ (zones : Zones) (now : ℤ) (d : Directory) (appointments : List Appointment) where
  pub handle_booking_date_selection-Fits :
      (state : ConversationState) (slot_date : Date) (reply : Reply)
      → Fits d state
      → handle_booking_date_selection zones now d appointments state slot_date ≡ ok reply
      → Fits d reply.1
  unfolding handle_booking_date_selection
  handle_booking_date_selection-Fits state slot_date reply f e =
      elim (Option-cases (chosen_ids state)) [
        | inl q ↦
            begin_booking_flow-Fits d state reply f (rw (handle_booking_date_selection, q) at e)
        | inr ((p, s, l), q) ↦
            let (slots, _, h) =
              >>=-eq-ok (slots_on zones now d appointments p s l slot_date) _
                (rw (handle_booking_date_selection, q) at e) in
            subst (λ (r : Reply). Fits d r.1) (eq_of_ok h) (offered slots)
      ]
    where
      offered :
          (slots : List Slot)
          → Fits d (offer_slots zones now d appointments state slot_date slots).1
      offered [] = render_booking_dates-Fits zones now d state f
      offered (slot ∷ slots) = record {
        located = f.located;
        served = f.served;
        provided = f.provided;
      }

  pub handle_booking_slot_selection-Fits :
      (state : ConversationState) (slot_timestamp : ℤ) (reply : Reply)
      → Fits d state
      → handle_booking_slot_selection zones now d appointments state slot_timestamp ≡ ok reply
      → Fits d reply.1
  unfolding handle_booking_slot_selection
  handle_booking_slot_selection-Fits state slot_timestamp reply f e =
      let (slot, _, h) =
        >>=-eq-ok (resolve_slot_from_state zones now d appointments state slot_timestamp) _ e in
      subst (λ (r : Reply). Fits d r.1) (eq_of_ok h) (asked slot)
    where
      asked :
          (slot : Option Slot)
          → Fits d (ask_confirmation zones now d appointments state slot_timestamp slot).1
      asked none = stale-Fits d state f
      asked (some slot) = record { located = f.located; served = f.served; provided = f.provided }

  -- If provider, service and location are chosen, the date is one that Python has, and slots are
  -- listed for it, then choosing that date is answered, and choosing in the state that it leaves any
  -- listed slot by its timestamp, with the same clock and tables, is answered by the question to
  -- confirm a listed slot of that timestamp.
  pub slot_selection-asks :
      (state : ConversationState) (slot_date : Date) (provider_id service_id location_id : ℕ)
      (slots : List Slot) (slot : Slot)
      → chosen_ids state ≡ some (provider_id, service_id, location_id)
      → is_date slot_date ≡ true
      → slots_on zones now d appointments provider_id service_id location_id slot_date ≡ ok slots
      → In slot slots
      → let t = timestamp slot.start_datetime in
        (reply : Reply) × (found : Slot) × (handle_booking_date_selection zones now d appointments
            state slot_date
          ≡ ok reply)
        × In found slots
        × (timestamp found.start_datetime ≡ t)
        × (handle_booking_slot_selection zones now d appointments reply.1 t
            ≡ ok (ask_confirmation zones now d appointments reply.1 t (some found)))
  unfolding handle_booking_date_selection handle_booking_slot_selection resolve_slot_from_state
  slot_selection-asks state slot_date p s l (first_slot ∷ others) slot q valid listed i =
      let t = timestamp slot.start_datetime in
      let slots = first_slot ∷ others in
      let (found, search, row, same) =
        first_of_In (λ x. eq_ℤ (timestamp x.start_datetime) t) slots slot i (eq_ℤ_refl t) in
      let reply = offer_slots zones now d appointments state slot_date slots in
      let kept : chosen_ids reply.1 ≡ some (p, s, l) = q in
      (
        reply,
        found,
        rw (handle_booking_date_selection, q, listed) refl,
        row,
        eq_ℤ→eq (timestamp found.start_datetime) t same,
        rw
            (
              handle_booking_slot_selection,
              resolve_slot_from_state,
              fromisoformat-isoformat slot_date valid,
              kept,
              listed,
              search,
            )
            refl,
      )
  slot_selection-asks state slot_date p s l [] slot q valid listed i = absurd i
