-- ===== src/Registration/Status.antt =====
-- The form of an order in each status (the CHECK constraints of reg_orders in
-- api/db/migrations/0003_registration.sql, and more), and the moves of an order that keep it.
use run.Base.{ℕ, ◌≡◌, refl, sym, ◌∙◌, ap, Bool, true, false, Option, none, some, arith}
use run.Store.{
  OrderRow, OrderStatus, pending_payment, proof_submitted, proof_rejected, paid, expired, cancelled,
  ReservationState, reserved, consumed, released, ReleaseKind, order_expired, order_cancelled,
}
use run.Pricing.Quote.{Quote}
use run.Pricing.Reserve.{is_reserved}
use run.Base.{◌⊎◌, inl, inr}
use run.Registration.Orders.{
  is_awaiting_proof, is_proof_submitted, can_pay, set_paid, can_release, set_released, can_submit,
  set_submitted, can_reject, set_rejected,
}
use run.Registration.Create.{new_order}

abbrev pub is_set : Option ℕ → Bool
is_set none = false
is_set (some t) = true

-- What the columns hold beside each status.
pub record Form (r : OrderRow) (state : ReservationState) (kind : Option ReleaseKind)
    (has_deadline is_paid : Bool) : Type 0 where
  pub form_state : r.reservation_state ≡ state
  pub form_kind : r.release_kind ≡ kind
  pub form_deadline : is_set r.deadline_at ≡ has_deadline
  pub form_paid : is_set r.paid_at ≡ is_paid

abbrev pub FormOf : OrderStatus → OrderRow → Type 0
FormOf pending_payment r = Form r reserved none true false
FormOf proof_submitted r = Form r reserved none false false
FormOf proof_rejected r = Form r reserved none true false
FormOf paid r = Form r consumed none false true
FormOf expired r = Form r released (some order_expired) false false
FormOf cancelled r = Form r released (some order_cancelled) false false

-- An order awaits its money with its reservation open, was paid and consumed it, or is over and has
-- given it back for the reason that its status names. It has a deadline when the buyer is to act, and
-- a time of payment when it is paid.
pub record IsWellFormed (r : OrderRow) : Type 0 where
  pub form : FormOf r.status r

-- A reservation that is open has nothing of its end.
abbrev pub IsOpenForm : OrderRow → Type 0
IsOpenForm r = (r.release_kind ≡ none) × (is_set r.paid_at ≡ false)

FormOf-reserved :
    (st : OrderStatus) (r : OrderRow)
    → FormOf st r
    → is_reserved r.reservation_state ≡ true
    → IsOpenForm r
FormOf-reserved pending_payment r f h = (f.form_kind, f.form_paid)
FormOf-reserved proof_submitted r f h = (f.form_kind, f.form_paid)
FormOf-reserved proof_rejected r f h = (f.form_kind, f.form_paid)
FormOf-reserved paid r f h = let bad : false ≡ true = sym (ap is_reserved f.form_state) ∙ h in cc
FormOf-reserved expired r f h = let bad : false ≡ true = sym (ap is_reserved f.form_state) ∙ h in cc
FormOf-reserved cancelled r f h =
    let bad : false ≡ true = sym (ap is_reserved f.form_state) ∙ h in cc

-- The moves that the conditional updates of an order make.
pub data Move : OrderRow → OrderRow → Type 0 where
  pays : (paid_at : ℕ) (r : OrderRow) → can_pay r ≡ true → Move r (set_paid paid_at r)
  releases :
      (kind : ReleaseKind) (r : OrderRow) → can_release kind r ≡ true → Move r (set_released kind r)
  submits : (r : OrderRow) → can_submit r ≡ true → Move r (set_submitted r)
  rejects : (deadline : ℕ) (r : OrderRow) → can_reject r ≡ true → Move r (set_rejected deadline r)

is_reserved-state : (s : ReservationState) → is_reserved s ≡ true → s ≡ reserved
is_reserved-state reserved h = refl
is_reserved-state consumed h = cc
is_reserved-state released h = cc

open_form : (r : OrderRow) → IsWellFormed r → is_reserved r.reservation_state ≡ true → IsOpenForm r
open_form r w h = FormOf-reserved r.status r w.form h

pub Move-IsWellFormed : {r r' : OrderRow} → Move r r' → IsWellFormed r → IsWellFormed r'
Move-IsWellFormed (pays paid_at r can) w =
    let (kind, unpaid) = open_form r w (ground (arith, can)) in
    record {
      form = record { form_state = refl; form_kind = kind; form_deadline = refl; form_paid = refl };
    }
Move-IsWellFormed (releases order_expired r can) w =
    let (kind, unpaid) = open_form r w (ground (arith, can)) in
    record {
      form = record {
        form_state = refl;
        form_kind = refl;
        form_deadline = refl;
        form_paid = unpaid;
      };
    }
Move-IsWellFormed (releases order_cancelled r can) w =
    let (kind, unpaid) = open_form r w (ground (arith, can)) in
    record {
      form = record {
        form_state = refl;
        form_kind = refl;
        form_deadline = refl;
        form_paid = unpaid;
      };
    }
Move-IsWellFormed (submits r can) w =
    let held : is_reserved r.reservation_state ≡ true = ground (arith, can) in
    let (kind, unpaid) = open_form r w held in
    record {
      form = record {
        form_state = is_reserved-state r.reservation_state held;
        form_kind = kind;
        form_deadline = refl;
        form_paid = unpaid;
      };
    }
Move-IsWellFormed (rejects deadline r can) w =
    let held : is_reserved r.reservation_state ≡ true = ground (arith, can) in
    let (kind, unpaid) = open_form r w held in
    record {
      form = record {
        form_state = is_reserved-state r.reservation_state held;
        form_kind = kind;
        form_deadline = refl;
        form_paid = unpaid;
      };
    }

pub new_order-IsWellFormed :
    (event_id user account deadline : ℕ) (q : Quote)
    → IsWellFormed (new_order event_id user account deadline q)
new_order-IsWellFormed event_id user account deadline q = record {
  form = record { form_state = refl; form_kind = refl; form_deadline = refl; form_paid = refl };
}

-- A reservation that is open belongs to an order that awaits a proof or a review.
pub open_status :
    (r : OrderRow)
    → IsWellFormed r
    → is_reserved r.reservation_state ≡ true
    → (is_awaiting_proof r.status ≡ true) ⊎ (is_proof_submitted r.status ≡ true)
open_status r w h = go r.status w.form
  where
    go :
        (st : OrderStatus)
        → FormOf st r
        → (is_awaiting_proof st ≡ true) ⊎ (is_proof_submitted st ≡ true)
    go pending_payment f = inl refl
    go proof_submitted f = inr refl
    go proof_rejected f = inl refl
    go paid f = let bad : false ≡ true = sym (ap is_reserved f.form_state) ∙ h in cc
    go expired f = let bad : false ≡ true = sym (ap is_reserved f.form_state) ∙ h in cc
    go cancelled f = let bad : false ≡ true = sym (ap is_reserved f.form_state) ∙ h in cc
