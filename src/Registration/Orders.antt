-- ===== src/Registration/Orders.antt =====
-- The state changes of an order: api/internal/registration/orders.go, locks.go and ConfirmPaid of
-- create.go, with the conditional updates of api/internal/registration/store/registration.sql.go.
-- An order is named by its id; order_no is a second key of the same row.
use run.Base.{ℕ, ◌+◌, Bool, true, false, ◌&&◌, ◌||◌, none, some, ◌∷◌, map, ◌==◌, if◌then◌else◌}
use run.Platform.Apperr.{
  ok, err, new, order_state_conflict, order_not_found, Tx, pure, modify, guard, ◌>>=◌, ◌>>◌,
}
use run.Platform.Table.{update_where}
use run.Store.{
  Db, OrderRow, OrderStatus, pending_payment, proof_submitted, proof_rejected, paid, expired,
  cancelled, consumed, released, ReleaseKind, order_expired, order_cancelled, ParticipantRow,
  RegistrationStatus, pending, confirmed, AuditRow,
}
use run.Pricing.Reserve.{is_reserved, consume, release}

abbrev pub is_pending_payment : OrderStatus → Bool
is_pending_payment pending_payment = true
is_pending_payment _ = false

abbrev pub is_proof_submitted : OrderStatus → Bool
is_proof_submitted proof_submitted = true
is_proof_submitted _ = false

-- `status IN ('PENDING_PAYMENT', 'PROOF_REJECTED')`
abbrev pub is_awaiting_proof : OrderStatus → Bool
is_awaiting_proof pending_payment = true
is_awaiting_proof proof_rejected = true
is_awaiting_proof _ = false

-- An `:execrows` update of reg_orders: did it change a row?
abbrev pub update_order : (OrderRow → Bool) → (OrderRow → OrderRow) → ℕ → Tx Db Bool
update_order test change id db = elim (update_where test change id db.orders) [
  | none ↦ ok (false, db)
  | some t ↦ ok (true, record db { orders = t })
]

-- MarkOrderPaid.
abbrev pub can_pay : OrderRow → Bool
can_pay o =
    is_reserved o.reservation_state
    && (is_proof_submitted o.status || (is_pending_payment o.status && (o.amount_cents == 0)))

abbrev pub set_paid : ℕ → OrderRow → OrderRow
set_paid paid_at o = record o {
  status = paid;
  paid_at = some paid_at;
  deadline_at = none;
  reservation_state = consumed;
  version = o.version + 1;
}

-- ReleaseOrderExpired and ReleaseOrderCancelled.
abbrev pub can_release : ReleaseKind → OrderRow → Bool
can_release order_expired o = is_reserved o.reservation_state && is_awaiting_proof o.status
can_release order_cancelled o = is_reserved o.reservation_state && is_pending_payment o.status

abbrev pub released_status : ReleaseKind → OrderStatus
released_status order_expired = expired
released_status order_cancelled = cancelled

abbrev pub set_released : ReleaseKind → OrderRow → OrderRow
set_released kind o = record o {
  status = released_status kind;
  reservation_state = released;
  release_kind = some kind;
  deadline_at = none;
  version = o.version + 1;
}

-- SetOrderProofSubmitted.
abbrev pub can_submit : OrderRow → Bool
can_submit o = is_reserved o.reservation_state && is_awaiting_proof o.status

abbrev pub set_submitted : OrderRow → OrderRow
set_submitted o = record o { status = proof_submitted; deadline_at = none; version = o.version + 1 }

-- SetOrderProofRejected.
abbrev pub can_reject : OrderRow → Bool
can_reject o = is_reserved o.reservation_state && is_proof_submitted o.status

abbrev pub set_rejected : ℕ → OrderRow → OrderRow
set_rejected deadline o = record o {
  status = proof_rejected;
  deadline_at = some deadline;
  version = o.version + 1;
}

abbrev pub is_pending : RegistrationStatus → Bool
is_pending pending = true
is_pending _ = false

-- ConfirmOrderRegistrations and CancelOrderRegistrations, on one row.
abbrev pub confirm_row : ℕ → ParticipantRow → ParticipantRow
confirm_row order_id p =
    if (p.order_id == order_id) && is_pending p.registration_status
    then record p { registration_status = confirmed }
    else p

abbrev pub cancel_row : ReleaseKind → ℕ → ParticipantRow → ParticipantRow
cancel_row kind order_id p =
    if (p.order_id == order_id) && is_pending p.registration_status
    then record p { registration_status = RegistrationStatus.cancelled; cancel_reason = some kind }
    else p

abbrev pub on_registrations : (ParticipantRow → ParticipantRow) → Tx Db (Unit {0})
on_registrations f = modify (λ db. record db { participants = map f db.participants })

unfoldable pub confirm_paid : (order_id paid_at : ℕ) → Tx Db (Unit {0})
confirm_paid order_id paid_at = do
  n ← update_order can_pay (set_paid paid_at) order_id
  guard n (new 409 order_state_conflict)
  consume order_id
  on_registrations (confirm_row order_id)

-- The part of ReleaseOrder that runs when the conditional update has changed the order.
unfoldable pub finish_release : (order_id : ℕ) → ReleaseKind → Tx Db Bool
finish_release order_id kind = do
  release order_id
  on_registrations (cancel_row kind order_id)
  pure true

abbrev pub finish_if : Bool → (order_id : ℕ) → ReleaseKind → Tx Db Bool
finish_if true order_id kind = finish_release order_id kind
finish_if false order_id kind = pure false

unfoldable pub release_order : (order_id : ℕ) → ReleaseKind → Tx Db Bool
release_order order_id kind = do
  n ← update_order (can_release kind) (set_released kind) order_id
  finish_if n order_id kind

unfoldable pub mark_proof_submitted : (order_id : ℕ) → Tx Db (Unit {0})
mark_proof_submitted order_id = do
  n ← update_order can_submit set_submitted order_id
  guard n (new 409 order_state_conflict)

unfoldable pub mark_proof_rejected : (order_id deadline : ℕ) → Tx Db (Unit {0})
mark_proof_rejected order_id deadline = do
  n ← update_order can_reject (set_rejected deadline) order_id
  guard n (new 409 order_state_conflict)

-- LockOrderByID, and LockOrderForBuyer, which sees only the buyer's own orders.
abbrev pub lock_order : ℕ → Tx Db OrderRow
lock_order id db = elim (db.orders id) [
  | none ↦ err (new 404 order_not_found)
  | some o ↦ ok (o, db)
]

abbrev pub lock_order_for_buyer : (user id : ℕ) → Tx Db OrderRow
lock_order_for_buyer user id db = elim (db.orders id) [
  | none ↦ err (new 404 order_not_found)
  | some o ↦ if o.buyer_user_id == user then ok (o, db) else err (new 404 order_not_found)
]

abbrev pub record_audit : AuditRow → Tx Db (Unit {0})
record_audit a = modify (λ db. record db { audit = a ∷ db.audit })

unfoldable pub cancel_order : (user order_id : ℕ) → Tx Db (Unit {0})
cancel_order user order_id = do
  row ← lock_order_for_buyer user order_id
  guard (is_pending_payment row.status) (new 409 order_state_conflict)
  done ← release_order order_id order_cancelled
  guard done (new 409 order_state_conflict)
  record_audit (record { action = "reg_order.cancel"; entity_id = order_id })
