-- ===== src/Registration/Settled.antt =====
-- Orders that are over, and the cancellation by their buyer.
use run.Base.{ℕ, ◌≡◌, refl, ◌∙◌, true, false, some, ◌==◌, ◌∷◌, arith}
use run.Platform.Apperr.{
  ok, err, new, order_state_conflict, order_not_found, guard, bind-ok, bind-err,
}
use run.Platform.Table.{put}
use run.Store.{Db, OrderRow, ReleaseKind, order_expired, order_cancelled, AuditRow}
use run.Pricing.Reserve.{is_reserved}
use run.Registration.Orders.{
  is_pending_payment, update_order, can_release, set_released, can_submit, set_submitted,
  can_reject, set_rejected, confirm_paid, release_order, mark_proof_submitted, mark_proof_rejected,
  lock_order_for_buyer, cancel_order,
}
use run.Registration.Consistent.{IsConsistent}
use run.Registration.Finish.{update_order-false}
use run.Registration.Outcome.{confirm_paid-conflict, release_order-true, release_order-false}

settled-can_release :
    (kind : ReleaseKind) (row : OrderRow)
    → is_reserved row.reservation_state ≡ false
    → can_release kind row ≡ false
settled-can_release order_expired row h = ground (arith, h)
settled-can_release order_cancelled row h = ground (arith, h)

mark_proof_submitted-conflict :
    (o : ℕ) (db : Db) (row : OrderRow)
    → db.orders o ≡ some row
    → can_submit row ≡ false
    → mark_proof_submitted o db ≡ err (new 409 order_state_conflict)
unfolding mark_proof_submitted
mark_proof_submitted-conflict o db row found cannot =
    bind-ok (update_order can_submit set_submitted o) _ db db false
      (update_order-false can_submit set_submitted o db row found cannot)

mark_proof_rejected-conflict :
    (o deadline : ℕ) (db : Db) (row : OrderRow)
    → db.orders o ≡ some row
    → can_reject row ≡ false
    → mark_proof_rejected o deadline db ≡ err (new 409 order_state_conflict)
unfolding mark_proof_rejected
mark_proof_rejected-conflict o deadline db row found cannot =
    bind-ok (update_order can_reject (set_rejected deadline) o) _ db db false
      (update_order-false can_reject (set_rejected deadline) o db row found cannot)

-- An order whose reservation was consumed or released stays as it is, whatever its status: it is not
-- paid, released or marked again. So no seat is consumed or given back twice.
pub order_settled :
    (o at_time : ℕ) (kind : ReleaseKind) (db : Db) (row : OrderRow)
    → db.orders o ≡ some row
    → is_reserved row.reservation_state ≡ false
    → (confirm_paid o at_time db ≡ err (new 409 order_state_conflict))
      × (release_order o kind db ≡ ok (false, db))
      × (mark_proof_submitted o db ≡ err (new 409 order_state_conflict))
      × (mark_proof_rejected o at_time db ≡ err (new 409 order_state_conflict))
order_settled o at_time kind db row found over = (
  confirm_paid-conflict o at_time db row found (ground (arith, over)),
  release_order-false o kind db row found (settled-can_release kind row over),
  mark_proof_submitted-conflict o db row found (ground (arith, over)),
  mark_proof_rejected-conflict o at_time db row found (ground (arith, over)),
)

abbrev cancelled_note : ℕ → AuditRow
cancelled_note o = record { action = "reg_order.cancel"; entity_id = o }

-- On a consistent database the buyer of an order that awaits its first payment, with its reservation
-- open, can cancel it: the order is then cancelled and released, and the database is consistent.
pub cancel_order-ok :
    (user o : ℕ) (db : Db) (row : OrderRow)
    → IsConsistent db
    → db.orders o ≡ some row
    → (row.buyer_user_id == user) ≡ true
    → is_pending_payment row.status ≡ true
    → is_reserved row.reservation_state ≡ true
    → (db' : Db) × (cancel_order user o db ≡ ok (tt, db'))
      × (db'.orders ≡ put db.orders o (set_released order_cancelled row))
      × IsConsistent db'
unfolding cancel_order
cancel_order-ok user o db row c found own waits held =
    let can : can_release order_cancelled row ≡ true = ground (arith, waits, held) in
    let (d, done, orders, ps, ids, c', uses) =
      release_order-true o order_cancelled db row c found can in
    let locked : lock_order_for_buyer user o db ≡ ok (row, db) = ground (arith, found, own) in
    (
      record d { audit = cancelled_note o ∷ d.audit },
      bind-ok (lock_order_for_buyer user o) _ db db row locked
          ∙ bind-ok (guard (is_pending_payment row.status) (new 409 order_state_conflict)) _ db db
              tt (rw waits refl)
          ∙ bind-ok (release_order o order_cancelled) _ db d true done,
      orders,
      record { categories = c'.categories; price_rules = c'.price_rules; coupons = c'.coupons },
    )

-- The order of another buyer, to whoever asks, is not there.
pub cancel_order-not_found :
    (user o : ℕ) (db : Db) (row : OrderRow)
    → db.orders o ≡ some row
    → (row.buyer_user_id == user) ≡ false
    → cancel_order user o db ≡ err (new 404 order_not_found)
unfolding cancel_order
cancel_order-not_found user o db row found other =
    let hidden : lock_order_for_buyer user o db ≡ err (new 404 order_not_found) =
      ground (arith, found, other) in
    bind-err (lock_order_for_buyer user o) _ db (new 404 order_not_found) hidden
