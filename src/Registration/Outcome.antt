-- ===== src/Registration/Outcome.antt =====
-- What `ConfirmPaid` and `ReleaseOrder` return on a consistent database, and what they keep.
use run.Registration.Held.{open_uses, open_uses-marked}
use run.Base.{ℕ, ◌-◌, ◌==◌, if◌then◌else◌, ap, ◌≡◌, refl, ◌∙◌, true, false, some, map, arith}
use run.Platform.Apperr.{ok, err, new, order_state_conflict, bind-ok, ◌>>◌, pure}
use run.Platform.Table.{put}
use run.Pricing.Counter.{use_reserved, drop_reserved, consume_seats, release_seats}
use run.Pricing.Counter.Apply.{consume_IsShift, release_IsShift}
use run.Store.{
  Db, OrderRow, reserved, consumed, released, ReleaseKind, order_expired, order_cancelled,
  ParticipantRow,
}
use run.Pricing.Reserve.{consume, release}
use run.Registration.Finish.{update_order-true, update_order-false, map-IsConsistent, counters_move}
use run.Registration.Consistent.{IsConsistent, consume_IsMove, release_IsMove}
use run.Registration.Orders.{
  update_order, can_pay, set_paid, can_release, set_released, confirm_row, cancel_row,
  on_registrations, confirm_paid, finish_release, release_order,
}

can_pay-reserved : (row : OrderRow) → can_pay row ≡ true → row.reservation_state ≡ reserved
can_pay-reserved row h = ground arith

can_release-reserved :
    (kind : ReleaseKind) (row : OrderRow)
    → can_release kind row ≡ true
    → row.reservation_state ≡ reserved
can_release-reserved order_expired row h = ground arith
can_release-reserved order_cancelled row h = ground arith

confirm_row_keys :
    (o : ℕ) (p : ParticipantRow)
    → ((confirm_row o p).order_id ≡ p.order_id)
      × ((confirm_row o p).category_id ≡ p.category_id)
      × ((confirm_row o p).price_rule_id ≡ p.price_rule_id)
confirm_row_keys o p = ground arith

cancel_row_keys :
    (kind : ReleaseKind) (o : ℕ) (p : ParticipantRow)
    → ((cancel_row kind o p).order_id ≡ p.order_id)
      × ((cancel_row kind o p).category_id ≡ p.category_id)
      × ((cancel_row kind o p).price_rule_id ≡ p.price_rule_id)
cancel_row_keys kind o p = ground arith

-- On a consistent database `ConfirmPaid` of an order that may be paid succeeds, whatever its seats
-- are: no counter has too few reserved seats. The order is then PAID and consumed, its pending
-- registrations are confirmed, other orders are as before, and the database is consistent.
pub confirm_paid-ok :
    (o paid_at : ℕ) (db : Db) (row : OrderRow)
    → IsConsistent db
    → db.orders o ≡ some row
    → can_pay row ≡ true
    → (db' : Db) × (confirm_paid o paid_at db ≡ ok (tt, db'))
      × (db'.orders ≡ put db.orders o (set_paid paid_at row))
      × (db'.participants ≡ map (confirm_row o) db.participants)
      × IsConsistent db'
unfolding confirm_paid consume consume_seats
confirm_paid-ok o paid_at db row c found can =
    let db1 : Db = record db { orders = put db.orders o (set_paid paid_at row) } in
    let (t, u, v, rd, e, c', marks) =
      counters_move use_reserved consume_IsShift consumed consume_IsMove o db row
        (set_paid paid_at row) found (can_pay-reserved row can) refl c in
    let db2 : Db = record db1 {
      category_counts = t;
      price_rule_counts = u;
      coupon_counts = v;
      redemptions = rd;
    } in
    (
      record db2 { participants = map (confirm_row o) db.participants },
      bind-ok (update_order can_pay (set_paid paid_at) o) _ db db1 true
            (update_order-true can_pay (set_paid paid_at) o db row found can)
          ∙ bind-ok (consume o) (λ x. on_registrations (confirm_row o)) db1 db2 tt e,
      refl,
      refl,
      map-IsConsistent (confirm_row o) db2 (confirm_row_keys o) c',
    )

-- `ConfirmPaid` of an order that may not be paid, because it is paid, expired or cancelled already or
-- awaits a proof, is a conflict.
pub confirm_paid-conflict :
    (o paid_at : ℕ) (db : Db) (row : OrderRow)
    → db.orders o ≡ some row
    → can_pay row ≡ false
    → confirm_paid o paid_at db ≡ err (new 409 order_state_conflict)
unfolding confirm_paid
confirm_paid-conflict o paid_at db row found can =
    bind-ok (update_order can_pay (set_paid paid_at) o) _ db db false
      (update_order-false can_pay (set_paid paid_at) o db row found can)

pub release_order-true :
    (o : ℕ) (kind : ReleaseKind) (db : Db) (row : OrderRow)
    → IsConsistent db
    → db.orders o ≡ some row
    → can_release kind row ≡ true
    → (db' : Db) × (release_order o kind db ≡ ok (true, db'))
      × (db'.orders ≡ put db.orders o (set_released kind row))
      × (db'.participants ≡ map (cancel_row kind o) db.participants)
      × (db'.order_ids ≡ db.order_ids)
      × IsConsistent db'
      × ((j : ℕ)
          → open_uses j db'.redemptions ≡ open_uses j db.redemptions - (if j == o then 1 else 0))
unfolding release_order finish_release release release_seats
release_order-true o kind db row c found can =
    let db1 : Db = record db { orders = put db.orders o (set_released kind row) } in
    let (t, u, v, rd, e, c', marks) =
      counters_move drop_reserved release_IsShift released release_IsMove o db row
        (set_released kind row) found (can_release-reserved kind row can) refl c in
    let db2 : Db = record db1 {
      category_counts = t;
      price_rule_counts = u;
      coupon_counts = v;
      redemptions = rd;
    } in
    (
      record db2 { participants = map (cancel_row kind o) db.participants },
      bind-ok (update_order (can_release kind) (set_released kind) o) _ db db1 true
            (update_order-true (can_release kind) (set_released kind) o db row found can)
          ∙ bind-ok (release o) (λ x. on_registrations (cancel_row kind o) >> pure true) db1 db2 tt
              e,
      refl,
      refl,
      refl,
      map-IsConsistent (cancel_row kind o) db2 (cancel_row_keys kind o) c',
      λ j. ap (open_uses j) marks ∙ open_uses-marked released o j db.redemptions refl,
    )

-- `ReleaseOrder` of an order that may not be released returns false and changes nothing.
pub release_order-false :
    (o : ℕ) (kind : ReleaseKind) (db : Db) (row : OrderRow)
    → db.orders o ≡ some row
    → can_release kind row ≡ false
    → release_order o kind db ≡ ok (false, db)
unfolding release_order
release_order-false o kind db row found can =
    bind-ok (update_order (can_release kind) (set_released kind) o) _ db db false
      (update_order-false (can_release kind) (set_released kind) o db row found can)
