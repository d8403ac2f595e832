-- ===== src/Tests/Orders.antt =====
-- Orders that are paid, released and expired.
use run.Base.{ℕ, ◌+◌, ◌≡◌, refl, false, none, some, [], ◌∷◌, map, arith}
use run.Platform.Apperr.{ok, err, new, order_state_conflict}
use run.Platform.Table.{put}
use run.Store.{Db, pending_payment, proof_submitted, order_expired, order_cancelled}
use run.Registration.Consistent.{IsConsistent}
use run.Registration.Orders.{
  confirm_paid, release_order, set_paid, set_released, confirm_row, cancel_order,
  mark_proof_submitted, mark_proof_rejected,
}
use run.Registration.Outcome.{confirm_paid-ok}
use run.Registration.Settled.{order_settled, cancel_order-ok}
use run.Registration.Deadline.{expire_due, expired}
use run.Registration.Deadline.Batch.{Keeps}
use run.Registration.Deadline.Loop.{expire_due-expired}
use run.Pricing.Tier.{all}
use run.Pricing.Counter.{reserve_seats, apply_all, group_seats}
use run.Pricing.Quote.{Quote}
use run.Pricing.Reserve.{reserve, record_redemption}
use run.Registration.Create.{ResolvedParticipant, write_order}
use run.Registration.Create.Kept.{write_order-IsConsistent}
use run.Tests.Data.{db_with, order_row, db_with-IsConsistent}

confirm_paid-ok_example :
    (db' : Db) × (confirm_paid 3 500 (db_with proof_submitted) ≡ ok (tt, db'))
    × (db'.orders
        ≡ put (db_with proof_submitted).orders 3 (set_paid 500 (order_row proof_submitted)))
    × (db'.participants ≡ map (confirm_row 3) (db_with proof_submitted).participants)
    × IsConsistent db'
confirm_paid-ok_example =
    confirm_paid-ok 3 500 (db_with proof_submitted) (order_row proof_submitted)
      (db_with-IsConsistent proof_submitted) refl refl

expire_due-expired_example :
    (m : ℕ) × (db' : Db) × (expire_due 2 200 (λ id. false) 0 (db_with pending_payment)
      ≡ expired (0 + m) none db')
    × Keeps (db_with pending_payment) db' m
expire_due-expired_example =
    expire_due-expired 2 200 (λ id. false) 0 (db_with pending_payment)
      (db_with-IsConsistent pending_payment) (omega arith)

-- The database after the order 3 was released.
abbrev released_db : Db
released_db = record (db_with pending_payment) {
  orders =
      put (db_with pending_payment).orders 3
        (set_released order_expired (order_row pending_payment));
}

order_settled_example :
    (confirm_paid 3 500 released_db ≡ err (new 409 order_state_conflict))
    × (release_order 3 order_cancelled released_db ≡ ok (false, released_db))
    × (mark_proof_submitted 3 released_db ≡ err (new 409 order_state_conflict))
    × (mark_proof_rejected 3 500 released_db ≡ err (new 409 order_state_conflict))
order_settled_example =
    order_settled 3 500 order_cancelled released_db
      (set_released order_expired (order_row pending_payment)) refl refl

cancel_order-ok_example :
    (db' : Db) × (cancel_order 8 3 (db_with pending_payment) ≡ ok (tt, db'))
    × (db'.orders
        ≡ put
            (db_with pending_payment).orders
            3
            (set_released order_cancelled (order_row pending_payment)))
    × IsConsistent db'
cancel_order-ok_example =
    cancel_order-ok 8 3 (db_with pending_payment) (order_row pending_payment)
      (db_with-IsConsistent pending_payment) refl refl refl refl

-- A second order, with the id 13, for the runner that is quoted in the tests of pricing.
abbrev second_quote : Quote
second_quote = record {
  participants =
      record {
        category_id = 1;
        price_rule_id = 2;
        audience = all;
        list_price_cents = 2500;
        paid_cents = 1999;
      }
      ∷ [];
  list_amount_cents = 2500;
  coupon_id = some 4;
  coupon_discount_cents = 500;
  ident_offset_cents = 1;
  discount_cents = 501;
  amount_cents = 1999;
}

abbrev runner : ResolvedParticipant
runner = record {
  category_id = 1;
  nationality = "KH";
  birth_date = record { year = 2000; month = 2; day = 29 };
  id_hash = 78;
}

written : Unit {0} × Db
unfolding write_order reserve reserve_seats record_redemption
written = elim (write_order 9 8 6 13 50 (runner ∷ []) second_quote (db_with pending_payment)) [
  | ok r ↦ r
  | err e ↦ (tt, db_with pending_payment)
]

write_order-IsConsistent_example : IsConsistent written.1
unfolding written write_order reserve reserve_seats record_redemption apply_all group_seats
write_order-IsConsistent_example =
    write_order-IsConsistent 9 8 6 13 50 (runner ∷ []) second_quote (db_with pending_payment)
      written (refl, tt) (db_with-IsConsistent pending_payment) refl
