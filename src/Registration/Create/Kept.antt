-- ===== src/Registration/Create/Kept.antt =====
-- Writing a new order keeps the counters right.
use mathlib.Core.Path.{subst}
use run.Base.{
  ℕ, ◌+◌, ◌≡◌, refl, sym, ◌∙◌, ap, Option, none, some, List, ◌∷◌, ◌++◌, arith, if◌then◌else◌,
}
use run.Platform.Apperr.{ok, bind-eq-ok}
use run.Platform.Table.{put}
use run.Pricing.Quote.{Quote}
use run.Pricing.Reserve.{Quoted, reserve, record_redemption}
use run.Store.{Db, RedemptionRow, ReservationState, reserved, consumed}
use run.Registration.Held.{redeemed, is_state}
use run.Registration.Consistent.{IsConsistent}
use run.Registration.Create.{ResolvedParticipant, counted, new_order, participant_rows, write_order}
use run.Registration.Create.Fresh.{IsFresh, held-new, IsBalanced-add}
use run.Registration.Create.Placed.{IsReserved, reserve-IsReserved, uses}

abbrev redemption : ℕ → Quoted → Option ℕ → List RedemptionRow → List RedemptionRow
redemption o q none rs = rs
redemption o q (some id) rs =
    record {
      order_id = o;
      coupon_id = id;
      state = reserved;
      discount_cents = q.coupon_discount_cents;
    }
    ∷ rs

redeemed-redemption :
    (st : ReservationState) (k o : ℕ) (q : Quoted) (cid : Option ℕ) (rs : List RedemptionRow)
    → redeemed st k (redemption o q cid rs)
      ≡ redeemed st k rs + (if is_state st reserved then uses cid k else 0)
redeemed-redemption st k o q none rs = ground arith
redeemed-redemption st k o q (some id) rs = ground arith

-- The database after the rows of an order were written to one whose counters are reserved.
abbrev placed : (event_id user account o now : ℕ) → List ResolvedParticipant → Quote → Db → Db
placed event_id user account o now parts q db = record db {
  orders = put db.orders o (new_order event_id user account (now + db.settings.upload_window) q);
  order_ids = o ∷ db.order_ids;
  participants = participant_rows o event_id q.participants parts ++ db.participants;
  redemptions = redemption o (counted q) q.coupon_id db.redemptions;
}

placed-IsConsistent :
    (event_id user account o now : ℕ) (parts : List ResolvedParticipant) (q : Quote) (db db1 : Db)
    → IsFresh o db.participants
    → IsConsistent db
    → IsReserved (counted q) db db1
    → IsConsistent (record (placed event_id user account o now parts q db) {
      category_counts = db1.category_counts;
      price_rule_counts = db1.price_rule_counts;
      coupon_counts = db1.coupon_counts;
    })
placed-IsConsistent event_id user account o now parts q db db1 f c r =
    let row = new_order event_id user account (now + db.settings.upload_window) q in
    let category = λ (st : ReservationState) (k : ℕ).
      held-new (λ p. p.category_id) (λ p. p.category_id) (λ o' e' hash p. refl) st k o event_id row
        db.orders q.participants parts db.participants refl f in
    let price_rule = λ (st : ReservationState) (k : ℕ).
      held-new (λ p. p.price_rule_id) (λ p. p.price_rule_id) (λ o' e' hash p. refl) st k o event_id
        row db.orders q.participants parts db.participants refl f in
    record {
      categories =
          IsBalanced-add db.category_counts db1.category_counts _ _ _ _ _ c.categories
            r.categories.room r.categories.gained (λ k. category reserved k)
            (λ k. omega (arith, category consumed k));
      price_rules =
          IsBalanced-add db.price_rule_counts db1.price_rule_counts _ _ _ _ _ c.price_rules
            r.price_rules.room r.price_rules.gained (λ k. price_rule reserved k)
            (λ k. omega (arith, price_rule consumed k));
      coupons =
          IsBalanced-add db.coupon_counts db1.coupon_counts _ _ _ _ _ c.coupons r.coupons.room
            r.coupons.gained
            (λ k. redeemed-redemption reserved k o (counted q) q.coupon_id db.redemptions)
            (λ k.
              omega
                (arith, redeemed-redemption consumed k o (counted q) q.coupon_id db.redemptions));
    }

record_redemption-placed :
    (o : ℕ) (q : Quoted) (d : Db) (r : Unit {0} × Db)
    → record_redemption o q d ≡ ok r
    → r.1 ≡ record d { redemptions = redemption o q q.coupon_id d.redemptions }
unfolding record_redemption
record_redemption-placed o q d r h = go q q.coupon_id refl h
  where
    go :
        (q : Quoted) (cid : Option ℕ)
        → q.coupon_id ≡ cid
        → record_redemption o q d ≡ ok r
        → r.1 ≡ record d { redemptions = redemption o q q.coupon_id d.redemptions }
    go q none e h = ground (arith, e, h)
    go q (some id) e h = ground (arith, e, h)

-- When the transaction that creates an order has reserved what its quote asks for and has written the
-- order, its participants and the redemption of its coupon, the counters are right again: they count
-- the seats of the new order beside the others, and no limit is passed. The order's id must be new.
pub write_order-IsConsistent :
    (event_id user account o now : ℕ) (parts : List ResolvedParticipant) (q : Quote) (db : Db)
    (r : Unit {0} × Db)
    → IsFresh o db.participants
    → IsConsistent db
    → write_order event_id user account o now parts q db ≡ ok r
    → IsConsistent r.1
unfolding write_order
write_order-IsConsistent event_id user account o now parts q db r f c h =
    let (p, e, h1) = bind-eq-ok (reserve (counted q)) _ db h in
    let got = reserve-IsReserved (counted q) db p e in
    let final : r.1 ≡ placed event_id user account o now parts q p.1 =
      record_redemption-placed o (counted q) _ r h1 in
    let whole =
      final ∙ ap (λ (d : Db). placed event_id user account o now parts q d) got.only_counts in
    subst IsConsistent (sym whole)
      (placed-IsConsistent event_id user account o now parts q db p.1 f c got)

-- The new order is the only one that was written.
pub write_order-orders :
    (event_id user account o now : ℕ) (parts : List ResolvedParticipant) (q : Quote) (db : Db)
    (r : Unit {0} × Db)
    → write_order event_id user account o now parts q db ≡ ok r
    → r.1.orders
      ≡ put db.orders o (new_order event_id user account (now + db.settings.upload_window) q)
unfolding write_order
write_order-orders event_id user account o now parts q db r h =
    let (p, e, h1) = bind-eq-ok (reserve (counted q)) _ db h in
    let got = reserve-IsReserved (counted q) db p e in
    let final : r.1 ≡ placed event_id user account o now parts q p.1 =
      record_redemption-placed o (counted q) _ r h1 in
    ap (λ (d : Db). d.orders) final
    ∙ ap
        (λ (d : Db).
          put d.orders o (new_order event_id user account (now + d.settings.upload_window) q))
        got.only_counts
