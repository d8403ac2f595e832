-- ===== src/Pricing/Reserve.antt =====
-- `Reserve`, `RecordRedemption`, `Consume` and `Release` of api/internal/pricing/counters.go, inside
-- the caller's transaction. Locks (LockCountersForOrders) order concurrent transactions and change
-- no row; a transaction is one step here.
use run.Base.{
  ℕ, ◌≡◌, refl, ap, Bool, true, false, ◌&&◌, Option, none, some, List, [], ◌∷◌, map, ◌==◌,
  if◌then◌else◌, filter_if,
}
use run.Platform.Apperr.{
  Error, Result, ok, err, new, category_sold_out, price_tier_sold_out, coupon_exhausted,
  internal_error, Tx, pure, ◌>>◌,
}
use run.Pricing.Counter.{
  Counts, group_seats, apply_all, reserve_seats, consume_seats, release_seats,
}
use run.Store.{
  Db, ReservationState, reserved, consumed, released, ParticipantRow, RedemptionRow, CouponRow,
}

-- The part of a quote that the counters read: the keys of the participants, and the coupon.
pub record Quoted : Type 0 where
  pub category_ids : List ℕ
  pub price_rule_ids : List ℕ
  pub coupon_id : Option ℕ
  pub coupon_discount_cents : ℕ

-- A step that writes one of the tables of counters.
abbrev pub on_categories : (Counts → Result Counts) → Tx Db (Unit {0})
on_categories f db = elim (f db.category_counts) [
  | ok t ↦ ok (tt, record db { category_counts = t })
  | err e ↦ err e
]

pub on_categories-eq-ok :
    (f : Counts → Result Counts) (db : Db) (r : Unit {0} × Db)
    → on_categories f db ≡ ok r
    → (t : Counts) × (f db.category_counts ≡ ok t) × (r.1 ≡ record db { category_counts = t })
on_categories-eq-ok f db r h = go (f db.category_counts) refl h
  where
    go :
        (x : Result Counts)
        → f db.category_counts ≡ x
        → elim x as (λ _. Result (Unit {0} × Db)) [
          | ok t ↦ ok (tt, record db { category_counts = t })
          | err e ↦ err e
        ]
          ≡ ok r
        → (t : Counts) × (f db.category_counts ≡ ok t) × (r.1 ≡ record db { category_counts = t })
    go (ok t) e h' = (t, e, cc)
    go (err e') e h' = cc

pub on_categories-ok :
    (f : Counts → Result Counts) (db : Db) (t : Counts)
    → f db.category_counts ≡ ok t
    → on_categories f db ≡ ok (tt, record db { category_counts = t })
on_categories-ok f db t h =
    ap {A = Result Counts} {B = Result (Unit {0} × Db)}
      (λ r. elim r [ ok t ↦ ok (tt, record db { category_counts = t }) | err e ↦ err e ]) h

abbrev pub on_price_rules : (Counts → Result Counts) → Tx Db (Unit {0})
on_price_rules f db = elim (f db.price_rule_counts) [
  | ok t ↦ ok (tt, record db { price_rule_counts = t })
  | err e ↦ err e
]

pub on_price_rules-eq-ok :
    (f : Counts → Result Counts) (db : Db) (r : Unit {0} × Db)
    → on_price_rules f db ≡ ok r
    → (t : Counts) × (f db.price_rule_counts ≡ ok t) × (r.1 ≡ record db { price_rule_counts = t })
on_price_rules-eq-ok f db r h = go (f db.price_rule_counts) refl h
  where
    go :
        (x : Result Counts)
        → f db.price_rule_counts ≡ x
        → elim x as (λ _. Result (Unit {0} × Db)) [
          | ok t ↦ ok (tt, record db { price_rule_counts = t })
          | err e ↦ err e
        ]
          ≡ ok r
        → (t : Counts) × (f db.price_rule_counts ≡ ok t)
          × (r.1 ≡ record db { price_rule_counts = t })
    go (ok t) e h' = (t, e, cc)
    go (err e') e h' = cc

pub on_price_rules-ok :
    (f : Counts → Result Counts) (db : Db) (t : Counts)
    → f db.price_rule_counts ≡ ok t
    → on_price_rules f db ≡ ok (tt, record db { price_rule_counts = t })
on_price_rules-ok f db t h =
    ap {A = Result Counts} {B = Result (Unit {0} × Db)}
      (λ r. elim r [ ok t ↦ ok (tt, record db { price_rule_counts = t }) | err e ↦ err e ]) h

abbrev pub on_coupons : (Counts → Result Counts) → Tx Db (Unit {0})
on_coupons f db = elim (f db.coupon_counts) [
  | ok t ↦ ok (tt, record db { coupon_counts = t })
  | err e ↦ err e
]

pub on_coupons-eq-ok :
    (f : Counts → Result Counts) (db : Db) (r : Unit {0} × Db)
    → on_coupons f db ≡ ok r
    → (t : Counts) × (f db.coupon_counts ≡ ok t) × (r.1 ≡ record db { coupon_counts = t })
on_coupons-eq-ok f db r h = go (f db.coupon_counts) refl h
  where
    go :
        (x : Result Counts)
        → f db.coupon_counts ≡ x
        → elim x as (λ _. Result (Unit {0} × Db)) [
          | ok t ↦ ok (tt, record db { coupon_counts = t })
          | err e ↦ err e
        ]
          ≡ ok r
        → (t : Counts) × (f db.coupon_counts ≡ ok t) × (r.1 ≡ record db { coupon_counts = t })
    go (ok t) e h' = (t, e, cc)
    go (err e') e h' = cc

pub on_coupons-ok :
    (f : Counts → Result Counts) (db : Db) (t : Counts)
    → f db.coupon_counts ≡ ok t
    → on_coupons f db ≡ ok (tt, record db { coupon_counts = t })
on_coupons-ok f db t h =
    ap {A = Result Counts} {B = Result (Unit {0} × Db)}
      (λ r. elim r [ ok t ↦ ok (tt, record db { coupon_counts = t }) | err e ↦ err e ]) h

abbrev pub or_error : Error → Option Counts → Result Counts
or_error e none = err e
or_error e (some t) = ok t

abbrev pub is_active : Option CouponRow → Bool
is_active none = false
is_active (some c) = c.active

-- ReserveCouponUse, with its `status = 'ACTIVE'`.
unfoldable pub reserve_coupon_use : ℕ → Tx Db (Unit {0})
unfolding reserve_seats
reserve_coupon_use id db =
    on_coupons
      (λ t.
        if is_active (db.coupons id)
        then or_error (new 409 coupon_exhausted) (reserve_seats 1 id t)
        else err (new 409 coupon_exhausted))
      db

unfoldable pub reserve_coupon : Option ℕ → Tx Db (Unit {0})
unfolding reserve_coupon_use
reserve_coupon none = pure tt
reserve_coupon (some id) = reserve_coupon_use id

unfoldable pub reserve : Quoted → Tx Db (Unit {0})
unfolding reserve_coupon
reserve q = do
  on_categories (apply_all reserve_seats (new 409 category_sold_out) (group_seats q.category_ids))
  on_price_rules
      (apply_all reserve_seats (new 409 price_tier_sold_out) (group_seats q.price_rule_ids))
  reserve_coupon q.coupon_id

-- RecordRedemption.
unfoldable pub record_redemption : ℕ → Quoted → Tx Db (Unit {0})
record_redemption order_id q db = elim q.coupon_id [
  | none ↦ ok (tt, db)
  | some id ↦
      let row : RedemptionRow = record {
        order_id = order_id;
        coupon_id = id;
        state = reserved;
        discount_cents = q.coupon_discount_cents;
      } in
      ok (tt, record db { redemptions = row ∷ db.redemptions })
]

-- The participants of one order, and the keys that ListOrderCategorySeats and
-- ListOrderPriceRuleSeats count.
abbrev pub of_order : ℕ → List ParticipantRow → List ParticipantRow
of_order order_id = filter_if (λ p. p.order_id == order_id)

abbrev pub order_categories : ℕ → Db → List ℕ
order_categories order_id db = map (λ p. p.category_id) (of_order order_id db.participants)

abbrev pub order_price_rules : ℕ → Db → List ℕ
order_price_rules order_id db = map (λ p. p.price_rule_id) (of_order order_id db.participants)

abbrev pub is_reserved : ReservationState → Bool
is_reserved reserved = true
is_reserved consumed = false
is_reserved released = false

-- MarkCouponRedemption: the coupon of the RESERVED redemption of the order, and the rows after it is
-- set to `to_state`.
unfoldable pub mark_coupon_redemption :
    ReservationState → ℕ → List RedemptionRow → Option (ℕ × List RedemptionRow)
mark_coupon_redemption to_state order_id [] = none
mark_coupon_redemption to_state order_id (r ∷ rs) =
    let rest = mark_coupon_redemption to_state order_id rs in
    if (r.order_id == order_id) && is_reserved r.state
    then some (r.coupon_id, record r { state = to_state } ∷ rs)
    else elim rest [ none ↦ none | some (id, rs') ↦ some (id, r ∷ rs') ]

-- The end of moveCounters: mark the redemption, and move one use of its coupon.
unfoldable pub move_coupon :
    ((seats id : ℕ) → Counts → Option Counts) → ReservationState → ℕ → Tx Db (Unit {0})
unfolding mark_coupon_redemption
move_coupon update to_state order_id db =
    elim (mark_coupon_redemption to_state order_id db.redemptions) [
      | none ↦ ok (tt, db)
      | some (id, rs) ↦
          on_coupons (λ t. or_error internal_error (update 1 id t)) (record db { redemptions = rs })
    ]

unfoldable pub move_counters :
    ((seats id : ℕ) → Counts → Option Counts) → ReservationState → ℕ → Tx Db (Unit {0})
unfolding move_coupon
move_counters update to_state order_id db =
    (do
      on_categories (apply_all update internal_error (group_seats (order_categories order_id db)))
      on_price_rules (apply_all update internal_error (group_seats (order_price_rules order_id db)))
      move_coupon update to_state order_id)
      db

unfoldable pub consume : ℕ → Tx Db (Unit {0})
unfolding move_counters
consume = move_counters consume_seats consumed

unfoldable pub release : ℕ → Tx Db (Unit {0})
unfolding move_counters
release = move_counters release_seats released
