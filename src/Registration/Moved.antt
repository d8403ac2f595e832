-- ===== src/Registration/Moved.antt =====
-- `moveCounters` goes through when the counters hold what it takes back, and then it moves exactly
-- the seats of the order and the use of its coupon.
use mathlib.Core.Path.{subst}
use run.Base.{
  ℕ, ◌+◌, ◌≤◌, ◌<◌, ◌≡◌, refl, true, false, Option, none, some, List, ◌==◌, arith, if◌then◌else◌,
  count_if, Bool-cases, Option-cases, inl, inr, ==→eq, ap, ◌∙◌,
}
use run.Platform.Apperr.{ok, internal_error, Tx, bind-ok, ◌>>◌}
use run.Platform.Table.{put, update_where, update_where-some}
use run.Pricing.Counter.{Counter, Counts, has_reserved, group_seats, apply_all, reserved_of}
use run.Pricing.Counter.Groups.{total, total-group_seats, group_seats-IsPositive}
use run.Pricing.Counter.Apply.{map_row, IsShift, apply_all-ok, apply_all-eq}
use run.Store.{Db, RedemptionRow, ReservationState, reserved}
use run.Pricing.Reserve.{
  order_categories, order_price_rules, mark_coupon_redemption, move_coupon, move_counters, or_error,
  on_coupons-ok, on_categories, on_price_rules, on_categories-ok, on_price_rules-ok,
}
use run.Registration.Held.{marked, seats_of, redeemed, is_state, redeemed-mark, redeemed-pos}

-- A row with enough reserved seats admits the groups of an order.
enough :
    (o : Option Counter) (n : ℕ)
    → 0 < n
    → n ≤ reserved_of o
    → (c : Counter) × (o ≡ some c) × (has_reserved n c ≡ true)
enough none n pos h = absurd (omega arith)
enough (some c) n pos h = (c, refl, ground arith)

module _ (shift : ℕ → Counter → Counter) (laws : IsShift has_reserved shift) where
  abbrev pub update : (seats id : ℕ) → Counts → Option Counts
  update seats = update_where (has_reserved seats) (shift seats)

  -- The loop over the groups of the keys of an order.
  keys_moved :
      (keys : List ℕ) (t : Counts)
      → ((k : ℕ) → count_if (λ j. j == k) keys ≤ reserved_of (t k))
      → (t' : Counts) × (apply_all update internal_error (group_seats keys) t ≡ ok t')
        × ((k : ℕ) → t' k ≡ map_row (shift (count_if (λ j. j == k) keys)) (t k))
  keys_moved keys t h =
      let groups = group_seats keys in
      let (t', e) =
        apply_all-ok has_reserved shift laws internal_error groups t (group_seats-IsPositive keys)
          (λ j pos.
            enough (t j) (total j groups) pos (omega (arith, total-group_seats j keys, h j))) in
      (
        t',
        e,
        λ k.
            subst (λ n. t' k ≡ map_row (shift n) (t k)) (total-group_seats k keys)
              (apply_all-eq has_reserved shift laws internal_error groups t t' e k),
      )

  -- The use of the coupon that moves, at most one: `n k` for the coupon `k`.
  pub record CouponMoved (to_state : ReservationState) (db : Db) (u : Counts)
      (rd : List RedemptionRow) (n : ℕ → ℕ) : Type 0 where
    pub counts : (k : ℕ) → u k ≡ map_row (shift (n k)) (db.coupon_counts k)
    pub rows :
        (st : ReservationState) (k : ℕ)
        → redeemed st k rd + (if is_state st reserved then n k else 0)
          ≡ redeemed st k db.redemptions + (if is_state st to_state then n k else 0)
    pub within : (k : ℕ) → n k ≤ redeemed reserved k db.redemptions

  move_coupon-some :
      (to_state : ReservationState) (o id : ℕ) (db : Db) (rd : List RedemptionRow) (v : Counts)
      → mark_coupon_redemption to_state o db.redemptions ≡ some (id, rd)
      → update 1 id db.coupon_counts ≡ some v
      → move_coupon update to_state o db
        ≡ ok (tt, record db { coupon_counts = v; redemptions = rd })
  unfolding move_coupon
  move_coupon-some to_state o id db rd v e f =
      rw (e, move_coupon)
        (on_coupons-ok (λ t. or_error internal_error (update 1 id t))
          (record db { redemptions = rd }) v (ap (or_error internal_error) f))

  coupon_moved :
      (to_state : ReservationState) (o : ℕ) (db : Db)
      → ((k : ℕ) → redeemed reserved k db.redemptions ≤ reserved_of (db.coupon_counts k))
      → (u : Counts) × (rd : List RedemptionRow) × (n : ℕ → ℕ) × (move_coupon update to_state o db
          ≡ ok (tt, record db { coupon_counts = u; redemptions = rd }))
        × CouponMoved to_state db u rd n
        × (rd ≡ marked to_state o db.redemptions)
  unfolding move_coupon
  coupon_moved to_state o db h =
      elim (Option-cases (mark_coupon_redemption to_state o db.redemptions)) [
        | inl e ↦ (
          db.coupon_counts,
          db.redemptions,
          λ k. 0,
          rw (e, move_coupon) refl,
          record {
            counts = λ k. unmoved (db.coupon_counts k);
            rows = λ st k. ground arith;
            within = λ k. omega arith;
          },
          rw (e, marked) refl,
        )
        | inr ((id, rd), e) ↦
            let one = redeemed-pos to_state o id db.redemptions rd e in
            let (c, found, has) =
              enough (db.coupon_counts id) 1 (omega arith) (omega (arith, h id)) in
            let step =
              update_where-some (has_reserved 1) (shift 1) id db.coupon_counts c found has in
            (
              put db.coupon_counts id (shift 1 c),
              rd,
              λ k. if id == k then 1 else 0,
              move_coupon-some to_state o id db rd (put db.coupon_counts id (shift 1 c)) e step,
              record {
                counts = λ k. one_row id k c db.coupon_counts found;
                rows = λ st k. redeemed-mark st to_state o k id db.redemptions rd e;
                within = λ k. at_most_one id k one;
              },
              rw (e, marked) refl,
            )
      ]
    where
      unmoved : (x : Option Counter) → x ≡ map_row (shift 0) x
      unmoved none = refl
      unmoved (some c) = cc (laws.shift_zero c)

      at_most_one :
          (id k : ℕ)
          → 1 ≤ redeemed reserved id db.redemptions
          → (if id == k then 1 else 0) ≤ redeemed reserved k db.redemptions
      at_most_one id k one = elim (Bool-cases (id == k)) [
        | inl same ↦
            rw same (subst (λ j. 1 ≤ redeemed reserved j db.redemptions) (==→eq id k same) one)
        | inr differ ↦ rw differ (omega arith)
      ]

      one_row :
          (id k : ℕ) (c : Counter) (t : Counts)
          → t id ≡ some c
          → put t id (shift 1 c) k ≡ map_row (shift (if id == k then 1 else 0)) (t k)
      one_row id k c t found = elim (Bool-cases (id == k)) [
        | inl same ↦ ground arith
        | inr differ ↦
            let other : (k == id) ≡ false = ground arith in rw differ (rw other (unmoved (t k)))
      ]

  -- The tables of counters after the counters of the order `o` have moved, and the redemptions.
  pub record Moved (to_state : ReservationState) (o : ℕ) (db db' : Db) : Type 0 where
    pub uses : ℕ → ℕ
    pub marks : db'.redemptions ≡ marked to_state o db.redemptions
    pub coupon : CouponMoved to_state db db'.coupon_counts db'.redemptions uses
    pub category :
        (k : ℕ)
        → db'.category_counts k
          ≡ map_row
              (shift (seats_of (λ p. p.category_id) o k db.participants))
              (db.category_counts k)
    pub price_rule :
        (k : ℕ)
        → db'.price_rule_counts k
          ≡ map_row
              (shift (seats_of (λ p. p.price_rule_id) o k db.participants))
              (db.price_rule_counts k)

  move_counters-ok :
      (to_state : ReservationState) (o : ℕ) (db : Db) (t u v : Counts) (rd : List RedemptionRow)
      → apply_all update internal_error (group_seats (order_categories o db)) db.category_counts
        ≡ ok t
      → apply_all update internal_error (group_seats (order_price_rules o db)) db.price_rule_counts
        ≡ ok u
      → move_coupon update to_state o (record db { category_counts = t; price_rule_counts = u })
        ≡ ok (
          tt,
          record db {
            category_counts = t;
            price_rule_counts = u;
            coupon_counts = v;
            redemptions = rd;
          },
        )
      → move_counters update to_state o db
        ≡ ok (
          tt,
          record db {
            category_counts = t;
            price_rule_counts = u;
            coupon_counts = v;
            redemptions = rd;
          },
        )
  unfolding move_counters
  move_counters-ok to_state o db t u v rd et eu ev =
      let db1 : Db = record db { category_counts = t } in
      let db2 : Db = record db { category_counts = t; price_rule_counts = u } in
      let f = apply_all update internal_error (group_seats (order_categories o db)) in
      let g = apply_all update internal_error (group_seats (order_price_rules o db)) in
      let cat = on_categories f in
      let rule = on_price_rules g in
      let k : Tx Db (Unit {0}) = move_coupon update to_state o in
      bind-ok cat (λ x. rule >> k) db db1 tt (on_categories-ok f db t et)
      ∙ bind-ok rule (λ x. k) db1 db2 tt (on_price_rules-ok g db1 u eu)
      ∙ ev

  pub move_counters-Moved :
      (to_state : ReservationState) (o : ℕ) (db : Db)
      → ((k : ℕ)
          → seats_of (λ p. p.category_id) o k db.participants ≤ reserved_of (db.category_counts k))
      → ((k : ℕ)
          → seats_of (λ p. p.price_rule_id) o k db.participants
            ≤ reserved_of (db.price_rule_counts k))
      → ((k : ℕ) → redeemed reserved k db.redemptions ≤ reserved_of (db.coupon_counts k))
      → (t u v : Counts) × (rd : List RedemptionRow) × (move_counters update to_state o db
          ≡ ok (
            tt,
            record db {
              category_counts = t;
              price_rule_counts = u;
              coupon_counts = v;
              redemptions = rd;
            },
          ))
        × Moved to_state o db (record db {
          category_counts = t;
          price_rule_counts = u;
          coupon_counts = v;
          redemptions = rd;
        })
  move_counters-Moved to_state o db h i j =
      let (t, et, mt) = keys_moved (order_categories o db) db.category_counts h in
      let (u, eu, mu) = keys_moved (order_price_rules o db) db.price_rule_counts i in
      let db2 : Db = record db { category_counts = t; price_rule_counts = u } in
      let (v, rd, n, ev, mv, marks) = coupon_moved to_state o db2 j in
      (
        t,
        u,
        v,
        rd,
        move_counters-ok to_state o db t u v rd et eu ev,
        record {
          uses = n;
          marks = marks;
          coupon = record { counts = mv.counts; rows = mv.rows; within = mv.within };
          category = mt;
          price_rule = mu;
        },
      )
