-- ===== src/Registration/Finish.antt =====
-- How an order ends: `ConfirmPaid` and `ReleaseOrder` on a consistent database.
use run.Base.{ℕ, ◌≡◌, refl, sym, ◌∙◌, ap, Bool, true, false, Option, none, some, List, map, arith}
use run.Platform.Apperr.{Result, ok, new}
use run.Platform.Table.{Table, put, update_where-some}
use run.Pricing.Counter.{Counter, Counts, has_reserved}
use run.Pricing.Counter.Apply.{IsShift}
use run.Store.{Db, OrderRow, ReservationState, reserved, consumed, ParticipantRow, RedemptionRow}
use run.Pricing.Reserve.{move_counters}
use run.Registration.Held.{marked, held-map, seats_of-le-held}
use run.Registration.Moved.{move_counters-Moved, update}
use run.Registration.Consistent.{IsConsistent, IsMove, Moved-IsConsistent}
use run.Registration.Orders.{update_order}

-- An update of an order whose row meets the test writes it, and says so.
pub update_order-true :
    (test : OrderRow → Bool) (change : OrderRow → OrderRow) (o : ℕ) (db : Db) (row : OrderRow)
    → db.orders o ≡ some row
    → test row ≡ true
    → update_order test change o db ≡ ok (true, record db { orders = put db.orders o (change row) })
update_order-true test change o db row found t =
    ap {A = Option (Table OrderRow)} {B = Result (Bool × Db)}
      (λ x. elim x [ none ↦ ok (false, db) | some t' ↦ ok (true, record db { orders = t' }) ])
      (update_where-some test change o db.orders row found t)

-- Otherwise it leaves the database as it is, and says so.
pub update_order-false :
    (test : OrderRow → Bool) (change : OrderRow → OrderRow) (o : ℕ) (db : Db) (row : OrderRow)
    → db.orders o ≡ some row
    → test row ≡ false
    → update_order test change o db ≡ ok (false, db)
update_order-false test change o db row found t = ground (arith, found, t)

-- A change of the participants that keeps their order and their keys keeps the counters right.
pub map-IsConsistent :
    (f : ParticipantRow → ParticipantRow) (db : Db)
    → ((p : ParticipantRow)
        → ((f p).order_id ≡ p.order_id)
          × ((f p).category_id ≡ p.category_id)
          × ((f p).price_rule_id ≡ p.price_rule_id))
    → IsConsistent db
    → IsConsistent (record db { participants = map f db.participants })
map-IsConsistent f db same c = record {
  categories = record {
    counts_reserved = λ k.
        c.categories.counts_reserved k
        ∙ sym (
            held-map (λ p. p.category_id) f (λ p. ((same p).0, (same p).1)) reserved db.orders k
              db.participants);
    counts_used = λ k.
        c.categories.counts_used k
        ∙ omega (
          arith,
          held-map (λ p. p.category_id) f (λ p. ((same p).0, (same p).1)) consumed db.orders k
              db.participants,
        );
    is_within = c.categories.is_within;
  };
  price_rules = record {
    counts_reserved = λ k.
        c.price_rules.counts_reserved k
        ∙ sym (
            held-map (λ p. p.price_rule_id) f (λ p. ((same p).0, (same p).2)) reserved db.orders k
              db.participants);
    counts_used = λ k.
        c.price_rules.counts_used k
        ∙ sym (
            held-map (λ p. p.price_rule_id) f (λ p. ((same p).0, (same p).2)) consumed db.orders k
              db.participants);
    is_within = c.price_rules.is_within;
  };
  coupons = c.coupons;
}

-- In a consistent database the counters hold what an order that is reserved takes back.
module _ (shift : ℕ → Counter → Counter) (laws : IsShift has_reserved shift)
    (to_state : ReservationState) (move : IsMove to_state shift) where
  pub counters_move :
      (o : ℕ) (db : Db) (old new : OrderRow)
      → db.orders o ≡ some old
      → old.reservation_state ≡ reserved
      → new.reservation_state ≡ to_state
      → IsConsistent db
      → (t u v : Counts) × (rd : List RedemptionRow) × (move_counters
            (update shift laws)
            to_state
            o
            (record db { orders = put db.orders o new })
          ≡ ok (
            tt,
            record db {
              orders = put db.orders o new;
              category_counts = t;
              price_rule_counts = u;
              coupon_counts = v;
              redemptions = rd;
            },
          ))
        × IsConsistent (record db {
          orders = put db.orders o new;
          category_counts = t;
          price_rule_counts = u;
          coupon_counts = v;
          redemptions = rd;
        })
        × (rd ≡ marked to_state o db.redemptions)
  counters_move o db old new found before after c =
      let seats_le = λ (key : ParticipantRow → ℕ) (k : ℕ).
        seats_of-le-held key reserved k o old db.orders db.participants found (rw before refl) in
      let (t, u, v, rd, e, m) =
        move_counters-Moved shift laws to_state o (record db { orders = put db.orders o new })
          (λ k. omega (arith, seats_le (λ p. p.category_id) k, c.categories.counts_reserved k))
          (λ k. omega (arith, seats_le (λ p. p.price_rule_id) k, c.price_rules.counts_reserved k))
          (λ k. omega (arith, c.coupons.counts_reserved k)) in
      (
        t,
        u,
        v,
        rd,
        e,
        Moved-IsConsistent to_state shift move laws o db
            (record db {
              category_counts = t;
              price_rule_counts = u;
              coupon_counts = v;
              redemptions = rd;
            })
            old new found before after c
            (record {
              uses = m.uses;
              marks = m.marks;
              coupon = record {
                counts = m.coupon.counts;
                rows = m.coupon.rows;
                within = m.coupon.within;
              };
              category = m.category;
              price_rule = m.price_rule;
            }),
        m.marks,
      )
