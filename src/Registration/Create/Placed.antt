-- ===== src/Registration/Create/Placed.antt =====
-- Writing a new order keeps the counters right.
use mathlib.Core.Path.{subst}
use run.Base.{
  ℕ, ◌<◌, ◌≡◌, refl, sym, ◌∙◌, ap, true, false, Option, none, some, List, ◌==◌, arith,
  if◌then◌else◌, count_if, Bool-cases, inl, inr,
}
use run.Platform.Apperr.{
  Error, Result, ok, err, new, category_sold_out, price_tier_sold_out, coupon_exhausted, bind-eq-ok,
  ◌>>◌,
}
use run.Platform.Table.{update_where-eq-some}
use run.Pricing.Counter.{Counter, Counts, fits, add_reserved, reserve_seats, group_seats, apply_all}
use run.Pricing.Counter.Groups.{total-group_seats}
use run.Pricing.Counter.Apply.{map_row, reserve_IsShift, apply_all-eq, Admits-of_ok}
use run.Pricing.Reserve.{
  Quoted, on_categories, on_price_rules, on_categories-eq-ok, on_price_rules-eq-ok,
  on_coupons-eq-ok, or_error, is_active, reserve, reserve_coupon, reserve_coupon_use,
}
use run.Store.{Db}

-- The rows of a table that gained `n k` reserved seats, for which there was room.
pub record IsGained (t t' : Counts) (n : ℕ → ℕ) : Type 0 where
  pub room : (k : ℕ) → 0 < n k → (c : Counter) × (t k ≡ some c) × (fits (n k) c ≡ true)
  pub gained : (k : ℕ) → t' k ≡ map_row (add_reserved (n k)) (t k)

groups-IsGained :
    (e : Error) (keys : List ℕ) (t t' : Counts)
    → apply_all reserve_seats e (group_seats keys) t ≡ ok t'
    → IsGained t t' (λ k. count_if (λ j. j == k) keys)
unfolding reserve_seats
groups-IsGained e keys t t' h = record {
  room = λ k.
      subst (λ n. 0 < n → (c : Counter) × (t k ≡ some c) × (fits n c ≡ true))
        (total-group_seats k keys)
        (Admits-of_ok fits add_reserved reserve_IsShift e (group_seats keys) t t' h k);
  gained = λ k.
      subst (λ n. t' k ≡ map_row (add_reserved n) (t k)) (total-group_seats k keys)
        (apply_all-eq fits add_reserved reserve_IsShift e (group_seats keys) t t' h k);
}

abbrev pub uses : Option ℕ → ℕ → ℕ
uses none k = 0
uses (some id) k = if id == k then 1 else 0

nothing-gained : (x : Option Counter) → x ≡ map_row (add_reserved 0) x
nothing-gained none = refl
nothing-gained (some c) = cc (reserve_IsShift.shift_zero c)

one-IsGained :
    (id : ℕ) (t t' : Counts) → reserve_seats 1 id t ≡ some t' → IsGained t t' (uses (some id))
unfolding reserve_seats
one-IsGained id t t' h =
    let (row, found, fit, after) = update_where-eq-some (fits 1) (add_reserved 1) id t h in
    record {
      room = λ k pos. elim (Bool-cases (id == k)) [
        | inl same ↦ (row, ground arith, ground arith)
        | inr differ ↦ absurd (ground arith)
      ];
      gained = λ k. elim (Bool-cases (id == k)) [
        | inl same ↦ ground (arith, after k)
        | inr differ ↦
            let other : (k == id) ≡ false = ground arith in
            rw differ (after k ∙ rw other (nothing-gained (t k)))
      ];
    }

coupon-IsGained :
    (cid : Option ℕ) (db : Db) (r : Unit {0} × Db)
    → reserve_coupon cid db ≡ ok r
    → (v : Counts) × (r.1 ≡ record db { coupon_counts = v })
      × IsGained db.coupon_counts v (uses cid)
unfolding reserve_coupon reserve_coupon_use
coupon-IsGained none db r h = (
  db.coupon_counts,
  cc,
  record {
    room = λ k pos. absurd (omega arith);
    gained = λ k. nothing-gained (db.coupon_counts k);
  },
)
coupon-IsGained (some id) db r h =
    let f : Counts → Result Counts = λ t.
      if is_active (db.coupons id)
      then or_error (new 409 coupon_exhausted) (reserve_seats 1 id t)
      else err (new 409 coupon_exhausted) in
    let (v, e, same) = on_coupons-eq-ok f db r h in
    elim (Bool-cases (is_active (db.coupons id))) [
      | inl active ↦
          let got : or_error (new 409 coupon_exhausted) (reserve_seats 1 id db.coupon_counts)
              ≡ ok v =
            rw active at e in
          (
            v,
            same,
            one-IsGained id db.coupon_counts v
                (or_error-ok (reserve_seats 1 id db.coupon_counts) v got),
          )
      | inr off ↦
          let bad : ◌≡◌ {A = Result Counts} (err (new 409 coupon_exhausted)) (ok v) = rw off at e in
          cc
    ]
  where
    or_error-ok :
        (x : Option Counts) (v : Counts) → or_error (new 409 coupon_exhausted) x ≡ ok v → x ≡ some v
    or_error-ok none v h = cc
    or_error-ok (some u) v h = cc

-- What a reservation that goes through leaves.
pub record IsReserved (q : Quoted) (db db' : Db) : Type 0 where
  pub categories :
      IsGained db.category_counts db'.category_counts (λ k. count_if (λ j. j == k) q.category_ids)
  pub price_rules :
      IsGained db.price_rule_counts db'.price_rule_counts
        (λ k. count_if (λ j. j == k) q.price_rule_ids)
  pub coupons : IsGained db.coupon_counts db'.coupon_counts (uses q.coupon_id)
  pub only_counts : db' ≡ record db {
    category_counts = db'.category_counts;
    price_rule_counts = db'.price_rule_counts;
    coupon_counts = db'.coupon_counts;
  }

pub reserve-IsReserved :
    (q : Quoted) (db : Db) (r : Unit {0} × Db) → reserve q db ≡ ok r → IsReserved q db r.1
unfolding reserve
reserve-IsReserved q db r h =
    let f = apply_all reserve_seats (new 409 category_sold_out) (group_seats q.category_ids) in
    let g = apply_all reserve_seats (new 409 price_tier_sold_out) (group_seats q.price_rule_ids) in
    let (p1, e1, h1) =
      bind-eq-ok (on_categories f) (λ x. on_price_rules g >> reserve_coupon q.coupon_id) db h in
    let (p2, e2, h2) = bind-eq-ok (on_price_rules g) (λ x. reserve_coupon q.coupon_id) p1.1 h1 in
    let (t, et, s1) = on_categories-eq-ok f db p1 e1 in
    let (u, eu, s2) = on_price_rules-eq-ok g p1.1 p2 e2 in
    let (v, s3, gv) = coupon-IsGained q.coupon_id p2.1 r h2 in
    let rules : p1.1.price_rule_counts ≡ db.price_rule_counts =
      ap (λ (d : Db). d.price_rule_counts) s1 in
    let coupons : p2.1.coupon_counts ≡ db.coupon_counts =
      ap (λ (d : Db). d.coupon_counts)
        (s2 ∙ ap (λ (d : Db). record d { price_rule_counts = u }) s1) in
    let eu' : g db.price_rule_counts ≡ ok u = subst (λ x. g x ≡ ok u) rules eu in
    let gv' : IsGained db.coupon_counts v (uses q.coupon_id) =
      subst (λ x. IsGained x v (uses q.coupon_id)) coupons gv in
    let end_db : Db = record db { category_counts = t; price_rule_counts = u; coupon_counts = v } in
    let final : r.1 ≡ end_db =
      s3
      ∙ ap (λ (d : Db). record d { coupon_counts = v })
          (s2 ∙ ap (λ (d : Db). record d { price_rule_counts = u }) s1) in
    let done : IsReserved q db end_db = record {
      categories =
          groups-IsGained (new 409 category_sold_out) q.category_ids db.category_counts t et;
      price_rules =
          groups-IsGained (new 409 price_tier_sold_out) q.price_rule_ids db.price_rule_counts u eu';
      coupons = gv';
      only_counts = refl;
    } in
    subst (IsReserved q db) (sym final) done
