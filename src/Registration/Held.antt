-- ===== src/Registration/Held.antt =====
-- How many seats the orders in one reservation state hold, and how that moves with an order.
use run.Base.{
  ℕ, ◌+◌, ◌-◌, ◌≤◌, ◌≡◌, refl, Bool, true, false, ◌&&◌, Option, none, some, List, [], ◌∷◌, map,
  ◌==◌, arith, if◌then◌else◌, count_if, Bool-cases, Option-cases, inl, inr,
}
use run.Platform.Table.{Table, put}
use run.Store.{
  OrderRow, ReservationState, reserved, consumed, released, ParticipantRow, RedemptionRow,
}
use run.Pricing.Reserve.{of_order, is_reserved, mark_coupon_redemption}

abbrev pub is_state : ReservationState → ReservationState → Bool
is_state reserved reserved = true
is_state consumed consumed = true
is_state released released = true
is_state _ _ = false

-- The order of a participant is in the state.
abbrev pub order_is : ReservationState → Option OrderRow → Bool
order_is st none = false
order_is st (some o) = is_state st o.reservation_state

module _ (key : ParticipantRow → ℕ) where
  -- The participants with a key whose order is in a state.
  abbrev pub held : ReservationState → Table OrderRow → ℕ → List ParticipantRow → ℕ
  held st orders k ps = count_if (λ p. (key p == k) && order_is st (orders p.order_id)) ps

  -- The participants of one order with a key.
  abbrev pub seats_of : ℕ → ℕ → List ParticipantRow → ℕ
  seats_of order_id k ps = count_if (λ j. j == k) (map key (of_order order_id ps))

  -- When a row is written for an order, its seats move from the old state to the new.
  pub held-put :
      (st : ReservationState) (k o : ℕ) (old row : OrderRow) (orders : Table OrderRow)
      (ps : List ParticipantRow)
      → orders o ≡ some old
      → held st (put orders o row) k ps
          + (if is_state st old.reservation_state then seats_of o k ps else 0)
        ≡ held st orders k ps + (if is_state st row.reservation_state then seats_of o k ps else 0)
  held-put st k o old row orders [] e = ground arith
  held-put st k o old row orders (p ∷ ps) e = ground (arith, held-put st k o old row orders ps e)

  -- The seats of an order are among those that its state holds.
  pub seats_of-le-held :
      (st : ReservationState) (k o : ℕ) (row : OrderRow) (orders : Table OrderRow)
      (ps : List ParticipantRow)
      → orders o ≡ some row
      → is_state st row.reservation_state ≡ true
      → seats_of o k ps ≤ held st orders k ps
  seats_of-le-held st k o row orders [] e h = omega arith
  seats_of-le-held st k o row orders (p ∷ ps) e h =
      ground (arith, seats_of-le-held st k o row orders ps e h)

  -- A change of a participant's other columns moves no seat.
  pub held-map :
      (f : ParticipantRow → ParticipantRow)
      → ((p : ParticipantRow) → ((f p).order_id ≡ p.order_id) × (key (f p) ≡ key p))
      → (st : ReservationState) (orders : Table OrderRow) (k : ℕ) (ps : List ParticipantRow)
      → held st orders k (map f ps) ≡ held st orders k ps
  held-map f same st orders k [] = refl
  held-map f same st orders k (p ∷ ps) = ground (arith, same p, held-map f same st orders k ps)

-- The redemptions of a coupon in a state.
abbrev pub redeemed : ReservationState → ℕ → List RedemptionRow → ℕ
redeemed st k rs = count_if (λ r. (r.coupon_id == k) && is_state st r.state) rs

-- Marking a redemption moves one use of its coupon from the state `reserved` to the new one.
pub redeemed-mark :
    (st to_state : ReservationState) (o k id : ℕ) (rs rs' : List RedemptionRow)
    → mark_coupon_redemption to_state o rs ≡ some (id, rs')
    → redeemed st k rs' + (if is_state st reserved then (if id == k then 1 else 0) else 0)
      ≡ redeemed st k rs + (if is_state st to_state then (if id == k then 1 else 0) else 0)
unfolding mark_coupon_redemption
redeemed-mark st to_state o k id [] rs' h = cc
redeemed-mark st to_state o k id (r ∷ rs) rs' h =
    elim (Bool-cases ((r.order_id == o) && is_reserved r.state)) [
      | inl found ↦ ground arith
      | inr other ↦ elim (Option-cases (mark_coupon_redemption to_state o rs)) [
        | inl end ↦ ground arith
        | inr ((id', rest), e) ↦ ground (arith, redeemed-mark st to_state o k id' rs rest e)
      ]
    ]

-- The redemptions after `moveCounters` marked that of an order, if it has one.
abbrev pub marked : ReservationState → ℕ → List RedemptionRow → List RedemptionRow
marked to_state o rs = elim (mark_coupon_redemption to_state o rs) [
  | none ↦ rs
  | some (id, rs') ↦ rs'
]

-- The uses of coupons that an order has reserved.
abbrev pub open_uses : ℕ → List RedemptionRow → ℕ
open_uses o rs = count_if (λ r. (r.order_id == o) && is_reserved r.state) rs

-- Marking ends one use of the order, and none of another one.
pub open_uses-marked :
    (to_state : ReservationState) (o j : ℕ) (rs : List RedemptionRow)
    → is_reserved to_state ≡ false
    → open_uses j (marked to_state o rs) ≡ open_uses j rs - (if j == o then 1 else 0)
unfolding mark_coupon_redemption
open_uses-marked to_state o j [] over = ground arith
open_uses-marked to_state o j (r ∷ rs) over =
    let rest = open_uses-marked to_state o j rs over in
    elim (Bool-cases ((r.order_id == o) && is_reserved r.state)) [
      | inl found ↦ ground (arith, found, over)
      | inr other ↦ elim (Option-cases (mark_coupon_redemption to_state o rs)) [
        | inl end ↦ ground (arith, rest, end, other)
        | inr ((id, rs'), e) ↦ ground (arith, rest, e, other)
      ]
    ]

-- The redemption that is marked was reserved, so it counts as one.
pub redeemed-pos :
    (to_state : ReservationState) (o id : ℕ) (rs rs' : List RedemptionRow)
    → mark_coupon_redemption to_state o rs ≡ some (id, rs')
    → 1 ≤ redeemed reserved id rs
unfolding mark_coupon_redemption
redeemed-pos to_state o id [] rs' h = cc
redeemed-pos to_state o id (r ∷ rs) rs' h =
    elim (Bool-cases ((r.order_id == o) && is_reserved r.state)) [
      | inl found ↦ ground arith
      | inr other ↦ elim (Option-cases (mark_coupon_redemption to_state o rs)) [
        | inl end ↦ ground arith
        | inr ((id', rest), e) ↦ ground (arith, redeemed-pos to_state o id' rs rest e)
      ]
    ]
