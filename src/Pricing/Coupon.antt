-- ===== src/Pricing/Coupon.antt =====
-- `CouponDiscount` of api/internal/pricing/quote.go: what a coupon takes off the listed amount.
-- The discount value and the amount are naturals by the CHECK constraints of coupons and price_rules.
use Prim.Native.Nat.{min, max}
use native.Mathlib.Nat.{mul-le-mul, le_refl}
use run.Base.{ℕ, ◌*◌, ◌/◌, ◌≤◌, arith, leb, if◌then◌else◌}

-- coupons.discount_type. `other` is any other text.
pub data DiscountType : Type 0 where
  percent amount waiver other : DiscountType

pub record CouponRule : Type 0 where
  pub discount_type : DiscountType
  pub discount_value : ℕ

discount_by : DiscountType → (value list_amount : ℕ) → ℕ
discount_by percent v l = l * min (max v 0) 100 / 100
discount_by amount v l = min (max v 0) l
discount_by waiver v l = l
discount_by other v l = 0

unfoldable pub coupon_discount : CouponRule → ℕ → ℕ
unfolding discount_by
coupon_discount c list_amount =
    if leb list_amount 0 then 0 else discount_by c.discount_type c.discount_value list_amount

percent-le : (l p : ℕ) → p ≤ 100 → l * p ≤ l * 100
percent-le l p h = mul-le-mul (le_refl l) h

discount_by-le : (t : DiscountType) (v l : ℕ) → discount_by t v l ≤ l
unfolding discount_by
discount_by-le percent v l = omega (arith, percent-le l (min (max v 0) 100) (omega arith))
discount_by-le amount v l = omega arith
discount_by-le waiver v l = omega arith
discount_by-le other v l = omega arith

pub coupon_discount-le : (c : CouponRule) (l : ℕ) → coupon_discount c l ≤ l
unfolding coupon_discount
coupon_discount-le c l = ground (arith, discount_by-le c.discount_type c.discount_value l)
