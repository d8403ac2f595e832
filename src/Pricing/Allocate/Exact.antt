-- ===== src/Pricing/Allocate/Exact.antt =====
-- Allocate on int64: while the listed prices add up to at most 2^31 cents no product wraps.
use native.Mathlib.Nat.{mul-le-mul}
use run.Base.{
  ℕ, ◌+◌, ◌*◌, ◌/◌, ◌^◌, ◌≤◌, ◌≡◌, refl, sym, List, [], ◌∷◌, arith, sum, length, min, ◌==◌,
  Bool-cases, inl, inr,
}
use mathlib.Core.Path.{subst}
use run.Pricing.Allocate.{
  mul_int64, paid_before, allocated, rems_from, clamp_discount, allocate_with, allocate,
}
use run.Pricing.Allocate.Order.{at}
use run.Pricing.Allocate.Sum.{allocate_with-sum}
use run.Pricing.Allocate.Fair.{allocate_with_fair}

mul_int64-exact : (d p : ℕ) → d ≤ 2 ^ 31 → p ≤ 2 ^ 31 → mul_int64 d p ≡ d * p
mul_int64-exact d p hd hp = grind (arith, mul-le-mul hd hp)

module _ (d t : ℕ) (small : d ≤ 2 ^ 31) where
  paid_before-exact :
      (ps : List ℕ) → sum ps ≤ 2 ^ 31 → paid_before mul_int64 d t ps ≡ paid_before ◌*◌ d t ps
  unfolding paid_before
  paid_before-exact [] h = refl
  paid_before-exact (p ∷ ps) h =
      rw (mul_int64-exact d p small (omega arith)) (rw (paid_before-exact ps (omega arith)) refl)

  allocated-exact :
      (ps : List ℕ) → sum ps ≤ 2 ^ 31 → allocated mul_int64 d t ps ≡ allocated ◌*◌ d t ps
  unfolding allocated
  allocated-exact [] h = refl
  allocated-exact (p ∷ ps) h =
      rw (mul_int64-exact d p small (omega arith)) (rw (allocated-exact ps (omega arith)) refl)

  rems_from-exact :
      (i : ℕ) (ps : List ℕ)
      → sum ps ≤ 2 ^ 31
      → rems_from mul_int64 d t i ps ≡ rems_from ◌*◌ d t i ps
  unfolding rems_from
  rems_from-exact i [] h = refl
  rems_from-exact i (p ∷ ps) h =
      rw (mul_int64-exact d p small (omega arith))
        (rw (rems_from-exact (i + 1) ps (omega arith)) refl)

allocate-exact :
    (prices : List ℕ) (discount : ℕ)
    → sum prices ≤ 2 ^ 31
    → allocate prices discount ≡ allocate_with ◌*◌ prices discount
unfolding allocate allocate_with
allocate-exact prices discount h =
    let d = clamp_discount discount (sum prices) in
    let t = sum prices in
    let small : d ≤ 2 ^ 31 = omega arith in
    elim (Bool-cases (sum prices == 0)) [
      | inl free ↦ rw free refl
      | inr priced ↦ rw priced (
          rw
            (
              paid_before-exact d t small prices h,
              allocated-exact d t small prices h,
              rems_from-exact d t small 0 prices h,
            )
            refl)
    ]

-- While the listed prices add up to at most 2^31 cents, what all runners pay is their sum less the
-- discount, exactly, where a discount above that sum counts as the sum.
pub allocate-sum :
    (prices : List ℕ) (discount : ℕ)
    → sum prices ≤ 2 ^ 31
    → sum (allocate prices discount) + min discount (sum prices) ≡ sum prices
allocate-sum prices discount h =
    subst (λ (paid : List ℕ). sum paid + min discount (sum prices) ≡ sum prices)
      (sym (allocate-exact prices discount h)) (allocate_with-sum prices discount)

-- While the listed prices add up to at most 2^31 cents, every runner pays the listed price less the
-- proportional share of the discount rounded down, or one cent less than that, and the result has one
-- entry for each price.
pub allocate_fair :
    (prices : List ℕ) (discount i : ℕ)
    → sum prices ≤ 2 ^ 31
    → let total = sum prices in
      let share = min discount total * at prices i / total in
      let paid = allocate prices discount in
      (length paid ≡ length prices)
      × (at paid i + share ≤ at prices i)
      × (at prices i ≤ at paid i + share + 1)
allocate_fair prices discount i h =
    subst (λ (paid : List ℕ). IsFair paid (min discount (sum prices)))
      (sym (allocate-exact prices discount h))
      (subst (IsFair (allocate_with ◌*◌ prices discount)) clamped
        (allocate_with_fair prices discount i))
  where
    IsFair : List ℕ → ℕ → Type 0
    IsFair paid d =
        let share = d * at prices i / sum prices in
        (length paid ≡ length prices)
        × (at paid i + share ≤ at prices i)
        × (at prices i ≤ at paid i + share + 1)

    clamped : clamp_discount discount (sum prices) ≡ min discount (sum prices)
    clamped = omega arith
