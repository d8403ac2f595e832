-- ===== src/Pricing/Allocate/Sum.antt =====
-- Allocate takes off exactly the discount, and never more from a runner than the listed price.
use native.Mathlib.Nat.{mul-le-mul, le_refl}
use run.Base.{
  ℕ, zero, suc, ◌+◌, ◌-◌, ◌*◌, ◌%◌, ◌≤◌, ◌<◌, min, ◌≡◌, refl, inl, inr, List, [], ◌∷◌, map, arith,
  sum, All, leb, ◌==◌, if◌then◌else◌, Bool-cases, leb→le, ==→eq, ap, ◌∙◌,
}
use run.Pricing.Allocate.{
  Remainder, share_of, paid_before, allocated, rems_from, sort_rems, dec_at, take_odd_cents,
  clamp_discount, allocate_with,
}
use run.Pricing.Allocate.Order.{
  positive, positive_at, sum_rem, at, IsFalling, sort_rems-IsFalling, positive-sort_rems,
  positive_at-sort_rems, share_of-le,
}

sum-dec_at : (xs : List ℕ) (i : ℕ) → 0 < at xs i → sum (dec_at xs i) + 1 ≡ sum xs
unfolding dec_at
sum-dec_at [] i h = absurd (omega arith)
sum-dec_at (x ∷ xs) zero h = omega arith
sum-dec_at (x ∷ xs) (suc i) h = omega (arith, sum-dec_at xs i h)

at-dec_at : (xs : List ℕ) (i j : ℕ) → at (dec_at xs i) j ≡ at xs j - (if i == j then 1 else 0)
unfolding dec_at
at-dec_at [] i j = omega arith
at-dec_at (x ∷ xs) zero zero = ground arith
at-dec_at (x ∷ xs) zero (suc j) = ground arith
at-dec_at (x ∷ xs) (suc i) zero = ground arith
at-dec_at (x ∷ xs) (suc i) (suc j) = ground (arith, at-dec_at xs i j)

-- Each index has room for the odd cents that its remainders may take.
abbrev HasRoom : List Remainder → List ℕ → Type 0
HasRoom rs paid = (i : ℕ) → positive_at i rs ≤ at paid i

positive-head :
    (r : Remainder) (rs : List Remainder)
    → r.rem ≡ 0
    → All (λ s. s.rem ≤ r.rem) rs
    → positive rs ≡ 0
positive-head r [] e h = refl
positive-head r (s ∷ rs) e h = ground (arith, positive-head r rs e h.1)

sum-take_odd_cents :
    (left : ℕ) (rs : List Remainder) (paid : List ℕ)
    → IsFalling rs
    → left ≤ positive rs
    → HasRoom rs paid
    → sum (take_odd_cents left rs paid) + left ≡ sum paid
unfolding take_odd_cents
sum-take_odd_cents zero rs paid f h room = omega arith
sum-take_odd_cents (suc left) [] paid f h room = absurd (omega arith)
sum-take_odd_cents (suc left) (r ∷ rs) paid f h room =
    let big : 0 < r.rem = ground (arith, positive-head r rs) in
    let here : 0 < at paid r.idx = ground (arith, room r.idx) in
    let step =
      sum-take_odd_cents left rs (dec_at paid r.idx) f.1 (ground arith)
        (λ i. ground (arith, room i, at-dec_at paid r.idx i)) in
    omega (arith, step, sum-dec_at paid r.idx here)

cancel_rounded : (a d q s t : ℕ) → 0 < t → a * t + s ≡ d * t → s ≤ q * t → d ≤ a + q
cancel_rounded a d q s t pos e le = elim (Bool-cases (leb d (a + q))) [
  | inl yes_le ↦ leb→le _ _ yes_le
  | inr gt ↦
      let above : a + q + 1 ≤ d = ground arith in
      absurd (omega (arith, mul-le-mul above (le_refl t)))
]

module _ (d t : ℕ) (h : d ≤ t) (pos : 0 < t) where
  share_of-lt : (p : ℕ) → 0 < d * p % t → share_of ◌*◌ d t p < p
  share_of-lt p r = grind arith

  sum-paid_before : (ps : List ℕ) → sum (paid_before ◌*◌ d t ps) + allocated ◌*◌ d t ps ≡ sum ps
  unfolding paid_before allocated
  sum-paid_before [] = refl
  sum-paid_before (p ∷ ps) = omega (arith, sum-paid_before ps, share_of-le d t p h pos)

  allocated-sum_rem :
      (i : ℕ) (ps : List ℕ)
      → allocated ◌*◌ d t ps * t + sum_rem (rems_from ◌*◌ d t i ps) ≡ d * sum ps
  unfolding allocated rems_from
  allocated-sum_rem i [] = omega arith
  allocated-sum_rem i (p ∷ ps) = grind (arith, allocated-sum_rem (i + 1) ps)

  sum_rem-le :
      (i : ℕ) (ps : List ℕ)
      → sum_rem (rems_from ◌*◌ d t i ps) ≤ positive (rems_from ◌*◌ d t i ps) * t
  unfolding rems_from
  sum_rem-le i [] = omega arith
  sum_rem-le i (p ∷ ps) = grind (arith, sum_rem-le (i + 1) ps)

  positive_at-rems_from_lt :
      (i j : ℕ) (ps : List ℕ) → i < j → positive_at i (rems_from ◌*◌ d t j ps) ≡ 0
  unfolding rems_from
  positive_at-rems_from_lt i j [] lt = refl
  positive_at-rems_from_lt i j (p ∷ ps) lt = ground (arith, positive_at-rems_from_lt i (j + 1) ps)

  rems_from-room :
      (i j k : ℕ) (ps : List ℕ)
      → i ≡ j + k
      → positive_at i (rems_from ◌*◌ d t j ps) ≤ at (paid_before ◌*◌ d t ps) k
  unfolding rems_from paid_before
  rems_from-room i j k [] e = omega arith
  rems_from-room i j zero (p ∷ ps) e =
      ground (arith, share_of-lt p, positive_at-rems_from_lt i (j + 1) ps)
  rems_from-room i j (suc k) (p ∷ ps) e =
      ground (arith, rems_from-room i (j + 1) k ps (omega arith))

  allocated-total :
      (ps : List ℕ)
      → sum ps ≡ t
      → allocated ◌*◌ d t ps * t + sum_rem (rems_from ◌*◌ d t 0 ps) ≡ d * t
  allocated-total ps e = allocated-sum_rem 0 ps ∙ ap (λ x. d * x) e

  allocated-le : (ps : List ℕ) → sum ps ≡ t → allocated ◌*◌ d t ps ≤ d
  allocated-le ps e = grind (arith, allocated-total ps e)

  -- What is left over after rounding down is at most one cent for each remainder that is not zero.
  left-le-positive :
      (ps : List ℕ) → sum ps ≡ t → d - allocated ◌*◌ d t ps ≤ positive (rems_from ◌*◌ d t 0 ps)
  left-le-positive ps e =
      let a = allocated ◌*◌ d t ps in
      let rs = rems_from ◌*◌ d t 0 ps in
      omega (
        arith,
        cancel_rounded a d (positive rs) (sum_rem rs) t pos (allocated-total ps e)
            (sum_rem-le 0 ps),
      )

  allocate_total-sum :
      (ps : List ℕ)
      → sum ps ≡ t
      → sum (
            take_odd_cents
              (d - allocated ◌*◌ d t ps)
              (sort_rems (rems_from ◌*◌ d t 0 ps))
              (paid_before ◌*◌ d t ps))
          + d
        ≡ t
  allocate_total-sum ps e =
      let rs = rems_from ◌*◌ d t 0 ps in
      let left = d - allocated ◌*◌ d t ps in
      let taken =
        sum-take_odd_cents left (sort_rems rs) (paid_before ◌*◌ d t ps) (sort_rems-IsFalling rs)
          (omega (arith, positive-sort_rems rs, left-le-positive ps e))
          (λ i. omega (arith, positive_at-sort_rems i rs, rems_from-room i 0 i ps (omega arith))) in
      omega (arith, taken, sum-paid_before ps, allocated-le ps e)

sum-map_zero : (ps : List ℕ) → sum (map (λ _. 0) ps) ≡ 0
sum-map_zero [] = refl
sum-map_zero (p ∷ ps) = omega (arith, sum-map_zero ps)

-- With exact products all runners pay the sum of the listed prices less the discount, where a discount
-- above that sum counts as the sum.
pub allocate_with-sum :
    (prices : List ℕ) (discount : ℕ)
    → sum (allocate_with ◌*◌ prices discount) + min discount (sum prices) ≡ sum prices
unfolding allocate_with
allocate_with-sum prices discount = elim (Bool-cases (sum prices == 0)) [
  | inl z ↦ rw z (omega (arith, sum-map_zero prices, ==→eq _ _ z))
  | inr nz ↦ rw nz (
      let whole =
        allocate_total-sum (clamp_discount discount (sum prices)) (sum prices) (omega arith)
          (ground arith) prices refl in
      omega (arith, whole))
]
