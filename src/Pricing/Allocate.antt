-- ===== src/Pricing/Allocate.antt =====
-- `Allocate` of api/internal/pricing/quote.go: the discount of an order, shared out in whole cents.
-- Amounts are naturals: prices are `CHECK (price_cents >= 0)` columns. The products wrap as on int64.
pub mod Order
pub mod Sum
pub mod Fair
pub mod Exact
use run.Base.{
  ℕ, zero, suc, ◌+◌, ◌-◌, ◌*◌, ◌^◌, ◌/◌, ◌%◌, min, max, List, [], ◌∷◌, map, sum, leb, ◌==◌,
  if◌then◌else◌,
}

pub record Remainder : Type 0 where
  pub idx : ℕ
  pub rem : ℕ

-- `discount * p` on int64, by its bit pattern. The pattern is the number while that is below 2^63; above
-- it the code goes on with a negative number, or with one that lost its upper bits.
abbrev pub mul_int64 : (a b : ℕ) → ℕ
mul_int64 a b = a * b % 2 ^ 64

-- `discount * p / total`, the share of one price rounded down, for a multiplication `mul`: that of int64
-- in the code, and that of the naturals in what the proofs compare it with.
abbrev pub share_of : (mul : ℕ → ℕ → ℕ) → (discount total p : ℕ) → ℕ
share_of mul discount total p = mul discount p / total

-- The loop's three results: what is paid before the odd cents, what is allocated, the remainders.
pub paid_before : (mul : ℕ → ℕ → ℕ) → (discount total : ℕ) → List ℕ → List ℕ
paid_before mul discount total [] = []
paid_before mul discount total (p ∷ ps) =
    (p - share_of mul discount total p) ∷ paid_before mul discount total ps

pub allocated : (mul : ℕ → ℕ → ℕ) → (discount total : ℕ) → List ℕ → ℕ
allocated mul discount total [] = 0
allocated mul discount total (p ∷ ps) =
    share_of mul discount total p + allocated mul discount total ps

pub rems_from : (mul : ℕ → ℕ → ℕ) → (discount total i : ℕ) → List ℕ → List Remainder
rems_from mul discount total i [] = []
rems_from mul discount total i (p ∷ ps) =
    record { idx = i; rem = mul discount p % total } ∷ rems_from mul discount total (i + 1) ps

-- `slices.SortStableFunc` by falling remainder: an element goes before its equals further on.
pub insert_rem : Remainder → List Remainder → List Remainder
insert_rem e [] = e ∷ []
insert_rem e (f ∷ fs) =
    let rest = insert_rem e fs in if leb f.rem e.rem then e ∷ f ∷ fs else f ∷ rest

pub sort_rems : List Remainder → List Remainder
sort_rems [] = []
sort_rems (e ∷ es) = insert_rem e (sort_rems es)

-- `paid[i]--`. The proof in `Allocate.Sum` shows that the truncated subtraction never meets a zero.
pub dec_at : List ℕ → ℕ → List ℕ
dec_at [] i = []
dec_at (x ∷ xs) zero = (x - 1) ∷ xs
dec_at (x ∷ xs) (suc i) = x ∷ dec_at xs i

-- `for k := 0; k < left; k++ { paid[rems[k].idx]-- }`
pub take_odd_cents : (left : ℕ) → List Remainder → List ℕ → List ℕ
take_odd_cents zero rems paid = paid
take_odd_cents (suc left) [] paid = paid
take_odd_cents (suc left) (r ∷ rems) paid = take_odd_cents left rems (dec_at paid r.idx)

-- `discount = min(max(discount, 0), total)`
abbrev pub clamp_discount : (discount total : ℕ) → ℕ
clamp_discount discount total = min (max discount 0) total

abbrev pub allocate_total : (mul : ℕ → ℕ → ℕ) → (discount total : ℕ) → List ℕ → List ℕ
allocate_total mul discount total ps =
    take_odd_cents (discount - allocated mul discount total ps)
      (sort_rems (rems_from mul discount total 0 ps)) (paid_before mul discount total ps)

unfoldable pub allocate_with : (mul : ℕ → ℕ → ℕ) → List ℕ → ℕ → List ℕ
unfolding paid_before allocated rems_from insert_rem sort_rems dec_at take_odd_cents
allocate_with mul prices discount =
    let total = sum prices in
    if total == 0
    then map (λ _. 0) prices
    else allocate_total mul (clamp_discount discount total) total prices

unfoldable pub allocate : List ℕ → ℕ → List ℕ
unfolding allocate_with
allocate prices discount = allocate_with mul_int64 prices discount
