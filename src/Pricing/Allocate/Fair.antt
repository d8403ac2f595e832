-- ===== src/Pricing/Allocate/Fair.antt =====
-- Allocate is proportional up to a cent, and its products stay inside int64.
use run.Base.{
  ℕ, zero, suc, ◌+◌, ◌-◌, ◌*◌, ◌≤◌, ◌<◌, ◌≡◌, refl, inl, inr, List, [], ◌∷◌, map, arith, sum,
  length, ◌==◌, if◌then◌else◌, Bool-cases, ==→eq,
}
use run.Pricing.Allocate.{
  Remainder, share_of, paid_before, allocated, rems_from, insert_rem, sort_rems, dec_at,
  take_odd_cents, clamp_discount, allocate_with,
}
use run.Pricing.Allocate.Order.{at, share_of-le}

abbrev count_at : ℕ → List Remainder → ℕ
count_at i [] = 0
count_at i (r ∷ rs) = (if r.idx == i then 1 else 0) + count_at i rs

count_at-insert_rem :
    (i : ℕ) (e : Remainder) (rs : List Remainder)
    → count_at i (insert_rem e rs) ≡ count_at i (e ∷ rs)
unfolding insert_rem
count_at-insert_rem i e [] = refl
count_at-insert_rem i e (f ∷ fs) = ground (arith, count_at-insert_rem i e fs)

count_at-sort_rems : (i : ℕ) (rs : List Remainder) → count_at i (sort_rems rs) ≡ count_at i rs
unfolding sort_rems
count_at-sort_rems i [] = refl
count_at-sort_rems i (r ∷ rs) =
    omega (arith, count_at-insert_rem i r (sort_rems rs), count_at-sort_rems i rs)

count_at-rems_from :
    (d t i j : ℕ) (ps : List ℕ)
    → (i < j → count_at i (rems_from ◌*◌ d t j ps) ≡ 0) × (count_at i (rems_from ◌*◌ d t j ps) ≤ 1)
unfolding rems_from
count_at-rems_from d t i j [] = (λ h. refl, omega arith)
count_at-rems_from d t i j (p ∷ ps) = let ih = count_at-rems_from d t i (j + 1) ps in ground arith

at-dec_at_bounds :
    (xs : List ℕ) (i j : ℕ)
    → (at (dec_at xs i) j ≤ at xs j) × (at xs j ≤ at (dec_at xs i) j + (if i == j then 1 else 0))
unfolding dec_at
at-dec_at_bounds [] i j = omega arith
at-dec_at_bounds (x ∷ xs) zero zero = ground arith
at-dec_at_bounds (x ∷ xs) zero (suc j) = ground arith
at-dec_at_bounds (x ∷ xs) (suc i) zero = ground arith
at-dec_at_bounds (x ∷ xs) (suc i) (suc j) = ground (arith, at-dec_at_bounds xs i j)

at-take_odd_cents :
    (left : ℕ) (rs : List Remainder) (paid : List ℕ) (j : ℕ)
    → (at (take_odd_cents left rs paid) j ≤ at paid j)
      × (at paid j ≤ at (take_odd_cents left rs paid) j + count_at j rs)
unfolding take_odd_cents
at-take_odd_cents zero rs paid j = omega arith
at-take_odd_cents (suc left) [] paid j = omega arith
at-take_odd_cents (suc left) (r ∷ rs) paid j =
    omega (arith, at-take_odd_cents left rs (dec_at paid r.idx) j, at-dec_at_bounds paid r.idx j)

length-dec_at : (xs : List ℕ) (i : ℕ) → length (dec_at xs i) ≡ length xs
unfolding dec_at
length-dec_at [] i = refl
length-dec_at (x ∷ xs) zero = refl
length-dec_at (x ∷ xs) (suc i) = omega (arith, length-dec_at xs i)

length-take_odd_cents :
    (left : ℕ) (rs : List Remainder) (paid : List ℕ)
    → length (take_odd_cents left rs paid) ≡ length paid
unfolding take_odd_cents
length-take_odd_cents zero rs paid = refl
length-take_odd_cents (suc left) [] paid = refl
length-take_odd_cents (suc left) (r ∷ rs) paid =
    omega (arith, length-take_odd_cents left rs (dec_at paid r.idx), length-dec_at paid r.idx)

length-paid_before : (d t : ℕ) (ps : List ℕ) → length (paid_before ◌*◌ d t ps) ≡ length ps
unfolding paid_before
length-paid_before d t [] = refl
length-paid_before d t (p ∷ ps) = omega (arith, length-paid_before d t ps)

at-paid_before :
    (d t : ℕ) (ps : List ℕ) (i : ℕ)
    → at (paid_before ◌*◌ d t ps) i ≡ at ps i - share_of ◌*◌ d t (at ps i)
unfolding paid_before
at-paid_before d t [] i = omega arith
at-paid_before d t (p ∷ ps) zero = refl
at-paid_before d t (p ∷ ps) (suc i) = at-paid_before d t ps i

at-map_zero :
    (ps : List ℕ) (i : ℕ)
    → (at (map (λ _. 0) ps) i ≡ 0) × (length {A = ℕ} (map (λ _. 0) ps) ≡ length ps)
at-map_zero [] i = (refl, refl)
at-map_zero (p ∷ ps) zero = (refl, omega (arith, at-map_zero ps 0))
at-map_zero (p ∷ ps) (suc i) = omega (arith, at-map_zero ps i)

pub at-le-sum : (ps : List ℕ) (i : ℕ) → at ps i ≤ sum ps
at-le-sum [] i = omega arith
at-le-sum (p ∷ ps) zero = omega arith
at-le-sum (p ∷ ps) (suc i) = omega (arith, at-le-sum ps i)

sold :
    (d t : ℕ) (ps : List ℕ) (i : ℕ)
    → d ≤ t
    → 0 < t
    → let rs = sort_rems (rems_from ◌*◌ d t 0 ps) in
      let paid = take_odd_cents (d - allocated ◌*◌ d t ps) rs (paid_before ◌*◌ d t ps) in
      (length paid ≡ length ps)
      × (at paid i + share_of ◌*◌ d t (at ps i) ≤ at ps i)
      × (at ps i ≤ at paid i + share_of ◌*◌ d t (at ps i) + 1)
sold d t ps i h pos =
    let rs = sort_rems (rems_from ◌*◌ d t 0 ps) in
    let left = d - allocated ◌*◌ d t ps in
    omega (
      arith,
      length-take_odd_cents left rs (paid_before ◌*◌ d t ps),
      length-paid_before d t ps,
      at-take_odd_cents left rs (paid_before ◌*◌ d t ps) i,
      at-paid_before d t ps i,
      count_at-sort_rems i (rems_from ◌*◌ d t 0 ps),
      (count_at-rems_from d t i 0 ps).1,
      share_of-le d t (at ps i) h pos,
    )

-- With exact products every runner pays the listed price less the proportional share of the discount
-- rounded down, or one cent less than that, and there is one entry for each price.
pub allocate_with_fair :
    (prices : List ℕ) (discount i : ℕ)
    → let total = sum prices in
      let share = share_of ◌*◌ (clamp_discount discount total) total (at prices i) in
      let paid = allocate_with ◌*◌ prices discount in
      (length paid ≡ length prices)
      × (at paid i + share ≤ at prices i)
      × (at prices i ≤ at paid i + share + 1)
unfolding allocate_with
allocate_with_fair prices discount i = elim (Bool-cases (sum prices == 0)) [
  | inl z ↦
      let free : sum prices ≡ 0 = ==→eq _ _ z in
      rw z (omega (arith, at-map_zero prices i, at-le-sum prices i))
  | inr nz ↦ rw nz (
      sold (clamp_discount discount (sum prices)) (sum prices) prices i (omega arith)
        (ground arith))
]
