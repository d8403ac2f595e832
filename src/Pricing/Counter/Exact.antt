-- ===== src/Pricing/Counter/Exact.antt =====
-- When the seats of an order can be reserved.
use mathlib.Core.Path.{subst}
use run.Base.{
  ℕ, ◌+◌, ◌≡◌, ◌<◌, ◌≤◌, ◌↔◌, sym, true, List, count_if, ◌==◌, Option, some, none, arith,
}
use run.Platform.Apperr.{Error, ok}
use run.Pricing.Counter.{Counter, Counts, fits, add_reserved, reserve_seats, group_seats, apply_all}
use run.Pricing.Counter.Groups.{total-group_seats, group_seats-IsPositive}
use run.Pricing.Counter.Apply.{reserve_IsShift, apply_all-ok, Admits-of_ok}

-- A row has room for some seats: with those used and reserved they do not pass its limit, if it has one.
abbrev pub Leaves : Option ℕ → ℕ → Type 0
Leaves none seats = Unit
Leaves (some limit) seats = seats ≤ limit

-- Each id that the keys name has its row, with room for all the keys that name it.
abbrev pub HasRoom : List ℕ → Counts → Type 0
HasRoom keys t =
    (j : ℕ)
    → 0 < count_if (λ k. k == j) keys
    → (c : Counter) × (t j ≡ some c)
      × Leaves c.limit (c.used + c.reserved + count_if (λ k. k == j) keys)

fits-Leaves : (n : ℕ) (c : Counter) → fits n c ≡ true → Leaves c.limit (c.used + c.reserved + n)
fits-Leaves n c h = ground arith

Leaves-fits : (n : ℕ) (c : Counter) → Leaves c.limit (c.used + c.reserved + n) → fits n c ≡ true
Leaves-fits n c h = ground arith

-- The loop that reserves the groups of an order goes through exactly when each category (or price
-- tier) that the order names is there and its limit leaves room, beside what is used and reserved, for
-- all the runners of the order that name it.
pub reserve-iff-HasRoom :
    (e : Error) (keys : List ℕ) (t : Counts)
    → ((t' : Counts) × (apply_all reserve_seats e (group_seats keys) t ≡ ok t')) ↔ HasRoom keys t
unfolding reserve_seats
reserve-iff-HasRoom e keys t = (there, back)
  where
    there :
        (t' : Counts) × (apply_all reserve_seats e (group_seats keys) t ≡ ok t') → HasRoom keys t
    there (t', done) j pos =
        let (c, found, fit) =
          subst (λ n. 0 < n → (c : Counter) × (t j ≡ some c) × (fits n c ≡ true))
            (total-group_seats j keys)
            (Admits-of_ok fits add_reserved reserve_IsShift e (group_seats keys) t t' done j) pos in
        (c, found, fits-Leaves (count_if (λ k. k == j) keys) c fit)

    back : HasRoom keys t → (t' : Counts) × (apply_all reserve_seats e (group_seats keys) t ≡ ok t')
    back room =
        apply_all-ok fits add_reserved reserve_IsShift e (group_seats keys) t
          (group_seats-IsPositive keys)
          (λ j.
            subst (λ n. 0 < n → (c : Counter) × (t j ≡ some c) × (fits n c ≡ true))
              (sym (total-group_seats j keys))
              (λ pos.
                let (c, found, leaves) = room j pos in
                (c, found, Leaves-fits (count_if (λ k. k == j) keys) c leaves)))
