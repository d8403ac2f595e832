-- ===== src/Pricing/Counter/Groups.antt =====
-- Grouping keeps the number of seats for each key, and makes no empty group.
use run.Base.{
  ℕ, ◌+◌, ◌<◌, ◌≡◌, refl, List, [], ◌∷◌, All, arith, ◌==◌, if◌then◌else◌, count_if, false,
}
use run.Pricing.Counter.{SeatCount, bump, count_keys, insert_by_id, sort_by_id, group_seats}

-- The seats that the groups ask of one id.
abbrev pub total : ℕ → List SeatCount → ℕ
total k [] = 0
total k (c ∷ cs) = (if c.id == k then c.seats else 0) + total k cs

abbrev pub IsPositive : List SeatCount → Type 0
IsPositive = All (λ c. 0 < c.seats)

total-bump :
    (j k : ℕ) (cs : List SeatCount) → total j (bump k cs) ≡ total j cs + (if k == j then 1 else 0)
unfolding bump
total-bump j k [] = ground arith
total-bump j k (c ∷ cs) = ground (arith, total-bump j k cs)

total-insert_by_id :
    (j : ℕ) (c : SeatCount) (cs : List SeatCount) → total j (insert_by_id c cs) ≡ total j (c ∷ cs)
unfolding insert_by_id
total-insert_by_id j c [] = refl
total-insert_by_id j c (d ∷ ds) = ground (arith, total-insert_by_id j c ds)

total-sort_by_id : (j : ℕ) (cs : List SeatCount) → total j (sort_by_id cs) ≡ total j cs
unfolding sort_by_id
total-sort_by_id j [] = refl
total-sort_by_id j (c ∷ cs) =
    omega (arith, total-insert_by_id j c (sort_by_id cs), total-sort_by_id j cs)

total-count_keys : (j : ℕ) (ks : List ℕ) → total j (count_keys ks) ≡ count_if (λ k. k == j) ks
unfolding count_keys
total-count_keys j [] = refl
total-count_keys j (k ∷ ks) = omega (arith, total-bump j k (count_keys ks), total-count_keys j ks)

-- The seats of a group are the participants with that key.
pub total-group_seats : (j : ℕ) (ks : List ℕ) → total j (group_seats ks) ≡ count_if (λ k. k == j) ks
unfolding group_seats
total-group_seats j ks = omega (arith, total-sort_by_id j (count_keys ks), total-count_keys j ks)

bump-IsPositive : (k : ℕ) (cs : List SeatCount) → IsPositive cs → IsPositive (bump k cs)
unfolding bump
bump-IsPositive k [] h = omega arith
bump-IsPositive k (c ∷ cs) h = ground (arith, bump-IsPositive k cs h.1)

count_keys-IsPositive : (ks : List ℕ) → IsPositive (count_keys ks)
unfolding count_keys
count_keys-IsPositive [] = tt
count_keys-IsPositive (k ∷ ks) = bump-IsPositive k (count_keys ks) (count_keys-IsPositive ks)

insert_by_id-IsPositive :
    (c : SeatCount) (cs : List SeatCount)
    → 0 < c.seats
    → IsPositive cs
    → IsPositive (insert_by_id c cs)
unfolding insert_by_id
insert_by_id-IsPositive c [] h hs = (h, tt)
insert_by_id-IsPositive c (d ∷ ds) h hs = ground (arith, insert_by_id-IsPositive c ds h hs.1)

sort_by_id-IsPositive : (cs : List SeatCount) → IsPositive cs → IsPositive (sort_by_id cs)
unfolding sort_by_id
sort_by_id-IsPositive [] h = tt
sort_by_id-IsPositive (c ∷ cs) h =
    insert_by_id-IsPositive c (sort_by_id cs) h.0 (sort_by_id-IsPositive cs h.1)

pub group_seats-IsPositive : (ks : List ℕ) → IsPositive (group_seats ks)
unfolding group_seats
group_seats-IsPositive ks = sort_by_id-IsPositive (count_keys ks) (count_keys-IsPositive ks)

pub total-cons_self :
    (c : SeatCount) (cs : List SeatCount) → total c.id (c ∷ cs) ≡ c.seats + total c.id cs
total-cons_self c cs = ground arith

pub total-cons_ne :
    (j : ℕ) (c : SeatCount) (cs : List SeatCount)
    → (c.id == j) ≡ false
    → total j (c ∷ cs) ≡ total j cs
total-cons_ne j c cs h = ground arith
