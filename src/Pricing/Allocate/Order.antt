-- ===== src/Pricing/Allocate/Order.antt =====
-- The order of the remainders in Allocate: the sort keeps them and puts the larger ones first.
use run.Base.{
  ◌*◌, ℕ, zero, suc, ◌+◌, ◌≤◌, ◌<◌, ◌≡◌, refl, inl, inr, List, [], ◌∷◌, arith, All, ltb, leb, ◌==◌,
  if◌then◌else◌, Bool-cases,
}
use run.Pricing.Allocate.{Remainder, share_of, insert_rem, sort_rems}

-- How many remainders are not zero, and how many of those are at one index.
abbrev pub positive : List Remainder → ℕ
positive [] = 0
positive (r ∷ rs) = (if ltb 0 r.rem then 1 else 0) + positive rs

abbrev pub positive_at : ℕ → List Remainder → ℕ
positive_at i [] = 0
positive_at i (r ∷ rs) =
    (if (r.idx == i) then (if ltb 0 r.rem then 1 else 0) else 0) + positive_at i rs

abbrev pub sum_rem : List Remainder → ℕ
sum_rem [] = 0
sum_rem (r ∷ rs) = r.rem + sum_rem rs

abbrev pub at : List ℕ → ℕ → ℕ
at [] i = 0
at (x ∷ xs) zero = x
at (x ∷ xs) (suc i) = at xs i

abbrev pub IsFalling : List Remainder → Type 0
IsFalling [] = Unit
IsFalling (r ∷ rs) = All (λ s. s.rem ≤ r.rem) rs × IsFalling rs

module _ (e : Remainder) where
  positive-insert_rem : (rs : List Remainder) → positive (insert_rem e rs) ≡ positive (e ∷ rs)
  unfolding insert_rem
  positive-insert_rem [] = refl
  positive-insert_rem (f ∷ fs) = ground (arith, positive-insert_rem fs)

  positive_at-insert_rem :
      (i : ℕ) (rs : List Remainder) → positive_at i (insert_rem e rs) ≡ positive_at i (e ∷ rs)
  unfolding insert_rem
  positive_at-insert_rem i [] = refl
  positive_at-insert_rem i (f ∷ fs) = ground (arith, positive_at-insert_rem i fs)

  All-insert_rem :
      (b : ℕ) (rs : List Remainder)
      → e.rem ≤ b
      → All (λ s. s.rem ≤ b) rs
      → All (λ s. s.rem ≤ b) (insert_rem e rs)
  unfolding insert_rem
  All-insert_rem b [] h hs = (h, tt)
  All-insert_rem b (f ∷ fs) h hs = ground (arith, All-insert_rem b fs h hs.1)

All-le_trans :
    (a b : ℕ) (rs : List Remainder) → a ≤ b → All (λ s. s.rem ≤ a) rs → All (λ s. s.rem ≤ b) rs
All-le_trans a b [] h hs = tt
All-le_trans a b (r ∷ rs) h hs = (omega (arith, hs.0), All-le_trans a b rs h hs.1)

insert_rem-IsFalling :
    (e : Remainder) (rs : List Remainder) → IsFalling rs → IsFalling (insert_rem e rs)
unfolding insert_rem
insert_rem-IsFalling e [] h = (tt, tt)
insert_rem-IsFalling e (f ∷ fs) h = elim (Bool-cases (leb f.rem e.rem)) [
  | inl le ↦ rw le ((ground arith, All-le_trans f.rem e.rem fs (ground arith) h.0), h)
  | inr gt ↦ rw gt (All-insert_rem e f.rem fs (ground arith) h.0, insert_rem-IsFalling e fs h.1)
]

pub sort_rems-IsFalling : (rs : List Remainder) → IsFalling (sort_rems rs)
unfolding sort_rems
sort_rems-IsFalling [] = tt
sort_rems-IsFalling (r ∷ rs) = insert_rem-IsFalling r (sort_rems rs) (sort_rems-IsFalling rs)

pub positive-sort_rems : (rs : List Remainder) → positive (sort_rems rs) ≡ positive rs
unfolding sort_rems
positive-sort_rems [] = refl
positive-sort_rems (r ∷ rs) =
    omega (arith, positive-insert_rem r (sort_rems rs), positive-sort_rems rs)

pub positive_at-sort_rems :
    (i : ℕ) (rs : List Remainder) → positive_at i (sort_rems rs) ≡ positive_at i rs
unfolding sort_rems
positive_at-sort_rems i [] = refl
positive_at-sort_rems i (r ∷ rs) =
    omega (arith, positive_at-insert_rem r i (sort_rems rs), positive_at-sort_rems i rs)

pub share_of-le : (d t p : ℕ) → d ≤ t → 0 < t → share_of ◌*◌ d t p ≤ p
share_of-le d t p h pos = grind arith
