-- ===== src/Pricing/Ident.antt =====
-- `PickIdentOffset` of api/internal/pricing/quote.go: the cents taken off so that no two open orders
-- of one payment account ask for the same amount.
use Prim.Native.Nat.{min, max}
use native.Mathlib.Nat.{le_refl}
use run.Base.{
  ℕ, zero, suc, ◌+◌, ◌-◌, ◌≤◌, ◌<◌, ◌≡◌, inl, inr, refl, Bool, true, false, arith, Bool-cases,
}

abbrev pub ident_offset_cap_cents : ℕ
ident_offset_cap_cents = 50

-- `for n := ...; n <= limit; n++`, with `rounds` values of n left to try.
offset_from : (taken : ℕ → Bool) (amount n rounds : ℕ) → ℕ
offset_from taken amount n zero = 0
offset_from taken amount n (suc rounds) = elim (taken (amount - n)) [
  | true ↦ offset_from taken amount (n + 1) rounds
  | false ↦ n
]

-- An amount of 0 has the limit -1 in the code and 0 here: either way nothing is tried.
abbrev pub offset_limit : (amount max_cents : ℕ) → ℕ
offset_limit amount max_cents = min (min max_cents ident_offset_cap_cents) (amount - 1)

unfoldable pub pick_ident_offset : (amount_after_coupon : ℕ) (taken : ℕ → Bool) (max_cents : ℕ) → ℕ
unfolding offset_from
pick_ident_offset amount taken max_cents =
    offset_from taken amount 1 (offset_limit amount max_cents)

-- What a search from `first` up to (not including) `stop` may answer.
pub data IsPicked (taken : ℕ → Bool) (amount first stop r : ℕ) : Type 0 where
  all_taken :
      r ≡ 0
      → ((k : ℕ) → first ≤ k → k < stop → taken (amount - k) ≡ true)
      → IsPicked taken amount first stop r
  first_free :
      first ≤ r
      → r < stop
      → taken (amount - r) ≡ false
      → ((k : ℕ) → first ≤ k → k < r → taken (amount - k) ≡ true)
      → IsPicked taken amount first stop r

module _ (taken : ℕ → Bool) (amount : ℕ) where
  IsPicked-widen :
      (n stop r : ℕ)
      → taken (amount - n) ≡ true
      → IsPicked taken amount (n + 1) stop r
      → IsPicked taken amount n stop r
  IsPicked-widen n stop r t (all_taken e h) = all_taken e (λ k lo hi. ground (arith, h k))
  IsPicked-widen n stop r t (first_free lo hi free h) =
      first_free (omega arith) hi free (λ k lo' hi'. ground (arith, h k))

  offset_from-IsPicked :
      (n rounds stop : ℕ)
      → n + rounds ≡ stop
      → IsPicked taken amount n stop (offset_from taken amount n rounds)
  unfolding offset_from
  offset_from-IsPicked n zero stop e = all_taken refl (λ k lo hi. absurd (omega arith))
  offset_from-IsPicked n (suc rounds) stop e = elim (Bool-cases (taken (amount - n))) [
    | inl t ↦
        rw (t, offset_from)
          (IsPicked-widen n stop (offset_from taken amount (n + 1) rounds) t
            (offset_from-IsPicked (n + 1) rounds stop (omega arith)))
    | inr f ↦
        rw (f, offset_from)
          (first_free (le_refl n) (omega arith) f (λ k lo hi. absurd (omega arith)))
  ]

-- The offset is the smallest n from 1 to min(max, 50, amount − 1) for which no open order asks for
-- amount − n; it is 0 when every one of those amounts is taken.
pub pick_ident_offset-IsPicked :
    (amount max_cents : ℕ) (taken : ℕ → Bool)
    → IsPicked taken amount 1
        (offset_limit amount max_cents + 1)
        (pick_ident_offset amount taken max_cents)
unfolding pick_ident_offset
pick_ident_offset-IsPicked amount max_cents taken =
    offset_from-IsPicked taken amount 1 (offset_limit amount max_cents) _ (omega arith)

IsPicked-le :
    (taken : ℕ → Bool) (amount stop r : ℕ) → IsPicked taken amount 1 stop r → r + 1 ≤ max stop 1
IsPicked-le taken amount stop r (all_taken e h) = omega arith
IsPicked-le taken amount stop r (first_free lo hi free h) = omega arith

-- The offset is at most 50 cents, at most the configured maximum, and leaves a positive amount.
pub pick_ident_offset-le :
    (amount max_cents : ℕ) (taken : ℕ → Bool)
    → let r = pick_ident_offset amount taken max_cents in
      (r ≤ ident_offset_cap_cents) × (r ≤ max_cents) × (0 < amount → r < amount)
pick_ident_offset-le amount max_cents taken = omega (
  arith,
  IsPicked-le taken amount (offset_limit amount max_cents + 1)
      (pick_ident_offset amount taken max_cents)
      (pick_ident_offset-IsPicked amount max_cents taken),
)
