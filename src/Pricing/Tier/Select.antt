-- ===== src/Pricing/Tier/Select.antt =====
-- SelectTier answers with the least of the tiers that are on sale to the runner.
use Prim.Native.String.{String}
use mathlib.Core.List.{Memᴰ}
use mathlib.Core.Path.{subst}
use mathlib.Core.Bool.{false≢true}
use mathlib.Core.Option.{some-injective}
use text.Mathlib.Text.{◌==◌ as str_eq}
use run.Base.{
  ℕ, ◌+◌, ◌≤◌, ◌<◌, ◌≡◌, ◌∙◌, sym, ◌⊎◌, inl, inr, refl, true, false, Option, none, some, List, [],
  ◌∷◌, arith, All, Bool-cases,
}
use run.Pricing.Tier.{
  Audience, all, local, other, local_nationality, TierCandidate, skips, tier_less, select_from,
  select_tier,
}

-- A price of `none` sets no bound.
abbrev pub HoldsIf {ℓ} : {A : Type ℓ} → (A → Type 0) → Option A → Type 0
HoldsIf P none = Unit
HoldsIf P (some a) = P a

abbrev pub IsFor : Audience → String → Type 0
IsFor all nationality = Unit
IsFor local nationality = str_eq nationality local_nationality ≡ true
IsFor other nationality = ⊥

-- The tier is for the runner, its sale has begun and not ended, and it has a seat left beside those
-- that this order has taken.
pub record IsOnSale (nationality : String) (now : ℕ) (taken : ℕ → ℕ) (c : TierCandidate)
    : Type 0 where
  pub audience : IsFor c.audience nationality
  pub begun : HoldsIf (λ starts. starts ≤ now) c.sale_starts_at
  pub not_over : HoldsIf (λ ends. now < ends) c.sale_ends_at
  pub has_seat :
      HoldsIf (λ quota. c.used_count + c.reserved_count + taken c.price_rule_id < quota) c.quota

skips-false :
    (n : String) (now : ℕ) (taken : ℕ → ℕ) (c : TierCandidate)
    → skips n now taken c ≡ false
    → IsOnSale n now taken c
unfolding skips
skips-false n now taken c h = ground arith

IsOnSale-skips :
    (n : String) (now : ℕ) (taken : ℕ → ℕ) (c : TierCandidate)
    → IsOnSale n now taken c
    → skips n now taken c ≡ false
unfolding skips
IsOnSale-skips n now taken c h = ground arith

-- By price, then by sort order, then by id.
abbrev pub IsAtMost : TierCandidate → TierCandidate → Type 0
IsAtMost a b =
    (a.price_cents < b.price_cents)
    ⊎ ((a.price_cents ≡ b.price_cents)
        × ((a.sort_order < b.sort_order)
            ⊎ ((a.sort_order ≡ b.sort_order) × (a.price_rule_id ≤ b.price_rule_id))))

tier_less-IsAtMost : (a b : TierCandidate) → tier_less a b ≡ true → IsAtMost a b
unfolding tier_less
tier_less-IsAtMost a b h = ground arith

tier_less-false : (a b : TierCandidate) → tier_less a b ≡ false → IsAtMost b a
unfolding tier_less
tier_less-false a b h = ground arith

IsAtMost-trans : (a b c : TierCandidate) → IsAtMost a b → IsAtMost b c → IsAtMost a c
IsAtMost-trans a b c h k = ground arith

IsAtMost-refl : (a : TierCandidate) → IsAtMost a a
IsAtMost-refl a = ground arith

module _ (nationality : String) (now : ℕ) (taken : ℕ → ℕ) where
  abbrev BeatsAll : TierCandidate → List TierCandidate → Type 0
  BeatsAll t cs = All (λ c. IsOnSale nationality now taken c → IsAtMost t c) cs

  abbrev BeatsBest : TierCandidate → Option TierCandidate → Type 0
  BeatsBest t best = HoldsIf (IsAtMost t) best

  -- What the loop may answer from `best` on, over the candidates that are left.
  abbrev Chosen : Option TierCandidate → List TierCandidate → Option TierCandidate → Type 0
  Chosen best cs none = (best ≡ none) × All (λ c. ¬ IsOnSale nationality now taken c) cs
  Chosen best cs (some t) =
      ((best ≡ some t) ⊎ (Memᴰ t cs × IsOnSale nationality now taken t))
      × BeatsBest t best
      × BeatsAll t cs

  Chosen-skip :
      (best r : Option TierCandidate) (c : TierCandidate) (cs : List TierCandidate)
      → ¬ IsOnSale nationality now taken c
      → Chosen best cs r
      → Chosen best (c ∷ cs) r
  Chosen-skip best none c cs off h = (h.0, (off, h.1))
  Chosen-skip best (some t) c cs off (inl e, b, rest) = (inl e, b, (λ on. absurd (off on), rest))
  Chosen-skip best (some t) c cs off (inr (m, on), b, rest) =
      (inr (Memᴰ.tail m, on), b, (λ on'. absurd (off on'), rest))

  Chosen-replace :
      (best r : Option TierCandidate) (c : TierCandidate) (cs : List TierCandidate)
      → IsOnSale nationality now taken c
      → HoldsIf (IsAtMost c) best
      → Chosen (some c) cs r
      → Chosen best (c ∷ cs) r
  Chosen-replace best none c cs on le h = cc
  Chosen-replace best (some t) c cs on le (from, b, rest) =
      (source from, beats best le, (λ _. b, rest))
    where
      source :
          (some c ≡ some t) ⊎ (Memᴰ t cs × IsOnSale nationality now taken t)
          → (best ≡ some t) ⊎ (Memᴰ t (c ∷ cs) × IsOnSale nationality now taken t)
      source (inl e) =
          let same : c ≡ t = some-injective _ _ e in
          inr (Memᴰ.head (sym same), subst (IsOnSale nationality now taken) same on)
      source (inr (m, on')) = inr (Memᴰ.tail m, on')

      beats : (o : Option TierCandidate) → HoldsIf (IsAtMost c) o → HoldsIf (IsAtMost t) o
      beats none h = tt
      beats (some a) h = IsAtMost-trans t c a b h

  Chosen-keep :
      (a : TierCandidate) (r : Option TierCandidate) (c : TierCandidate) (cs : List TierCandidate)
      → IsAtMost a c
      → Chosen (some a) cs r
      → Chosen (some a) (c ∷ cs) r
  Chosen-keep a none c cs le h = cc
  Chosen-keep a (some t) c cs le (inl e, b, rest) =
      (inl e, b, (λ _. IsAtMost-trans t a c b le, rest))
  Chosen-keep a (some t) c cs le (inr (m, on), b, rest) =
      (inr (Memᴰ.tail m, on), b, (λ _. IsAtMost-trans t a c b le, rest))

  skips-true :
      (c : TierCandidate)
      → skips nationality now taken c ≡ true
      → ¬ IsOnSale nationality now taken c
  skips-true c h on = false≢true (sym (IsOnSale-skips nationality now taken c on) ∙ h)

  select_from-Chosen :
      (best : Option TierCandidate) (cs : List TierCandidate)
      → Chosen best cs (select_from nationality now taken best cs)
  unfolding select_from
  select_from-Chosen none [] = (refl, tt)
  select_from-Chosen (some a) [] = (inl refl, IsAtMost-refl a, tt)
  select_from-Chosen none (c ∷ cs) = elim (Bool-cases (skips nationality now taken c)) [
    | inl off ↦ rw off (
        Chosen-skip none (select_from nationality now taken none cs) c cs (skips-true c off)
          (select_from-Chosen none cs))
    | inr on ↦ rw on (
        Chosen-replace none (select_from nationality now taken (some c) cs) c cs
          (skips-false nationality now taken c on) tt (select_from-Chosen (some c) cs))
  ]
  select_from-Chosen (some a) (c ∷ cs) = elim (Bool-cases (skips nationality now taken c)) [
    | inl off ↦ rw off (
        Chosen-skip (some a) (select_from nationality now taken (some a) cs) c cs (skips-true c off)
          (select_from-Chosen (some a) cs))
    | inr on ↦ elim (Bool-cases (tier_less c a)) [
      | inl less ↦
          rw (on, less)
            (Chosen-replace (some a) (select_from nationality now taken (some c) cs) c cs
              (skips-false nationality now taken c on) (tier_less-IsAtMost c a less)
              (select_from-Chosen (some c) cs))
      | inr not_less ↦
          rw (on, not_less)
            (Chosen-keep a (select_from nationality now taken (some a) cs) c cs
              (tier_less-false c a not_less) (select_from-Chosen (some a) cs))
    ]
  ]

-- What SelectTier may answer: a candidate on sale that no other on sale precedes, or nothing when no
-- candidate is on sale.
abbrev pub IsSelected : List TierCandidate → String → ℕ → (ℕ → ℕ) → Option TierCandidate → Type 0
IsSelected cands nationality now taken none = All (λ c. ¬ IsOnSale nationality now taken c) cands
IsSelected cands nationality now taken (some t) =
    Memᴰ t cands
    × IsOnSale nationality now taken t
    × All (λ c. IsOnSale nationality now taken c → IsAtMost t c) cands

Chosen-IsSelected :
    (cands : List TierCandidate) (nationality : String) (now : ℕ) (taken : ℕ → ℕ)
    (r : Option TierCandidate)
    → Chosen nationality now taken none cands r
    → IsSelected cands nationality now taken r
Chosen-IsSelected cands nationality now taken none h = h.1
Chosen-IsSelected cands nationality now taken (some t) (inl e, _, rest) = cc
Chosen-IsSelected cands nationality now taken (some t) (inr (m, on), _, rest) = (m, on, rest)

-- SelectTier answers with a candidate for the runner, on sale and with a seat left in this order,
-- that comes first by price, sort order and id; it answers with none only when there is no such
-- candidate.
pub select_tier-IsSelected :
    (cands : List TierCandidate) (nationality : String) (now : ℕ) (taken : ℕ → ℕ)
    → IsSelected cands nationality now taken (select_tier cands nationality now taken)
unfolding select_tier
select_tier-IsSelected cands nationality now taken =
    Chosen-IsSelected cands nationality now taken (select_from nationality now taken none cands)
      (select_from-Chosen nationality now taken none cands)
