-- ===== src/Pricing/Tier.antt =====
-- `SelectTier` and `tierLess` of api/internal/pricing/quote.go: the price tier that one runner gets.
-- Instants are naturals on one time line, a nil time or quota is `none`.
pub mod Select
use Prim.Native.String.{String}
use text.Mathlib.Text.{◌==◌ as str_eq}
use run.Base.{
  ℕ, ◌+◌, Bool, true, false, not, ◌&&◌, ◌||◌, Option, none, some, List, [], ◌∷◌, ltb, leb, ◌==◌,
  if◌then◌else◌, some_and,
}

-- price_rules.audience. `other` is any other text.
pub data Audience : Type 0 where
  all local other : Audience

abbrev pub local_nationality : String
local_nationality = "KH"

pub record TierCandidate : Type 0 where
  pub price_rule_id : ℕ
  pub audience : Audience
  pub price_cents : ℕ
  pub quota : Option ℕ
  pub used_count : ℕ
  pub reserved_count : ℕ
  pub sale_starts_at : Option ℕ
  pub sale_ends_at : Option ℕ
  pub sort_order : ℕ

-- The `switch c.Audience`: does it `continue`?
abbrev pub audience_skips : Audience → String → Bool
audience_skips all nationality = false
audience_skips local nationality = not (str_eq nationality local_nationality)
audience_skips other nationality = true

-- The four `continue`s of the loop.
unfoldable pub skips : String → (now : ℕ) → (ℕ → ℕ) → TierCandidate → Bool
skips nationality now taken_in_order c =
    audience_skips c.audience nationality
    || some_and (λ starts. ltb now starts) c.sale_starts_at
    || some_and (λ ends. not (ltb now ends)) c.sale_ends_at
    || some_and
        (λ quota. leb quota (c.used_count + c.reserved_count + taken_in_order c.price_rule_id))
        c.quota

unfoldable pub tier_less : TierCandidate → TierCandidate → Bool
tier_less a b =
    if not (a.price_cents == b.price_cents)
    then ltb a.price_cents b.price_cents
    else if not (a.sort_order == b.sort_order)
    then ltb a.sort_order b.sort_order
    else ltb a.price_rule_id b.price_rule_id

-- `!found || tierLess(c, best)`, with `none` for not found.
abbrev pub replaces : TierCandidate → Option TierCandidate → Bool
replaces c none = true
replaces c (some best) = tier_less c best

pub select_from :
    String → (now : ℕ) → (ℕ → ℕ) → Option TierCandidate → List TierCandidate → Option TierCandidate
unfolding skips
select_from nationality now taken best [] = best
select_from nationality now taken best (c ∷ cs) =
    select_from nationality now taken
      (if skips nationality now taken c then best else if replaces c best then some c else best) cs

unfoldable pub select_tier :
    List TierCandidate → String → (now : ℕ) → (taken_in_order : ℕ → ℕ) → Option TierCandidate
unfolding select_from
select_tier cands nationality now taken_in_order =
    select_from nationality now taken_in_order none cands
