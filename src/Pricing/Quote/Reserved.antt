-- ===== src/Pricing/Quote/Reserved.antt =====
-- `Quote` and `Reserve` in one transaction: the price tiers quoted have the seats asked of them.
use Prim.Native.String.{String}
use mathlib.Core.Path.{subst}
use run.Base.{
  ℕ, ◌≡◌, refl, sym, ap, ◌∙◌, true, Option, some, List, [], ◌∷◌, map, ◌==◌, arith, count_if,
}
use run.Platform.Apperr.{ok, new, price_tier_sold_out}
use run.Pricing.Counter.{Counter, Counts, fits, add_reserved, reserve_seats, group_seats, apply_all}
use run.Pricing.Counter.Groups.{total, total-group_seats, group_seats-IsPositive}
use run.Pricing.Counter.Apply.{map_row, reserve_IsShift, apply_all-ok, apply_all-eq}
use run.Pricing.Quote.{QuoteInput, ParticipantQuote, Quote, Progress, quote_participants}
use run.Pricing.Quote.Total.{quote, total_quote, set_paid_cents, start}
use run.Pricing.Quote.Sums.{quote-eq-ok, quote_total-inv}
use run.Pricing.Quote.Tiers.{IsCovered, quote_participants-IsCovered}
use run.Store.{Db}

abbrev pub rules_of : List ParticipantQuote → List ℕ
rules_of ps = map (λ p. p.price_rule_id) ps

set_paid_cents-rules :
    (ps : List ParticipantQuote) (cs : List ℕ) → rules_of (set_paid_cents ps cs) ≡ rules_of ps
unfolding set_paid_cents
set_paid_cents-rules [] cs = refl
set_paid_cents-rules (p ∷ ps) [] = refl
set_paid_cents-rules (p ∷ ps) (c ∷ cs) = ap (λ t. p.price_rule_id ∷ t) (set_paid_cents-rules ps cs)

total_quote-rules :
    (account : Option ℕ) (db : Db) (quoted : List ParticipantQuote) (c : Option ℕ × ℕ)
    → rules_of (total_quote account db quoted c).participants ≡ rules_of quoted
unfolding total_quote
total_quote-rules account db quoted (id, d) = set_paid_cents-rules quoted _

count-rules :
    (k : ℕ) (ps : List ParticipantQuote)
    → count_if (λ p. p.price_rule_id == k) ps ≡ count_if (λ j. j == k) (rules_of ps)
count-rules k [] = refl
count-rules k (p ∷ ps) = omega (arith, count-rules k ps)

-- Every tier that had room for some seats has room for them still.
abbrev pub NotFuller : Counts → Counts → Type 0
NotFuller before after =
    (k n : ℕ) (c : Counter)
    → before k ≡ some c
    → fits n c ≡ true
    → (d : Counter) × (after k ≡ some d) × (fits n d ≡ true)

covered-reserve :
    (db : Db) (s : Progress) (later : Counts)
    → IsCovered db s
    → NotFuller db.price_rule_counts later
    → (t : Counts) × (apply_all reserve_seats
          (new 409 price_tier_sold_out)
          (group_seats (rules_of s.quoted))
          later
        ≡ ok t)
      × ((k : ℕ)
          → t k ≡ map_row (add_reserved (count_if (λ j. j == k) (rules_of s.quoted))) (later k))
unfolding reserve_seats
covered-reserve db s later c room =
    let e = new 409 price_tier_sold_out in
    let groups = group_seats (rules_of s.quoted) in
    let asked : (k : ℕ) → s.taken k ≡ total k groups =
      λ k. c.counted k ∙ count-rules k s.quoted ∙ sym (total-group_seats k (rules_of s.quoted)) in
    let (t, done) =
      apply_all-ok fits add_reserved reserve_IsShift e groups later
        (group_seats-IsPositive (rules_of s.quoted))
        (λ k pos.
          subst (λ n. (r : Counter) × (later k ≡ some r) × (fits n r ≡ true)) (asked k)
            (let (r, found, has) = c.has_seats k (omega (arith, asked k)) in
              room k (s.taken k) r found has)) in
    (
      t,
      done,
      λ k.
          subst (λ n. t k ≡ map_row (add_reserved n) (later k))
            (total-group_seats k (rules_of s.quoted))
            (apply_all-eq fits add_reserved reserve_IsShift e groups later t done k),
    )

-- When `Quote` gives a quote, which locks no price tier, and every tier that had room for some seats then
-- still has room for them when the order reserves, the loop of `Reserve` over its price tiers goes
-- through: however many runners of the order share a tier, the tier has the seats for all of them. It
-- then holds one more reserved seat for each of them.
pub quote-reserve :
    (upper_trim : String → String) (input : QuoteInput) (db : Db) (q : Quote) (later : Counts)
    → quote upper_trim input db ≡ ok q
    → NotFuller db.price_rule_counts later
    → (t : Counts) × (apply_all reserve_seats
          (new 409 price_tier_sold_out)
          (group_seats (rules_of q.participants))
          later
        ≡ ok t)
      × ((k : ℕ)
          → t k
            ≡ map_row (add_reserved (count_if (λ j. j == k) (rules_of q.participants))) (later k))
quote-reserve upper_trim input db q later h room =
    let s = quote_participants upper_trim db input 0 input.participants start in
    let (c, same, small) =
      quote_total-inv upper_trim input db s.quoted q (quote-eq-ok upper_trim input db q h).1 in
    let rules : rules_of q.participants ≡ rules_of s.quoted =
      ap (λ x. rules_of x.participants) same
      ∙ total_quote-rules input.payment_account_id db s.quoted c in
    let covered =
      quote_participants-IsCovered upper_trim db input 0 input.participants start
        (record { counted = λ k. refl; has_seats = λ k pos. absurd (omega arith) }) in
    subst
      (λ rs.
        (t : Counts) × (apply_all reserve_seats (new 409 price_tier_sold_out) (group_seats rs) later
          ≡ ok t)
        × ((k : ℕ) → t k ≡ map_row (add_reserved (count_if (λ j. j == k) rs)) (later k)))
      (sym rules) (covered-reserve db s later covered room)
