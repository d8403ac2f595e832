-- ===== src/Tests/Pricing.antt =====
-- Quotes, their parts, and the reservation of seats.
use Prim.Native.String.{String}
use run.Base.{
  ◌/◌, ℕ, ◌+◌, ◌≤◌, ◌≡◌, ◌↔◌, refl, Bool, none, some, List, [], ◌∷◌, min, sum, length, count_if,
  ◌==◌, ◌||◌, ◌*◌, arith,
}
use run.Base.Int.{pos, ◌≤ℤ◌}
use run.Platform.Apperr.{ok, new, price_tier_sold_out}
use run.Store.{pending_payment, Db}
use run.Pricing.Age.{
  Date, age_on, birthday_in, is_leap_year, anniversary, IsOnOrBefore, age_on-IsOnOrBefore,
}
use run.Pricing.Allocate.{allocate}
use run.Pricing.Allocate.Exact.{allocate-sum, allocate_fair}
use run.Pricing.Allocate.Order.{at}
use run.Pricing.Coupon.{CouponRule, percent, coupon_discount}
use run.Pricing.Ident.{pick_ident_offset, offset_limit, IsPicked, pick_ident_offset-IsPicked}
use run.Pricing.Tier.{TierCandidate, all, select_tier}
use run.Pricing.Tier.Select.{IsSelected, select_tier-IsSelected}
use run.Pricing.Counter.{Counts, group_seats, apply_all, reserve_seats, add_reserved}
use run.Pricing.Counter.Apply.{map_row}
use run.Pricing.Counter.Exact.{HasRoom, reserve-iff-HasRoom}
use run.Pricing.Quote.{QuoteInput, Quote, min_age_of, candidates}
use run.Pricing.Quote.Total.{quote}
use run.Pricing.Quote.Sums.{IsSummed, quote-IsSummed}
use run.Pricing.Quote.Reserved.{rules_of, quote-reserve}
use run.Tests.Data.{db_with}

abbrev date : ℕ → ℕ → ℕ → Date
date y m d = record { year = y; month = m; day = d }

abbrev db : Db
db = db_with pending_payment

abbrev as_written : String → String
as_written s = s

abbrev one_runner : QuoteInput
one_runner = record {
  event_id = 9;
  race_date = date 2026 12 6;
  coupon_code = "TWENTY";
  participants = record { category_id = 1; nationality = "KH"; birth_date = date 2000 2 29 } ∷ [];
  now = 50;
  payment_account_id = some 6;
}

-- The open order of the account asks for 2000, so this one takes a cent off.
abbrev quoted : Quote
quoted = record {
  participants =
      record {
        category_id = 1;
        price_rule_id = 2;
        audience = all;
        list_price_cents = 2500;
        paid_cents = 1999;
      }
      ∷ [];
  list_amount_cents = 2500;
  coupon_id = some 4;
  coupon_discount_cents = 500;
  ident_offset_cents = 1;
  discount_cents = 501;
  amount_cents = 1999;
}

quote_one : quote as_written one_runner db ≡ ok quoted
unfolding quote min_age_of select_tier candidates age_on birthday_in is_leap_year allocate
    coupon_discount pick_ident_offset
quote_one = refl

quote-IsSummed_example : IsSummed quoted
quote-IsSummed_example = quote-IsSummed as_written one_runner db quoted quote_one (omega arith)

quote-reserve_example :
    (t : Counts) × (apply_all reserve_seats
        (new 409 price_tier_sold_out)
        (group_seats (rules_of quoted.participants))
        db.price_rule_counts
      ≡ ok t)
    × ((k : ℕ)
        → t k
          ≡ map_row
              (add_reserved (count_if (λ j. j == k) (rules_of quoted.participants)))
              (db.price_rule_counts k))
quote-reserve_example =
    quote-reserve as_written one_runner db quoted db.price_rule_counts quote_one
      (λ k n c found has. (c, found, has))

reserve-iff-HasRoom_example :
    ((t' : Counts) × (apply_all reserve_seats
          (new 409 price_tier_sold_out)
          (group_seats (2 ∷ 2 ∷ []))
          db.price_rule_counts
        ≡ ok t'))
    ↔ HasRoom (2 ∷ 2 ∷ []) db.price_rule_counts
reserve-iff-HasRoom_example =
    reserve-iff-HasRoom (new 409 price_tier_sold_out) (2 ∷ 2 ∷ []) db.price_rule_counts

allocate-sum_example :
    sum (allocate (1000 ∷ 1000 ∷ 1000 ∷ []) 1000) + min 1000 (sum (1000 ∷ 1000 ∷ 1000 ∷ []))
    ≡ sum (1000 ∷ 1000 ∷ 1000 ∷ [])
allocate-sum_example = allocate-sum (1000 ∷ 1000 ∷ 1000 ∷ []) 1000 (omega arith)

abbrev three_prices : List ℕ
three_prices = 1000 ∷ 1000 ∷ 1000 ∷ []

allocate_fair_example :
    (length (allocate three_prices 1000) ≡ length three_prices)
    × (at (allocate three_prices 1000) 1
          + min 1000 (sum three_prices) * at three_prices 1 / sum three_prices
        ≤ at three_prices 1)
    × (at three_prices 1
        ≤ at (allocate three_prices 1000) 1
          + min 1000 (sum three_prices) * at three_prices 1 / sum three_prices
          + 1)
allocate_fair_example = allocate_fair three_prices 1000 1 (omega arith)

abbrev fifteen_percent : CouponRule
fifteen_percent = record { discount_type = percent; discount_value = 15 }

abbrev two_taken : ℕ → Bool
two_taken a = (a == 1999) || (a == 1998)

pick_ident_offset-IsPicked_example :
    IsPicked two_taken 2000 1 (offset_limit 2000 20 + 1) (pick_ident_offset 2000 two_taken 20)
pick_ident_offset-IsPicked_example = pick_ident_offset-IsPicked 2000 20 two_taken

age_on-IsOnOrBefore_example :
    IsOnOrBefore (anniversary (date 2008 2 29) 18) (date 2026 3 1)
    ↔ (pos 18 ≤ℤ age_on (date 2008 2 29) (date 2026 3 1))
age_on-IsOnOrBefore_example =
    age_on-IsOnOrBefore (date 2008 2 29) (date 2026 3 1) 18 (λ february. omega arith)

abbrev tier : (id price used : ℕ) → TierCandidate
tier id price used = record {
  price_rule_id = id;
  audience = all;
  price_cents = price;
  quota = some 10;
  used_count = used;
  reserved_count = 0;
  sale_starts_at = none;
  sale_ends_at = some 900;
  sort_order = 0;
}

select_tier-IsSelected_example :
    IsSelected
      (tier 1 2000 10 ∷ tier 2 2500 3 ∷ [])
      "KH"
      500
      (λ k. 0)
      (select_tier (tier 1 2000 10 ∷ tier 2 2500 3 ∷ []) "KH" 500 (λ k. 0))
select_tier-IsSelected_example =
    select_tier-IsSelected (tier 1 2000 10 ∷ tier 2 2500 3 ∷ []) "KH" 500 (λ k. 0)
