-- ===== src/Pricing/Quote.antt =====
-- `Service.Quote` of api/internal/pricing/quote.go, with `checkCoupon` and `pickIdentOffsetLocked`.
-- `upper_trim` stands for Go's strings.ToUpper(strings.TrimSpace(s)). The tables are read in the order
-- of their keys; the advisory lock of the payment account changes no row.
pub mod Total
pub mod Sums
pub mod Tiers
pub mod Reserved
use Prim.Native.String.{String}
use text.Mathlib.Text.{◌==◌ as str_eq}
use run.Base.{
  ℕ, ◌+◌, ◌-◌, Bool, true, false, not, ◌&&◌, ◌||◌, Option, none, some, List, [], ◌∷◌, ◌++◌, map,
  ltb, leb, ◌==◌, if◌then◌else◌, some_and, length, sum, contains,
}
use run.Base.Int.{pos, ltb_ℤ}
use run.Platform.Apperr.{
  Code, Field, field, item, Error, Result, ok, err, new, with_field, failed_with, coupon_invalid,
  coupon_exhausted, Tx,
}
use run.Pricing.Age.{Date, age_on}
use run.Pricing.Tier.{Audience, TierCandidate, select_tier}
use run.Pricing.Coupon.{CouponRule, coupon_discount}
use run.Pricing.Allocate.{allocate}
use run.Pricing.Ident.{pick_ident_offset}
use run.Pricing.Counter.{Counter}
use run.Store.{
  Db, CategoryRow, PriceRuleRow, CategoryLink, CouponRow, OrderRow, OrderStatus, pending_payment,
  proof_submitted, proof_rejected, PaymentSettings,
}

pub record ParticipantInput : Type 0 where
  pub category_id : ℕ
  pub nationality : String
  pub birth_date : Date

pub record QuoteInput : Type 0 where
  pub event_id : ℕ
  pub race_date : Date
  pub coupon_code : String
  pub participants : List ParticipantInput
  pub now : ℕ
  pub payment_account_id : Option ℕ

pub record ParticipantQuote : Type 0 where
  pub category_id : ℕ
  pub price_rule_id : ℕ
  pub audience : Audience
  pub list_price_cents : ℕ
  pub paid_cents : ℕ

-- Without the constant currency.
pub record Quote : Type 0 where
  pub participants : List ParticipantQuote
  pub list_amount_cents : ℕ
  pub coupon_id : Option ℕ
  pub coupon_discount_cents : ℕ
  pub ident_offset_cents : ℕ
  pub discount_cents : ℕ
  pub amount_cents : ℕ

-- QuoteListCategories: the minimum age of a category of the event.
unfoldable pub min_age_of : Db → (event_id category_id : ℕ) → Option ℕ
min_age_of db event_id id = elim (db.categories id) [
  | none ↦ none
  | some c ↦ if c.event_id == event_id then some c.min_age else none
]

abbrev pub candidate_of : ℕ → PriceRuleRow → Counter → TierCandidate
candidate_of id r c = record {
  price_rule_id = id;
  audience = r.audience;
  price_cents = r.price_cents;
  quota = c.limit;
  used_count = c.used;
  reserved_count = c.reserved;
  sale_starts_at = r.sale_starts_at;
  sale_ends_at = r.sale_ends_at;
  sort_order = r.sort_order;
}

-- The row of the join for one link, with the counter columns of the same row.
abbrev pub joined : (event_id id : ℕ) → Option PriceRuleRow → Option Counter → List TierCandidate
joined event_id id none c = []
joined event_id id (some r) none = []
joined event_id id (some r) (some c) =
    if r.event_id == event_id then candidate_of id r c ∷ [] else []

-- QuoteListTierCandidates, for one category.
pub candidates_in : Db → (event_id category_id : ℕ) → List CategoryLink → List TierCandidate
candidates_in db event_id category_id [] = []
candidates_in db event_id category_id (l ∷ ls) =
    let rest = candidates_in db event_id category_id ls in
    if l.category_id == category_id
    then joined event_id l.price_rule_id (db.price_rules l.price_rule_id)
        (db.price_rule_counts l.price_rule_id)
      ++ rest
    else rest

unfoldable pub candidates : Db → (event_id category_id : ℕ) → List TierCandidate
unfolding candidates_in
candidates db event_id category_id = candidates_in db event_id category_id db.links

-- The variables of the loop over the participants: those quoted, the fields of the
-- error, and `taken`.
pub record Progress : Type 0 where
  pub quoted : List ParticipantQuote
  pub fields : List (Field × String)
  pub taken : ℕ → ℕ

abbrev pub add_field : Field → String → Progress → Progress
add_field f key s = record s { fields = s.fields ++ ((f, key) ∷ []) }

abbrev pub quoted_of : ℕ → TierCandidate → ParticipantQuote
quoted_of category_id tier = record {
  category_id = category_id;
  price_rule_id = tier.price_rule_id;
  audience = tier.audience;
  list_price_cents = tier.price_cents;
  paid_cents = 0;
}

-- `taken[id]++` and the two appends.
abbrev pub add_quoted : ℕ → TierCandidate → Progress → Progress
add_quoted category_id tier s = record s {
  quoted = s.quoted ++ (quoted_of category_id tier ∷ []);
  taken = λ k. if k == tier.price_rule_id then s.taken k + 1 else s.taken k;
}

abbrev pub quote_tier : (i category_id : ℕ) → Option TierCandidate → Progress → Progress
quote_tier i category_id none s =
    add_field (item "participants" i "categoryId") "field.category_unavailable" s
quote_tier i category_id (some tier) s = add_quoted category_id tier s

module _ (upper_trim : String → String) (db : Db) (input : QuoteInput) where
  abbrev pub tier_for : ParticipantInput → Progress → Option TierCandidate
  tier_for p s =
      select_tier (candidates db input.event_id p.category_id) (upper_trim p.nationality) input.now
        s.taken

  abbrev pub check_age : (i min_age : ℕ) → ParticipantInput → Progress → Progress
  check_age i min_age p s =
      if ltb_ℤ (age_on p.birth_date input.race_date) (pos min_age)
      then add_field (item "participants" i "birthDate") "field.too_young" s
      else s

  -- The body of the loop.
  pub quote_participant : (i : ℕ) → ParticipantInput → Progress → Progress
  quote_participant i p s = elim (min_age_of db input.event_id p.category_id) [
    | none ↦ add_field (item "participants" i "categoryId") "field.category_unavailable" s
    | some min_age ↦ quote_tier i p.category_id (tier_for p s) (check_age i min_age p s)
  ]

  unfoldable pub quote_participants : (i : ℕ) → List ParticipantInput → Progress → Progress
  unfolding quote_participant
  quote_participants i [] s = s
  quote_participants i (p ∷ ps) s = quote_participants (i + 1) ps (quote_participant i p s)

  abbrev invalid_coupon : Error
  invalid_coupon = with_field (new 422 coupon_invalid) (field "couponCode") "field.coupon_invalid"

  -- The `if` of checkCoupon.
  abbrev pub coupon_unusable : CouponRow → Bool
  coupon_unusable c =
      not c.active
      || some_and (λ e. not (e == input.event_id)) c.event_id
      || some_and (λ t. ltb input.now t) c.valid_from
      || some_and (λ t. not (ltb input.now t)) c.valid_until
      || some_and (λ n. ltb (length input.participants) n) c.min_runners

  abbrev pub coupon_used_up : Counter → Bool
  coupon_used_up c = some_and (λ quota. leb quota (c.used + c.reserved)) c.limit

  abbrev check_coupon_row : ℕ → Option CouponRow → Option Counter → Result (ℕ × CouponRule)
  check_coupon_row id none counts = err invalid_coupon
  check_coupon_row id (some c) none = err invalid_coupon
  check_coupon_row id (some c) (some counts) =
      if coupon_unusable c
      then err invalid_coupon
      else if coupon_used_up counts
      then err (new 409 coupon_exhausted)
      else ok (id, record { discount_type = c.discount_type; discount_value = c.discount_value })

  unfoldable pub check_coupon : (code : String) → Result (ℕ × CouponRule)
  check_coupon code = elim (db.coupon_by_code code) [
    | none ↦ err invalid_coupon
    | some id ↦ check_coupon_row id (db.coupons id) (db.coupon_counts id)
  ]

  abbrev pub taken_off : (list_amount : ℕ) → Result (ℕ × CouponRule) → Result (Option ℕ × ℕ)
  taken_off list_amount (ok (id, rule)) = ok (some id, coupon_discount rule list_amount)
  taken_off list_amount (err e) = err e

  -- The coupon of the order and what it takes off: `if code != ""`.
  unfoldable pub apply_coupon : (list_amount : ℕ) → Result (Option ℕ × ℕ)
  unfolding check_coupon
  apply_coupon list_amount =
      let code = upper_trim input.coupon_code in
      let coupon = check_coupon code in
      if str_eq code "" then ok (none, 0) else taken_off list_amount coupon
