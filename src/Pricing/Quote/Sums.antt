-- ===== src/Pricing/Quote/Sums.antt =====
-- The sums of a quote agree: what the runners pay is the amount of the order.
use Prim.Native.String.{String}
use text.Mathlib.Text.{◌==◌ as str_eq}
use mathlib.Core.Path.{subst}
use run.Base.{
  ℕ, ◌+◌, ◌-◌, ◌^◌, ◌≤◌, ◌<◌, ◌≡◌, refl, sym, ap, ◌∙◌, Option, none, some, List, [], ◌∷◌, length,
  sum, sum_of, arith, Bool-cases, inl, inr,
}
use run.Platform.Apperr.{Result, ok, err, failed_with, Field}
use run.Pricing.Allocate.{allocate}
use run.Pricing.Allocate.Exact.{allocate-sum, allocate_fair}
use run.Pricing.Coupon.{CouponRule, coupon_discount-le}
use run.Pricing.Ident.{pick_ident_offset-le, ident_offset_cap_cents}
use run.Pricing.Quote.{
  QuoteInput, ParticipantQuote, Quote, quote_participants, apply_coupon, check_coupon, taken_off,
}
use run.Pricing.Quote.Total.{
  quote, quote_total, after_coupon, unless_failed, total_quote, set_paid_cents, list_prices,
  ident_offset, amount_taken, pick_ident_offset_locked, start,
}
use run.Store.{Db}

set_paid_cents-sum :
    (ps : List ParticipantQuote) (cs : List ℕ)
    → length cs ≡ length ps
    → sum_of (λ p. p.paid_cents) (set_paid_cents ps cs) ≡ sum cs
unfolding set_paid_cents
set_paid_cents-sum [] [] h = refl
set_paid_cents-sum [] (c ∷ cs) h = absurd (omega arith)
set_paid_cents-sum (p ∷ ps) [] h = absurd (omega arith)
set_paid_cents-sum (p ∷ ps) (c ∷ cs) h = omega (arith, set_paid_cents-sum ps cs (omega arith))

set_paid_cents-list_prices :
    (ps : List ParticipantQuote) (cs : List ℕ) → list_prices (set_paid_cents ps cs) ≡ list_prices ps
unfolding set_paid_cents
set_paid_cents-list_prices [] cs = refl
set_paid_cents-list_prices (p ∷ ps) [] = refl
set_paid_cents-list_prices (p ∷ ps) (c ∷ cs) =
    ap (λ t. p.list_price_cents ∷ t) (set_paid_cents-list_prices ps cs)

length-list_prices : (ps : List ParticipantQuote) → length (list_prices ps) ≡ length ps
length-list_prices [] = refl
length-list_prices (p ∷ ps) = omega (arith, length-list_prices ps)

taken_off-le :
    (upper_trim : String → String) (db : Db) (input : QuoteInput) (l : ℕ)
    (x : Result (ℕ × CouponRule)) (r : Option ℕ × ℕ)
    → taken_off upper_trim db input l x ≡ ok r
    → r.1 ≤ l
taken_off-le upper_trim db input l (err e) r h = cc
taken_off-le upper_trim db input l (ok (id, rule)) r h = ground (arith, coupon_discount-le rule l)

-- A coupon takes off at most the listed amount.
apply_coupon-le :
    (upper_trim : String → String) (db : Db) (input : QuoteInput) (l : ℕ) (r : Option ℕ × ℕ)
    → apply_coupon upper_trim db input l ≡ ok r
    → r.1 ≤ l
unfolding apply_coupon
apply_coupon-le upper_trim db input l r h =
    elim (Bool-cases (str_eq (upper_trim input.coupon_code) "")) [
      | inl empty ↦ ground arith
      | inr code ↦
          taken_off-le upper_trim db input l
            (check_coupon upper_trim db input (upper_trim input.coupon_code)) r (rw code at h)
    ]

-- What sets the order apart from the open orders of its account.
abbrev IsApart : Option ℕ → Db → (after offset : ℕ) → Type 0
IsApart account db after offset =
    (offset ≤ ident_offset_cap_cents) × (offset ≤ after) × (0 < after → offset < after)

ident_offset-le :
    (account : Option ℕ) (after : ℕ) (db : Db)
    → IsApart account db after (ident_offset account after db)
unfolding ident_offset pick_ident_offset_locked
ident_offset-le none after db = omega arith
ident_offset-le (some account) after db = ground (
  arith,
  pick_ident_offset-le after db.settings.ident_offset_max_cents
      (λ amount. amount_taken account amount db.orders db.order_ids),
)

-- The sums of a quote.
pub record IsSummed (q : Quote) : Type 0 where
  pub list_sum : q.list_amount_cents ≡ sum (list_prices q.participants)
  pub discount_sum : q.discount_cents ≡ q.coupon_discount_cents + q.ident_offset_cents
  pub amount_sum : q.amount_cents + q.discount_cents ≡ q.list_amount_cents
  pub paid_sum : sum_of (λ p. p.paid_cents) q.participants ≡ q.amount_cents
  pub offset_small : q.ident_offset_cents ≤ ident_offset_cap_cents
  pub free_by_coupon : q.amount_cents ≡ 0 → q.ident_offset_cents ≡ 0

total_quote-IsSummed :
    (account : Option ℕ) (db : Db) (quoted : List ParticipantQuote) (c : Option ℕ × ℕ)
    → c.1 ≤ sum (list_prices quoted)
    → sum (list_prices quoted) ≤ 2 ^ 31
    → IsSummed (total_quote account db quoted c)
unfolding total_quote
total_quote-IsSummed account db quoted (coupon_id, d) h fits =
    let l = sum (list_prices quoted) in
    let small = ident_offset-le account (l - d) db in
    let shares = allocate (list_prices quoted) (d + ident_offset account (l - d) db) in
    let full = allocate-sum (list_prices quoted) (d + ident_offset account (l - d) db) fits in
    let long = allocate_fair (list_prices quoted) (d + ident_offset account (l - d) db) 0 fits in
    record {
      list_sum = ap sum (sym (set_paid_cents-list_prices quoted shares));
      discount_sum = refl;
      amount_sum = omega (arith, small);
      paid_sum =
          set_paid_cents-sum quoted shares (long.0 ∙ length-list_prices quoted)
          ∙ omega (arith, full, small);
      offset_small = small.0;
      free_by_coupon = λ e. grind (arith, small);
    }

pub quote_total-inv :
    (upper_trim : String → String) (input : QuoteInput) (db : Db) (quoted : List ParticipantQuote)
    (q : Quote)
    → quote_total upper_trim input db quoted ≡ ok q
    → (c : Option ℕ × ℕ) × (q ≡ total_quote input.payment_account_id db quoted c)
      × (c.1 ≤ sum (list_prices quoted))
quote_total-inv upper_trim input db quoted q h =
    go (apply_coupon upper_trim db input (sum (list_prices quoted))) refl h
  where
    go :
        (x : Result (Option ℕ × ℕ))
        → apply_coupon upper_trim db input (sum (list_prices quoted)) ≡ x
        → after_coupon input.payment_account_id db quoted x ≡ ok q
        → (c : Option ℕ × ℕ) × (q ≡ total_quote input.payment_account_id db quoted c)
          × (c.1 ≤ sum (list_prices quoted))
    go (err e) e' h' = cc
    go (ok c) e' h' = (c, cc, apply_coupon-le upper_trim db input (sum (list_prices quoted)) c e')

-- A quote that is given was given because no participant has a wrong field.
pub quote-eq-ok :
    (upper_trim : String → String) (input : QuoteInput) (db : Db) (q : Quote)
    → quote upper_trim input db ≡ ok q
    → let s = quote_participants upper_trim db input 0 input.participants start in
      (s.fields ≡ []) × (quote_total upper_trim input db s.quoted ≡ ok q)
unfolding quote
quote-eq-ok upper_trim input db q h =
    go (quote_participants upper_trim db input 0 input.participants start).fields refl h
  where
    go :
        (fs : List (Field × String))
        → (quote_participants upper_trim db input 0 input.participants start).fields ≡ fs
        → unless_failed upper_trim input db
            (quote_participants upper_trim db input 0 input.participants start).quoted
            (failed_with fs)
          ≡ ok q
        → let s = quote_participants upper_trim db input 0 input.participants start in
          (s.fields ≡ []) × (quote_total upper_trim input db s.quoted ≡ ok q)
    go [] e h' = (e, h')
    go (f ∷ fs) e h' = cc

total_quote-list_amount :
    (account : Option ℕ) (db : Db) (quoted : List ParticipantQuote) (c : Option ℕ × ℕ)
    → (total_quote account db quoted c).list_amount_cents ≡ sum (list_prices quoted)
unfolding total_quote
total_quote-list_amount account db quoted (coupon_id, d) = refl

-- In every quote of at most 2^31 cents the list amount is the sum of the list prices, the discount is
-- that of the coupon with the identifying cents, at most 50, the amount is the list amount less the
-- discount, which never exceeds it, and the cents the runners pay add up to the amount. An order that is
-- free after its coupon has no identifying cents.
pub quote-IsSummed :
    (upper_trim : String → String) (input : QuoteInput) (db : Db) (q : Quote)
    → quote upper_trim input db ≡ ok q
    → q.list_amount_cents ≤ 2 ^ 31
    → IsSummed q
quote-IsSummed upper_trim input db q h fits =
    let quoted = (quote_participants upper_trim db input 0 input.participants start).quoted in
    let account = input.payment_account_id in
    let (c, same, small) =
      quote_total-inv upper_trim input db quoted q (quote-eq-ok upper_trim input db q h).1 in
    let listed =
      ap (λ (x : Quote). x.list_amount_cents) same ∙ total_quote-list_amount account db quoted c in
    subst IsSummed (sym same)
      (total_quote-IsSummed account db quoted c small (omega (arith, listed, fits)))
