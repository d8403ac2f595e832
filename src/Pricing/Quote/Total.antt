-- ===== src/Pricing/Quote/Total.antt =====
-- The sums of `Service.Quote`: the coupon, the cents that tell the order apart, and the shares.
use Prim.Native.String.{String}
use run.Base.{
  ℕ, ◌+◌, ◌-◌, Bool, true, false, ◌&&◌, ◌||◌, Option, none, some, List, [], ◌∷◌, map, ltb, ◌==◌,
  if◌then◌else◌, sum,
}
use run.Platform.Apperr.{Result, ok, err, failed_with}
use run.Platform.Table.{Table}
use run.Pricing.Allocate.{allocate}
use run.Pricing.Ident.{pick_ident_offset}
use run.Pricing.Quote.{
  QuoteInput, ParticipantQuote, Quote, Progress, quote_participants, apply_coupon,
}
use run.Store.{
  Db, OrderRow, OrderStatus, pending_payment, proof_submitted, proof_rejected, expired, cancelled,
}

-- `status IN ('PENDING_PAYMENT', 'PROOF_SUBMITTED', 'PROOF_REJECTED')`
abbrev pub is_open : OrderStatus → Bool
is_open pending_payment = true
is_open proof_submitted = true
is_open proof_rejected = true
is_open OrderStatus.paid = false
is_open expired = false
is_open cancelled = false

abbrev pub asks_for : (account amount : ℕ) → Option OrderRow → Bool
asks_for account amount none = false
asks_for account amount (some o) =
    (o.payment_account_id == account) && is_open o.status && (o.amount_cents == amount)

-- `taken[amount]`, on QuoteListOpenOrderAmounts: does an open order of the account ask for `amount`?
unfoldable pub amount_taken : (account amount : ℕ) → Table OrderRow → List ℕ → Bool
amount_taken account amount orders [] = false
amount_taken account amount orders (id ∷ ids) =
    let rest = amount_taken account amount orders ids in asks_for account amount (orders id) || rest

-- pickIdentOffsetLocked.
unfoldable pub pick_ident_offset_locked : (account after_coupon : ℕ) → Db → ℕ
unfolding amount_taken
pick_ident_offset_locked account after_coupon db =
    pick_ident_offset after_coupon (λ amount. amount_taken account amount db.orders db.order_ids)
      db.settings.ident_offset_max_cents

-- `if in.PaymentAccountID != nil && afterCoupon > 0`
unfoldable pub ident_offset : (account : Option ℕ) (after_coupon : ℕ) → Db → ℕ
unfolding pick_ident_offset_locked
ident_offset none after_coupon db = 0
ident_offset (some account) after_coupon db =
    if ltb 0 after_coupon then pick_ident_offset_locked account after_coupon db else 0

-- `out.Participants[i].PaidCents = paid`
unfoldable pub set_paid_cents : List ParticipantQuote → List ℕ → List ParticipantQuote
set_paid_cents [] paid = []
set_paid_cents (p ∷ ps) [] = p ∷ ps
set_paid_cents (p ∷ ps) (c ∷ cs) = record p { paid_cents = c } ∷ set_paid_cents ps cs

abbrev pub list_prices : List ParticipantQuote → List ℕ
list_prices ps = map (λ p. p.list_price_cents) ps

-- What follows the coupon.
unfoldable pub total_quote : Option ℕ → Db → List ParticipantQuote → Option ℕ × ℕ → Quote
unfolding ident_offset set_paid_cents
total_quote account db quoted (coupon_id, coupon_discount) =
    let list_amount = sum (list_prices quoted) in
    let offset = ident_offset account (list_amount - coupon_discount) db in
    let discount = coupon_discount + offset in
    record {
      participants = set_paid_cents quoted (allocate (list_prices quoted) discount);
      list_amount_cents = list_amount;
      coupon_id = coupon_id;
      coupon_discount_cents = coupon_discount;
      ident_offset_cents = offset;
      discount_cents = discount;
      amount_cents = list_amount - discount;
    }

abbrev pub start : Progress
start = record { quoted = []; fields = []; taken = λ k. 0 }

abbrev pub after_coupon :
    Option ℕ → Db → List ParticipantQuote → Result (Option ℕ × ℕ) → Result Quote
after_coupon account db quoted (ok c) = ok (total_quote account db quoted c)
after_coupon account db quoted (err e) = err e

abbrev pub quote_total : (String → String) → QuoteInput → Db → List ParticipantQuote → Result Quote
quote_total upper_trim input db quoted =
    after_coupon input.payment_account_id db quoted
      (apply_coupon upper_trim db input (sum (list_prices quoted)))

-- `if failed { return verr }`
abbrev pub unless_failed :
    (String → String) → QuoteInput → Db → List ParticipantQuote → Result (Unit {0}) → Result Quote
unless_failed upper_trim input db quoted (ok u) = quote_total upper_trim input db quoted
unless_failed upper_trim input db quoted (err e) = err e

unfoldable pub quote : (upper_trim : String → String) → QuoteInput → Db → Result Quote
unfolding quote_participants apply_coupon total_quote
quote upper_trim input db =
    let s = quote_participants upper_trim db input 0 input.participants start in
    unless_failed upper_trim input db s.quoted (failed_with s.fields)
