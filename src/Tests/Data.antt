-- ===== src/Tests/Data.antt =====
-- A small database: category 1 with ten seats and price rule 2 with five, the order 3 of one runner
-- that reserves a seat of each, and the order's use of coupon 4.
use run.Base.{ℕ, true, Option, none, some, [], ◌∷◌, arith, if◌then◌else◌, ◌==◌}
use run.Pricing.Coupon.{percent}
use run.Pricing.Tier.{all}
use run.Registration.Consistent.{IsConsistent}
use run.Store.{Db, OrderRow, OrderStatus, reserved, ParticipantRow, pending}

abbrev at {ℓ} : {A : Type ℓ} → ℕ → A → ℕ → Option A
at id a k = if k == id then some a else none

abbrev pub order_row : OrderStatus → OrderRow
order_row status = record {
  event_id = 9;
  buyer_user_id = 8;
  status = status;
  reservation_state = reserved;
  release_kind = none;
  list_amount_cents = 2500;
  discount_cents = 500;
  ident_offset_cents = 0;
  amount_cents = 2000;
  coupon_id = some 4;
  payment_account_id = 6;
  deadline_at = some 100;
  paid_at = none;
  version = 1;
}

abbrev pub runner_row : ParticipantRow
runner_row = record {
  order_id = 3;
  category_id = 1;
  price_rule_id = 2;
  list_price_cents = 2500;
  paid_cents = 2000;
  event_id = 9;
  id_no_hash = 77;
  registration_status = pending;
  cancel_reason = none;
}

abbrev pub db_with : OrderStatus → Db
db_with status = record {
  categories = at 1 (record { event_id = 9; min_age = 18 });
  category_counts = at 1 (record { limit = some 10; used = 0; reserved = 1 });
  price_rules = at 2 (record {
    event_id = 9;
    audience = all;
    price_cents = 2500;
    sale_starts_at = some 10;
    sale_ends_at = none;
    sort_order = 0;
  });
  price_rule_counts = at 2 (record { limit = some 5; used = 0; reserved = 1 });
  links = record { category_id = 1; price_rule_id = 2 } ∷ [];
  coupons = at 4 (record {
    code = "TWENTY";
    event_id = none;
    discount_type = percent;
    discount_value = 20;
    min_runners = none;
    valid_from = none;
    valid_until = none;
    active = true;
  });
  coupon_counts = at 4 (record { limit = some 3; used = 0; reserved = 1 });
  coupon_by_code = λ code. some 4;
  orders = at 3 (order_row status);
  order_ids = 3 ∷ [];
  participants = runner_row ∷ [];
  redemptions = record { order_id = 3; coupon_id = 4; state = reserved; discount_cents = 500 } ∷ [];
  free_signups = [];
  settings = record { upload_window = 1800; reupload_window = 3600; ident_offset_max_cents = 20 };
  audit = [];
  outbox = [];
}

pub db_with-IsConsistent : (status : OrderStatus) → IsConsistent (db_with status)
db_with-IsConsistent status = record {
  categories = record {
    counts_reserved = λ k. ground arith;
    counts_used = λ k. ground arith;
    is_within = λ k. ground arith;
  };
  price_rules = record {
    counts_reserved = λ k. ground arith;
    counts_used = λ k. ground arith;
    is_within = λ k. ground arith;
  };
  coupons = record {
    counts_reserved = λ k. ground arith;
    counts_used = λ k. ground arith;
    is_within = λ k. ground arith;
  };
}
