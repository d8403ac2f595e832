-- ===== src/Tests/Requests.antt =====
-- A request that is repeated, a free sign-up, and a change of a price rule.
use Prim.Native.String.{String}
use run.Base.{ℕ, ◌≡◌, refl, true, none, some, [], ◌∷◌, arith}
use run.Platform.Apperr.{ok, err, new, idempotency_key_reused, Tx, pure, ◌>>◌}
use run.Store.{Db, pending_payment}
use run.Pricing.Age.{age_on, birthday_in}
use run.Pricing.Tier.{all}
use run.Pricing.Counter.{reserve_seats, apply_all, group_seats}
use run.Pricing.Rules.{
  PriceRuleInput, normalize_ids, category_ids_by_rule, is_frozen, check_rule, update_price_rule_tx,
}
use run.Pricing.Rules.Locked.{IsUpdated, update_price_rule_tx-IsUpdated}
use run.Pricing.Quote.{Quote}
use run.Pricing.Reserve.{reserve, record_redemption}
use run.Registration.Consistent.{IsConsistent}
use run.Registration.Create.{ResolvedParticipant, write_order}
use run.Registration.Free.{
  FreeEventRow, FreeSignupInput, free_signup_open, check_age, take_seat, insert_free_signup,
  place_signup, create_free_signup_tx,
}
use run.Registration.Free.Seats.{create_free_signup_tx-IsConsistent}
use run.Registration.Idempotent.{
  KeyedDb, KeyedRequest, claim_idempotency_key, create_order_keyed, purge_expired_idempotency_keys,
}
use run.Registration.Idempotent.Replay.{create_order_keyed-replay}
use run.Tests.Data.{db_with, db_with-IsConsistent}

abbrev quoted : Quote
quoted = record {
  participants =
      record {
        category_id = 1;
        price_rule_id = 2;
        audience = all;
        list_price_cents = 2500;
        paid_cents = 2499;
      }
      ∷ [];
  list_amount_cents = 2500;
  coupon_id = none;
  coupon_discount_cents = 0;
  ident_offset_cents = 1;
  discount_cents = 1;
  amount_cents = 2499;
}

abbrev runner : ResolvedParticipant
runner = record {
  category_id = 1;
  nationality = "KH";
  birth_date = record { year = 1999; month = 7; day = 3 };
  id_hash = 91;
}

-- It writes the order 14 and answers with its id.
abbrev create : Tx Db ℕ
create = do write_order 9 8 6 14 50 (runner ∷ []) quoted; pure 14

abbrev request : KeyedRequest
request = record { user = 8; key = "key-0001"; hash = 77 }

abbrev before : KeyedDb Db ℕ
before = record { db = db_with pending_payment; keys = λ u k. none }

after : KeyedDb Db ℕ
unfolding create_order_keyed
after = elim (create_order_keyed request 50 true create before) [ ok (d, s) ↦ s | err e ↦ before ]

created : create_order_keyed request 50 true create before ≡ ok (14, after)
unfolding after create_order_keyed claim_idempotency_key write_order reserve reserve_seats
    record_redemption apply_all group_seats
created = refl

abbrev after_purge : KeyedDb Db ℕ
after_purge = purge_expired_idempotency_keys 1000 (λ u k. true) after

create_order_keyed-replay_example :
    (create_order_keyed request 2000 true create after_purge ≡ ok (14, after_purge))
    × (create_order_keyed
          (record { user = 8; key = "key-0001"; hash = 78 })
          2000
          true
          create
          after_purge
        ≡ err (new 422 idempotency_key_reused))
create_order_keyed-replay_example =
    create_order_keyed-replay request 50 1000 2000 78 true create create (λ u k. true) before 14
      after refl created (omega arith) (omega arith) refl

abbrev fun_run : FreeEventRow
fun_run = record {
  id = 9;
  is_published = true;
  is_free_activity = true;
  registration_open = true;
  registration_opens_at = some 10;
  registration_closes_at = none;
  race_date = record { year = 2026; month = 3; day = 1 };
}

abbrev walker : FreeSignupInput
walker = record {
  category_id = 1;
  full_name = "Dara";
  phone_e164 = "+85512345678";
  birth_date = some (record { year = 2000; month = 1; day = 1 });
}

abbrev same_text : String → String
same_text text = text

signed : Unit {0} × Db
unfolding create_free_signup_tx
signed =
    elim (create_free_signup_tx same_text 8 21 50 (some fun_run) walker (ok tt)
      (db_with pending_payment)) [ ok r ↦ r | err e ↦ (tt, db_with pending_payment) ]

create_free_signup_tx-IsConsistent_example :
    IsConsistent signed.1 × (signed.1.orders ≡ (db_with pending_payment).orders)
unfolding signed create_free_signup_tx free_signup_open check_age place_signup take_seat
    insert_free_signup age_on birthday_in
create_free_signup_tx-IsConsistent_example =
    create_free_signup_tx-IsConsistent same_text 8 21 50 (some fun_run) walker (ok tt)
      (db_with pending_payment) signed (db_with-IsConsistent pending_payment) refl

-- A seat of the rule is reserved, so the price stays; the quota goes from 5 to 1.
abbrev smaller : PriceRuleInput
smaller = record {
  audience = all;
  price_cents = 2500;
  quota = some 1;
  sale_starts_at = some 10;
  sale_ends_at = some 90;
  sort_order = 3;
  category_ids = 1 ∷ 1 ∷ [];
}

changed : Unit {0} × Db
unfolding update_price_rule_tx
changed = elim (update_price_rule_tx 2 smaller (db_with pending_payment)) [
  | ok r ↦ r
  | err e ↦ (tt, db_with pending_payment)
]

update_price_rule_tx-IsUpdated_example :
    IsUpdated 2
      (record {
        event_id = 9;
        audience = all;
        price_cents = 2500;
        sale_starts_at = some 10;
        sale_ends_at = none;
        sort_order = 0;
      })
      (record { limit = some 5; used = 0; reserved = 1 })
      (db_with pending_payment)
      changed.1
unfolding changed update_price_rule_tx check_rule is_frozen normalize_ids category_ids_by_rule
update_price_rule_tx-IsUpdated_example =
    update_price_rule_tx-IsUpdated 2 smaller _ _ (db_with pending_payment) changed
      (db_with-IsConsistent pending_payment) refl refl refl
