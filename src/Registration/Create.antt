-- ===== src/Registration/Create.antt =====
-- `registrationOpen`, `checkAlreadyRegistered` and `createOrderTx` of
-- api/internal/registration/create.go, from the participants that resolveParticipants returned. The
-- payment account that the event selects, the new order's id and the outcome of SignConsent come as
-- arguments; the saved profiles are left out.
pub mod Fresh
pub mod Placed
pub mod Kept
use Prim.Native.String.{String}
use run.Base.{
  ℕ, ◌+◌, Bool, true, false, not, ◌&&◌, ◌||◌, Option, none, some, List, [], ◌∷◌, ◌++◌, map, ltb,
  ◌==◌, if◌then◌else◌, none_or, contains,
}
use run.Platform.Apperr.{
  Field, item, Error, Result, ok, err, new, registration_closed, already_registered,
  payment_account_unavailable, Tx, pure, lift, modify, guard, ◌>>=◌, ◌>>◌,
}
use run.Platform.Table.{put}
use run.Pricing.Age.{Date}
use run.Pricing.Quote.{ParticipantInput, QuoteInput, ParticipantQuote, Quote}
use run.Pricing.Quote.Total.{quote}
use run.Pricing.Reserve.{Quoted, reserve, record_redemption}
use run.Store.{
  Db, OrderRow, pending_payment, reserved, ParticipantRow, RegistrationStatus, pending, confirmed,
  AuditRow,
}
use run.Registration.Orders.{confirm_paid, record_audit}

-- The columns of events that an order reads.
pub record EventRow : Type 0 where
  pub is_published : Bool
  pub is_race : Bool
  pub registration_open : Bool
  pub registration_opens_at : Option ℕ
  pub registration_closes_at : Option ℕ
  pub race_date : Date

-- registrationOpen.
unfoldable pub is_registration_open : EventRow → (now : ℕ) → Bool
is_registration_open ev now =
    ev.is_published
    && ev.is_race
    && ev.registration_open
    && none_or (λ opens. not (ltb now opens)) ev.registration_opens_at
    && none_or (λ closes. ltb now closes) ev.registration_closes_at

-- resolvedParticipant, with what the profile says.
pub record ResolvedParticipant : Type 0 where
  pub category_id : ℕ
  pub nationality : String
  pub birth_date : Date
  pub id_hash : ℕ

-- `status IN ('PENDING', 'CONFIRMED')`
abbrev pub is_live : RegistrationStatus → Bool
is_live pending = true
is_live confirmed = true
is_live RegistrationStatus.cancelled = false

-- ListRegisteredIDNoHashes, for one hash.
pub is_registered : (event_id hash : ℕ) → List ParticipantRow → Bool
is_registered event_id hash [] = false
is_registered event_id hash (p ∷ ps) =
    let rest = is_registered event_id hash ps in
    ((p.event_id == event_id) && is_live p.registration_status && (p.id_no_hash == hash)) || rest

pub registered_fields :
    (i event_id : ℕ) → List ParticipantRow → List ResolvedParticipant → List (Field × String)
unfolding is_registered
registered_fields i event_id rows [] = []
registered_fields i event_id rows (p ∷ ps) =
    let rest = registered_fields (i + 1) event_id rows ps in
    if is_registered event_id p.id_hash rows
    then (item "participants" i "idNo", "field.already_registered") ∷ rest
    else rest

abbrev pub unless_registered : List (Field × String) → Result (Unit {0})
unless_registered [] = ok tt
unless_registered (f ∷ fs) =
    err (record { code = already_registered; status = 409; fields = f ∷ fs })

-- checkAlreadyRegistered; the locks on the hashes change no row.
unfoldable pub check_already_registered :
    (event_id : ℕ) → List ResolvedParticipant → Tx Db (Unit {0})
unfolding registered_fields
check_already_registered event_id parts db =
    lift (unless_registered (registered_fields 0 event_id db.participants parts)) db

abbrev pub account_or_error : Option ℕ → Result ℕ
account_or_error none = err (new 503 payment_account_unavailable)
account_or_error (some account) = ok account

abbrev pub quote_input : ResolvedParticipant → ParticipantInput
quote_input p = record {
  category_id = p.category_id;
  nationality = p.nationality;
  birth_date = p.birth_date;
}

abbrev pub counted : Quote → Quoted
counted q = record {
  category_ids = map (λ p. p.category_id) q.participants;
  price_rule_ids = map (λ p. p.price_rule_id) q.participants;
  coupon_id = q.coupon_id;
  coupon_discount_cents = q.coupon_discount_cents;
}

-- InsertRegOrder.
abbrev pub new_order : (event_id user account deadline : ℕ) → Quote → OrderRow
new_order event_id user account deadline q = record {
  event_id = event_id;
  buyer_user_id = user;
  status = pending_payment;
  reservation_state = reserved;
  release_kind = none;
  list_amount_cents = q.list_amount_cents;
  discount_cents = q.discount_cents;
  ident_offset_cents = q.ident_offset_cents;
  amount_cents = q.amount_cents;
  coupon_id = q.coupon_id;
  payment_account_id = account;
  deadline_at = some deadline;
  paid_at = none;
  version = 1;
}

abbrev pub insert_order : (order_id : ℕ) → OrderRow → Tx Db (Unit {0})
insert_order order_id row =
    modify
      (λ db. record db { orders = put db.orders order_id row; order_ids = order_id ∷ db.order_ids })

abbrev pub hash_of : List ResolvedParticipant → ℕ
hash_of [] = 0
hash_of (p ∷ ps) = p.id_hash

abbrev pub others_of : List ResolvedParticipant → List ResolvedParticipant
others_of [] = []
others_of (p ∷ ps) = ps

abbrev pub participant_row : (order_id event_id hash : ℕ) → ParticipantQuote → ParticipantRow
participant_row order_id event_id hash q = record {
  order_id = order_id;
  category_id = q.category_id;
  price_rule_id = q.price_rule_id;
  list_price_cents = q.list_price_cents;
  paid_cents = q.paid_cents;
  event_id = event_id;
  id_no_hash = hash;
  registration_status = pending;
  cancel_reason = none;
}

-- InsertOrderParticipant and InsertRegistration for `quote.Participants[i]` and `parts[i]`; a quote that
-- is given has as many participants as its input.
unfoldable pub participant_rows :
    (order_id event_id : ℕ) → List ParticipantQuote → List ResolvedParticipant → List ParticipantRow
participant_rows order_id event_id [] parts = []
participant_rows order_id event_id (q ∷ qs) parts =
    participant_row order_id event_id (hash_of parts) q
    ∷ participant_rows order_id event_id qs (others_of parts)

abbrev pub insert_participants : List ParticipantRow → Tx Db (Unit {0})
insert_participants rows = modify (λ db. record db { participants = rows ++ db.participants })

-- `if quote.AmountCents == 0`
abbrev pub confirm_if_free : Bool → (order_id now : ℕ) → Tx Db (Unit {0})
confirm_if_free false order_id now = pure tt
confirm_if_free true order_id now = do
  confirm_paid order_id now
  record_audit (record { action = "reg_order.paid_zero"; entity_id = order_id })

-- Steps 5 to 9, once the order is quoted: the reservation and the rows.
unfoldable pub write_order :
    (event_id user account order_id now : ℕ) → List ResolvedParticipant → Quote → Tx Db (Unit {0})
unfolding participant_rows
write_order event_id user account order_id now parts q = do
  reserve (counted q)
  db ← λ s. ok (s, s)
  insert_order order_id (new_order event_id user account (now + db.settings.upload_window) q)
  insert_participants (participant_rows order_id event_id q.participants parts)
  record_redemption order_id (counted q)

unfoldable pub create_order_tx :
    (upper_trim : String → String)
    → (user event_id : ℕ) → EventRow
    → (coupon_code : String) → List ResolvedParticipant
    → (account : Option ℕ) → (order_id now : ℕ) → (consent : Result (Unit {0})) → Tx Db (Unit {0})
unfolding check_already_registered write_order
create_order_tx upper_trim user event_id ev coupon_code parts account order_id now consent = do
  guard (is_registration_open ev now) (new 409 registration_closed)
  check_already_registered event_id parts
  account_id ← lift (account_or_error account)
  db ← λ s. ok (s, s)
  q ← lift (
      quote upper_trim
        (record {
          event_id = event_id;
          race_date = ev.race_date;
          coupon_code = coupon_code;
          participants = map quote_input parts;
          now = now;
          payment_account_id = some account_id;
        })
        db)
  write_order event_id user account_id order_id now parts q
  lift consent
  record_audit (record { action = "reg_order.create"; entity_id = order_id })
  confirm_if_free (q.amount_cents == 0) order_id now
