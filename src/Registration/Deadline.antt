-- ===== src/Registration/Deadline.antt =====
-- `ProcessDeadlines`, `expireDueBatch` and `expireOrder` of api/internal/registration/deadline.go. The
-- reminders and the logging are left out; the purge of idempotency keys is in Registration.Idempotent. `is_held id` says that another
-- transaction holds the row of the order, which SKIP LOCKED passes over. Every order has a buyer.
pub mod Batch
pub mod Loop
use run.Base.{
  ℕ, zero, suc, ◌+◌, Bool, true, false, not, ◌&&◌, ◌||◌, Option, none, some, List, [], ◌∷◌, ltb,
  leb, ◌==◌, if◌then◌else◌, filter_if, length,
}
use run.Platform.Apperr.{
  Error, Result, ok, err, internal_error, Tx, pure, fail, modify, in_tx, ◌>>=◌, ◌>>◌,
}
use run.Platform.Table.{Table}
use run.Store.{Db, OrderRow, ReleaseKind, order_expired, AuditRow, Notice}
use run.Registration.Orders.{is_awaiting_proof, release_order, record_audit}

abbrev pub deadline_batch_size : ℕ
deadline_batch_size = 100

-- `deadline_at <= as_of`
abbrev pub has_passed : (as_of : ℕ) → Option ℕ → Bool
has_passed as_of none = false
has_passed as_of (some deadline) = leb deadline as_of

abbrev pub is_due : (as_of : ℕ) → Option OrderRow → Bool
is_due as_of none = false
is_due as_of (some o) = is_awaiting_proof o.status && has_passed as_of o.deadline_at

abbrev pub deadline_of : Option OrderRow → ℕ
deadline_of none = 0
deadline_of (some o) = elim o.deadline_at [ none ↦ 0 | some d ↦ d ]

-- `ORDER BY deadline_at, id`
abbrev pub comes_before : Table OrderRow → ℕ → ℕ → Bool
comes_before orders a b =
    let da = deadline_of (orders a) in
    let d = deadline_of (orders b) in ltb da d || ((da == d) && leb a b)

pub insert_due : Table OrderRow → ℕ → List ℕ → List ℕ
insert_due orders a [] = a ∷ []
insert_due orders a (b ∷ bs) =
    let rest = insert_due orders a bs in if comes_before orders a b then a ∷ b ∷ bs else b ∷ rest

pub sort_due : Table OrderRow → List ℕ → List ℕ
unfolding insert_due
sort_due orders [] = []
sort_due orders (a ∷ rest) = insert_due orders a (sort_due orders rest)

-- `LIMIT n`
pub take : ℕ → List ℕ → List ℕ
take zero xs = []
take (suc n) [] = []
take (suc n) (x ∷ xs) = x ∷ take n xs

-- ListDueOrderIDsForExpiry.
unfoldable pub list_due_order_ids : (as_of batch_limit : ℕ) → (is_held : ℕ → Bool) → Db → List ℕ
unfolding sort_due take
list_due_order_ids as_of batch_limit is_held db = take batch_limit (
    sort_due db.orders
      (filter_if (λ id. is_due as_of (db.orders id) && not (is_held id)) db.order_ids))

-- GetOrderForExpiryNotice.
abbrev pub get_order : ℕ → Tx Db OrderRow
get_order id db = elim (db.orders id) [ none ↦ err internal_error | some o ↦ ok (o, db) ]

abbrev pub enqueue : Notice → Tx Db (Unit {0})
enqueue n = modify (λ db. record db { outbox = n ∷ db.outbox })

-- What expireOrder does once the order is released.
abbrev pub note_expired : ℕ → Bool → Tx Db Bool
note_expired order_id false = pure false
note_expired order_id true = do
  record_audit (record { action = "reg_order.expire"; entity_id = order_id })
  enqueue (record { template = "order_expired"; order_id = order_id })
  pure true

unfoldable pub expire_order : (order_id : ℕ) → Tx Db Bool
expire_order order_id = do
  before ← get_order order_id
  released ← release_order order_id order_expired
  note_expired order_id released

-- The loop over the ids of a batch; `released` counts.
unfoldable pub expire_all : List ℕ → (released : ℕ) → Tx Db ℕ
expire_all [] released = pure released
expire_all (id ∷ ids) released = do
  ok_ ← expire_order id
  expire_all ids (if ok_ then released + 1 else released)

abbrev pub with_selected : ℕ → Result (ℕ × Db) → Result ((ℕ × ℕ) × Db)
with_selected selected (ok (released, db)) = ok ((selected, released), db)
with_selected selected (err e) = err e

abbrev pub expire_batch : (as_of : ℕ) → (is_held : ℕ → Bool) → Tx Db (ℕ × ℕ)
expire_batch as_of is_held db =
    let ids = list_due_order_ids as_of deadline_batch_size is_held db in
    with_selected (length ids) (expire_all ids 0 db)

-- expireDueBatch: how many orders it selected, and how many it released.
unfoldable pub expire_due_batch : (as_of : ℕ) → (is_held : ℕ → Bool) → Db → Result (ℕ × ℕ) × Db
unfolding expire_all
expire_due_batch as_of is_held = in_tx (expire_batch as_of is_held)

-- The result of the loop: how many orders it released and the error that ended it, if any.
pub data Expiry : Type 0 where
  out_of_fuel : Expiry
  expired : ℕ → Option Error → Db → Expiry

-- The body of the loop after the batch; `again` is the next round.
abbrev pub after_batch : (again : ℕ → Db → Expiry) → (expired : ℕ) → Result (ℕ × ℕ) × Db → Expiry
after_batch again n (err e, db) = expired n (some e) db
after_batch again n (ok (selected, released), db) =
    if ltb selected deadline_batch_size || (released == 0)
    then expired (n + released) none db
    else again (n + released) db

-- `for { ... }`, on fuel.
unfoldable pub expire_due : (fuel as_of : ℕ) → (is_held : ℕ → Bool) → (expired : ℕ) → Db → Expiry
unfolding expire_due_batch
expire_due zero as_of is_held n db = out_of_fuel
expire_due (suc fuel) as_of is_held n db =
    after_batch (λ m db'. expire_due fuel as_of is_held m db') n (expire_due_batch as_of is_held db)
