-- ===== src/Registration/Deadline/Batch.antt =====
-- One batch of expiries on a consistent database.
use mathlib.Core.Path.{subst}
use run.Base.{
  ℕ, zero, suc, ◌+◌, ◌≤◌, ◌≡◌, refl, sym, ◌∙◌, ap, Bool, true, false, not, ◌&&◌, Option, none, some,
  List, [], ◌∷◌, ◌==◌, if◌then◌else◌, filter_if, contains, count_if, All, arith, Bool-cases, inl,
  inr, ==→eq,
}
use run.Platform.Apperr.{ok, bind-ok}
use run.Platform.Table.{Table, put}
use run.Store.{Db, OrderRow, order_expired}
use run.Pricing.Reserve.{is_reserved}
use run.Registration.Orders.{release_order, can_release, set_released}
use run.Registration.Consistent.{IsConsistent}
use run.Registration.Outcome.{release_order-true, release_order-false}
use run.Registration.Deadline.{
  is_due, get_order, note_expired, expire_order, expire_all, list_due_order_ids, sort_due,
  insert_due, take, comes_before,
}

abbrev pub is_there : Option OrderRow → Bool
is_there none = false
is_there (some o) = true

abbrev pub holds_seats : Option OrderRow → Bool
holds_seats none = false
holds_seats (some o) = is_reserved o.reservation_state

-- The orders whose reservation is still open.
abbrev pub open_count : Table OrderRow → List ℕ → ℕ
open_count orders ids = count_if (λ id. holds_seats (orders id)) ids

open_count-put-le :
    (orders : Table OrderRow) (id : ℕ) (new : OrderRow) (ids : List ℕ)
    → is_reserved new.reservation_state ≡ false
    → open_count (put orders id new) ids ≤ open_count orders ids
open_count-put-le orders id new [] h = omega arith
open_count-put-le orders id new (j ∷ js) h = ground (arith, open_count-put-le orders id new js h)

open_count-put :
    (orders : Table OrderRow) (id : ℕ) (old new : OrderRow) (ids : List ℕ)
    → orders id ≡ some old
    → is_reserved old.reservation_state ≡ true
    → is_reserved new.reservation_state ≡ false
    → contains ids id ≡ true
    → open_count (put orders id new) ids + 1 ≤ open_count orders ids
open_count-put orders id old new [] found was is member = cc
open_count-put orders id old new (j ∷ js) found was is member = elim (Bool-cases (j == id)) [
  | inl same ↦
      let e : j ≡ id = ==→eq j id same in
      let here : orders j ≡ some old = ap orders e ∙ found in
      ground (arith, here, open_count-put-le orders id new js is)
  | inr differ ↦
      ground (arith, open_count-put orders id old new js found was is (rw differ at member))
]

-- The order is one of the table's.
abbrev pub IsKnown : Db → ℕ → Type 0
IsKnown db id = (contains db.order_ids id ≡ true) × (is_there (db.orders id) ≡ true)

-- What a run of expiries keeps, with the number of orders released.
pub record Keeps (db db' : Db) (n : ℕ) : Type 0 where
  pub is_consistent : IsConsistent db'
  pub same_ids : db'.order_ids ≡ db.order_ids
  pub still_there : (j : ℕ) → is_there (db.orders j) ≡ true → is_there (db'.orders j) ≡ true
  pub fewer_open : open_count db'.orders db.order_ids + n ≤ open_count db.orders db.order_ids

Noted : Db → ℕ → Db
Noted db id = record db {
  audit = record { action = "reg_order.expire"; entity_id = id } ∷ db.audit;
  outbox = record { template = "order_expired"; order_id = id } ∷ db.outbox;
}

can_release-is_reserved :
    (o : OrderRow) → can_release order_expired o ≡ true → is_reserved o.reservation_state ≡ true
can_release-is_reserved o h = ground arith

released-Keeps :
    (id : ℕ) (db db1 : Db) (row : OrderRow)
    → IsKnown db id
    → db.orders id ≡ some row
    → can_release order_expired row ≡ true
    → db1.orders ≡ put db.orders id (set_released order_expired row)
    → db1.order_ids ≡ db.order_ids
    → IsConsistent db1
    → Keeps db (Noted db1 id) 1
unfolding Noted
released-Keeps id db db1 row k found can orders ids c = record {
  is_consistent = record {
    categories = c.categories;
    price_rules = c.price_rules;
    coupons = c.coupons;
  };
  same_ids = ids;
  still_there = λ j there. subst (λ t. is_there (t j) ≡ true) (sym orders) (ground arith);
  fewer_open =
      subst (λ t. open_count t db.order_ids + 1 ≤ open_count db.orders db.order_ids) (sym orders)
        (open_count-put db.orders id row (set_released order_expired row) db.order_ids found
          (can_release-is_reserved row can) refl k.0);
}

abbrev one_if : Bool → ℕ
one_if true = 1
one_if false = 0

expire_order-ok :
    (id : ℕ) (db : Db) (row : OrderRow)
    → IsConsistent db
    → IsKnown db id
    → db.orders id ≡ some row
    → (b : Bool) × (db' : Db) × (expire_order id db ≡ ok (b, db')) × Keeps db db' (one_if b)
unfolding expire_order Noted
expire_order-ok id db row c k found =
    let got : get_order id db ≡ ok (row, db) = ground (arith, found) in
    elim (Bool-cases (can_release order_expired row)) [
      | inl can ↦
          let (db1, e, orders, ps, ids, c1, uses) =
            release_order-true id order_expired db row c found can in
          (
            true,
            Noted db1 id,
            bind-ok (get_order id) _ db db row got
                ∙ bind-ok (release_order id order_expired) (note_expired id) db db1 true e,
            released-Keeps id db db1 row k found can orders ids c1,
          )
      | inr cannot ↦ (
        false,
        db,
        bind-ok (get_order id) _ db db row got
            ∙ bind-ok (release_order id order_expired) (note_expired id) db db false
                (release_order-false id order_expired db row found cannot),
        record {
          is_consistent = c;
          same_ids = refl;
          still_there = λ j h. h;
          fewer_open = omega arith;
        },
      )
    ]

Keeps-refl : (db : Db) → IsConsistent db → Keeps db db 0
Keeps-refl db c = record {
  is_consistent = c;
  same_ids = refl;
  still_there = λ j h. h;
  fewer_open = omega arith;
}

pub Keeps-trans : (a b c : Db) (m n : ℕ) → Keeps a b m → Keeps b c n → Keeps a c (m + n)
Keeps-trans a b c m n k l = record {
  is_consistent = l.is_consistent;
  same_ids = l.same_ids ∙ k.same_ids;
  still_there = λ j h. l.still_there j (k.still_there j h);
  fewer_open =
      let later =
        subst (λ ids. open_count c.orders ids + n ≤ open_count b.orders ids) k.same_ids
          l.fewer_open in
      omega (arith, later, k.fewer_open);
}

IsKnown-Keeps : (db db' : Db) (n id : ℕ) → Keeps db db' n → IsKnown db id → IsKnown db' id
IsKnown-Keeps db db' n id k (m, there) =
    (subst (λ ids. contains ids id ≡ true) (sym k.same_ids) m, k.still_there id there)

All-map {ℓ κ μ} :
    {A : Type ℓ} {P : A → Type κ} {Q : A → Type μ}
    → ((x : A) → P x → Q x)
    → (xs : List A) → All P xs
    → All Q xs
All-map f [] h = tt
All-map f (x ∷ xs) h = (f x h.0, All-map f xs h.1)

there_row : (x : Option OrderRow) → is_there x ≡ true → (row : OrderRow) × (x ≡ some row)
there_row none h = cc
there_row (some row) h = (row, refl)

-- A batch goes through and counts the orders it releases.
pub expire_all-ok :
    (ids : List ℕ) (r : ℕ) (db : Db)
    → IsConsistent db
    → All (IsKnown db) ids
    → (n : ℕ) × (db' : Db) × (expire_all ids r db ≡ ok (r + n, db')) × Keeps db db' n
unfolding expire_all
expire_all-ok [] r db c h = (0, db, ap (λ k. ok (k, db)) (omega arith), Keeps-refl db c)
expire_all-ok (id ∷ ids) r db c h =
    let (row, found) = there_row (db.orders id) h.0.1 in
    let (b, db1, e, k) = expire_order-ok id db row c h.0 found in
    let (n, db2, e', k') =
      expire_all-ok ids (if b then r + 1 else r) db1 k.is_consistent
        (All-map (λ j. IsKnown-Keeps db db1 (one_if b) j k) ids h.1) in
    (
      one_if b + n,
      db2,
      bind-ok (expire_order id) _ db db1 b e ∙ e' ∙ ap (λ m. ok (m, db2)) (counted b r n),
      Keeps-trans db db1 db2 (one_if b) n k k',
    )
  where
    counted : (b : Bool) (r n : ℕ) → (if b then r + 1 else r) + n ≡ r + (one_if b + n)
    counted true r n = omega arith
    counted false r n = omega arith

insert_due-All {κ} :
    (P : ℕ → Type κ) (orders : Table OrderRow) (a : ℕ) (bs : List ℕ)
    → P a
    → All P bs
    → All P (insert_due orders a bs)
unfolding insert_due
insert_due-All P orders a [] h hs = (h, tt)
insert_due-All P orders a (b ∷ bs) h hs = elim (Bool-cases (comes_before orders a b)) [
  | inl first ↦ rw first (h, hs)
  | inr later ↦ rw later (hs.0, insert_due-All P orders a bs h hs.1)
]

sort_due-All {κ} :
    (P : ℕ → Type κ) (orders : Table OrderRow) (ids : List ℕ)
    → All P ids
    → All P (sort_due orders ids)
unfolding sort_due
sort_due-All P orders [] h = tt
sort_due-All P orders (a ∷ rest) h =
    insert_due-All P orders a (sort_due orders rest) h.0 (sort_due-All P orders rest h.1)

take-All {κ} : (P : ℕ → Type κ) (n : ℕ) (xs : List ℕ) → All P xs → All P (take n xs)
unfolding take
take-All P zero xs h = tt
take-All P (suc n) [] h = tt
take-All P (suc n) (x ∷ xs) h = (h.0, take-All P n xs h.1)

filter_if-All {κ} :
    (P : ℕ → Type κ) (test : ℕ → Bool) (all_ids ids : List ℕ)
    → ((id : ℕ) → contains all_ids id ≡ true → test id ≡ true → P id)
    → ((id : ℕ) → contains ids id ≡ true → contains all_ids id ≡ true)
    → All P (filter_if test ids)
filter_if-All P test all_ids [] h sub = tt
filter_if-All P test all_ids (x ∷ xs) h sub = elim (Bool-cases (test x)) [
  | inl passes ↦ rw passes (
    h x (sub x (ground arith)) passes,
    filter_if-All P test all_ids xs h (λ id m. sub id (ground arith)),
  )
  | inr fails ↦ rw fails (filter_if-All P test all_ids xs h (λ id m. sub id (ground arith)))
]

due-there : (as_of : ℕ) (x : Option OrderRow) → is_due as_of x ≡ true → is_there x ≡ true
due-there as_of none h = cc
due-there as_of (some o) h = refl

pub list_due_order_ids-IsKnown :
    (as_of limit : ℕ) (is_held : ℕ → Bool) (db : Db)
    → All (IsKnown db) (list_due_order_ids as_of limit is_held db)
unfolding list_due_order_ids
list_due_order_ids-IsKnown as_of limit is_held db = take-All (IsKnown db) limit _ (
    sort_due-All (IsKnown db) db.orders _ (
      filter_if-All (IsKnown db) (λ id. is_due as_of (db.orders id) && not (is_held id))
        db.order_ids db.order_ids (λ id m t. (m, due-there as_of (db.orders id) (ground arith)))
        (λ id m. m)))
