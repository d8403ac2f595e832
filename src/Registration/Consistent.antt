-- ===== src/Registration/Consistent.antt =====
-- The counters of a consistent database count the participants of its orders.
use run.Base.{
  ℕ, ◌+◌, ◌-◌, ◌≤◌, ◌≡◌, refl, ◌∙◌, ap, Bool, true, false, Option, none, some, List, ◌==◌, arith,
  if◌then◌else◌, count_if,
}
use run.Platform.Table.{Table, put}
use run.Pricing.Counter.{
  Counter, Counts, fits, has_reserved, use_reserved, drop_reserved, reserved_of, used_of,
}
use run.Pricing.Counter.Apply.{map_row, IsShift}
use run.Store.{
  Db, OrderRow, ReservationState, reserved, consumed, released, ParticipantRow, FreeSignupRow,
}
use run.Registration.Held.{held, seats_of, held-put, seats_of-le-held, redeemed, is_state}
use run.Registration.Moved.{Moved}

-- The seats of a category that free sign-ups took.
abbrev pub signed_up : ℕ → List FreeSignupRow → ℕ
signed_up k fs = count_if (λ f. f.category_id == k) fs

-- A row that is there is within its limit.
abbrev pub within : Option Counter → Bool
within none = true
within (some c) = fits 0 c

-- Each counter row counts `res` reserved and `con` used, and `used + reserved` is within the limit.
pub record IsBalanced (t : Counts) (res con : ℕ → ℕ) : Type 0 where
  pub counts_reserved : (k : ℕ) → reserved_of (t k) ≡ res k
  pub counts_used : (k : ℕ) → used_of (t k) ≡ con k
  pub is_within : (k : ℕ) → within (t k) ≡ true

abbrev pub held_categories : ReservationState → Db → ℕ → ℕ
held_categories st db k = held (λ p. p.category_id) st db.orders k db.participants

abbrev pub held_price_rules : ReservationState → Db → ℕ → ℕ
held_price_rules st db k = held (λ p. p.price_rule_id) st db.orders k db.participants

abbrev pub redeemed_coupons : ReservationState → Db → ℕ → ℕ
redeemed_coupons st db k = redeemed st k db.redemptions

-- The reserved counters count the seats of the orders that hold a reservation, the used ones those of
-- the orders that consumed it, with the free sign-ups; the coupons count their redemptions.
pub record IsConsistent (db : Db) : Type 0 where
  pub categories :
      IsBalanced db.category_counts
        (held_categories reserved db)
        (λ k. held_categories consumed db k + signed_up k db.free_signups)
  pub price_rules :
      IsBalanced db.price_rule_counts (held_price_rules reserved db) (held_price_rules consumed db)
  pub coupons :
      IsBalanced db.coupon_counts (redeemed_coupons reserved db) (redeemed_coupons consumed db)

-- What `Consume` and `Release` do to one counter.
pub record IsMove (to_state : ReservationState) (shift : ℕ → Counter → Counter) : Type 0 where
  pub leaves : is_state reserved to_state ≡ false
  pub reserved_after : (n : ℕ) (c : Counter) → (shift n c).reserved ≡ c.reserved - n
  pub used_after :
      (n : ℕ) (c : Counter)
      → (shift n c).used ≡ c.used + (if is_state consumed to_state then n else 0)
  pub limit_after : (n : ℕ) (c : Counter) → (shift n c).limit ≡ c.limit

pub consume_IsMove : IsMove consumed use_reserved
consume_IsMove = record {
  leaves = refl;
  reserved_after = λ n c. refl;
  used_after = λ n c. refl;
  limit_after = λ n c. refl;
}

pub release_IsMove : IsMove released drop_reserved
release_IsMove = record {
  leaves = refl;
  reserved_after = λ n c. refl;
  used_after = λ n c. omega arith;
  limit_after = λ n c. refl;
}

module _ (to_state : ReservationState) (shift : ℕ → Counter → Counter)
    (move : IsMove to_state shift) (laws : IsShift has_reserved shift) where
  abbrev used_more : ℕ → ℕ
  used_more n = if is_state consumed to_state then n else 0

  reserved_of-shift :
      (n : ℕ) (x : Option Counter) → reserved_of (map_row (shift n) x) ≡ reserved_of x - n
  reserved_of-shift n none = omega arith
  reserved_of-shift n (some c) = move.reserved_after n c

  used_of-shift :
      (n : ℕ) (x : Option Counter)
      → n ≤ reserved_of x
      → used_of (map_row (shift n) x) ≡ used_of x + used_more n
  used_of-shift n none h = ground arith
  used_of-shift n (some c) h = move.used_after n c

  within-shift :
      (n : ℕ) (x : Option Counter)
      → n ≤ reserved_of x
      → within x ≡ true
      → within (map_row (shift n) x) ≡ true
  within-shift n none h w = refl
  within-shift n (some c) h w =
      ground (arith, move.reserved_after n c, move.used_after n c, move.limit_after n c)

  -- A table whose rows moved by `n` is balanced for what is then reserved and used.
  IsBalanced-shift :
      (t t' : Counts) (res con res' con' n : ℕ → ℕ)
      → IsBalanced t res con
      → ((k : ℕ) → t' k ≡ map_row (shift (n k)) (t k))
      → ((k : ℕ) → n k ≤ res k)
      → ((k : ℕ) → res' k + n k ≡ res k)
      → ((k : ℕ) → con' k ≡ con k + used_more (n k))
      → IsBalanced t' res' con'
  IsBalanced-shift t t' res con res' con' n b moved small r u = record {
    counts_reserved = λ k.
        ap reserved_of (moved k)
        ∙ reserved_of-shift (n k) (t k)
        ∙ omega (arith, b.counts_reserved k, r k);
    counts_used = λ k.
        ap used_of (moved k)
        ∙ used_of-shift (n k) (t k) (omega (arith, b.counts_reserved k, small k))
        ∙ omega (arith, b.counts_used k, u k);
    is_within = λ k.
        ap within (moved k)
        ∙ within-shift (n k) (t k) (omega (arith, b.counts_reserved k, small k)) (b.is_within k);
  }

  module _ (o : ℕ) (orders : Table OrderRow) (old new : OrderRow) (found : orders o ≡ some old)
      (before : old.reservation_state ≡ reserved) (after : new.reservation_state ≡ to_state)
      (key : ParticipantRow → ℕ) (ps : List ParticipantRow) (k : ℕ) where
    -- The order's seats are among the reserved ones, and leave them for those of the new state.
    seats-le : seats_of key o k ps ≤ held key reserved orders k ps
    seats-le = seats_of-le-held key reserved k o old orders ps found (rw before refl)

    held_reserved-move :
        held key reserved (put orders o new) k ps + seats_of key o k ps
        ≡ held key reserved orders k ps
    held_reserved-move =
        ground
          (arith, held-put key reserved k o old new orders ps found, before, after, move.leaves)

    held_consumed-move :
        held key consumed (put orders o new) k ps
        ≡ held key consumed orders k ps + used_more (seats_of key o k ps)
    held_consumed-move =
        ground (arith, held-put key consumed k o old new orders ps found, before, after)

  -- An order leaves its reservation, and its counters move with it.
  pub Moved-IsConsistent :
      (o : ℕ) (db db' : Db) (old new : OrderRow)
      → db.orders o ≡ some old
      → old.reservation_state ≡ reserved
      → new.reservation_state ≡ to_state
      → IsConsistent db
      → Moved shift laws to_state o db db'
      → IsConsistent (record db' {
        orders = put db.orders o new;
        participants = db.participants;
        free_signups = db.free_signups;
      })
  Moved-IsConsistent o db db' old new found before after c m = record {
    categories =
        IsBalanced-shift db.category_counts db'.category_counts _ _ _ _
          (λ k. seats_of (λ p. p.category_id) o k db.participants) c.categories m.category
          (λ k.
            seats-le o db.orders old new found before after (λ p. p.category_id) db.participants k)
          (λ k.
            held_reserved-move o db.orders old new found before after (λ p. p.category_id)
              db.participants k)
          (λ k. omega (
            arith,
            held_consumed-move o db.orders old new found before after (λ p. p.category_id)
                db.participants k,
          ));
    price_rules =
        IsBalanced-shift db.price_rule_counts db'.price_rule_counts _ _ _ _
          (λ k. seats_of (λ p. p.price_rule_id) o k db.participants) c.price_rules m.price_rule
          (λ k.
            seats-le o db.orders old new found before after (λ p. p.price_rule_id) db.participants
              k)
          (λ k.
            held_reserved-move o db.orders old new found before after (λ p. p.price_rule_id)
              db.participants k)
          (λ k.
            held_consumed-move o db.orders old new found before after (λ p. p.price_rule_id)
              db.participants k);
    coupons =
        IsBalanced-shift db.coupon_counts db'.coupon_counts _ _ _ _ m.uses c.coupons m.coupon.counts
          m.coupon.within (λ k. ground (arith, m.coupon.rows reserved k, move.leaves))
          (λ k. ground (arith, m.coupon.rows consumed k));
  }
