-- ===== src/Pricing/Counter.antt =====
-- The counters of event_categories, price_rules and coupons, with the conditional updates of
-- api/internal/pricing/store/pricing.sql.go, and the grouping of seats of
-- api/internal/pricing/counters.go. The three tables have the same columns: a limit (capacity, or a
-- quota where NULL is none), used_count and reserved_count.
pub mod Groups
pub mod Apply
pub mod Exact
use run.Base.{
  ℕ, ◌+◌, ◌-◌, ◌≤◌, Bool, Option, none, some, List, [], ◌∷◌, leb, ◌==◌, if◌then◌else◌, none_or,
}
use run.Platform.Apperr.{Error, Result, ok, err}
use run.Platform.Table.{Table, update_where}

pub record Counter : Type 0 where
  pub limit : Option ℕ
  pub used : ℕ
  pub reserved : ℕ

abbrev pub Counts : Type 0
Counts = Table Counter

-- The counters of a row; a row that is not there counts nothing.
abbrev pub reserved_of : Option Counter → ℕ
reserved_of none = 0
reserved_of (some c) = c.reserved

abbrev pub used_of : Option Counter → ℕ
used_of none = 0
used_of (some c) = c.used

-- `used_count + reserved_count + seats <= limit`
abbrev pub fits : ℕ → Counter → Bool
fits seats c = none_or (λ limit. leb (c.used + c.reserved + seats) limit) c.limit

abbrev pub has_reserved : ℕ → Counter → Bool
has_reserved seats c = leb seats c.reserved

abbrev pub add_reserved : ℕ → Counter → Counter
add_reserved seats c = record c { reserved = c.reserved + seats }

abbrev pub drop_reserved : ℕ → Counter → Counter
drop_reserved seats c = record c { reserved = c.reserved - seats }

abbrev pub use_reserved : ℕ → Counter → Counter
use_reserved seats c = record c { reserved = c.reserved - seats; used = c.used + seats }

-- ReserveCategorySeats, ReservePriceRuleSeats.
unfoldable pub reserve_seats : (seats id : ℕ) → Counts → Option Counts
reserve_seats seats = update_where (fits seats) (add_reserved seats)

-- ConsumeCategorySeats, ConsumePriceRuleSeats; with one seat ConsumeCouponUse.
unfoldable pub consume_seats : (seats id : ℕ) → Counts → Option Counts
consume_seats seats = update_where (has_reserved seats) (use_reserved seats)

-- ReleaseCategorySeats, ReleasePriceRuleSeats; with one seat ReleaseCouponUse.
unfoldable pub release_seats : (seats id : ℕ) → Counts → Option Counts
release_seats seats = update_where (has_reserved seats) (drop_reserved seats)

pub record SeatCount : Type 0 where
  pub id : ℕ
  pub seats : ℕ

-- `counts[key(p)]++`
pub bump : ℕ → List SeatCount → List SeatCount
bump k [] = record { id = k; seats = 1 } ∷ []
bump k (c ∷ cs) =
    let rest = bump k cs in if c.id == k then record c { seats = c.seats + 1 } ∷ cs else c ∷ rest

pub count_keys : List ℕ → List SeatCount
count_keys [] = []
count_keys (k ∷ ks) = bump k (count_keys ks)

-- `slices.SortFunc` by id.
pub insert_by_id : SeatCount → List SeatCount → List SeatCount
insert_by_id c [] = c ∷ []
insert_by_id c (d ∷ ds) =
    let rest = insert_by_id c ds in if leb c.id d.id then c ∷ d ∷ ds else d ∷ rest

pub sort_by_id : List SeatCount → List SeatCount
sort_by_id [] = []
sort_by_id (c ∷ cs) = insert_by_id c (sort_by_id cs)

-- `groupSeats` on the keys of the participants; also `GROUP BY key ORDER BY key` of
-- ListOrderCategorySeats and ListOrderPriceRuleSeats.
unfoldable pub group_seats : List ℕ → List SeatCount
unfolding bump count_keys insert_by_id sort_by_id
group_seats keys = sort_by_id (count_keys keys)

-- `for _, c := range groups`: one update for each group, until one changes no row.
unfoldable pub apply_all :
    ((seats id : ℕ) → Counts → Option Counts) → Error → List SeatCount → Counts → Result Counts
apply_all update e [] t = ok t
apply_all update e (c ∷ cs) t = elim (update c.seats c.id t) [
  | none ↦ err e
  | some t' ↦ apply_all update e cs t'
]
