-- ===== src/Pricing/Rules.antt =====
-- The transaction of `UpdatePriceRule` of api/internal/pricing/rules.go, from an input that
-- ValidatePriceRule accepted. The name of a rule is left out.
pub mod Locked
use run.Base.{
  ℕ, ◌+◌, Bool, true, false, not, ◌&&◌, ◌||◌, Option, none, some, List, [], ◌∷◌, ◌++◌, map, ltb,
  leb, ◌==◌, if◌then◌else◌, some_and, filter_if,
}
use run.Platform.Apperr.{
  field, Error, Result, ok, err, new, with_field, validation_error, not_found, price_rule_locked,
  Tx, pure, lift, guard, modify, ◌>>=◌, ◌>>◌,
}
use run.Platform.Table.{Table, put}
use run.Pricing.Tier.{Audience, all, local, other}
use run.Pricing.Counter.{Counter}
use run.Store.{Db, CategoryRow, PriceRuleRow, CategoryLink, AuditRow}

pub record PriceRuleInput : Type 0 where
  pub audience : Audience
  pub price_cents : ℕ
  pub quota : Option ℕ
  pub sale_starts_at : Option ℕ
  pub sale_ends_at : Option ℕ
  pub sort_order : ℕ
  pub category_ids : List ℕ

-- slices.Sort and slices.Compact.
abbrev pub insert_id : ℕ → List ℕ → List ℕ
insert_id a [] = a ∷ []
insert_id a (b ∷ bs) = let rest = insert_id a bs in if leb a b then a ∷ b ∷ bs else b ∷ rest

abbrev pub sort_ids : List ℕ → List ℕ
sort_ids [] = []
sort_ids (a ∷ as') = insert_id a (sort_ids as')

abbrev pub add_unless_first : ℕ → List ℕ → List ℕ
add_unless_first a [] = a ∷ []
add_unless_first a (b ∷ bs) = if a == b then b ∷ bs else a ∷ b ∷ bs

abbrev pub compact : List ℕ → List ℕ
compact [] = []
compact (a ∷ as') = add_unless_first a (compact as')

unfoldable pub normalize_ids : List ℕ → List ℕ
normalize_ids ids = compact (sort_ids ids)

-- slices.Equal.
abbrev pub same_ids : List ℕ → List ℕ → Bool
same_ids [] [] = true
same_ids [] (b ∷ bs) = false
same_ids (a ∷ as') [] = false
same_ids (a ∷ as') (b ∷ bs) = (a == b) && same_ids as' bs

-- The CHECK constraint of the column leaves only the first two.
abbrev pub same_audience : Audience → Audience → Bool
same_audience all all = true
same_audience local local = true
same_audience other other = true
same_audience _ _ = false

-- categoryIDsByRule, for one rule: ORDER BY category_id.
abbrev pub of_rule : ℕ → CategoryLink → Bool
of_rule id l = l.price_rule_id == id

unfoldable pub category_ids_by_rule : ℕ → List CategoryLink → List ℕ
category_ids_by_rule id links = sort_ids (map (λ l. l.category_id) (filter_if (of_rule id) links))

-- requireCategoriesOf.
abbrev pub is_of_event : ℕ → Option CategoryRow → Bool
is_of_event event_id row = some_and (λ c. c.event_id == event_id) row

abbrev pub all_of_event : ℕ → Table CategoryRow → List ℕ → Bool
all_of_event event_id categories [] = true
all_of_event event_id categories (id ∷ ids) =
    is_of_event event_id (categories id) && all_of_event event_id categories ids

-- GetPriceRuleForUpdate: the row and its counters.
abbrev pub locked_rule : Option PriceRuleRow → Option Counter → Result (PriceRuleRow × Counter)
locked_rule (some row) (some c) = ok (row, c)
locked_rule (some row) none = err (new 404 not_found)
locked_rule none c = err (new 404 not_found)

abbrev pub get_price_rule_for_update : ℕ → Tx Db (PriceRuleRow × Counter)
get_price_rule_for_update id db =
    lift (locked_rule (db.price_rules id) (db.price_rule_counts id)) db

-- `taken > 0 && (price, audience or categories changed)`
unfoldable pub is_frozen : PriceRuleInput → PriceRuleRow → (taken : ℕ) → (changed : Bool) → Bool
is_frozen input row taken changed =
    ltb 0 taken
    && (not (input.price_cents == row.price_cents)
        || not (same_audience input.audience row.audience)
        || changed)

abbrev pub is_below : (taken : ℕ) → Option ℕ → Bool
is_below taken quota = some_and (λ q. ltb q taken) quota

-- UpdatePriceRule.
abbrev pub updated_row : PriceRuleInput → PriceRuleRow → PriceRuleRow
updated_row input row = record row {
  audience = input.audience;
  price_cents = input.price_cents;
  sale_starts_at = input.sale_starts_at;
  sale_ends_at = input.sale_ends_at;
  sort_order = input.sort_order;
}

-- DeleteCategoryLinksByRule and insertCategoryLinks, if the categories changed.
abbrev pub relinked : (changed : Bool) → ℕ → List ℕ → List CategoryLink → List CategoryLink
relinked false id ids links = links
relinked true id ids links =
    map (λ c. record { category_id = c; price_rule_id = id }) ids
    ++ filter_if (λ l. not (of_rule id l)) links

abbrev pub write_rule :
    (id : ℕ) → PriceRuleInput → (changed : Bool) → PriceRuleRow → Counter → Tx Db (Unit {0})
write_rule id input changed row c = modify (λ db. record db {
  price_rules = put db.price_rules id (updated_row input row);
  price_rule_counts = put db.price_rule_counts id (record c { limit = input.quota });
  links = relinked changed id (normalize_ids input.category_ids) db.links;
})

abbrev pub record_update : (id : ℕ) → Tx Db (Unit {0})
record_update id =
    modify (λ db. record db {
      audit = record { action = "price_rule.update"; entity_id = id } ∷ db.audit;
    })

abbrev pub links_changed : (id : ℕ) → PriceRuleInput → Db → Bool
links_changed id input db =
    not (same_ids (category_ids_by_rule id db.links) (normalize_ids input.category_ids))

-- What is asked of the locked rule.
unfoldable pub check_rule :
    PriceRuleInput → (changed : Bool) → PriceRuleRow → Counter → Tx Db (Unit {0})
unfolding is_frozen
check_rule input changed row c = do
  db ← λ s. ok (s, s)
  guard (all_of_event row.event_id db.categories (normalize_ids input.category_ids))
      (with_field validation_error (field "categoryIds") "field.invalid")
  guard (not (is_frozen input row (c.used + c.reserved) changed)) (new 409 price_rule_locked)
  guard (not (is_below (c.used + c.reserved) input.quota))
      (with_field validation_error (field "quota") "field.quota_below_taken")

unfoldable pub update_price_rule_tx : (id : ℕ) → PriceRuleInput → Tx Db (Unit {0})
unfolding normalize_ids category_ids_by_rule check_rule
update_price_rule_tx id input = do
  (row, c) ← get_price_rule_for_update id
  changed ← λ s. ok (links_changed id input s, s)
  check_rule input changed row c
  write_rule id input changed row c
  record_update id
