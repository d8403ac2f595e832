-- ===== src/Pricing/Rules/Locked.antt =====
-- What a change of a price rule may change.
use mathlib.Core.Path.{subst}
use run.Base.{ℕ, ◌+◌, ◌<◌, ◌≡◌, refl, sym, ◌∙◌, ap, Bool, true, false, not, Option, some, arith}
use run.Platform.Apperr.{
  field, with_field, validation_error, price_rule_locked, ok, new, guard, bind-eq-ok, bind-ok,
}
use run.Platform.Inversion.{same_result, guard-inv}
use run.Platform.Table.{put}
use run.Pricing.Tier.{Audience, all, local, other}
use run.Pricing.Counter.{Counter, Counts}
use run.Store.{Db, PriceRuleRow}
use run.Registration.Consistent.{IsConsistent, IsBalanced}
use run.Pricing.Rules.{
  PriceRuleInput, normalize_ids, same_audience, get_price_rule_for_update, all_of_event, is_frozen,
  is_below, updated_row, relinked, links_changed, check_rule, update_price_rule_tx,
}

-- A new limit that is not below what is taken.
IsBalanced-limit :
    (t : Counts) (res con : ℕ → ℕ) (id : ℕ) (c : Counter) (quota : Option ℕ)
    → IsBalanced t res con
    → t id ≡ some c
    → is_below (c.used + c.reserved) quota ≡ false
    → IsBalanced (put t id (record c { limit = quota })) res con
IsBalanced-limit t res con id c quota b found room = record {
  counts_reserved = λ k. ground (arith, b.counts_reserved k, found);
  counts_used = λ k. ground (arith, b.counts_used k, found);
  is_within = λ k. ground (arith, b.is_within k, found, room);
}

same_audience-eq : (a b : Audience) → same_audience a b ≡ true → a ≡ b
same_audience-eq all all h = refl
same_audience-eq local local h = refl
same_audience-eq other other h = refl
same_audience-eq all local h = cc
same_audience-eq all other h = cc
same_audience-eq local all h = cc
same_audience-eq local other h = cc
same_audience-eq other all h = cc
same_audience-eq other local h = cc

-- What the checks of a rule let through.
record IsAllowed (input : PriceRuleInput) (changed : Bool) (row : PriceRuleRow) (c : Counter)
    : Type 0 where
  room : is_below (c.used + c.reserved) input.quota ≡ false
  same_price : 0 < c.used + c.reserved → input.price_cents ≡ row.price_cents
  same_for : 0 < c.used + c.reserved → input.audience ≡ row.audience
  same_links : 0 < c.used + c.reserved → changed ≡ false

thawed-IsAllowed :
    (input : PriceRuleInput) (changed : Bool) (row : PriceRuleRow) (c : Counter)
    → not (is_frozen input row (c.used + c.reserved) changed) ≡ true
    → not (is_below (c.used + c.reserved) input.quota) ≡ true
    → IsAllowed input changed row c
unfolding is_frozen
thawed-IsAllowed input changed row c thawed room = record {
  room = ground (arith, room);
  same_price = λ sold. ground (arith, thawed, sold);
  same_for = λ sold. same_audience-eq input.audience row.audience (ground (arith, thawed, sold));
  same_links = λ sold. ground (arith, thawed, sold);
}

check_rule-IsAllowed :
    (input : PriceRuleInput) (changed : Bool) (row : PriceRuleRow) (c : Counter) (db : Db)
    (r : Unit {0} × Db)
    → check_rule input changed row c db ≡ ok r
    → IsAllowed input changed row c × (r.1 ≡ db)
unfolding check_rule
check_rule-IsAllowed input changed row c db r h =
    let invalid = with_field validation_error (field "categoryIds") "field.invalid" in
    let below = with_field validation_error (field "quota") "field.quota_below_taken" in
    let locked = new 409 price_rule_locked in
    let own = all_of_event row.event_id db.categories (normalize_ids input.category_ids) in
    let frozen = is_frozen input row (c.used + c.reserved) changed in
    let (g, e1, h1) = bind-eq-ok (guard own invalid) _ db h in
    let (of_event, same1) = guard-inv own invalid db g e1 in
    let (g', e2, h2) = bind-eq-ok (guard (not frozen) locked) _ g.1 h1 in
    let (thawed, same2) = guard-inv (not frozen) locked g.1 g' e2 in
    let (room, same3) =
      guard-inv (not (is_below (c.used + c.reserved) input.quota)) below g'.1 r h2 in
    (thawed-IsAllowed input changed row c thawed room, same3 ∙ same2 ∙ same1)

-- The rule after an update: what was sold keeps its price, whom it is for, and its categories.
pub record IsUpdated (id : ℕ) (row : PriceRuleRow) (c : Counter) (db db' : Db) : Type 0 where
  pub is_consistent : IsConsistent db'
  pub orders_kept : db'.orders ≡ db.orders
  pub updated : PriceRuleRow
  pub stored : db'.price_rules id ≡ some updated
  pub price_kept : 0 < c.used + c.reserved → updated.price_cents ≡ row.price_cents
  pub audience_kept : 0 < c.used + c.reserved → updated.audience ≡ row.audience
  pub links_kept : 0 < c.used + c.reserved → db'.links ≡ db.links

-- An update of a price rule that goes through keeps the counters right, with the new quota not below
-- the seats that are taken. When seats of the rule are reserved or used, its price, its audience and
-- its categories stay.
pub update_price_rule_tx-IsUpdated :
    (id : ℕ) (input : PriceRuleInput) (row : PriceRuleRow) (c : Counter) (db : Db)
    (r : Unit {0} × Db)
    → IsConsistent db
    → db.price_rules id ≡ some row
    → db.price_rule_counts id ≡ some c
    → update_price_rule_tx id input db ≡ ok r
    → IsUpdated id row c db r.1
unfolding update_price_rule_tx
update_price_rule_tx-IsUpdated id input row c db r sound there counted h =
    let changed = links_changed id input db in
    let got : get_price_rule_for_update id db ≡ ok ((row, c), db) = rw (there, counted) refl in
    let h0 = sym (bind-ok (get_price_rule_for_update id) _ db db (row, c) got) ∙ h in
    let (k, e, h1) = bind-eq-ok (check_rule input changed row c) _ db h0 in
    let (a, same) = check_rule-IsAllowed input changed row c db k e in
    let sk = subst IsConsistent (sym same) sound in
    let counted' = ap (λ (x : Db). x.price_rule_counts id) same ∙ counted in
    let rules =
      IsBalanced-limit k.1.price_rule_counts _ _ id c input.quota sk.price_rules counted' a.room in
    subst (λ (x : Unit {0} × Db). IsUpdated id row c db x.1) (same_result h1)
      (record {
        is_consistent = record {
          categories = sk.categories;
          price_rules = record {
            counts_reserved = rules.counts_reserved;
            counts_used = rules.counts_used;
            is_within = rules.is_within;
          };
          coupons = sk.coupons;
        };
        orders_kept = ap (λ (x : Db). x.orders) same;
        updated = updated_row input row;
        stored = ground arith;
        price_kept = a.same_price;
        audience_kept = a.same_for;
        links_kept = λ sold.
            ap (λ b. relinked b id (normalize_ids input.category_ids) k.1.links) (a.same_links sold)
            ∙ ap (λ (x : Db). x.links) same;
      })
