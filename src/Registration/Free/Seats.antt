-- ===== src/Registration/Free/Seats.antt =====
-- A free sign-up takes one seat of its category, within the limit.
use Prim.Native.String.{String}
use mathlib.Core.Path.{subst}
use run.Base.{
  Option, ℕ, ◌+◌, ◌≡◌, refl, sym, ◌∙◌, ap, true, some, List, ◌∷◌, arith, Bool-cases, Option-cases,
  inl, inr, ◌==◌, if◌then◌else◌,
}
use run.Registration.Orders.{record_audit}
use run.Platform.Apperr.{
  Tx, ◌>>◌, guard, lift, registration_closed, field, with_field, already_registered,
  category_sold_out, Result, ok, err, new, bind-eq-ok,
}
use run.Platform.Inversion.{same_result, guard-inv, lift-inv}
use run.Platform.Table.{update_where, update_where-eq-some}
use run.Pricing.Counter.{Counter, Counts, fits}
use run.Store.{Db, FreeSignupRow, reserved, consumed}
use run.Registration.Consistent.{IsConsistent, IsBalanced, signed_up, held_categories}
use run.Registration.Free.{
  FreeEventRow, FreeSignupInput, event_or_error, free_signup_open, get_category, of_event,
  check_age, signup_of, create_free_signup_tx, use_seat, take_seat, has_signup, insert_free_signup,
  place_signup,
}

-- One seat more is used of the category, and nothing else changed.
IsBalanced-seat :
    (t t' : Counts) (res con : ℕ → ℕ) (id : ℕ) (c : Counter) (fs : List FreeSignupRow)
    (f : FreeSignupRow)
    → IsBalanced t res (λ k. con k + signed_up k fs)
    → t id ≡ some c
    → fits 1 c ≡ true
    → f.category_id ≡ id
    → ((j : ℕ) → t' j ≡ (if j == id then some (use_seat c) else t j))
    → IsBalanced t' res (λ k. con k + signed_up k (f ∷ fs))
IsBalanced-seat t t' res con id c fs f b found room of_id after = record {
  counts_reserved = λ k. ground (arith, b.counts_reserved k, found, after k);
  counts_used = λ k. ground (arith, b.counts_used k, found, after k, of_id);
  is_within = λ k. ground (arith, b.is_within k, found, after k, room);
}

take_seat-inv :
    (id : ℕ) (db : Db) (r : Unit {0} × Db)
    → take_seat id db ≡ ok r
    → (t : Counts) × (update_where (fits 1) use_seat id db.category_counts ≡ some t)
      × (r.1 ≡ record db { category_counts = t })
unfolding take_seat
take_seat-inv id db r h =
    elim (Option-cases (update_where (fits 1) use_seat id db.category_counts)) [
      | inl full ↦
          let e : take_seat id db ≡ err (new 409 category_sold_out) = rw (full, take_seat) refl in
          let bad : ◌≡◌ {A = Result (Unit {0} × Db)} (err (new 409 category_sold_out)) (ok r) =
            sym e ∙ h in
          cc
      | inr (t, taken) ↦
          let e : take_seat id db ≡ ok (tt, record db { category_counts = t }) =
            rw (taken, take_seat) refl in
          (t, taken, ap (λ (x : Unit {0} × Db). x.1) (same_result (sym h ∙ e)))
    ]

insert_free_signup-inv :
    (lower : String → String) (f : FreeSignupRow) (db : Db) (r : Unit {0} × Db)
    → insert_free_signup lower f db ≡ ok r
    → r.1 ≡ record db { free_signups = f ∷ db.free_signups }
unfolding insert_free_signup
insert_free_signup-inv lower f db r h = elim (Bool-cases (has_signup lower f db.free_signups)) [
  | inl there ↦
      let bad : ◌≡◌ {A = Result (Unit {0} × Db)}
          (err
            (with_field (new 409 already_registered) (field "fullName") "field.already_registered"))
          (ok r) =
        rw there at h in
      cc
  | inr new_one ↦ ap (λ (x : Unit {0} × Db). x.1) (sym (same_result (rw new_one at h)))
]

-- When a seat is taken and the row is written, the counters are right again and pass no limit, and
-- no order changed.
pub place_signup-IsConsistent :
    (lower : String → String) (f : FreeSignupRow) (db : Db) (r : Unit {0} × Db)
    → IsConsistent db
    → place_signup lower f db ≡ ok r
    → IsConsistent r.1 × (r.1.orders ≡ db.orders)
unfolding place_signup
place_signup-IsConsistent lower f db r c h =
    let (p, e, h1) = bind-eq-ok (take_seat f.category_id) _ db h in
    let (t, taken, same) = take_seat-inv f.category_id db p e in
    let (row, found, room, after) =
      update_where-eq-some (fits 1) use_seat f.category_id db.category_counts taken in
    let final : r.1 ≡ record db { category_counts = t; free_signups = f ∷ db.free_signups } =
      insert_free_signup-inv lower f p.1 r h1
      ∙ ap (λ (x : Db). record x { free_signups = f ∷ x.free_signups }) same in
    let balanced =
      IsBalanced-seat db.category_counts t (held_categories reserved db)
        (held_categories consumed db) f.category_id row db.free_signups f c.categories found room
        refl after in
    (
      subst IsConsistent (sym final) (record {
        categories = record {
          counts_reserved = balanced.counts_reserved;
          counts_used = balanced.counts_used;
          is_within = balanced.is_within;
        };
        price_rules = c.price_rules;
        coupons = c.coupons;
      }),
      ap (λ (x : Db). x.orders) final,
    )

-- What follows the row of a new sign-up.
abbrev close_signup : Result (Unit {0}) → (id : ℕ) → Tx Db (Unit {0})
close_signup consent id = do
  lift consent
  record_audit (record { action = "free_signup.create"; entity_id = id })

write_signup-IsConsistent :
    (lower : String → String) (f : FreeSignupRow) (id : ℕ) (consent : Result (Unit {0})) (db : Db)
    (r : Unit {0} × Db)
    → IsConsistent db
    → (place_signup lower f >> close_signup consent id) db ≡ ok r
    → IsConsistent r.1 × (r.1.orders ≡ db.orders)
write_signup-IsConsistent lower f id consent db r c h =
    let (p, e, h1) = bind-eq-ok (place_signup lower f) _ db h in
    let (c', orders) = place_signup-IsConsistent lower f db p c e in
    let (v, e2, h2) = bind-eq-ok (lift consent) _ p.1 h1 in
    let same = lift-inv consent p.1 v e2 in
    let cv = subst IsConsistent (sym same) c' in
    subst (λ (x : Unit {0} × Db). IsConsistent x.1 × (x.1.orders ≡ db.orders)) (same_result h2)
      (
        record { categories = cv.categories; price_rules = cv.price_rules; coupons = cv.coupons },
        ap (λ (x : Db). x.orders) same ∙ orders,
      )

-- A free sign-up that goes through keeps the counters right and changes no order.
pub create_free_signup_tx-IsConsistent :
    (lower : String → String) (user id now : ℕ) (event : Option FreeEventRow)
    (input : FreeSignupInput) (consent : Result (Unit {0})) (db : Db) (r : Unit {0} × Db)
    → IsConsistent db
    → create_free_signup_tx lower user id now event input consent db ≡ ok r
    → IsConsistent r.1 × (r.1.orders ≡ db.orders)
unfolding create_free_signup_tx
create_free_signup_tx-IsConsistent lower user id now event input consent db r c h =
    let closed = new 409 registration_closed in
    let (ev, e1, h1) = bind-eq-ok (lift (event_or_error event)) _ db h in
    let same1 = lift-inv (event_or_error event) db ev e1 in
    let (g, e2, h2) = bind-eq-ok (guard (free_signup_open ev.0 now) closed) _ ev.1 h1 in
    let (opened, same2) = guard-inv (free_signup_open ev.0 now) closed ev.1 g e2 in
    let (cat, e3, h3) = bind-eq-ok (get_category ev.0.id input.category_id) _ g.1 h2 in
    let same3 = lift-inv (of_event ev.0.id (g.1.categories input.category_id)) g.1 cat e3 in
    let age = check_age cat.0.min_age ev.0.race_date input.birth_date in
    let (a, e4, h4) = bind-eq-ok (lift age) _ cat.1 h3 in
    let same = lift-inv age cat.1 a e4 ∙ same3 ∙ same2 ∙ same1 in
    let f = signup_of user ev.0.id input in
    write_signup-IsConsistent lower f id consent db r c
      (subst (λ (x : Db). (place_signup lower f >> close_signup consent id) x ≡ ok r) same h4)
