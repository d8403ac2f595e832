-- ===== src/Registration/Changed.antt =====
-- What an operation that succeeded on a consistent database did to its order.
use mathlib.Core.Path.{subst}
use run.Base.{
  ℕ, ◌≡◌, refl, sym, ◌∙◌, ap, Bool, true, false, none, some, arith, Bool-cases, Option-cases, inl,
  inr,
}
use run.Platform.Apperr.{
  Result, ok, err, new, order_state_conflict, Tx, guard, bind-ok, bind-eq-ok, ◌>>=◌,
}
use run.Platform.Inversion.{same_result}
use run.Platform.Table.{put}
use run.Store.{Db, OrderRow, ReservationState, reserved, consumed, ReleaseKind, ParticipantRow}
use run.Registration.Held.{held-put}
use run.Registration.Orders.{
  update_order, can_pay, set_paid, can_release, set_released, can_submit, set_submitted, can_reject,
  set_rejected, confirm_paid, release_order, mark_proof_submitted, mark_proof_rejected,
}
use run.Registration.Consistent.{IsConsistent}
use run.Registration.Finish.{update_order-true, update_order-false}
use run.Registration.Outcome.{
  confirm_paid-ok, confirm_paid-conflict, release_order-true, release_order-false,
}

-- The order met the test, its row was changed and no other, and the counters are right.
pub record IsChanged (test : OrderRow → Bool) (change : OrderRow → OrderRow) (o : ℕ) (db db' : Db)
    : Type 0 where
  pub row : OrderRow
  pub found : db.orders o ≡ some row
  pub met : test row ≡ true
  pub orders : db'.orders ≡ put db.orders o (change row)
  pub is_consistent : IsConsistent db'

module _ (test : OrderRow → Bool) (change : OrderRow → OrderRow) (o : ℕ) (db : Db) where
  update_order-none : db.orders o ≡ none → update_order test change o db ≡ ok (false, db)
  update_order-none gone = ground (arith, gone)

  update_order-inv :
      (r : Bool × Db)
      → update_order test change o db ≡ ok r
      → r.0 ≡ true
      → (row : OrderRow) × (db.orders o ≡ some row)
        × (test row ≡ true)
        × (r.1 ≡ record db { orders = put db.orders o (change row) })
  update_order-inv r h t = elim (Option-cases (db.orders o)) [
    | inl gone ↦
        let bad : false ≡ true =
          ap (λ (x : Bool × Db). x.0) (same_result (sym (update_order-none gone) ∙ h)) ∙ t in
        cc
    | inr (row, found) ↦ elim (Bool-cases (test row)) [
      | inl met ↦ (
        row,
        found,
        met,
        ap (λ (x : Bool × Db). x.1)
            (same_result (sym h ∙ update_order-true test change o db row found met)),
      )
      | inr not_met ↦
          let bad : false ≡ true =
            ap (λ (x : Bool × Db). x.0)
              (same_result (sym (update_order-false test change o db row found not_met) ∙ h))
            ∙ t in
          cc
    ]
  ]

-- A change of a row that keeps its reservation keeps the counters right.
same_state-IsConsistent :
    (o : ℕ) (db : Db) (old row : OrderRow)
    → db.orders o ≡ some old
    → row.reservation_state ≡ old.reservation_state
    → IsConsistent db
    → IsConsistent (record db { orders = put db.orders o row })
same_state-IsConsistent o db old row found same c =
    let kept = λ (key : ParticipantRow → ℕ) (st : ReservationState) (k : ℕ).
      held-put key st k o old row db.orders db.participants found in
    record {
      categories = record {
        counts_reserved = λ k.
            ground
              (arith, c.categories.counts_reserved k, kept (λ p. p.category_id) reserved k, same);
        counts_used = λ k.
            ground (arith, c.categories.counts_used k, kept (λ p. p.category_id) consumed k, same);
        is_within = c.categories.is_within;
      };
      price_rules = record {
        counts_reserved = λ k.
            ground (
              arith,
              c.price_rules.counts_reserved k,
              kept (λ p. p.price_rule_id) reserved k,
              same,
            );
        counts_used = λ k.
            ground
              (arith, c.price_rules.counts_used k, kept (λ p. p.price_rule_id) consumed k, same);
        is_within = c.price_rules.is_within;
      };
      coupons = record {
        counts_reserved = c.coupons.counts_reserved;
        counts_used = c.coupons.counts_used;
        is_within = c.coupons.is_within;
      };
    }

-- An operation that does nothing but a conditional update that has to find its row.
module _ (test : OrderRow → Bool) (change : OrderRow → OrderRow) (o : ℕ) (db : Db)
    (same : (row : OrderRow) → (change row).reservation_state ≡ row.reservation_state) where
  marked : Tx Db (Unit {0})
  marked = update_order test change o >>= λ n. guard n (new 409 order_state_conflict)

  marked-IsChanged :
      (r : Unit {0} × Db) → IsConsistent db → marked db ≡ ok r → IsChanged test change o db r.1
  unfolding marked
  marked-IsChanged r c h =
      let ((n, d), e, h1) = bind-eq-ok (update_order test change o) _ db h in
      elim (Bool-cases n) [
        | inl yes_ ↦
            let (row, found, met, final) = update_order-inv test change o db (n, d) e yes_ in
            let kept : (tt {0}, d) ≡ r = same_result (rw yes_ at h1) in
            let whole : r.1 ≡ record db { orders = put db.orders o (change row) } =
              ap (λ (x : Unit {0} × Db). x.1) (sym kept) ∙ final in
            record {
              row = row;
              found = found;
              met = met;
              orders = ap (λ (x : Db). x.orders) whole;
              is_consistent =
                  subst IsConsistent (sym whole)
                    (same_state-IsConsistent o db row (change row) found (same row) c);
            }
        | inr no_ ↦
            let bad : ◌≡◌ {A = Result (Unit {0} × Db)} (err (new 409 order_state_conflict)) (ok r) =
              rw no_ at h1 in
            cc
      ]

pub mark_proof_submitted-IsChanged :
    (o : ℕ) (db : Db) (r : Unit {0} × Db)
    → IsConsistent db
    → mark_proof_submitted o db ≡ ok r
    → IsChanged can_submit set_submitted o db r.1
unfolding mark_proof_submitted marked
mark_proof_submitted-IsChanged o db r c h =
    marked-IsChanged can_submit set_submitted o db (λ row. refl) r c h

pub mark_proof_rejected-IsChanged :
    (o deadline : ℕ) (db : Db) (r : Unit {0} × Db)
    → IsConsistent db
    → mark_proof_rejected o deadline db ≡ ok r
    → IsChanged can_reject (set_rejected deadline) o db r.1
unfolding mark_proof_rejected marked
mark_proof_rejected-IsChanged o deadline db r c h =
    marked-IsChanged can_reject (set_rejected deadline) o db (λ row. refl) r c h

confirm_paid-missing :
    (o paid_at : ℕ) (db : Db)
    → db.orders o ≡ none
    → confirm_paid o paid_at db ≡ err (new 409 order_state_conflict)
unfolding confirm_paid
confirm_paid-missing o paid_at db gone =
    bind-ok (update_order can_pay (set_paid paid_at) o) _ db db false
      (update_order-none can_pay (set_paid paid_at) o db gone)

release_order-missing :
    (o : ℕ) (kind : ReleaseKind) (db : Db)
    → db.orders o ≡ none
    → release_order o kind db ≡ ok (false, db)
unfolding release_order
release_order-missing o kind db gone =
    bind-ok (update_order (can_release kind) (set_released kind) o) _ db db false
      (update_order-none (can_release kind) (set_released kind) o db gone)

-- The paid order.
pub confirm_paid-IsChanged :
    (o paid_at : ℕ) (db : Db) (r : Unit {0} × Db)
    → IsConsistent db
    → confirm_paid o paid_at db ≡ ok r
    → IsChanged can_pay (set_paid paid_at) o db r.1
confirm_paid-IsChanged o paid_at db r c h = elim (Option-cases (db.orders o)) [
  | inl gone ↦
      let bad : ◌≡◌ {A = Result (Unit {0} × Db)} (err (new 409 order_state_conflict)) (ok r) =
        sym (confirm_paid-missing o paid_at db gone) ∙ h in
      cc
  | inr (row, found) ↦ elim (Bool-cases (can_pay row)) [
    | inl can ↦
        let (d, e, orders, ps, c') = confirm_paid-ok o paid_at db row c found can in
        let same : d ≡ r.1 = ap (λ (x : Unit {0} × Db). x.1) (same_result (sym e ∙ h)) in
        record {
          row = row;
          found = found;
          met = can;
          orders = ap (λ (x : Db). x.orders) (sym same) ∙ orders;
          is_consistent = subst IsConsistent same c';
        }
    | inr cannot ↦
        let bad : ◌≡◌ {A = Result (Unit {0} × Db)} (err (new 409 order_state_conflict)) (ok r) =
          sym (confirm_paid-conflict o paid_at db row found cannot) ∙ h in
        cc
  ]
]

-- The released order.
pub release_order-IsChanged :
    (o : ℕ) (kind : ReleaseKind) (db d' : Db)
    → IsConsistent db
    → release_order o kind db ≡ ok (true, d')
    → IsChanged (can_release kind) (set_released kind) o db d'
release_order-IsChanged o kind db d' c h = elim (Option-cases (db.orders o)) [
  | inl gone ↦
      let bad : false ≡ true =
        ap (λ (x : Bool × Db). x.0)
          (same_result (sym (release_order-missing o kind db gone) ∙ h)) in
      cc
  | inr (row, found) ↦ elim (Bool-cases (can_release kind row)) [
    | inl can ↦
        let (d, e, orders, ps, ids, c', uses) = release_order-true o kind db row c found can in
        let same : d ≡ d' = ap (λ (x : Bool × Db). x.1) (same_result (sym e ∙ h)) in
        record {
          row = row;
          found = found;
          met = can;
          orders = ap (λ (x : Db). x.orders) (sym same) ∙ orders;
          is_consistent = subst IsConsistent same c';
        }
    | inr cannot ↦
        let bad : false ≡ true =
          ap (λ (x : Bool × Db). x.0)
            (same_result (sym (release_order-false o kind db row found cannot) ∙ h)) in
        cc
  ]
]

-- An order that was not released is as before, and so is all else.
pub release_order-unchanged :
    (o : ℕ) (kind : ReleaseKind) (db d' : Db)
    → IsConsistent db
    → release_order o kind db ≡ ok (false, d')
    → d' ≡ db
release_order-unchanged o kind db d' c h =
    let second = λ (x : Bool × Db). x.1 in
    elim (Option-cases (db.orders o)) [
      | inl gone ↦ ap second (same_result (sym h ∙ release_order-missing o kind db gone))
      | inr (row, found) ↦ elim (Bool-cases (can_release kind row)) [
        | inl can ↦
            let (d, e, orders, ps, ids, c', uses) = release_order-true o kind db row c found can in
            let bad : true ≡ false = ap (λ (x : Bool × Db). x.0) (same_result (sym e ∙ h)) in cc
        | inr cannot ↦
            ap second (same_result (sym h ∙ release_order-false o kind db row found cannot))
      ]
    ]
