-- ===== src/Payment/Inversion.antt =====
-- The steps of package payment taken apart when they succeeded.
use Prim.Native.String.{String}
use mathlib.Core.Path.{subst}
use run.Base.{
  ℕ, ◌≡◌, refl, sym, ◌∙◌, ap, Bool, true, ◌&&◌, Option, some, arith, Bool-cases, Option-cases, inl,
  inr, ◌∷◌,
}
use run.Platform.Inversion.{same_result, guard-inv}
use run.Platform.Apperr.{
  internal_error, Result, ok, err, new, Tx, guard, bind-eq-ok, not_found, order_state_conflict,
  order_not_found, proof_txn_ref_used,
}
use run.Platform.Table.{put}
use run.Store.{Db, OrderRow}
use run.Registration.Orders.{lock_order, is_proof_submitted}
use run.Payment.Review.{
  PayDb, ProofRow, ReceiptRow, on_db, lock_payment_proof, order_of, lock_for_review, is_submitted,
  breaks_constraint, update_proof, has_receipt, insert_receipt, insert_overpaid,
}
use run.Payment.Review.Approved.{IsReviewable, update_proof-ok, insert_overpaid-ok}

pub on_db-inv :
    {A : Type 0} (m : Tx Db A) (s : PayDb) (r : A × PayDb)
    → on_db m s ≡ ok r
    → (d : Db) × (m s.db ≡ ok (r.0, d)) × (r.1 ≡ record s { db = d })
on_db-inv {A} m s r h = go (m s.db) refl h
  where
    go :
        (x : Result (A × Db))
        → m s.db ≡ x
        → elim x as (λ _. Result (A × PayDb)) [
          | ok (a, d) ↦ ok (a, record s { db = d })
          | err e ↦ err e
        ]
          ≡ ok r
        → (d : Db) × (m s.db ≡ ok (r.0, d)) × (r.1 ≡ record s { db = d })
    go (ok (a, d)) e h' =
        let eq = same_result h' in
        (
          d,
          e ∙ ap {A = A} {B = Result (A × Db)} (λ b. ok (b, d)) (ap (λ (x : A × PayDb). x.0) eq),
          sym (ap (λ (x : A × PayDb). x.1) eq),
        )
    go (err e') e h' = cc

lock_payment_proof-inv :
    (id : ℕ) (s : PayDb) (r : ProofRow × PayDb)
    → lock_payment_proof id s ≡ ok r
    → (s.proofs id ≡ some r.0) × (r.1 ≡ s)
lock_payment_proof-inv id s r h = elim (Option-cases (s.proofs id)) [
  | inl gone ↦
      let e : lock_payment_proof id s ≡ err (new 404 not_found) = ground (arith, gone) in
      let bad : ◌≡◌ {A = Result (ProofRow × PayDb)} (err (new 404 not_found)) (ok r) = sym e ∙ h in
      cc
  | inr (p, found) ↦
      let e : lock_payment_proof id s ≡ ok (p, s) = ground (arith, found) in
      let eq = same_result (sym e ∙ h) in
      (
        found ∙ ap (λ (x : ProofRow × PayDb). some x.0) eq,
        ap (λ (x : ProofRow × PayDb). x.1) (sym eq),
      )
]

order_of-inv :
    (p : ProofRow) (s : PayDb) (r : ℕ × PayDb)
    → order_of p s ≡ ok r
    → (p.reg_order_id ≡ some r.0) × (r.1 ≡ s)
order_of-inv p s r h = elim (Option-cases p.reg_order_id) [
  | inl gone ↦
      let e : order_of p s ≡ err (new 404 not_found) = ground (arith, gone) in
      let bad : ◌≡◌ {A = Result (ℕ × PayDb)} (err (new 404 not_found)) (ok r) = sym e ∙ h in cc
  | inr (o, found) ↦
      let e : order_of p s ≡ ok (o, s) = ground (arith, found) in
      let eq = same_result (sym e ∙ h) in
      (found ∙ ap (λ (x : ℕ × PayDb). some x.0) eq, ap (λ (x : ℕ × PayDb). x.1) (sym eq))
]

pub lock_order-inv :
    (o : ℕ) (db : Db) (r : OrderRow × Db)
    → lock_order o db ≡ ok r
    → (db.orders o ≡ some r.0) × (r.1 ≡ db)
lock_order-inv o db r h = elim (Option-cases (db.orders o)) [
  | inl gone ↦
      let e : lock_order o db ≡ err (new 404 order_not_found) = ground (arith, gone) in
      let bad : ◌≡◌ {A = Result (OrderRow × Db)} (err (new 404 order_not_found)) (ok r) =
        sym e ∙ h in
      cc
  | inr (row, found) ↦
      let e : lock_order o db ≡ ok (row, db) = ground (arith, found) in
      let eq = same_result (sym e ∙ h) in
      (found ∙ ap (λ (x : OrderRow × Db). some x.0) eq, ap (λ (x : OrderRow × Db). x.1) (sym eq))
]

pub on_lock_order-inv :
    (o : ℕ) (s : PayDb) (r : OrderRow × PayDb)
    → on_db (lock_order o) s ≡ ok r
    → (s.db.orders o ≡ some r.0) × (r.1 ≡ s)
on_lock_order-inv o s r h =
    let (d, e, final) = on_db-inv (lock_order o) s r h in
    let (found, same) = lock_order-inv o s.db (r.0, d) e in
    (found, final ∙ ap (λ (x : Db). record s { db = x }) same)

-- The lock of a review finds a proof and an order that wait.
pub lock_for_review-inv :
    (id : ℕ) (s : PayDb) (r : (ProofRow × ℕ × OrderRow) × PayDb)
    → lock_for_review id s ≡ ok r
    → IsReviewable s id r.0.0 r.0.1 r.0.2 × (r.1 ≡ s)
unfolding lock_for_review
lock_for_review-inv id s r h =
    let (p, e1, h1) = bind-eq-ok (lock_payment_proof id) _ s h in
    let (proof, same1) = lock_payment_proof-inv id s p e1 in
    let (o, e2, h2) = bind-eq-ok (order_of p.0) _ p.1 h1 in
    let (of_o, same2) = order_of-inv p.0 p.1 o e2 in
    let (row, e3, h3) = bind-eq-ok (on_db (lock_order o.0)) _ o.1 h2 in
    let (order, same3) = on_lock_order-inv o.0 o.1 row e3 in
    let both = is_submitted p.0.status && is_proof_submitted row.0.status in
    let (u, e4, h4) = bind-eq-ok (guard both (new 409 order_state_conflict)) _ row.1 h3 in
    let (wait, same4) = guard-inv both (new 409 order_state_conflict) row.1 u e4 in
    subst
      (λ (x : (ProofRow × ℕ × OrderRow) × PayDb). IsReviewable s id x.0.0 x.0.1 x.0.2 × (x.1 ≡ s))
      (same_result h4)
      (
        record {
          proof = proof;
          proof_order = of_o;
          order = ap (λ (x : PayDb). x.db.orders o.0) (sym (same2 ∙ same1)) ∙ order;
          proof_waits = ground (arith, wait);
          order_waits = ground (arith, wait);
        },
        same4 ∙ same3 ∙ same2 ∙ same1,
      )

-- The update of a proof that was found and waits.
pub update_proof-inv :
    (change : ProofRow → ProofRow) (id : ℕ) (s : PayDb) (p : ProofRow) (r : Bool × PayDb)
    → s.proofs id ≡ some p
    → is_submitted p.status ≡ true
    → update_proof change id s ≡ ok r
    → r.1 ≡ record s { proofs = put s.proofs id (change p) }
update_proof-inv change id s p r found wait h =
    ap (λ (x : Bool × PayDb). x.1) (same_result (sym h ∙ update_proof-ok change id s p found wait))

-- The receipt and the exception change neither orders nor proofs.
pub insert_receipt-inv :
    (receipt : ReceiptRow) (s : PayDb) (r : Unit {0} × PayDb)
    → insert_receipt receipt s ≡ ok r
    → (r.1.db ≡ s.db) × (r.1.proofs ≡ s.proofs) × (r.1.proof_ids ≡ s.proof_ids)
unfolding insert_receipt
insert_receipt-inv receipt s r h = elim (Bool-cases (breaks_constraint receipt s.receipts)) [
  | inl breaks ↦
      let bad : ◌≡◌ {A = Result (Unit {0} × PayDb)} (err internal_error) (ok r) = rw breaks at h in
      cc
  | inr keeps ↦
      elim (Bool-cases (has_receipt receipt.payment_account_id receipt.txn_ref s.receipts)) [
        | inl used ↦
            let bad : ◌≡◌ {A = Result (Unit {0} × PayDb)} (err (new 409 proof_txn_ref_used))
                (ok r) =
              rw (keeps, used) at h in
            cc
        | inr free ↦
            let eq : (tt {0}, record s { receipts = receipt ∷ s.receipts }) ≡ r =
              same_result (rw (keeps, free) at h) in
            (
              ap (λ (x : Unit {0} × PayDb). x.1.db) (sym eq),
              ap (λ (x : Unit {0} × PayDb). x.1.proofs) (sym eq),
              ap (λ (x : Unit {0} × PayDb). x.1.proof_ids) (sym eq),
            )
      ]
]

pub insert_overpaid-inv :
    (order_id received due : ℕ) (text : Option String) (s : PayDb) (r : Unit {0} × PayDb)
    → insert_overpaid order_id received due text s ≡ ok r
    → (r.1.db ≡ s.db) × (r.1.proofs ≡ s.proofs) × (r.1.proof_ids ≡ s.proof_ids)
insert_overpaid-inv order_id received due text s r h =
    let eq = same_result (sym (insert_overpaid-ok order_id received due text s) ∙ h) in
    (
      ap (λ (x : Unit {0} × PayDb). x.1.db) (sym eq),
      ap (λ (x : Unit {0} × PayDb). x.1.proofs) (sym eq),
      ap (λ (x : Unit {0} × PayDb). x.1.proof_ids) (sym eq),
    )
