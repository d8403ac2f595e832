-- ===== src/Payment/Review/Approved.antt =====
-- What an approval of a payment proof writes, and when it goes through.
use Prim.Native.String.{String}
use run.Base.{
  ℕ, ◌-◌, ◌≡◌, refl, ◌∙◌, ap, Bool, true, false, ◌&&◌, Option, none, some, List, ◌∷◌, ltb,
  if◌then◌else◌, arith,
}
use run.Platform.Apperr.{Result, ok, err, Tx, bind-ok}
use run.Platform.Table.{Table, put, update_where-some}
use run.Store.{Db, OrderRow}
use run.Registration.Orders.{lock_order, set_paid, is_proof_submitted}
use run.Registration.Consistent.{IsConsistent}
use run.Payment.Review.{
  PayDb, ProofRow, ExceptionRow, ApproveInput, on_db, lock_payment_proof, order_of, lock_for_review,
  is_submitted, update_proof, set_approved, insert_overpaid, receipt_of,
}

pub on_db-ok :
    {A : Type 0} (m : Tx Db A) (s : PayDb) (a : A) (d : Db)
    → m s.db ≡ ok (a, d)
    → on_db m s ≡ ok (a, record s { db = d })
on_db-ok {A} m s a d h =
    ap {A = Result (A × Db)} {B = Result (A × PayDb)}
      (λ r. elim r [ ok (b, d') ↦ ok (b, record s { db = d' }) | err e ↦ err e ]) h

-- The proof and the order that a review finds.
pub record IsReviewable (s : PayDb) (id : ℕ) (p : ProofRow) (order_id : ℕ) (o : OrderRow)
    : Type 0 where
  pub proof : s.proofs id ≡ some p
  pub proof_order : p.reg_order_id ≡ some order_id
  pub order : s.db.orders order_id ≡ some o
  pub proof_waits : is_submitted p.status ≡ true
  pub order_waits : is_proof_submitted o.status ≡ true

pub lock_for_review-ok :
    (s : PayDb) (id : ℕ) (p : ProofRow) (order_id : ℕ) (o : OrderRow)
    → IsReviewable s id p order_id o
    → lock_for_review id s ≡ ok ((p, order_id, o), s)
unfolding lock_for_review
lock_for_review-ok s id p order_id o r =
    let proof : lock_payment_proof id s ≡ ok (p, s) = ground (arith, r.proof) in
    let its_order : order_of p s ≡ ok (order_id, s) = ground (arith, r.proof_order) in
    let order : lock_order order_id s.db ≡ ok (o, s.db) = ground (arith, r.order) in
    let both : (is_submitted p.status && is_proof_submitted o.status) ≡ true =
      ground (arith, r.proof_waits, r.order_waits) in
    bind-ok (lock_payment_proof id) _ s s p proof
    ∙ bind-ok (order_of p) _ s s order_id its_order
    ∙ bind-ok (on_db (lock_order order_id)) _ s s o (on_db-ok (lock_order order_id) s o s.db order)
    ∙ rw both refl

pub update_proof-ok :
    (change : ProofRow → ProofRow) (id : ℕ) (s : PayDb) (p : ProofRow)
    → s.proofs id ≡ some p
    → is_submitted p.status ≡ true
    → update_proof change id s ≡ ok (true, record s { proofs = put s.proofs id (change p) })
update_proof-ok change id s p found waits =
    ap {A = Option (Table ProofRow)} {B = Result (Bool × PayDb)}
      (λ x. elim x [ none ↦ ok (false, s) | some t ↦ ok (true, record s { proofs = t }) ])
      (update_where-some (λ q. is_submitted q.status) change id s.proofs p found waits)

abbrev pub exceptions_after :
    (order_id received due : ℕ) → Option String → List ExceptionRow → List ExceptionRow
exceptions_after order_id received due note es =
    if ltb due received
    then record { reg_order_id = order_id; amount_cents = received - due; note = note } ∷ es
    else es

pub insert_overpaid-ok :
    (order_id received due : ℕ) (text : Option String) (s : PayDb)
    → insert_overpaid order_id received due text s
      ≡ ok (tt, record s { exceptions = exceptions_after order_id received due text s.exceptions })
unfolding insert_overpaid
insert_overpaid-ok order_id received due text s = ground arith

-- What an approval leaves.
pub record IsApproved (staff now received_at : ℕ) (input : ApproveInput) (id : ℕ) (p : ProofRow)
    (order_id : ℕ) (o : OrderRow) (s s' : PayDb) : Type 0 where
  pub proofs_after : s'.proofs ≡ put s.proofs id (set_approved staff now p)
  pub orders_after : s'.db.orders ≡ put s.db.orders order_id (set_paid received_at o)
  pub receipts_after :
      s'.receipts ≡ receipt_of staff received_at input id p order_id o.amount_cents ∷ s.receipts
  pub overpaid_after :
      s'.exceptions
      ≡ exceptions_after order_id input.received_amount_cents o.amount_cents input.note s.exceptions
  pub is_consistent : IsConsistent s'.db
