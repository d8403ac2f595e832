-- ===== src/Payment/System.antt =====
-- The database of orders and payments while proofs are submitted and reviewed: what holds between
-- all its tables, and that an approval keeps it.
pub mod Reviews
pub mod Submissions
pub mod Endings
pub mod Placements
pub mod Runs
pub mod Progress
use mathlib.Core.Path.{subst}
use mathlib.Core.Option.{some-injective}
use run.Base.{
  ℕ, ◌≡◌, refl, sym, ◌∙◌, ap, Bool, true, false, ◌&&◌, Option, none, some, List, ◌∷◌, arith,
  Bool-cases, inl, inr, ◌==◌, leb,
}
use run.Platform.Apperr.{
  Result, Error, ok, err, new, Tx, guard, bind-eq-ok, order_state_conflict, ◌>>=◌, ◌>>◌,
}
use run.Platform.Table.{Table, put}
use run.Store.{Db, OrderRow, AuditRow, Notice}
use run.Registration.Orders.{confirm_paid, can_pay, set_paid, is_proof_submitted, record_audit}
use run.Registration.Consistent.{IsConsistent}
use run.Registration.Status.{IsWellFormed, Move, pays, Move-IsWellFormed}
use run.Registration.Changed.{IsChanged, confirm_paid-IsChanged}
use run.Payment.Review.{
  PayDb, ProofRow, ApproveInput, on_db, lock_for_review, update_proof, set_approved, insert_receipt,
  is_submitted, insert_overpaid, receipt_of, write_approval, approve_tx, too_low, enqueue,
}
use run.Payment.Review.Approved.{IsReviewable}
use run.Payment.Refs.{IsUnique, IsUnique-changes}
use run.Payment.Linked.{IsLinked, Waits, Pends}
use run.Payment.Linked.Moves.{IsLinked-leaves}
use run.Platform.Inversion.{same_result, guard-inv}
use run.Payment.Inversion.{
  on_db-inv, lock_for_review-inv, update_proof-inv, insert_receipt-inv, insert_overpaid-inv,
}

abbrev pub AllWellFormed : Table OrderRow → Type 0
AllWellFormed orders = (o : ℕ) (row : OrderRow) → orders o ≡ some row → IsWellFormed row

-- The counters count the seats of the orders, each order has the form of its status, and the orders
-- under review are those with a waiting proof, and no two live proofs name a bank reference.
pub record IsSound (s : PayDb) : Type 0 where
  pub is_consistent : IsConsistent s.db
  pub well_formed : AllWellFormed s.db.orders
  pub linked : IsLinked s.db.orders s.proofs
  pub unique_refs : IsUnique s.proofs s.proof_ids

pub AllWellFormed-put :
    (orders : Table OrderRow) (o : ℕ) (row : OrderRow)
    → AllWellFormed orders
    → IsWellFormed row
    → AllWellFormed (put orders o row)
AllWellFormed-put orders o row all w j r found = elim (Bool-cases (j == o)) [
  | inl same ↦
      let here : put orders o row j ≡ some row = rw same refl in
      subst IsWellFormed (some-injective _ _ (sym here ∙ found)) w
  | inr ne ↦ let there : put orders o row j ≡ orders j = rw ne refl in all j r (sym there ∙ found)
]

pub sound :
    (s : PayDb) (orders : Table OrderRow) (proofs : Table ProofRow)
    → IsConsistent s.db
    → s.db.orders ≡ orders
    → s.proofs ≡ proofs
    → AllWellFormed orders
    → IsLinked orders proofs
    → IsUnique s.proofs s.proof_ids
    → IsSound s
sound s orders proofs c same_orders same_proofs w l u = record {
  unique_refs = u;
  is_consistent = c;
  well_formed = subst AllWellFormed (sym same_orders) w;
  linked =
      subst (λ (x : Table OrderRow). IsLinked x s.proofs) (sym same_orders)
        (subst (λ (x : Table ProofRow). IsLinked orders x) (sym same_proofs) l);
}

-- Notes for the audit and for the outbox move no counter.
abbrev pub noted : List AuditRow → List Notice → Db → Db
noted rows notices d = record d { audit = rows; outbox = notices }

pub noted-IsConsistent :
    (rows : List AuditRow) (notices : List Notice) (d : Db)
    → IsConsistent d
    → IsConsistent (noted rows notices d)
noted-IsConsistent rows notices d c = record {
  categories = c.categories;
  price_rules = c.price_rules;
  coupons = c.coupons;
}

pub reviewed_Pends :
    (s : PayDb) (id : ℕ) (p : ProofRow) (o : ℕ) (row : OrderRow)
    → IsReviewable s id p o row
    → Pends s.proofs id o
reviewed_Pends s id p o row r = (p, r.proof, r.proof_waits, r.proof_order)

pub IsUnique-both :
    (s : PayDb) (proofs : Table ProofRow) (ids : List ℕ)
    → s.proofs ≡ proofs
    → s.proof_ids ≡ ids
    → IsUnique proofs ids
    → IsUnique s.proofs s.proof_ids
IsUnique-both s proofs ids same_proofs same_ids u =
    subst (λ (x : List ℕ). IsUnique s.proofs x) (sym same_ids)
      (subst (λ (x : Table ProofRow). IsUnique x ids) (sym same_proofs) u)

-- A review leaves the account and the reference of the proof.
pub reviewed-IsUnique :
    (s v : PayDb) (id : ℕ) (p p' : ProofRow) (o : ℕ) (row : OrderRow)
    → IsReviewable s id p o row
    → IsSound s
    → p'.payment_account_id ≡ p.payment_account_id
    → p'.bank_txn_ref ≡ p.bank_txn_ref
    → v.proofs ≡ put s.proofs id p'
    → v.proof_ids ≡ s.proof_ids
    → IsUnique v.proofs v.proof_ids
reviewed-IsUnique s v id p p' o row rev sd same_account same_ref same_proofs same_ids =
    IsUnique-both v (put s.proofs id p') s.proof_ids same_proofs same_ids (
      IsUnique-changes s.proofs s.proof_ids id p p' sd.unique_refs rev.proof rev.proof_waits
        same_account same_ref)

-- A review is over: the proof no longer waits, the order made its move, and notes were written.
pub review_over :
    (test : OrderRow → Bool) (change : OrderRow → OrderRow) (s c : PayDb) (d : Db) (id o : ℕ)
    (p' : ProofRow) (rows : List AuditRow) (notices : List Notice)
    → IsSound s
    → Pends s.proofs id o
    → is_submitted p'.status ≡ false
    → (changed : IsChanged test change o s.db d) → Move changed.row (change changed.row)
    → is_proof_submitted (change changed.row).status ≡ false
    → c.db ≡ d
    → c.proofs ≡ put s.proofs id p'
    → IsUnique c.proofs c.proof_ids
    → IsSound (record c { db = noted rows notices c.db })
review_over test change s c d id o p' rows notices sd pend done changed move row_done db proofs
      unique =
    let row' = change changed.row in
    sound (record c { db = noted rows notices c.db }) (put s.db.orders o row') (put s.proofs id p')
      (noted-IsConsistent rows notices c.db (subst IsConsistent (sym db) changed.is_consistent))
      (ap (λ (x : Db). x.orders) db ∙ changed.orders) proofs
      (AllWellFormed-put s.db.orders o row' sd.well_formed
        (Move-IsWellFormed move (sd.well_formed o changed.row changed.found)))
      (IsLinked-leaves s.db.orders s.proofs o row' id p' sd.linked pend done row_done) unique

abbrev approval_notes : (id o : ℕ) → Tx PayDb (Unit {0})
approval_notes id o = do
  on_db (record_audit (record { action = "payment_proof.approve"; entity_id = id }))
  on_db (enqueue (record { template = "proof_approved"; order_id = o }))

-- The payment of the order, and the notes.
pay_reviewed :
    (staff now received_at id : ℕ) (p : ProofRow) (o : ℕ) (row : OrderRow) (s v : PayDb)
    (r : Unit {0} × PayDb)
    → IsReviewable s id p o row
    → IsSound s
    → v.db ≡ s.db
    → v.proofs ≡ put s.proofs id (set_approved staff now p)
    → v.proof_ids ≡ s.proof_ids
    → (on_db (confirm_paid o received_at) >> approval_notes id o) v ≡ ok r
    → IsSound r.1
pay_reviewed staff now received_at id p o row s v r rev sd db_before proofs_before ids_before h =
    let (c, e, h1) = bind-eq-ok (on_db (confirm_paid o received_at)) _ v h in
    let (d, paid, same) = on_db-inv (confirm_paid o received_at) v c e in
    let changed =
      confirm_paid-IsChanged o received_at s.db (c.0, d) sd.is_consistent
        (subst (λ (x : Db). confirm_paid o received_at x ≡ ok (c.0, d)) db_before paid) in
    subst (λ (x : Unit {0} × PayDb). IsSound x.1) (same_result h1)
      (review_over can_pay (set_paid received_at) s c.1 d id o (set_approved staff now p) _ _ sd
        (reviewed_Pends s id p o row rev) refl changed (pays received_at changed.row changed.met)
        refl (ap (λ (x : PayDb). x.db) same) (ap (λ (x : PayDb). x.proofs) same ∙ proofs_before)
        (reviewed-IsUnique s c.1 id p (set_approved staff now p) o row rev sd refl refl
          (ap (λ (x : PayDb). x.proofs) same ∙ proofs_before)
          (ap (λ (x : PayDb). x.proof_ids) same ∙ ids_before)))

write_approval-IsSound :
    (staff now received_at : ℕ) (input : ApproveInput) (id : ℕ) (p : ProofRow) (o : ℕ)
    (row : OrderRow) (s : PayDb) (r : Unit {0} × PayDb)
    → IsReviewable s id p o row
    → IsSound s
    → write_approval staff now received_at input id p o row s ≡ ok r
    → IsSound r.1
unfolding write_approval
write_approval-IsSound staff now received_at input id p o row s r rev sd h =
    let (g, e1, h1) =
      bind-eq-ok (guard (leb row.amount_cents input.received_amount_cents) too_low) _ s h in
    let (enough, same1) = guard-inv _ too_low s g e1 in
    let (n, e2, h2) = bind-eq-ok (update_proof (set_approved staff now) id) _ g.1 h1 in
    let after2 =
      update_proof-inv (set_approved staff now) id s p n rev.proof rev.proof_waits
        (subst (λ (x : PayDb). update_proof (set_approved staff now) id x ≡ ok n) same1 e2) in
    let (g', e3, h3) = bind-eq-ok (guard n.0 (new 409 order_state_conflict)) _ n.1 h2 in
    let (hit, same3) = guard-inv n.0 (new 409 order_state_conflict) n.1 g' e3 in
    let receipt = receipt_of staff received_at input id p o row.amount_cents in
    let (i, e4, h4) = bind-eq-ok (insert_receipt receipt) _ g'.1 h3 in
    let (db4, proofs4, ids4) = insert_receipt-inv receipt g'.1 i e4 in
    let over = insert_overpaid o input.received_amount_cents row.amount_cents input.note in
    let (v, e5, h5) = bind-eq-ok over _ i.1 h4 in
    let (db5, proofs5, ids5) =
      insert_overpaid-inv o input.received_amount_cents row.amount_cents input.note i.1 v e5 in
    let start = same3 ∙ after2 in
    pay_reviewed staff now received_at id p o row s v.1 r rev sd
      (db5 ∙ db4 ∙ ap (λ (x : PayDb). x.db) start)
      (proofs5 ∙ proofs4 ∙ ap (λ (x : PayDb). x.proofs) start)
      (ids5 ∙ ids4 ∙ ap (λ (x : PayDb). x.proof_ids) start) h5

-- An approval that goes through keeps the database sound.
pub approve_tx-IsSound :
    (staff now received_at : ℕ) (input : ApproveInput) (id : ℕ) (s : PayDb) (r : Unit {0} × PayDb)
    → IsSound s
    → approve_tx staff now received_at input id s ≡ ok r
    → IsSound r.1
unfolding approve_tx
approve_tx-IsSound staff now received_at input id s r sd h =
    let (t, e, h1) = bind-eq-ok (lock_for_review id) _ s h in
    let (rev, same) = lock_for_review-inv id s t e in
    let (p, o, row) = t.0 in
    write_approval-IsSound staff now received_at input id p o row s r rev sd (
      subst (λ (x : PayDb). write_approval staff now received_at input id p o row x ≡ ok r) same h1)
