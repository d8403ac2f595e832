-- ===== src/Payment/System/Submissions.antt =====
-- A submission keeps the database sound.
use Prim.Native.String.{String}
use mathlib.Core.Path.{subst}
use mathlib.Core.Option.{some-injective}
use run.Base.{
  ℕ, ◌≡◌, refl, sym, ◌∙◌, ap, true, false, not, none, some, ◌∷◌, arith, Bool-cases, inl, inr, ◌==◌,
}
use run.Platform.Apperr.{
  field, with_field, internal_error, proof_txn_ref_used, Result, ok, err, new, Tx, guard, lift,
  bind-eq-ok, order_state_conflict, order_not_found, order_expired, ◌>>◌,
}
use run.Platform.Table.{put}
use run.Store.{Db, OrderRow, OrderStatus}
use run.Registration.Orders.{
  mark_proof_submitted, set_submitted, is_proof_submitted, is_awaiting_proof, lock_order,
  record_audit,
}
use run.Registration.Consistent.{IsConsistent}
use run.Registration.Status.{submits, Move-IsWellFormed}
use run.Registration.Changed.{mark_proof_submitted-IsChanged}
use run.Payment.Review.{PayDb, ProofRow, is_submitted, on_db, FileRow}
use run.Payment.Submit.{
  SubmitInput, validate_submit, check_order, count_other_files, insert_payment_proof, proof_of,
  is_past, write_proof, submit_tx, any_proof, uses_txn_ref, pending_proofs,
}
use run.Payment.Refs.{IsUnique, IsUnique-arrives}
use run.Payment.Linked.{Waits}
use run.Payment.Linked.Moves.{IsLinked-arrives}
use run.Platform.Inversion.{lift-inv, same_result, guard-inv}
use run.Payment.Inversion.{on_db-inv, on_lock_order-inv}
use run.Payment.System.{IsSound, AllWellFormed-put, sound, noted-IsConsistent}

insert_payment_proof-inv :
    (id o : ℕ) (p : ProofRow) (s : PayDb) (r : Unit {0} × PayDb)
    → insert_payment_proof id o p s ≡ ok r
    → (any_proof (uses_txn_ref p.payment_account_id p.bank_txn_ref) s.proofs s.proof_ids ≡ false)
      × (r.1 ≡ record s { proofs = put s.proofs id p; proof_ids = id ∷ s.proof_ids })
unfolding insert_payment_proof
insert_payment_proof-inv id o p s r h =
    let used = any_proof (uses_txn_ref p.payment_account_id p.bank_txn_ref) s.proofs s.proof_ids in
    elim (Bool-cases used) [
      | inl used_ ↦
          let bad : ◌≡◌ {A = Result (Unit {0} × PayDb)}
              (err
                (with_field (new 409 proof_txn_ref_used) (field "bankTxnRef") "PROOF_TXN_REF_USED"))
              (ok r) =
            rw used_ at h in
          cc
      | inr free ↦ elim (Bool-cases (pending_proofs o s)) [
        | inl pends ↦
            let bad : ◌≡◌ {A = Result (Unit {0} × PayDb)} (err internal_error) (ok r) =
              rw (free, pends) at h in
            cc
        | inr none_pends ↦ (
          free,
          ap (λ (x : Unit {0} × PayDb). x.1) (sym (same_result (rw (free, none_pends) at h))),
        )
      ]
    ]

check_order-inv :
    (user now : ℕ) (row : OrderRow) (s : PayDb) (r : Unit {0} × PayDb)
    → check_order user now row s ≡ ok r
    → (is_awaiting_proof row.status ≡ true) × (r.1 ≡ s)
unfolding check_order
check_order-inv user now row s r h =
    let (g1, e1, h1) =
      bind-eq-ok (guard (row.buyer_user_id == user) (new 404 order_not_found)) _ s h in
    let (own, same1) = guard-inv (row.buyer_user_id == user) (new 404 order_not_found) s g1 e1 in
    let (g2, e2, h2) =
      bind-eq-ok (guard (is_awaiting_proof row.status) (new 409 order_state_conflict)) _ g1.1 h1 in
    let (awaits, same2) =
      guard-inv (is_awaiting_proof row.status) (new 409 order_state_conflict) g1.1 g2 e2 in
    let (in_time, same3) =
      guard-inv (not (is_past now row.deadline_at)) (new 409 order_expired) g2.1 r h2 in
    (awaits, same3 ∙ same2 ∙ same1)

abbrev submission_note : (id : ℕ) → Tx PayDb (Unit {0})
submission_note id =
    on_db (record_audit (record { action = "payment_proof.submit"; entity_id = id }))

-- The mark on the order, and the note, once the proof is inserted.
submit_marked :
    (id o : ℕ) (p : ProofRow) (s v : PayDb) (r : Unit {0} × PayDb)
    → IsSound s
    → (Waits s.db.orders o → ⊥)
    → s.proofs id ≡ none
    → p.reg_order_id ≡ some o
    → is_submitted p.status ≡ true
    → v.db ≡ s.db
    → v.proofs ≡ put s.proofs id p
    → IsUnique v.proofs v.proof_ids
    → (on_db (mark_proof_submitted o) >> submission_note id) v ≡ ok r
    → IsSound r.1
submit_marked id o p s v r sd idle fresh of_o waits db_before proofs_before unique h =
    let (c, e, h1) = bind-eq-ok (on_db (mark_proof_submitted o)) _ v h in
    let (d, marked, same) = on_db-inv (mark_proof_submitted o) v c e in
    let changed =
      mark_proof_submitted-IsChanged o s.db (c.0, d) sd.is_consistent
        (subst (λ (x : Db). mark_proof_submitted o x ≡ ok (c.0, d)) db_before marked) in
    let row' = set_submitted changed.row in
    let db_after : c.1.db ≡ d = ap (λ (x : PayDb). x.db) same in
    subst (λ (x : Unit {0} × PayDb). IsSound x.1) (same_result h1)
      (sound _ (put s.db.orders o row') (put s.proofs id p)
        (noted-IsConsistent _ _ c.1.db (subst IsConsistent (sym db_after) changed.is_consistent))
        (ap (λ (x : Db). x.orders) db_after ∙ changed.orders)
        (ap (λ (x : PayDb). x.proofs) same ∙ proofs_before)
        (AllWellFormed-put s.db.orders o row' sd.well_formed (
          Move-IsWellFormed (submits changed.row changed.met)
            (sd.well_formed o changed.row changed.found)))
        (IsLinked-arrives s.db.orders s.proofs o row' id p sd.linked idle fresh of_o waits refl)
        (subst (λ (x : PayDb). IsUnique x.proofs x.proof_ids) (sym same) unique))

write_proof-IsSound :
    (user o file_id id : ℕ) (row : OrderRow) (input : SubmitInput) (s : PayDb)
    (r : Unit {0} × PayDb)
    → IsSound s
    → (Waits s.db.orders o → ⊥)
    → s.proofs id ≡ none
    → write_proof user o file_id id row input s ≡ ok r
    → IsSound r.1
unfolding write_proof
write_proof-IsSound user o file_id id row input s r sd idle fresh h =
    let file : FileRow = record { id = file_id; sha256 = input.sha256; uploaded_by_id = user } in
    let s1 : PayDb = record s { files = file ∷ s.files } in
    let p = proof_of user o file_id row input (count_other_files input.sha256 file_id s1) in
    let (i, e, h1) = bind-eq-ok (insert_payment_proof id o p) _ s1 h in
    let (free, inserted) = insert_payment_proof-inv id o p s1 i e in
    submit_marked id o p s i.1 r sd idle fresh refl refl (ap (λ (x : PayDb). x.db) inserted)
      (ap (λ (x : PayDb). x.proofs) inserted)
      (subst (λ (x : PayDb). IsUnique x.proofs x.proof_ids) (sym inserted)
        (IsUnique-arrives s.proofs s.proof_ids id p sd.unique_refs free))
      h1

awaiting_not_submitted :
    (st : OrderStatus) → is_awaiting_proof st ≡ true → is_proof_submitted st ≡ true → ⊥
awaiting_not_submitted st a w = ground arith

-- A submission that goes through, with a new key for its proof, keeps the database sound.
pub submit_tx-IsSound :
    (rune_count : String → ℕ) (user o file_id id now : ℕ) (input : SubmitInput) (s : PayDb)
    (r : Unit {0} × PayDb)
    → IsSound s
    → s.proofs id ≡ none
    → submit_tx rune_count user o file_id id now input s ≡ ok r
    → IsSound r.1
unfolding submit_tx
submit_tx-IsSound rune_count user o file_id id now input s r sd fresh h =
    let (row, e1, h1) = bind-eq-ok (on_db (lock_order o)) _ s h in
    let (found, same1) = on_lock_order-inv o s row e1 in
    let (g, e2, h2) = bind-eq-ok (check_order user now row.0) _ row.1 h1 in
    let (awaits, same2) = check_order-inv user now row.0 row.1 g e2 in
    let (v, e3, h3) = bind-eq-ok (lift (validate_submit rune_count input)) _ g.1 h2 in
    let same = lift-inv (validate_submit rune_count input) g.1 v e3 ∙ same2 ∙ same1 in
    write_proof-IsSound user o file_id id row.0 input s r sd (idle row.0 found awaits) fresh
      (subst (λ (x : PayDb). write_proof user o file_id id row.0 input x ≡ ok r) same h3)
  where
    idle :
        (row : OrderRow)
        → s.db.orders o ≡ some row
        → is_awaiting_proof row.status ≡ true
        → Waits s.db.orders o
        → ⊥
    idle row found awaits (row', found', waits) =
        let same : row ≡ row' = some-injective _ _ (sym found ∙ found') in
        let waits' : is_proof_submitted row.status ≡ true =
          ap (λ (x : OrderRow). is_proof_submitted x.status) same ∙ waits in
        awaiting_not_submitted row.status awaits waits'
