-- ===== src/Payment/System/Reviews.antt =====
-- A rejection keeps the database sound.
use mathlib.Core.Path.{subst}
use run.Base.{ℕ, ◌+◌, ◌≡◌, refl, ◌∙◌, ap}
use run.Platform.Apperr.{internal_error, ok, new, Tx, guard, bind-eq-ok, order_state_conflict, ◌>>◌}
use run.Platform.Table.{put}
use run.Store.{Db, OrderRow}
use run.Registration.Orders.{mark_proof_rejected, can_reject, set_rejected, record_audit}
use run.Registration.Status.{rejects}
use run.Registration.Changed.{mark_proof_rejected-IsChanged}
use run.Payment.Review.{
  set_rejected as set_reviewed, PayDb, ProofRow, RejectInput, on_db, lock_for_review, update_proof,
  reject_tx, has_reject_code, enqueue,
}
use run.Payment.Review.Approved.{IsReviewable}
use run.Platform.Inversion.{same_result, guard-inv}
use run.Payment.Inversion.{on_db-inv, lock_for_review-inv, update_proof-inv}
use run.Payment.System.{IsSound, reviewed_Pends, reviewed-IsUnique, review_over}

abbrev rejection_notes : (id o : ℕ) → Tx PayDb (Unit {0})
rejection_notes id o = do
  on_db (record_audit (record { action = "payment_proof.reject"; entity_id = id }))
  on_db (enqueue (record { template = "proof_rejected"; order_id = o }))

-- The mark on the order, and the notes.
reopen_reviewed :
    (staff now deadline : ℕ) (input : RejectInput) (id : ℕ) (p : ProofRow) (o : ℕ) (row : OrderRow)
    (s v : PayDb) (r : Unit {0} × PayDb)
    → IsReviewable s id p o row
    → IsSound s
    → v.db ≡ s.db
    → v.proofs ≡ put s.proofs id (set_reviewed staff now input p)
    → v.proof_ids ≡ s.proof_ids
    → (on_db (mark_proof_rejected o deadline) >> rejection_notes id o) v ≡ ok r
    → IsSound r.1
reopen_reviewed staff now deadline input id p o row s v r rev sd db_before proofs_before ids_before
      h =
    let (c, e, h1) = bind-eq-ok (on_db (mark_proof_rejected o deadline)) _ v h in
    let (d, marked, same) = on_db-inv (mark_proof_rejected o deadline) v c e in
    let changed =
      mark_proof_rejected-IsChanged o deadline s.db (c.0, d) sd.is_consistent
        (subst (λ (x : Db). mark_proof_rejected o deadline x ≡ ok (c.0, d)) db_before marked) in
    subst (λ (x : Unit {0} × PayDb). IsSound x.1) (same_result h1)
      (review_over can_reject (set_rejected deadline) s c.1 d id o (set_reviewed staff now input p)
        _ _ sd (reviewed_Pends s id p o row rev) refl changed
        (rejects deadline changed.row changed.met) refl (ap (λ (x : PayDb). x.db) same)
        (ap (λ (x : PayDb). x.proofs) same ∙ proofs_before)
        (reviewed-IsUnique s c.1 id p (set_reviewed staff now input p) o row rev sd refl refl
          (ap (λ (x : PayDb). x.proofs) same ∙ proofs_before)
          (ap (λ (x : PayDb). x.proof_ids) same ∙ ids_before)))

-- A rejection that goes through keeps the database sound.
pub reject_tx-IsSound :
    (staff now : ℕ) (input : RejectInput) (id : ℕ) (s : PayDb) (r : Unit {0} × PayDb)
    → IsSound s
    → reject_tx staff now input id s ≡ ok r
    → IsSound r.1
unfolding reject_tx
reject_tx-IsSound staff now input id s r sd h =
    let (t, e, h1) = bind-eq-ok (lock_for_review id) _ s h in
    let (rev, same) = lock_for_review-inv id s t e in
    let (p, o, row) = t.0 in
    let mark = set_reviewed staff now input in
    let (n, e2, h2) = bind-eq-ok (update_proof mark id) _ t.1 h1 in
    let after2 =
      update_proof-inv mark id s p n rev.proof rev.proof_waits
        (subst (λ (x : PayDb). update_proof mark id x ≡ ok n) same e2) in
    let (g, e3, h3) = bind-eq-ok (guard n.0 (new 409 order_state_conflict)) _ n.1 h2 in
    let (hit, same3) = guard-inv n.0 (new 409 order_state_conflict) n.1 g e3 in
    let (k, e4, h4) = bind-eq-ok (guard (has_reject_code input) internal_error) _ g.1 h3 in
    let (coded, same4) = guard-inv (has_reject_code input) internal_error g.1 k e4 in
    let start = same4 ∙ same3 ∙ after2 in
    reopen_reviewed staff now (now + t.1.db.settings.reupload_window) input id p o row s k.1 r rev
      sd (ap (λ (x : PayDb). x.db) start) (ap (λ (x : PayDb). x.proofs) start)
      (ap (λ (x : PayDb). x.proof_ids) start) h4
