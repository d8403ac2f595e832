-- ===== src/Payment/Review/Rejected.antt =====
-- What a rejection of a payment proof writes, and when it goes through.
use run.Base.{Option-cases, inl, inr, false, ℕ, ◌+◌, ◌≡◌, refl, ◌∙◌, true, ◌∷◌, arith}
use Prim.Native.String.{String}
use run.Platform.Apperr.{ok, guard, internal_error, bind-ok, in_tx-ok}
use run.Platform.Table.{put}
use run.Store.{Db, OrderRow}
use run.Pricing.Reserve.{is_reserved}
use run.Registration.Orders.{can_reject, mark_proof_rejected, update_order, set_rejected}
use run.Registration.Finish.{update_order-true}
use run.Payment.Review.{
  set_rejected as set_reviewed, PayDb, ProofRow, RejectInput, on_db, lock_for_review, update_proof,
  reject_tx, has_reject_code, validate_reject, reject_proof,
}
use run.Payment.Review.Approved.{IsReviewable, on_db-ok, lock_for_review-ok, update_proof-ok}

-- What a rejection leaves: no counter moves, and the order is open for another proof.
pub record IsRejected (staff now : ℕ) (input : RejectInput) (id : ℕ) (p : ProofRow) (o : ℕ)
    (row : OrderRow) (s s' : PayDb) : Type 0 where
  pub proofs_after : s'.proofs ≡ put s.proofs id (set_reviewed staff now input p)
  pub orders_after :
      s'.db.orders ≡ put s.db.orders o (set_rejected (now + s.db.settings.reupload_window) row)
  pub category_counts_after : s'.db.category_counts ≡ s.db.category_counts
  pub price_rule_counts_after : s'.db.price_rule_counts ≡ s.db.price_rule_counts
  pub coupon_counts_after : s'.db.coupon_counts ≡ s.db.coupon_counts

-- The transaction goes through when a submitted proof is for an order that waits for the review with its reservation open
-- and there is a code.
reject_tx-ok :
    (staff now : ℕ) (input : RejectInput) (id : ℕ) (p : ProofRow) (o : ℕ) (row : OrderRow)
    (s : PayDb)
    → IsReviewable s id p o row
    → is_reserved row.reservation_state ≡ true
    → has_reject_code input ≡ true
    → (s' : PayDb) × (reject_tx staff now input id s ≡ ok (tt, s'))
      × IsRejected staff now input id p o row s s'
unfolding reject_tx mark_proof_rejected
reject_tx-ok staff now input id p o row s r unreleased coded =
    let deadline = now + s.db.settings.reupload_window in
    let can : can_reject row ≡ true = ground (arith, r.order_waits, unreleased) in
    let s1 : PayDb = record s { proofs = put s.proofs id (set_reviewed staff now input p) } in
    let d : Db = record s.db { orders = put s.db.orders o (set_rejected deadline row) } in
    let marked : mark_proof_rejected o deadline s.db ≡ ok (tt, d) =
      bind-ok (update_order can_reject (set_rejected deadline) o) _ s.db d true
        (update_order-true can_reject (set_rejected deadline) o s.db row r.order can) in
    let after : Db = record d {
      audit = record { action = "payment_proof.reject"; entity_id = id } ∷ d.audit;
      outbox = record { template = "proof_rejected"; order_id = o } ∷ d.outbox;
    } in
    (
      record s1 { db = after },
      bind-ok (lock_for_review id) _ s s (p, o, row) (lock_for_review-ok s id p o row r)
          ∙ bind-ok (update_proof (set_reviewed staff now input) id) _ s s1 true
              (update_proof-ok (set_reviewed staff now input) id s p r.proof r.proof_waits)
          ∙ bind-ok (guard (has_reject_code input) internal_error) _ s1 s1 tt (rw coded refl)
          ∙ bind-ok (on_db (mark_proof_rejected o deadline)) _ s1 (record s1 { db = d }) tt
              (on_db-ok (mark_proof_rejected o deadline) s1 tt d marked),
      record {
        proofs_after = refl;
        orders_after = refl;
        category_counts_after = refl;
        price_rule_counts_after = refl;
        coupon_counts_after = refl;
      },
    )

validate_reject-code :
    (rune_count : String → ℕ) (input : RejectInput)
    → validate_reject rune_count input ≡ ok tt
    → has_reject_code input ≡ true
unfolding validate_reject
validate_reject-code rune_count input h = elim (Option-cases input.code) [
  | inl missing ↦
      let bad : has_reject_code input ≡ false = rw missing refl in
      absurd (ground (arith, missing, h))
  | inr (code, found) ↦ rw found refl
]

-- When a submitted proof is for an order that waits for the review with its reservation open, a
-- rejection with a valid input goes through: the proof is rejected, the order is open for another proof
-- until the window for that is over, and no counter moves.
pub reject_proof-ok :
    (rune_count : String → ℕ) (staff now : ℕ) (input : RejectInput) (id : ℕ) (p : ProofRow) (o : ℕ)
    (row : OrderRow) (s : PayDb)
    → IsReviewable s id p o row
    → is_reserved row.reservation_state ≡ true
    → validate_reject rune_count input ≡ ok tt
    → (s' : PayDb) × (reject_proof rune_count staff now id input s ≡ (ok tt, s'))
      × IsRejected staff now input id p o row s s'
unfolding reject_proof
reject_proof-ok rune_count staff now input id p o row s r unreleased valid =
    let (s', done, left) =
      reject_tx-ok staff now input id p o row s r unreleased
        (validate_reject-code rune_count input valid) in
    (s', rw valid (in_tx-ok (reject_tx staff now input id) tt s s' done), left)
