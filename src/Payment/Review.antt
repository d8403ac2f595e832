-- ===== src/Payment/Review.antt =====
-- `ApproveProof` and `RejectProof` of api/internal/payment/review.go, inside their transaction and
-- around it. `rune_count` stands for Go's utf8.RuneCountInString. A note or a reason is trimmed
-- already; an amount below zero is refused like zero and is not in the model. The numbers of
-- documents are random and are left out, and so are the final re-read of the proof and the texts of
-- the audit rows.
pub mod Approved
pub mod Rejected
use Prim.Native.String.{String}
use text.Mathlib.Text.{◌==◌ as str_eq}
use run.Base.{
  ℕ, ◌+◌, ◌-◌, ◌*◌, Bool, true, false, not, ◌&&◌, ◌||◌, Option, none, some, List, [], ◌∷◌, ◌++◌,
  ltb, leb, ◌==◌, if◌then◌else◌, some_and,
}
use run.Platform.Apperr.{
  internal_error, Field, field, Error, Result, ok, err, new, with_field, failed_with, add_if,
  not_found, order_state_conflict, received_amount_too_low, proof_txn_ref_used, Tx, pure, fail,
  gets, modify, guard, in_tx, ◌>>=◌, ◌>>◌,
}
use run.Platform.Table.{Table, update_where}
use run.Store.{Db, OrderRow, AuditRow, Notice}
use run.Registration.Orders.{
  lock_order, confirm_paid, mark_proof_rejected, is_proof_submitted, record_audit,
}

pub data ProofStatus : Type 0 where
  submitted approved rejected : ProofStatus

pub data RejectCode : Type 0 where
  not_received amount_mismatch duplicate_txn unreadable wrong_account fraud other : RejectCode

-- payment_proofs
pub record ProofRow : Type 0 where
  pub reg_order_id : Option ℕ
  pub payment_account_id : ℕ
  pub bank_txn_ref : String
  pub file_id : ℕ
  pub submitted_by_user_id : ℕ
  pub declared_amount_cents : ℕ
  pub declared_paid_at : Option ℕ
  pub payer_name : Option String
  pub dup_file_hit : Bool
  pub status : ProofStatus
  pub reviewed_by : Option ℕ
  pub reviewed_at : Option ℕ
  pub reject_code : Option RejectCode
  pub reject_reason : Option String

pub data MatchStatus : Type 0 where
  applied exception : MatchStatus

-- payment_receipts
pub record ReceiptRow : Type 0 where
  pub payment_account_id : ℕ
  pub txn_ref : String
  pub amount_cents : ℕ
  pub received_at : ℕ
  pub proof_id : ℕ
  pub reg_order_id : ℕ
  pub match_status : MatchStatus
  pub recorded_by : ℕ

-- payment_exceptions, which this code writes for OVERPAID alone.
pub record ExceptionRow : Type 0 where
  pub reg_order_id : ℕ
  pub amount_cents : ℕ
  pub note : Option String

-- files, with purpose PAYMENT_PROOF.
pub record FileRow : Type 0 where
  pub id : ℕ
  pub sha256 : ℕ
  pub uploaded_by_id : ℕ

pub record PayDb : Type 0 where
  pub db : Db
  pub files : List FileRow
  pub proofs : Table ProofRow
  pub proof_ids : List ℕ
  pub receipts : List ReceiptRow
  pub exceptions : List ExceptionRow

pub record ApproveInput : Type 0 where
  pub received_amount_cents : ℕ
  pub received_at : Option ℕ
  pub note : Option String

pub record RejectInput : Type 0 where
  pub code : Option RejectCode
  pub reason : Option String

-- A step of package registration.
abbrev pub on_db : {A : Type 0} → Tx Db A → Tx PayDb A
on_db m s = elim (m s.db) [ ok (a, d) ↦ ok (a, record s { db = d }) | err e ↦ err e ]

abbrev pub max_review_text_len : ℕ
max_review_text_len = 500

abbrev pub received_at_future_tolerance : ℕ
received_at_future_tolerance = 5 * 60

abbrev pub is_submitted : ProofStatus → Bool
is_submitted submitted = true
is_submitted approved = false
is_submitted rejected = false

-- validateApprove; `none` is the zero time.
abbrev pub check_received_at : (now : ℕ) → Option ℕ → List (Field × String)
check_received_at now none = (field "receivedAt", "field.required") ∷ []
check_received_at now (some t) =
    add_if (ltb (now + received_at_future_tolerance) t) (field "receivedAt") "field.invalid"

unfoldable pub validate_approve :
    (rune_count : String → ℕ) → (now : ℕ) → ApproveInput → Result (Unit {0})
validate_approve rune_count now input = failed_with (
    add_if (leb input.received_amount_cents 0) (field "receivedAmountCents")
      "field.must_be_positive"
    ++ (check_received_at now input.received_at
        ++ add_if (some_and (λ note. ltb max_review_text_len (rune_count note)) input.note)
            (field "note") "field.too_long"))

-- validateReject; `none` is a code that is not in rejectCodes.
abbrev pub check_reason :
    (rune_count : String → ℕ) → Option RejectCode → Option String → List (Field × String)
check_reason rune_count (some other) none = (field "rejectReason", "field.required") ∷ []
check_reason rune_count code none = []
check_reason rune_count code (some reason) =
    add_if (ltb max_review_text_len (rune_count reason)) (field "rejectReason") "field.too_long"

abbrev pub check_code : Option RejectCode → List (Field × String)
check_code none = (field "rejectCode", "field.invalid") ∷ []
check_code (some code) = []

unfoldable pub validate_reject : (rune_count : String → ℕ) → RejectInput → Result (Unit {0})
validate_reject rune_count input =
    failed_with (check_code input.code ++ check_reason rune_count input.code input.reason)

-- LockPaymentProof, and the order that it is for.
abbrev pub lock_payment_proof : ℕ → Tx PayDb ProofRow
lock_payment_proof id s = elim (s.proofs id) [ none ↦ err (new 404 not_found) | some p ↦ ok (p, s) ]

abbrev pub order_of : ProofRow → Tx PayDb ℕ
order_of p s = elim p.reg_order_id [ none ↦ err (new 404 not_found) | some id ↦ ok (id, s) ]

-- lockForReview; the order comes with its id.
unfoldable pub lock_for_review : ℕ → Tx PayDb (ProofRow × ℕ × OrderRow)
lock_for_review id = do
  proof ← lock_payment_proof id
  order_id ← order_of proof
  order ← on_db (lock_order order_id)
  guard (is_submitted proof.status && is_proof_submitted order.status)
      (new 409 order_state_conflict)
  pure (proof, order_id, order)

-- An `:execrows` update of payment_proofs.
abbrev pub update_proof : (ProofRow → ProofRow) → ℕ → Tx PayDb Bool
update_proof change id s = elim (update_where (λ p. is_submitted p.status) change id s.proofs) [
  | none ↦ ok (false, s)
  | some t ↦ ok (true, record s { proofs = t })
]

-- MarkPaymentProofApproved and MarkPaymentProofRejected.
abbrev pub set_approved : (staff now : ℕ) → ProofRow → ProofRow
set_approved staff now p = record p {
  status = approved;
  reviewed_by = some staff;
  reviewed_at = some now;
}

abbrev pub set_rejected : (staff now : ℕ) → RejectInput → ProofRow → ProofRow
set_rejected staff now input p = record p {
  status = rejected;
  reviewed_by = some staff;
  reviewed_at = some now;
  reject_code = input.code;
  reject_reason = input.reason;
}

-- `UNIQUE (payment_account_id, txn_ref)` of payment_receipts.
unfoldable pub has_receipt : (account : ℕ) (txn_ref : String) → List ReceiptRow → Bool
has_receipt account txn_ref [] = false
has_receipt account txn_ref (r ∷ rs) =
    ((r.payment_account_id == account) && str_eq r.txn_ref txn_ref)
    || has_receipt account txn_ref rs

-- `UNIQUE (proof_id)`.
unfoldable pub has_proof_receipt : (proof_id : ℕ) → List ReceiptRow → Bool
has_proof_receipt proof_id [] = false
has_proof_receipt proof_id (r ∷ rs) = (r.proof_id == proof_id) || has_proof_receipt proof_id rs

-- `CHECK (amount_cents > 0)` and `UNIQUE (proof_id)`, for which no error is registered.
abbrev pub breaks_constraint : ReceiptRow → List ReceiptRow → Bool
breaks_constraint r rs = leb r.amount_cents 0 || has_proof_receipt r.proof_id rs

-- InsertPaymentReceipt, with the error of FromPG.
unfoldable pub insert_receipt : ReceiptRow → Tx PayDb (Unit {0})
unfolding has_receipt has_proof_receipt
insert_receipt r s =
    if breaks_constraint r s.receipts
    then err internal_error
    else if has_receipt r.payment_account_id r.txn_ref s.receipts
    then err (new 409 proof_txn_ref_used)
    else ok (tt, record s { receipts = r ∷ s.receipts })

abbrev pub match_status_of : (received due : ℕ) → MatchStatus
match_status_of received due = if ltb 0 (received - due) then exception else applied

-- `if overpaid > 0`
unfoldable pub insert_overpaid : (order_id received due : ℕ) → Option String → Tx PayDb (Unit {0})
insert_overpaid order_id received due note s =
    if ltb 0 (received - due)
    then ok (
      tt,
      record s {
        exceptions =
            record { reg_order_id = order_id; amount_cents = received - due; note = note }
            ∷ s.exceptions;
      },
    )
    else ok (tt, s)

abbrev pub enqueue : Notice → Tx Db (Unit {0})
enqueue n = modify (λ d. record d { outbox = n ∷ d.outbox })

abbrev pub too_low : Error
too_low =
    with_field (new 422 received_amount_too_low) (field "receivedAmountCents")
      "RECEIVED_AMOUNT_TOO_LOW"

abbrev pub receipt_of :
    (staff received_at : ℕ) → ApproveInput → (id : ℕ) → ProofRow → (order_id due : ℕ) → ReceiptRow
receipt_of staff received_at input id proof order_id due = record {
  payment_account_id = proof.payment_account_id;
  txn_ref = proof.bank_txn_ref;
  amount_cents = input.received_amount_cents;
  received_at = received_at;
  proof_id = id;
  reg_order_id = order_id;
  match_status = match_status_of input.received_amount_cents due;
  recorded_by = staff;
}

-- What the transaction writes once the proof and its order are locked.
unfoldable pub write_approval :
    (staff now received_at : ℕ)
    → ApproveInput
    → (id : ℕ) → ProofRow
    → (order_id : ℕ) → OrderRow
    → Tx PayDb (Unit {0})
unfolding insert_receipt insert_overpaid
write_approval staff now received_at input id proof order_id order = do
  guard (leb order.amount_cents input.received_amount_cents) too_low
  n ← update_proof (set_approved staff now) id
  guard n (new 409 order_state_conflict)
  insert_receipt (receipt_of staff received_at input id proof order_id order.amount_cents)
  insert_overpaid order_id input.received_amount_cents order.amount_cents input.note
  on_db (confirm_paid order_id received_at)
  on_db (record_audit (record { action = "payment_proof.approve"; entity_id = id }))
  on_db (enqueue (record { template = "proof_approved"; order_id = order_id }))

unfoldable pub approve_tx :
    (staff now received_at : ℕ) → ApproveInput → (id : ℕ) → Tx PayDb (Unit {0})
unfolding lock_for_review write_approval
approve_tx staff now received_at input id = do
  (proof, order_id, order) ← lock_for_review id
  write_approval staff now received_at input id proof order_id order

-- `CHECK (status <> 'REJECTED' OR reject_code IS NOT NULL)`; `none` is a code that is not in the list.
abbrev pub has_reject_code : RejectInput → Bool
has_reject_code input = elim input.code [ none ↦ false | some code ↦ true ]

unfoldable pub reject_tx : (staff now : ℕ) → RejectInput → (id : ℕ) → Tx PayDb (Unit {0})
unfolding lock_for_review
reject_tx staff now input id = do
  (proof, order_id, order) ← lock_for_review id
  settings ← gets (λ s. s.db.settings)
  n ← update_proof (set_rejected staff now input) id
  guard n (new 409 order_state_conflict)
  guard (has_reject_code input) internal_error
  on_db (mark_proof_rejected order_id (now + settings.reupload_window))
  on_db (record_audit (record { action = "payment_proof.reject"; entity_id = id }))
  on_db (enqueue (record { template = "proof_rejected"; order_id = order_id }))

-- ApproveProof and RejectProof: `received_at` is not the zero time once it is validated.
abbrev pub if_valid :
    Result (Unit {0}) → (PayDb → Result (Unit {0}) × PayDb) → PayDb → Result (Unit {0}) × PayDb
if_valid (ok u) run s = run s
if_valid (err e) run s = (err e, s)

abbrev pub received_at_of : Option ℕ → ℕ
received_at_of none = 0
received_at_of (some t) = t

unfoldable pub approve_proof :
    (rune_count : String → ℕ)
    → (staff now : ℕ) → (id : ℕ) → ApproveInput
    → PayDb
    → Result (Unit {0}) × PayDb
unfolding validate_approve approve_tx
approve_proof rune_count staff now id input =
    if_valid (validate_approve rune_count now input)
      (in_tx (approve_tx staff now (received_at_of input.received_at) input id))

unfoldable pub reject_proof :
    (rune_count : String → ℕ)
    → (staff now : ℕ) → (id : ℕ) → RejectInput
    → PayDb
    → Result (Unit {0}) × PayDb
unfolding validate_reject reject_tx
reject_proof rune_count staff now id input =
    if_valid (validate_reject rune_count input) (in_tx (reject_tx staff now input id))
