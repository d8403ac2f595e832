-- ===== src/Payment/Submit.antt =====
-- `SubmitProof` of api/internal/payment/proofs.go, from an image that was read and stored: its
-- transaction and what comes before the insertion of the proof. `rune_count` stands for Go's
-- utf8.RuneCountInString; `txn_ref` is what normalizeTxnRef returned and `payer_name` what
-- trimOptional did. A declared amount below zero is refused like zero and is not in the model. The
-- random number of the proof is left out, and so is the removal of the stored image after a failure.
use Prim.Native.String.{String}
use text.Mathlib.Text.{◌==◌ as str_eq}
use run.Base.{
  ℕ, Bool, true, false, not, ◌&&◌, ◌||◌, Option, none, some, List, [], ◌∷◌, ◌++◌, ltb, leb, ◌==◌,
  if◌then◌else◌, some_and, count_if,
}
use run.Platform.Apperr.{
  Field, field, Result, ok, err, new, with_field, internal_error, failed_with, add_if,
  order_not_found, order_expired, order_state_conflict, proof_txn_ref_used, Tx, gets, modify, lift,
  guard, ◌>>=◌, ◌>>◌,
}
use run.Platform.Table.{Table, put}
use run.Store.{OrderRow}
use run.Registration.Orders.{lock_order, mark_proof_submitted, is_awaiting_proof, record_audit}
use run.Payment.Review.{
  PayDb, FileRow, ProofRow, ProofStatus, submitted, approved, rejected, is_submitted, on_db,
}

abbrev pub min_txn_ref_len : ℕ
min_txn_ref_len = 4

abbrev pub max_txn_ref_len : ℕ
max_txn_ref_len = 64

abbrev pub max_payer_name_len : ℕ
max_payer_name_len = 100

pub record SubmitInput : Type 0 where
  pub sha256 : ℕ
  pub txn_ref : String
  pub declared_amount_cents : ℕ
  pub declared_paid_at : Option ℕ
  pub payer_name : Option String

-- validateSubmit.
abbrev pub check_txn_ref : (length : ℕ) → List (Field × String)
check_txn_ref n =
    if n == 0
    then (field "bankTxnRef", "field.required") ∷ []
    else add_if (ltb n min_txn_ref_len || ltb max_txn_ref_len n) (field "bankTxnRef")
        "field.invalid"

unfoldable pub validate_submit : (rune_count : String → ℕ) → SubmitInput → Result (Unit {0})
validate_submit rune_count input = failed_with (
    check_txn_ref (rune_count input.txn_ref)
    ++ (add_if (leb input.declared_amount_cents 0) (field "declaredAmountCents")
          "field.must_be_positive"
        ++ add_if (some_and (λ name. ltb max_payer_name_len (rune_count name)) input.payer_name)
            (field "payerName") "field.too_long"))

-- storage.InsertFile and storage.CountOtherFilesWithSHA256.
abbrev pub insert_file : FileRow → Tx PayDb (Unit {0})
insert_file f = modify (λ s. record s { files = f ∷ s.files })

abbrev pub count_other_files : (sha256 exclude_id : ℕ) → PayDb → ℕ
count_other_files sha256 exclude_id s =
    count_if (λ f. (f.sha256 == sha256) && not (f.id == exclude_id)) s.files

-- payment_proofs_txn_ref_uniq and payment_proofs_one_pending_reg, which hold of some of the rows.
abbrev pub is_live_proof : ProofStatus → Bool
is_live_proof submitted = true
is_live_proof approved = true
is_live_proof rejected = false

abbrev pub uses_txn_ref : (account : ℕ) (txn_ref : String) → Option ProofRow → Bool
uses_txn_ref account txn_ref none = false
uses_txn_ref account txn_ref (some p) =
    is_live_proof p.status && (p.payment_account_id == account) && str_eq p.bank_txn_ref txn_ref

abbrev pub is_pending_of : (order_id : ℕ) → Option ProofRow → Bool
is_pending_of order_id none = false
is_pending_of order_id (some p) =
    is_submitted p.status && some_and (λ o. o == order_id) p.reg_order_id

unfoldable pub any_proof : (Option ProofRow → Bool) → Table ProofRow → List ℕ → Bool
any_proof test proofs [] = false
any_proof test proofs (id ∷ ids) = test (proofs id) || any_proof test proofs ids

-- InsertPaymentProof, with the error of FromPG.
abbrev pub pending_proofs : (order_id : ℕ) → PayDb → Bool
pending_proofs order_id s = any_proof (is_pending_of order_id) s.proofs s.proof_ids

unfoldable pub insert_payment_proof : (id order_id : ℕ) → ProofRow → Tx PayDb (Unit {0})
unfolding any_proof
insert_payment_proof id order_id p s =
    if any_proof (uses_txn_ref p.payment_account_id p.bank_txn_ref) s.proofs s.proof_ids
    then err (with_field (new 409 proof_txn_ref_used) (field "bankTxnRef") "PROOF_TXN_REF_USED")
    else if pending_proofs order_id s
    then err internal_error
    else ok (tt, record s { proofs = put s.proofs id p; proof_ids = id ∷ s.proof_ids })

abbrev pub proof_of : (user order_id file_id : ℕ) → OrderRow → SubmitInput → (dups : ℕ) → ProofRow
proof_of user order_id file_id order input dups = record {
  reg_order_id = some order_id;
  payment_account_id = order.payment_account_id;
  bank_txn_ref = input.txn_ref;
  file_id = file_id;
  submitted_by_user_id = user;
  declared_amount_cents = input.declared_amount_cents;
  declared_paid_at = input.declared_paid_at;
  payer_name = input.payer_name;
  dup_file_hit = ltb 0 dups;
  status = submitted;
  reviewed_by = none;
  reviewed_at = none;
  reject_code = none;
  reject_reason = none;
}

abbrev pub is_past : (now : ℕ) → Option ℕ → Bool
is_past now none = false
is_past now (some t) = leb t now

-- What is asked of the order that was locked.
unfoldable pub check_order : (user now : ℕ) → OrderRow → Tx PayDb (Unit {0})
check_order user now order = do
  guard (order.buyer_user_id == user) (new 404 order_not_found)
  guard (is_awaiting_proof order.status) (new 409 order_state_conflict)
  guard (not (is_past now order.deadline_at)) (new 409 order_expired)

-- What the transaction writes.
unfoldable pub write_proof :
    (user order_id file_id proof_id : ℕ) → OrderRow → SubmitInput → Tx PayDb (Unit {0})
unfolding insert_payment_proof
write_proof user order_id file_id proof_id order input = do
  insert_file (record { id = file_id; sha256 = input.sha256; uploaded_by_id = user })
  dups ← gets (count_other_files input.sha256 file_id)
  insert_payment_proof proof_id order_id (proof_of user order_id file_id order input dups)
  on_db (mark_proof_submitted order_id)
  on_db (record_audit (record { action = "payment_proof.submit"; entity_id = proof_id }))

unfoldable pub submit_tx :
    (rune_count : String → ℕ)
    → (user order_id file_id proof_id now : ℕ) → SubmitInput
    → Tx PayDb (Unit {0})
unfolding validate_submit check_order write_proof
submit_tx rune_count user order_id file_id proof_id now input = do
  order ← on_db (lock_order order_id)
  check_order user now order
  lift (validate_submit rune_count input)
  write_proof user order_id file_id proof_id order input
