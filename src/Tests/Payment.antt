-- ===== src/Tests/Payment.antt =====
-- A proof that is approved.
use run.Base.{◌≡◌, refl, false, none, some, [], ◌∷◌, ◌==◌, if◌then◌else◌}
use run.Platform.Apperr.{ok}
use run.Store.{proof_submitted}
use run.Payment.Review.Rejected.{IsRejected, reject_proof-ok}
use run.Payment.Review.{
  RejectCode, reject_proof, validate_reject, PayDb, ProofRow, ApproveInput, ProofStatus,
}
use run.Tests.Data.{db_with, order_row}

abbrev proof : ProofRow
proof = record {
  reg_order_id = some 3;
  payment_account_id = 6;
  bank_txn_ref = "TXN1";
  file_id = 12;
  submitted_by_user_id = 8;
  declared_amount_cents = 2000;
  declared_paid_at = none;
  payer_name = none;
  dup_file_hit = false;
  status = ProofStatus.submitted;
  reviewed_by = none;
  reviewed_at = none;
  reject_code = none;
  reject_reason = none;
}

abbrev waiting : PayDb
waiting = record {
  db = db_with proof_submitted;
  files = [];
  proofs = λ k. if k == 11 then some proof else none;
  proof_ids = 11 ∷ [];
  receipts = [];
  exceptions = [];
}

abbrev received : ApproveInput
received = record { received_amount_cents = 2100; received_at = some 490; note = none }

reject_proof-ok_example :
    (s' : PayDb) × (reject_proof
        (λ text. 4)
        5
        500
        11
        (record { code = some RejectCode.unreadable; reason = none })
        waiting
      ≡ (ok tt, s'))
    × IsRejected 5 500
        (record { code = some RejectCode.unreadable; reason = none })
        11
        proof
        3
        (order_row proof_submitted)
        waiting
        s'
unfolding validate_reject
reject_proof-ok_example =
    reject_proof-ok (λ text. 4) 5 500 (record { code = some RejectCode.unreadable; reason = none })
      11 proof 3 (order_row proof_submitted) waiting
      (record {
        proof = refl;
        proof_order = refl;
        order = refl;
        proof_waits = refl;
        order_waits = refl;
      })
      refl refl
