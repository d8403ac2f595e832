-- ===== src/Tests/System.antt =====
-- A database with one order that awaits its payment, and what becomes of it.
use Prim.Native.String.{String}
use mathlib.Core.Path.{subst}
use mathlib.Core.Option.{some-injective}
use run.Base.{
  ℕ, ◌≡◌, ◌⊎◌, refl, ap, ◌∙◌, true, false, Option, none, some, [], Bool-cases, inl, inr, ◌==◌,
}
use run.Platform.Apperr.{ok, err}
use run.Store.{Db, OrderRow, pending_payment, order_expired}
use run.Registration.Orders.{is_proof_submitted, release_order, mark_proof_submitted}
use run.Registration.Status.{IsWellFormed}
use run.Payment.Review.{PayDb, RejectInput, not_received, reject_proof, validate_reject}
use run.Payment.Submit.{SubmitInput, submit_tx}
use run.Payment.Linked.{Pends}
use run.Payment.System.{IsSound}
use run.Payment.System.Runs.{done, step, submits, Commits-IsSound}
use run.Payment.System.Progress.{order_progress}
use run.Tests.Data.{db_with, order_row, db_with-IsConsistent}

abbrev start : PayDb
start = record {
  db = db_with pending_payment;
  files = [];
  proofs = λ k. none;
  proof_ids = [];
  receipts = [];
  exceptions = [];
}

pending_row :
    (o : ℕ) (row : OrderRow) → start.db.orders o ≡ some row → order_row pending_payment ≡ row
pending_row o row found = elim (Bool-cases (o == 3)) [
  | inl same ↦ some-injective _ _ (rw same at found)
  | inr other ↦ let bad : ◌≡◌ {A = Option OrderRow} none (some row) = rw other at found in cc
]

start-IsSound : IsSound start
start-IsSound = record {
  is_consistent = db_with-IsConsistent pending_payment;
  well_formed = λ o row found. subst IsWellFormed (pending_row o row found) (record {
    form = record { form_state = refl; form_kind = refl; form_deadline = refl; form_paid = refl };
  });
  linked = record {
    waits = λ id o (p, found, w, of_o). cc;
    pends = λ o (row, found, w).
        let bad : false ≡ true =
          ap (λ (x : OrderRow). is_proof_submitted x.status) (pending_row o row found) ∙ w in
        cc;
    only = λ id id' o (p, found, w, of_o) b. cc;
  };
  unique_refs = record {
    listed = λ id p found. cc;
    one_claim = λ i j account txn_ref a b. let bad = a.found in cc;
  };
}

abbrev slip : SubmitInput
slip = record {
  sha256 = 5;
  txn_ref = "TXN1";
  declared_amount_cents = 2000;
  declared_paid_at = none;
  payer_name = none;
}

abbrev four : String → ℕ
four text = 4

abbrev reached : PayDb
reached = elim (submit_tx four 8 3 12 11 50 slip start) [ ok (u, s) ↦ s | err e ↦ start ]

submitted_ok : submit_tx four 8 3 12 11 50 slip start ≡ ok (tt, reached)
unfolding submit_tx mark_proof_submitted
submitted_ok = refl

abbrev refusal : RejectInput
refusal = record { code = some not_received; reason = none }

Commits-IsSound_example : IsSound reached
Commits-IsSound_example =
    Commits-IsSound
      (step (submits four 8 3 12 11 50 slip start (tt, reached) refl submitted_ok) (done reached))
      start-IsSound

order_progress_example :
    ((d : Db) × (release_order 3 order_expired start.db ≡ ok (true, d)))
    ⊎ ((id : ℕ) × (s' : PayDb) × Pends start.proofs id 3
        × (reject_proof four 5 60 id refusal start ≡ (ok tt, s')))
unfolding validate_reject
order_progress_example =
    order_progress four 5 60 refusal 3 (order_row pending_payment) start start-IsSound refl refl
      refl
