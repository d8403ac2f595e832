-- ===== src/Payment/System/Progress.antt =====
-- No order with an open reservation is stuck.
use run.Base.{ℕ, ◌≡◌, ◌⊎◌, inl, inr, true, some, arith}
use run.Platform.Apperr.{ok}
use run.Store.{Db, OrderRow, order_expired}
use run.Pricing.Reserve.{is_reserved}
use run.Registration.Orders.{can_release, release_order}
use run.Registration.Outcome.{release_order-true}
use run.Registration.Status.{open_status}
use run.Payment.Review.{PayDb, RejectInput, reject_proof, validate_reject}
use Prim.Native.String.{String}
use run.Payment.Review.Rejected.{reject_proof-ok}
use run.Payment.Linked.{Pends}
use run.Payment.System.{IsSound}

-- On a sound database an order with an open reservation can always be moved on: either its release
-- goes through, or it has a proof under review, which staff can reject with any valid input.
pub order_progress :
    (rune_count : String → ℕ) (staff now : ℕ) (input : RejectInput) (o : ℕ) (row : OrderRow)
    (s : PayDb)
    → IsSound s
    → s.db.orders o ≡ some row
    → is_reserved row.reservation_state ≡ true
    → validate_reject rune_count input ≡ ok tt
    → ((d : Db) × (release_order o order_expired s.db ≡ ok (true, d)))
      ⊎ ((id : ℕ) × (s' : PayDb) × Pends s.proofs id o
          × (reject_proof rune_count staff now id input s ≡ (ok tt, s')))
order_progress rune_count staff now input o row s sd found held valid =
    elim (open_status row (sd.well_formed o row found) held) [
      | inl awaits ↦
          let can : can_release order_expired row ≡ true = ground (arith, awaits, held) in
          let (d, e, orders, ps, ids, c, uses) =
            release_order-true o order_expired s.db row sd.is_consistent found can in
          inl (d, e)
      | inr waits ↦
          let (id, (p, stored, submitted, of_o)) = sd.linked.pends o (row, found, waits) in
          let (s', e, left) =
            reject_proof-ok rune_count staff now input id p o row s
              (record {
                proof = stored;
                proof_order = of_o;
                order = found;
                proof_waits = submitted;
                order_waits = waits;
              })
              held valid in
          inr (id, s', (p, stored, submitted, of_o), e)
    ]
