-- ===== src/Payment/System/Placements.antt =====
-- An order that is placed keeps the database sound.
use mathlib.Core.Path.{subst}
use mathlib.Core.Option.{some-injective}
use run.Base.{
  map, Option, ◌==◌, ℕ, ◌+◌, ◌≡◌, refl, sym, ◌∙◌, ap, Bool, true, false, none, some, List, ◌∷◌,
}
use Prim.Native.String.{String}
use run.Platform.Apperr.{guard, new, registration_closed, Result, ok, Tx, lift, bind-eq-ok, ◌>>◌}
use run.Platform.Table.{Table, put}
use run.Store.{Db, OrderRow, AuditRow}
use run.Pricing.Quote.{Quote}
use run.Registration.Orders.{is_proof_submitted, confirm_paid, can_pay, set_paid, record_audit}
use run.Registration.Consistent.{IsConsistent}
use run.Registration.Create.{
  EventRow, is_registration_open, check_already_registered, unless_registered, registered_fields,
  account_or_error, quote_input, create_order_tx, ResolvedParticipant, new_order, write_order,
  confirm_if_free,
}
use run.Registration.Create.Fresh.{IsFresh}
use run.Registration.Create.Kept.{write_order-IsConsistent, write_order-orders}
use run.Registration.Status.{pays, new_order-IsWellFormed}
use run.Registration.Changed.{confirm_paid-IsChanged}
use run.Payment.Review.{PayDb}
use run.Payment.Linked.{Waits, IsLinked-elsewhere, put-here}
use run.Pricing.Quote.{QuoteInput}
use run.Pricing.Quote.Total.{quote}
use run.Platform.Inversion.{guard-inv, same_result, lift-inv}
use run.Payment.System.{IsSound, AllWellFormed-put, sound, noted, noted-IsConsistent}
use run.Payment.System.Endings.{moved_elsewhere}

-- The row of a new order that awaits nothing of the review.
placed-IsSound :
    (s : PayDb) (d : Db) (o : ℕ) (event_id user account deadline : ℕ) (q : Quote)
    → IsSound s
    → s.db.orders o ≡ none
    → IsConsistent d
    → d.orders ≡ put s.db.orders o (new_order event_id user account deadline q)
    → IsSound (record s { db = d })
placed-IsSound s d o event_id user account deadline q sd fresh c orders =
    let row = new_order event_id user account deadline q in
    sound (record s { db = d }) (put s.db.orders o row) s.proofs c orders refl
      (AllWellFormed-put s.db.orders o row sd.well_formed
        (new_order-IsWellFormed event_id user account deadline q))
      (IsLinked-elsewhere s.db.orders s.proofs o row not_waiting refl sd.linked) sd.unique_refs
  where
    not_waiting : Waits s.db.orders o → ⊥
    not_waiting (row', found, waits) = let bad : none ≡ some row' = sym fresh ∙ found in cc

-- An order of no amount is paid at once.
confirm_if_free-IsSound :
    (s : PayDb) (free : Bool) (o now : ℕ) (row : OrderRow) (r : Unit {0} × Db)
    → IsSound s
    → s.db.orders o ≡ some row
    → is_proof_submitted row.status ≡ false
    → confirm_if_free free o now s.db ≡ ok r
    → IsSound (record s { db = r.1 })
confirm_if_free-IsSound s false o now row r sd found idle h =
    subst (λ (x : Unit {0} × Db). IsSound (record s { db = x.1 })) (same_result h) sd
confirm_if_free-IsSound s true o now row r sd found idle h =
    let (c, e, h1) = bind-eq-ok (confirm_paid o now) _ s.db h in
    let changed = confirm_paid-IsChanged o now s.db c sd.is_consistent e in
    let same : row ≡ changed.row = some-injective _ _ (sym found ∙ changed.found) in
    subst (λ (x : Unit {0} × Db). IsSound (record s { db = x.1 })) (same_result h1)
      (moved_elsewhere can_pay (set_paid now) s c.1 o _ _ sd changed
        (ap (λ (x : OrderRow). is_proof_submitted x.status) (sym same) ∙ idle)
        (pays now changed.row changed.met) refl)

abbrev created_note : ℕ → AuditRow
created_note o = record { action = "reg_order.create"; entity_id = o }

-- What follows the rows of a new order.
abbrev close_order : Result (Unit {0}) → Bool → (o now : ℕ) → Tx Db (Unit {0})
close_order consent free o now = do
  lift consent
  record_audit (record { action = "reg_order.create"; entity_id = o })
  confirm_if_free free o now

write_order-IsSound :
    (event_id user account o now : ℕ) (parts : List ResolvedParticipant) (q : Quote)
    (consent : Result (Unit {0})) (free : Bool) (s : PayDb) (r : Unit {0} × Db)
    → IsSound s
    → s.db.orders o ≡ none
    → IsFresh o s.db.participants
    → (write_order event_id user account o now parts q >> close_order consent free o now) s.db
      ≡ ok r
    → IsSound (record s { db = r.1 })
write_order-IsSound event_id user account o now parts q consent free s r sd fresh alone h =
    let (w, e, h1) = bind-eq-ok (write_order event_id user account o now parts q) _ s.db h in
    let c =
      write_order-IsConsistent event_id user account o now parts q s.db w alone sd.is_consistent
        e in
    let orders = write_order-orders event_id user account o now parts q s.db w e in
    let (v, e2, h2) = bind-eq-ok (lift consent) _ w.1 h1 in
    let same = lift-inv consent w.1 v e2 in
    let row = new_order event_id user account (now + s.db.settings.upload_window) q in
    let placed_db : Db = noted (created_note o ∷ v.1.audit) v.1.outbox v.1 in
    let s1 : PayDb = record s { db = placed_db } in
    let placed_orders : placed_db.orders ≡ put s.db.orders o row =
      ap (λ (x : Db). x.orders) same ∙ orders in
    confirm_if_free-IsSound s1 free o now row r
      (placed-IsSound s placed_db o event_id user account (now + s.db.settings.upload_window) q sd
        fresh (noted-IsConsistent _ _ v.1 (subst IsConsistent (sym same) c)) placed_orders)
      (ap (λ (t : Table OrderRow). t o) placed_orders ∙ put-here s.db.orders o row) refl h2

check_already_registered-inv :
    (event_id : ℕ) (parts : List ResolvedParticipant) (db : Db) (r : Unit {0} × Db)
    → check_already_registered event_id parts db ≡ ok r
    → r.1 ≡ db
unfolding check_already_registered
check_already_registered-inv event_id parts db r h =
    lift-inv (unless_registered (registered_fields 0 event_id db.participants parts)) db r h

-- A new order that goes through, with a new key, keeps the database sound.
pub create_order_tx-IsSound :
    (upper_trim : String → String) (user event_id : ℕ) (ev : EventRow) (coupon_code : String)
    (parts : List ResolvedParticipant) (account : Option ℕ) (o now : ℕ)
    (consent : Result (Unit {0})) (s : PayDb) (r : Unit {0} × Db)
    → IsSound s
    → s.db.orders o ≡ none
    → IsFresh o s.db.participants
    → create_order_tx upper_trim user event_id ev coupon_code parts account o now consent s.db
      ≡ ok r
    → IsSound (record s { db = r.1 })
unfolding create_order_tx
create_order_tx-IsSound upper_trim user event_id ev coupon_code parts account o now consent s r sd
      fresh alone h =
    let closed = new 409 registration_closed in
    let (g, e1, h1) = bind-eq-ok (guard (is_registration_open ev now) closed) _ s.db h in
    let (opened, same1) = guard-inv (is_registration_open ev now) closed s.db g e1 in
    let (k, e2, h2) = bind-eq-ok (check_already_registered event_id parts) _ g.1 h1 in
    let same2 = check_already_registered-inv event_id parts g.1 k e2 in
    let (a, e3, h3) = bind-eq-ok (lift (account_or_error account)) _ k.1 h2 in
    let same3 = lift-inv (account_or_error account) k.1 a e3 in
    let input : QuoteInput = record {
      event_id = event_id;
      race_date = ev.race_date;
      coupon_code = coupon_code;
      participants = map quote_input parts;
      now = now;
      payment_account_id = some a.0;
    } in
    let (q, e4, h4) = bind-eq-ok (lift (quote upper_trim input a.1)) _ a.1 h3 in
    let same = lift-inv (quote upper_trim input a.1) a.1 q e4 ∙ same3 ∙ same2 ∙ same1 in
    write_order-IsSound event_id user a.0 o now parts q.0 consent (q.0.amount_cents == 0) s r sd
      fresh alone
      (subst
        (λ (x : Db).
          (write_order event_id user a.0 o now parts q.0
              >> close_order consent (q.0.amount_cents == 0) o now)
            x
          ≡ ok r)
        same h4)
