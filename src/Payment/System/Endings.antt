-- ===== src/Payment/System/Endings.antt =====
-- Orders that are cancelled or expire keep the database sound.
use mathlib.Core.Path.{subst}
use mathlib.Core.Option.{some-injective}
use run.Base.{
  ℕ, ◌≡◌, refl, sym, ◌∙◌, ap, Bool, true, false, List, ◌∷◌, arith, Bool-cases, Option-cases, inl,
  inr, ◌==◌,
}
use run.Platform.Apperr.{
  Result, ok, err, new, guard, bind-eq-ok, order_state_conflict, order_not_found, internal_error,
}
use run.Platform.Table.{put}
use run.Store.{Db, OrderRow, ReleaseKind, order_expired, order_cancelled, AuditRow, Notice}
use run.Registration.Orders.{
  can_release, set_released, release_order, cancel_order, lock_order_for_buyer, is_pending_payment,
  is_proof_submitted,
}
use run.Registration.Deadline.{get_order, note_expired, expire_order}
use run.Registration.Status.{Move, releases, Move-IsWellFormed}
use run.Registration.Changed.{IsChanged, release_order-IsChanged, release_order-unchanged}
use run.Payment.Review.{PayDb}
use run.Payment.Linked.{Waits, IsLinked-elsewhere}
use run.Platform.Inversion.{same_result, guard-inv}
use run.Payment.System.{IsSound, AllWellFormed-put, sound, noted, noted-IsConsistent}

-- An order that was not under review makes a move to a status that is not either.
pub moved_elsewhere :
    (test : OrderRow → Bool) (change : OrderRow → OrderRow) (s : PayDb) (d : Db) (o : ℕ)
    (rows : List AuditRow) (notices : List Notice)
    → IsSound s
    → (changed : IsChanged test change o s.db d) → is_proof_submitted changed.row.status ≡ false
    → Move changed.row (change changed.row)
    → is_proof_submitted (change changed.row).status ≡ false
    → IsSound (record s { db = noted rows notices d })
moved_elsewhere test change s d o rows notices sd changed idle move over =
    let row' = change changed.row in
    sound (record s { db = noted rows notices d }) (put s.db.orders o row') s.proofs
      (noted-IsConsistent rows notices d changed.is_consistent) changed.orders refl
      (AllWellFormed-put s.db.orders o row' sd.well_formed
        (Move-IsWellFormed move (sd.well_formed o changed.row changed.found)))
      (IsLinked-elsewhere s.db.orders s.proofs o row' not_waiting over sd.linked) sd.unique_refs
  where
    not_waiting : Waits s.db.orders o → ⊥
    not_waiting (row, found, waits) =
        let same = some-injective _ _ (sym changed.found ∙ found) in
        let bad : false ≡ true =
          sym idle ∙ ap (λ (x : OrderRow). is_proof_submitted x.status) same ∙ waits in
        cc

released_idle :
    (kind : ReleaseKind) (row : OrderRow)
    → can_release kind row ≡ true
    → is_proof_submitted row.status ≡ false
released_idle order_expired row h = ground arith
released_idle order_cancelled row h = ground arith

released_over :
    (kind : ReleaseKind) (row : OrderRow)
    → is_proof_submitted (set_released kind row).status ≡ false
released_over order_expired row = refl
released_over order_cancelled row = refl

release-IsSound :
    (o : ℕ) (kind : ReleaseKind) (s : PayDb) (d : Db) (rows : List AuditRow) (notices : List Notice)
    → IsSound s
    → release_order o kind s.db ≡ ok (true, d)
    → IsSound (record s { db = noted rows notices d })
release-IsSound o kind s d rows notices sd h =
    let changed = release_order-IsChanged o kind s.db d sd.is_consistent h in
    moved_elsewhere (can_release kind) (set_released kind) s d o rows notices sd changed
      (released_idle kind changed.row changed.met) (releases kind changed.row changed.met)
      (released_over kind changed.row)

lock_order_for_buyer-inv :
    (user o : ℕ) (db : Db) (r : OrderRow × Db) → lock_order_for_buyer user o db ≡ ok r → r.1 ≡ db
lock_order_for_buyer-inv user o db r h = elim (Option-cases (db.orders o)) [
  | inl gone ↦
      let e : lock_order_for_buyer user o db ≡ err (new 404 order_not_found) =
        ground (arith, gone) in
      let bad : ◌≡◌ {A = Result (OrderRow × Db)} (err (new 404 order_not_found)) (ok r) =
        sym e ∙ h in
      cc
  | inr (row, found) ↦ elim (Bool-cases (row.buyer_user_id == user)) [
    | inl own ↦
        let e : lock_order_for_buyer user o db ≡ ok (row, db) = ground (arith, found, own) in
        ap (λ (x : OrderRow × Db). x.1) (same_result (sym h ∙ e))
    | inr other ↦
        let e : lock_order_for_buyer user o db ≡ err (new 404 order_not_found) =
          ground (arith, found, other) in
        let bad : ◌≡◌ {A = Result (OrderRow × Db)} (err (new 404 order_not_found)) (ok r) =
          sym e ∙ h in
        cc
  ]
]

get_order-inv : (o : ℕ) (db : Db) (r : OrderRow × Db) → get_order o db ≡ ok r → r.1 ≡ db
get_order-inv o db r h = elim (Option-cases (db.orders o)) [
  | inl gone ↦
      let e : get_order o db ≡ err internal_error = ground (arith, gone) in
      let bad : ◌≡◌ {A = Result (OrderRow × Db)} (err internal_error) (ok r) = sym e ∙ h in cc
  | inr (row, found) ↦
      let e : get_order o db ≡ ok (row, db) = ground (arith, found) in
      ap (λ (x : OrderRow × Db). x.1) (same_result (sym h ∙ e))
]

abbrev cancelled_note : ℕ → AuditRow
cancelled_note o = record { action = "reg_order.cancel"; entity_id = o }

-- A buyer's cancellation.
pub cancel_order-IsSound :
    (user o : ℕ) (s : PayDb) (r : Unit {0} × Db)
    → IsSound s
    → cancel_order user o s.db ≡ ok r
    → IsSound (record s { db = r.1 })
unfolding cancel_order
cancel_order-IsSound user o s r sd h =
    let conflict = new 409 order_state_conflict in
    let (l, e1, h1) = bind-eq-ok (lock_order_for_buyer user o) _ s.db h in
    let same1 = lock_order_for_buyer-inv user o s.db l e1 in
    let (g, e2, h2) = bind-eq-ok (guard (is_pending_payment l.0.status) conflict) _ l.1 h1 in
    let (waits, same2) = guard-inv (is_pending_payment l.0.status) conflict l.1 g e2 in
    let (rel, e3, h3) = bind-eq-ok (release_order o order_cancelled) _ g.1 h2 in
    let (g', e4, h4) = bind-eq-ok (guard rel.0 conflict) _ rel.1 h3 in
    let (done, same4) = guard-inv rel.0 conflict rel.1 g' e4 in
    let released : release_order o order_cancelled s.db ≡ ok (true, rel.1) =
      subst (λ (x : Db). release_order o order_cancelled x ≡ ok rel) (same2 ∙ same1) e3
      ∙ ap {A = Bool} {B = Result (Bool × Db)} (λ b. ok (b, rel.1)) done in
    subst (λ (x : Unit {0} × Db). IsSound (record s { db = x.1 })) (same_result h4)
      (subst (λ (x : Db). IsSound (record s { db = noted (cancelled_note o ∷ x.audit) x.outbox x }))
        (sym same4) (release-IsSound o order_cancelled s rel.1 _ _ sd released))

note_expired-IsSound :
    (o : ℕ) (s : PayDb) (b : Bool) (d : Db) (r : Bool × Db)
    → IsSound s
    → release_order o order_expired s.db ≡ ok (b, d)
    → note_expired o b d ≡ ok r
    → IsSound (record s { db = r.1 })
note_expired-IsSound o s false d r sd released h =
    let same : r.1 ≡ s.db =
      ap (λ (x : Bool × Db). x.1) (sym (same_result h))
      ∙ release_order-unchanged o order_expired s.db d sd.is_consistent released in
    subst (λ (x : Db). IsSound (record s { db = x })) (sym same) sd
note_expired-IsSound o s true d r sd released h =
    subst (λ (x : Bool × Db). IsSound (record s { db = x.1 })) (same_result h)
      (release-IsSound o order_expired s d _ _ sd released)

-- An order of the deadline loop.
pub expire_order-IsSound :
    (o : ℕ) (s : PayDb) (r : Bool × Db)
    → IsSound s
    → expire_order o s.db ≡ ok r
    → IsSound (record s { db = r.1 })
unfolding expire_order
expire_order-IsSound o s r sd h =
    let (g, e1, h1) = bind-eq-ok (get_order o) _ s.db h in
    let same = get_order-inv o s.db g e1 in
    let (rel, e2, h2) = bind-eq-ok (release_order o order_expired) _ g.1 h1 in
    note_expired-IsSound o s rel.0 rel.1 r sd
      (subst (λ (x : Db). release_order o order_expired x ≡ ok rel) same e2) h2
