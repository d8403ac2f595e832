-- ===== src/Registration/Deadline/Loop.antt =====
-- The loop of `ProcessDeadlines` ends, without an error, on a consistent database.
use mathlib.Core.Path.{subst}
use run.Base.{
  ℕ, zero, suc, ◌+◌, ◌≤◌, ◌<◌, ◌≡◌, refl, sym, ◌∙◌, ap, Bool, ◌||◌, none, ltb, ◌==◌, length, arith,
  Bool-cases, inl, inr,
}
use run.Platform.Apperr.{ok, in_tx-ok}
use run.Store.{Db}
use run.Registration.Consistent.{IsConsistent}
use run.Registration.Deadline.{
  Expiry, expired, expire_due, expire_due_batch, after_batch, expire_batch, with_selected,
  list_due_order_ids, deadline_batch_size,
}
use run.Registration.Deadline.Batch.{
  Keeps, Keeps-trans, open_count, expire_all-ok, list_due_order_ids-IsKnown,
}

expire_due_batch-ok :
    (as_of : ℕ) (is_held : ℕ → Bool) (db : Db)
    → IsConsistent db
    → (n : ℕ) × (db' : Db) × (expire_due_batch as_of is_held db
        ≡ (ok (length (list_due_order_ids as_of deadline_batch_size is_held db), n), db'))
      × Keeps db db' n
unfolding expire_due_batch
expire_due_batch-ok as_of is_held db c =
    let ids = list_due_order_ids as_of deadline_batch_size is_held db in
    let (n, db', e, k) =
      expire_all-ok ids 0 db c (list_due_order_ids-IsKnown as_of deadline_batch_size is_held db) in
    (
      n,
      db',
      in_tx-ok (expire_batch as_of is_held) (length ids, n) db db'
          (ap (with_selected (length ids)) (e ∙ ap (λ m. ok (m, db')) (omega arith))),
      k,
    )

-- On a consistent database, with more fuel than there are orders with an open reservation, the loop
-- over the batches ends, whichever rows other transactions hold. No batch fails, the database stays
-- consistent, and `m`, the number of released orders that it returns, is at most the number by which
-- the open reservations fell.
pub expire_due-expired :
    (fuel as_of : ℕ) (is_held : ℕ → Bool) (n : ℕ) (db : Db)
    → IsConsistent db
    → open_count db.orders db.order_ids < fuel
    → (m : ℕ) × (db' : Db) × (expire_due fuel as_of is_held n db ≡ expired (n + m) none db')
      × Keeps db db' m
unfolding expire_due
expire_due-expired zero as_of is_held n db c h = absurd (omega arith)
expire_due-expired (suc fuel) as_of is_held n db c h =
    let (r, db1, e, k) = expire_due_batch-ok as_of is_held db c in
    let selected = length (list_due_order_ids as_of deadline_batch_size is_held db) in
    let again : ℕ → Db → Expiry = λ m d. expire_due fuel as_of is_held m d in
    elim (Bool-cases (ltb selected deadline_batch_size || (r == 0))) [
      | inl stops ↦ (r, db1, ap (after_batch again n) e ∙ rw stops refl, k)
      | inr goes_on ↦
          let some_released : 1 ≤ r = ground arith in
          let fewer : open_count db1.orders db1.order_ids < fuel =
            subst (λ ids. open_count db1.orders ids < fuel) (sym k.same_ids)
              (omega (arith, k.fewer_open)) in
          let (m, db2, e', k') =
            expire_due-expired fuel as_of is_held (n + r) db1 k.is_consistent fewer in
          (
            r + m,
            db2,
            ap (after_batch again n) e
                ∙ rw goes_on (e' ∙ ap (λ x. expired x none db2) (omega arith)),
            Keeps-trans db db1 db2 r m k k',
          )
    ]
