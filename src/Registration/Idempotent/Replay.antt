-- ===== src/Registration/Idempotent/Replay.antt =====
-- A request that is repeated.
use Prim.Native.String.{String}
use text.Mathlib.TextPositions.{eq_refl}
use mathlib.Core.Path.{subst}
use run.Base.{
  ℕ, ◌+◌, ◌≤◌, ◌<◌, ◌≡◌, refl, sym, ◌∙◌, ap, Bool, true, false, none, some, ltb, leb, ◌==◌, arith,
  Bool-cases, inl, inr, ==_refl,
}
use run.Platform.Apperr.{
  Result, ok, err, new, event_not_found, idempotency_key_reused, Tx, guard, bind-eq-ok, bind-ok,
  bind-err, ◌>>=◌,
}
use run.Platform.Inversion.{same_result, guard-inv}
use run.Registration.Idempotent.{
  idempotency_ttl, KeyRow, Keys, KeyedDb, KeyedRequest, put_key, claimed, claim_idempotency_key,
  with_response, on_inner, create_unless, create_order_keyed, purge_expired_idempotency_keys,
}

module _ {S D : Type 0} where
  -- The row of the key answers with the detail.
  pub record Answers (q : KeyedRequest) (until : ℕ) (d : D) (s : KeyedDb S D) : Type 0 where
    pub row : KeyRow D
    pub found : s.keys q.user q.key ≡ some row
    pub same_hash : row.request_hash ≡ q.hash
    pub answer : row.response ≡ some d
    pub expiry : row.expires_at ≡ until

  claim-Answers :
      (q : KeyedRequest) (now until : ℕ) (d : D) (s : KeyedDb S D)
      → Answers q until d s
      → now < until
      → claim_idempotency_key q now s ≡ ok (some d, s)
  unfolding claim_idempotency_key
  claim-Answers q now until d s a h =
      let live : leb a.row.expires_at now ≡ false = ground (arith, a.expiry) in
      let same : (a.row.request_hash == q.hash) ≡ true = ground (arith, a.same_hash) in
      rw a.found (rw (live, same) (rw a.answer refl))

  claim-reused :
      (q : KeyedRequest) (now until : ℕ) (other : ℕ) (d : D) (s : KeyedDb S D)
      → Answers q until d s
      → now < until
      → (q.hash == other) ≡ false
      → claim_idempotency_key (record q { hash = other }) now s
        ≡ err (new 422 idempotency_key_reused)
  unfolding claim_idempotency_key
  claim-reused q now until other d s a h differs =
      let live : leb a.row.expires_at now ≡ false = ground (arith, a.expiry) in
      let not_same : (a.row.request_hash == other) ≡ false = ground (arith, a.same_hash, differs) in
      rw a.found (rw (live, not_same) refl)

  on_inner-keys :
      {A : Type 0} (m : Tx S A) (s : KeyedDb S D) (r : A × KeyedDb S D)
      → on_inner m s ≡ ok r
      → r.1.keys ≡ s.keys
  on_inner-keys {A} m s r h = go (m s.db) h
    where
      go :
          (x : Result (A × S))
          → elim x as (λ _. Result (A × KeyedDb S D)) [
            | ok (a, d) ↦ ok (a, record s { db = d })
            | err e ↦ err e
          ]
            ≡ ok r
          → r.1.keys ≡ s.keys
      go (ok (a, d)) h' = ap (λ (x : A × KeyedDb S D). x.1.keys) (sym (same_result h'))
      go (err e) h' = cc

  -- The row that is claimed gets the detail of the order.
  created-Answers :
      (q : KeyedRequest) (now : ℕ) (create : Tx S D) (s : KeyedDb S D) (r : D × KeyedDb S D)
      → create_unless q create none
          (record s { keys = put_key s.keys q.user q.key (claimed q.hash now) })
        ≡ ok r
      → Answers q (now + idempotency_ttl) r.0 r.1
  created-Answers q now create s r h =
      let s1 : KeyedDb S D = record s { keys = put_key s.keys q.user q.key (claimed q.hash now) } in
      let (c, e, h1) = bind-eq-ok (on_inner create) _ s1 h in
      let kept = on_inner-keys create s1 c e in
      let final = same_result h1 in
      let d_same : c.0 ≡ r.0 = ap (λ (x : D × KeyedDb S D). x.0) final in
      let here : c.1.keys q.user q.key ≡ some (claimed q.hash now) =
        ap (λ (k : Keys D). k q.user q.key) kept ∙ rw (==_refl q.user, eq_refl q.key) refl in
      record {
        row = record (claimed q.hash now) { response = some r.0 };
        found =
            ap (λ (x : D × KeyedDb S D). x.1.keys q.user q.key) (sym final)
            ∙ rw (==_refl q.user, eq_refl q.key)
                (ap (with_response c.0) here
                  ∙ ap (λ (d : D). some (record (claimed q.hash now) { response = some d }))
                      d_same);
        same_hash = refl;
        answer = refl;
        expiry = refl;
      }

  first-Answers :
      (q : KeyedRequest) (now : ℕ) (found : Bool) (create : Tx S D) (s : KeyedDb S D)
      (r : D × KeyedDb S D)
      → s.keys q.user q.key ≡ none
      → create_order_keyed q now found create s ≡ ok r
      → Answers q (now + idempotency_ttl) r.0 r.1
  unfolding create_order_keyed claim_idempotency_key
  first-Answers q now found create s r fresh h =
      let (g, e, h1) = bind-eq-ok (guard found (new 404 event_not_found)) _ s h in
      let (there, same) = guard-inv found (new 404 event_not_found) s g e in
      let s1 : KeyedDb S D = record s { keys = put_key s.keys q.user q.key (claimed q.hash now) } in
      let claim : claim_idempotency_key q now s ≡ ok (none, s1) =
        rw (fresh, claim_idempotency_key) refl in
      created-Answers q now create s r (
        sym (bind-ok (claim_idempotency_key q now) (create_unless q create) s s1 none claim)
        ∙ subst
            (λ (x : KeyedDb S D). (claim_idempotency_key q now >>= create_unless q create) x ≡ ok r)
            same h1)

  -- A key that is still good is not purged.
  purge-Answers :
      (q : KeyedRequest) (at_time until : ℕ) (chosen : ℕ → String → Bool) (d : D) (s : KeyedDb S D)
      → at_time ≤ until
      → Answers q until d s
      → Answers q until d (purge_expired_idempotency_keys at_time chosen s)
  unfolding purge_expired_idempotency_keys
  purge-Answers q at_time until chosen d s h a =
      let live : ltb a.row.expires_at at_time ≡ false = ground (arith, a.expiry) in
      record {
        row = a.row;
        found = rw a.found (elim (Bool-cases (chosen q.user q.key)) [
          | inl yes_ ↦ rw (yes_, live) refl
          | inr no_ ↦ rw no_ refl
        ]);
        same_hash = a.same_hash;
        answer = a.answer;
        expiry = a.expiry;
      }

  replayed :
      (q : KeyedRequest) (later until : ℕ) (other : ℕ) (d : D) (create : Tx S D) (s : KeyedDb S D)
      → Answers q until d s
      → later < until
      → (q.hash == other) ≡ false
      → (create_order_keyed q later true create s ≡ ok (d, s))
        × (create_order_keyed (record q { hash = other }) later true create s
            ≡ err (new 422 idempotency_key_reused))
  unfolding create_order_keyed
  replayed q later until other d create s a h differs = (
    bind-ok (claim_idempotency_key q later) (create_unless q create) s s (some d)
        (claim-Answers q later until d s a h),
    bind-err (claim_idempotency_key (record q { hash = other }) later) _ s
        (new 422 idempotency_key_reused) (claim-reused q later until other d s a h differs),
  )

  -- When the first request with a key created an order, then for 24 hours the same request gets the
  -- same answer, creates nothing and changes nothing, and a request with the key and another content
  -- is refused, even if expired keys were purged before.
  pub create_order_keyed-replay :
      (q : KeyedRequest) (now at_time later other : ℕ) (found : Bool) (create again : Tx S D)
      (chosen : ℕ → String → Bool) (s : KeyedDb S D) (d : D) (s' : KeyedDb S D)
      → s.keys q.user q.key ≡ none
      → create_order_keyed q now found create s ≡ ok (d, s')
      → at_time ≤ later
      → later < now + idempotency_ttl
      → (q.hash == other) ≡ false
      → let after = purge_expired_idempotency_keys at_time chosen s' in
        (create_order_keyed q later true again after ≡ ok (d, after))
        × (create_order_keyed (record q { hash = other }) later true again after
            ≡ err (new 422 idempotency_key_reused))
  create_order_keyed-replay q now at_time later other found create again chosen s d s' fresh h early
        soon differs =
      let until = now + idempotency_ttl in
      replayed q later until other d again (purge_expired_idempotency_keys at_time chosen s')
        (purge-Answers q at_time until chosen d s' (omega arith)
          (first-Answers q now found create s (d, s') fresh h))
        soon differs
