-- ===== src/Registration/Idempotent.antt =====
-- `CreateOrder` with its idempotency key (api/internal/registration/create.go) and
-- `PurgeExpiredIdempotencyKeys` of deadline.go, around any transaction that creates an order and
-- loads its detail. A request's hash is a number, a subject is the id of its user, and the JSON of a
-- response is left out: the row keeps the detail itself.
pub mod Replay
use Prim.Native.String.{String}
use text.Mathlib.Text.{◌==◌ as str_eq}
use run.Base.{
  ℕ, ◌+◌, ◌*◌, Bool, true, false, not, ◌&&◌, Option, none, some, ltb, leb, ◌==◌, if◌then◌else◌,
}
use run.Platform.Apperr.{
  Result, ok, err, new, internal_error, event_not_found, idempotency_key_reused, Tx, pure, guard,
  in_tx, ◌>>=◌, ◌>>◌,
}

-- 24 hours, in seconds.
abbrev pub idempotency_ttl : ℕ
idempotency_ttl = 24 * 3600

-- idempotency_keys, with scope reg_order.create; the response comes once the order is created.
pub record KeyRow (D : Type 0) : Type 0 where
  pub request_hash : ℕ
  pub response : Option D
  pub expires_at : ℕ

abbrev pub Keys : Type 0 → Type 0
Keys D = ℕ → String → Option (KeyRow D)

pub record KeyedDb (S D : Type 0) : Type 0 where
  pub db : S
  pub keys : Keys D

pub record KeyedRequest : Type 0 where
  pub user : ℕ
  pub key : String
  pub hash : ℕ

module _ {D : Type 0} where
  abbrev pub put_key : Keys D → (user : ℕ) (key : String) → KeyRow D → Keys D
  put_key keys user key row u k = if (u == user) && str_eq k key then some row else keys u k

  abbrev pub claimed : (hash now : ℕ) → KeyRow D
  claimed hash now = record {
    request_hash = hash;
    response = none;
    expires_at = now + idempotency_ttl;
  }

  -- SaveIdempotencyResponse and PurgeExpiredIdempotencyKeys, on a row; `chosen` says that the LIMIT of the
  -- purge selects it.
  abbrev pub with_response : D → Option (KeyRow D) → Option (KeyRow D)
  with_response d none = none
  with_response d (some row) = some (record row { response = some d })

  abbrev pub purged : (now : ℕ) → (chosen : Bool) → Option (KeyRow D) → Option (KeyRow D)
  purged now chosen none = none
  purged now chosen (some row) = if chosen && ltb row.expires_at now then none else some row

module _ {S D : Type 0} where
  abbrev pub stored_response : Option D → Tx (KeyedDb S D) (Option D)
  stored_response none s = err internal_error
  stored_response (some d) s = ok (some d, s)

  -- claimIdempotencyKey: ClaimIdempotencyKey takes a key that is new or expired, and
  -- GetIdempotencyKey finds the row of any other. `some` is the response of the first request.
  abbrev pub claim_row : KeyedRequest → (now : ℕ) → Option (KeyRow D) → Tx (KeyedDb S D) (Option D)
  claim_row q now none s =
      ok (none, record s { keys = put_key s.keys q.user q.key (claimed q.hash now) })
  claim_row q now (some row) s =
      if leb row.expires_at now
      then ok (none, record s { keys = put_key s.keys q.user q.key (claimed q.hash now) })
      else if not (row.request_hash == q.hash)
      then err (new 422 idempotency_key_reused)
      else stored_response row.response s

  unfoldable pub claim_idempotency_key : KeyedRequest → (now : ℕ) → Tx (KeyedDb S D) (Option D)
  claim_idempotency_key q now s = claim_row q now (s.keys q.user q.key) s

  abbrev pub save_idempotency_response : KeyedRequest → D → Tx (KeyedDb S D) (Unit {0})
  save_idempotency_response q d s = ok (
    tt,
    record s {
      keys = λ u k.
          if (u == q.user) && str_eq k q.key
          then with_response d (s.keys q.user q.key)
          else s.keys u k;
    },
  )

  abbrev pub on_inner : {A : Type 0} → Tx S A → Tx (KeyedDb S D) A
  on_inner m s = elim (m s.db) [ ok (a, d) ↦ ok (a, record s { db = d }) | err e ↦ err e ]

  abbrev pub create_unless : KeyedRequest → Tx S D → Option D → Tx (KeyedDb S D) D
  create_unless q create (some d) = pure d
  create_unless q create none = do d ← on_inner create; save_idempotency_response q d; pure d

  -- The transaction of CreateOrder; `found` says that LockEventForOrder found the event.
  unfoldable pub create_order_keyed :
      KeyedRequest → (now : ℕ) → (found : Bool) → (create : Tx S D) → Tx (KeyedDb S D) D
  unfolding claim_idempotency_key
  create_order_keyed q now found create = do
    guard found (new 404 event_not_found)
    replay ← claim_idempotency_key q now
    create_unless q create replay

  unfoldable pub purge_expired_idempotency_keys :
      (now : ℕ) → (chosen : ℕ → String → Bool) → KeyedDb S D → KeyedDb S D
  purge_expired_idempotency_keys now chosen s = record s {
    keys = λ u k. purged now (chosen u k) (s.keys u k);
  }
