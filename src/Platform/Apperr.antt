-- ===== src/Platform/Apperr.antt =====
-- api/internal/platform/apperr/apperr.go and the transactions of api/internal/platform/db/db.go.
use Prim.Native.String.{String}
use run.Base.{ℕ, ◌≡◌, refl, ap, Bool, true, false, List, [], ◌∷◌, ◌++◌}

-- The error codes that the modelled code returns. `internal` is also every `fmt.Errorf`.
pub data Code : Type 0 where
  internal validation forbidden not_found rate_limited event_not_found : Code
  event_already_published event_no_category event_category_incomplete : Code
  registration_not_ready price_rule_locked coupon_invalid coupon_exhausted : Code
  category_sold_out price_tier_sold_out registration_closed already_registered : Code
  payment_account_unavailable idempotency_key_reused order_state_conflict order_not_found : Code
  order_expired proof_txn_ref_used received_amount_too_low consent_invalid : Code
  otp_phone_invalid otp_invalid otp_expired otp_attempts_exceeded : Code
  otp_phone_not_on_telegram otp_send_failed unauthenticated invalid_credentials account_locked :
      Code

-- The name of a field: `quota`, or `participants[0].birthDate`.
pub data Field : Type 0 where
  field : String → Field
  item : String → ℕ → String → Field

-- `fields` lists the fields in the order of the WithField calls (in the code a map: the last call for
-- a name counts). The parameters of the messages are left out.
pub record Error : Type 0 where
  pub code : Code
  pub status : ℕ
  pub fields : List (Field × String)

abbrev pub new : ℕ → Code → Error
new status code = record { code = code; status = status; fields = [] }

abbrev pub with_field : Error → Field → String → Error
with_field e name key = record e { fields = e.fields ++ ((name, key) ∷ []) }

abbrev pub internal_error : Error
internal_error = new 500 internal

abbrev pub validation_error : Error
validation_error = new 422 validation

pub data Result {ℓ} (A : Type ℓ) : Type ℓ where
  ok : A → Result A
  err : Error → Result A

-- The end of a validation: `if failed { return verr }; return nil`.
abbrev pub failed_with : List (Field × String) → Result (Unit {0})
failed_with [] = ok tt
failed_with (f ∷ fs) = err (record { code = validation; status = 422; fields = f ∷ fs })

-- `add` under a condition.
abbrev pub add_if : Bool → Field → String → List (Field × String)
add_if true name key = (name, key) ∷ []
add_if false name key = []

-- A step inside a transaction on the state `S`. An error carries no state, since `InTx` rolls back.
abbrev pub Tx : Type 0 → Type 0 → Type 0
Tx S A = S → Result (A × S)

module _ {S : Type 0} where
  abbrev pub pure : {A : Type 0} → A → Tx S A
  pure a s = ok (a, s)

  abbrev pub fail : {A : Type 0} → Error → Tx S A
  fail e s = err e

  abbrev pub gets : {A : Type 0} → (S → A) → Tx S A
  gets f s = ok (f s, s)

  abbrev pub modify : (S → S) → Tx S (Unit {0})
  modify f s = ok (tt, f s)

  abbrev pub lift : {A : Type 0} → Result A → Tx S A
  lift (ok a) s = ok (a, s)
  lift (err e) s = err e

  -- `if !test { return e }`
  abbrev pub guard : Bool → Error → Tx S (Unit {0})
  guard true e s = ok (tt, s)
  guard false e s = err e

  infixl 5 ◌>>=◌ ◌>>◌
  abbrev pub ◌>>=◌ : {A B : Type 0} → Tx S A → (A → Tx S B) → Tx S B
  ◌>>=◌ m f s = elim (m s) [ ok (a, s') ↦ f a s' | err e ↦ err e ]

  abbrev pub ◌>>◌ : {B : Type 0} → Tx S (Unit {0}) → Tx S B → Tx S B
  m >> k = m >>= λ _. k

  -- `db.InTx`: the changes of `fn` stay only if it returns no error.
  abbrev pub in_tx : {A : Type 0} → Tx S A → S → Result A × S
  in_tx fn s = elim (fn s) [ ok (a, s') ↦ (ok a, s') | err e ↦ (err e, s) ]

  pub in_tx-ok :
      {A : Type 0} (fn : Tx S A) (a : A) (s s' : S) → fn s ≡ ok (a, s') → in_tx fn s ≡ (ok a, s')
  in_tx-ok {A} fn a s s' h =
      ap {A = Result (A × S)} {B = Result A × S}
        (λ r. elim r [ ok (b, s'') ↦ (ok b, s'') | err e ↦ (err e, s) ]) h

  -- A bind goes on when its first step succeeds.
  pub bind-ok :
      {A B : Type 0} (m : Tx S A) (f : A → Tx S B) (s s' : S) (a : A)
      → m s ≡ ok (a, s')
      → (m >>= f) s ≡ f a s'
  bind-ok {A} {B} m f s s' a h =
      ap {A = Result (A × S)} {B = Result (B × S)}
        (λ r. elim r [ ok (b, s'') ↦ f b s'' | err e ↦ err e ]) h

  -- An error ends it.
  pub bind-err :
      {A B : Type 0} (m : Tx S A) (f : A → Tx S B) (s : S) (e : Error)
      → m s ≡ err e
      → (m >>= f) s ≡ err e
  bind-err {A} {B} m f s e h =
      ap {A = Result (A × S)} {B = Result (B × S)}
        (λ r. elim r [ ok (b, s'') ↦ f b s'' | err e ↦ err e ]) h

  -- To take a bind that succeeded apart.
  pub bind-eq-ok :
      {A B : Type 0} (m : Tx S A) (f : A → Tx S B) (s : S) {r : B × S}
      → (m >>= f) s ≡ ok r
      → (p : A × S) × (m s ≡ ok p) × (f p.0 p.1 ≡ ok r)
  bind-eq-ok {A} {B} m f s {r} h = go (m s) refl h
    where
      go :
          (x : Result (A × S))
          → m s ≡ x
          → elim x as (λ _. Result (B × S)) [ ok (a, s') ↦ f a s' | err e ↦ err e ] ≡ ok r
          → (p : A × S) × (m s ≡ ok p) × (f p.0 p.1 ≡ ok r)
      go (ok (a, s')) e h' = ((a, s'), e, h')
      go (err e') e h' = cc
