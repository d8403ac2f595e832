-- ===== src/Runner/Otp/Tries.antt =====
-- How often a code can be guessed.
use Prim.Native.String.{String}
use text.Mathlib.Text.{◌==◌ as str_eq}
use text.Mathlib.TextPositions.{eq_refl}
use run.Base.{
  ℕ, ◌+◌, ◌≤◌, ◌≡◌, refl, sym, ◌∙◌, ap, inl, inr, Option, none, some, List, [], ◌∷◌, arith,
  Bool-cases, Option-cases,
}
use run.Platform.Apperr.{Result, ok, err, new, otp_phone_invalid}
use run.Runner.OtpLimiter.{OtpLimiter, allow, allow_verify}
use run.Runner.Rows.{
  OtpRow, RunnerDb, RunnerState, is_active_for, set_consumed, change_otps, new_otp,
}
use run.Runner.Otp.{
  otp_max_attempts, Login, Delivery, sent, unreachable, send_failed, store_code, valid_e164,
  request_allowed, request_phone_code, verify_phone_code,
}
use run.Runner.Otp.Guesses.{remaining, cost, set_consumed-weight, verify_tx-remaining}

pub record Attempt : Type 0 where
  pub phone : String
  pub ip : String
  pub code : String
  pub now : ℕ
  pub login : Login

-- After a code is stored, five guesses are left for its number.
consumed-remaining :
    (phone : String) (now : ℕ) (rows : List OtpRow)
    → remaining phone (change_otps (is_active_for phone) (set_consumed now) rows) ≡ 0
consumed-remaining phone now [] = refl
consumed-remaining phone now (r ∷ rs) = elim (Bool-cases (is_active_for phone r)) [
  | inl act ↦
      rw act (omega (arith, set_consumed-weight phone now r, consumed-remaining phone now rs))
  | inr passive ↦ rw (passive, passive) (omega (arith, consumed-remaining phone now rs))
]

module _ (hash_code : String → String → ℕ) (itoa : ℕ → String) where
  abbrev pub attempt : Attempt → RunnerState → Result ℕ × RunnerState
  attempt a s = verify_phone_code hash_code itoa a.phone a.ip a.code a.now a.login s

  -- How many of the attempts compare their code with one that was sent to the number.
  pub guesses : String → List Attempt → RunnerState → ℕ
  guesses q [] s = 0
  guesses q (a ∷ as') s = cost (str_eq a.phone q) (attempt a s).0 + guesses q as' (attempt a s).1

  attempt-remaining :
      (q : String) (a : Attempt) (s : RunnerState)
      → cost (str_eq a.phone q) (attempt a s).0 + remaining q (attempt a s).1.db.otps
        ≤ remaining q s.db.otps
  unfolding verify_phone_code
  attempt-remaining q a s = elim (Bool-cases (valid_e164 a.phone)) [
    | inl valid ↦ rw valid (elim (Option-cases (allow_verify a.now a.ip s.limiter).0) [
      | inl free ↦ rw free (
          omega (
            arith,
            verify_tx-remaining itoa q a.phone (hash_code a.phone a.code) a.now a.login s.db,
          ))
      | inr (wait, told) ↦ rw told (ground arith)
    ])
    | inr invalid ↦ rw invalid (ground arith)
  ]

  guesses-le :
      (q : String) (as' : List Attempt) (s : RunnerState) → guesses q as' s ≤ remaining q s.db.otps
  unfolding guesses
  guesses-le q [] s = omega arith
  guesses-le q (a ∷ as') s =
      omega (arith, attempt-remaining q a s, guesses-le q as' (attempt a s).1)

  abbrev stored_rows : (phone code : String) (id now : ℕ) → RunnerDb → List OtpRow
  stored_rows phone code id now d =
      new_otp id phone (hash_code phone code) now
      ∷ change_otps (is_active_for phone) (set_consumed now) d.otps

  stored_rows-remaining :
      (phone code : String) (id now : ℕ) (d : RunnerDb)
      → remaining phone (stored_rows phone code id now d) ≡ otp_max_attempts
  stored_rows-remaining phone code id now d =
      rw (eq_refl phone) (omega (arith, consumed-remaining phone now d.otps))

  -- The requests that go through.
  request_allowed-ok :
      (phone code : String) (delivery : Delivery) (id now : ℕ) (voided_at : Option ℕ) (w : Option ℕ)
      (l : OtpLimiter) (d : RunnerDb) (s' : RunnerState)
      → request_allowed hash_code itoa phone code delivery id now voided_at w l d ≡ (ok tt, s')
      → s'.db.otps ≡ stored_rows phone code id now d
  unfolding store_code
  request_allowed-ok phone code delivery id now voided_at (some wait) l d s' h = cc
  request_allowed-ok phone code sent id now voided_at none l d s' h =
      ap (λ (r : Result (Unit {0}) × RunnerState). r.1.db.otps) (sym h)
  request_allowed-ok phone code unreachable id now voided_at none l d s' h = cc
  request_allowed-ok phone code send_failed id now voided_at none l d s' h = cc

  request_phone_code-remaining :
      (phone ip code : String) (delivery : Delivery) (id now : ℕ) (voided_at : Option ℕ)
      (s s' : RunnerState)
      → request_phone_code hash_code itoa phone ip code delivery id now voided_at s ≡ (ok tt, s')
      → remaining phone s'.db.otps ≡ otp_max_attempts
  unfolding request_phone_code
  request_phone_code-remaining phone ip code delivery id now voided_at s s' h =
      elim (Bool-cases (valid_e164 phone)) [
        | inl valid ↦
            let (w, l) = allow now phone ip s.limiter in
            ap (remaining phone)
              (request_allowed-ok phone code delivery id now voided_at w l s.db s' (rw valid at h))
            ∙ stored_rows-remaining phone code id now s.db
        | inr invalid ↦
            let bad : ◌≡◌ {A = Result (Unit {0}) × RunnerState} (err (new 422 otp_phone_invalid), s)
                (ok tt, s') =
              rw invalid at h in
            cc
      ]

  -- Once a code is sent to a number, at most five codes are compared with it or with any other code
  -- of the number by the attempts that follow, for any numbers and from any addresses, until another
  -- code is requested.
  pub request-guesses :
      (phone ip code : String) (delivery : Delivery) (id now : ℕ) (voided_at : Option ℕ)
      (s s' : RunnerState) (attempts : List Attempt)
      → request_phone_code hash_code itoa phone ip code delivery id now voided_at s ≡ (ok tt, s')
      → guesses phone attempts s' ≤ otp_max_attempts
  request-guesses phone ip code delivery id now voided_at s s' attempts h = omega (
    arith,
    guesses-le phone attempts s',
    request_phone_code-remaining phone ip code delivery id now voided_at s s' h,
  )
