-- ===== src/Runner/Otp/Voided.antt =====
-- A code that could not be delivered.
use Prim.Native.String.{String}
use mathlib.Core.Option.{some-injective}
use run.Base.{
  Option, some, sym, ap, ◌∙◌, ℕ, ◌+◌, ◌≤◌, ◌≡◌, ◌≢◌, refl, inl, inr, Bool, true, false, none, List,
  [], ◌∷◌, count_if, arith, Bool-cases, ==_refl,
}
use run.Platform.Apperr.{ok}
use run.Runner.OtpLimiter.{OtpLimiter, allow}
use run.Runner.Rows.{
  OtpRow, RunnerDb, RunnerState, is_active_for, set_consumed, change_otps, has_id, new_otp,
  active_otp,
}
use run.Runner.Otp.{
  Delivery, sent, unreachable, send_failed, store_code, valid_e164, request_allowed,
  request_phone_code, void_otp,
}

abbrev usable : String → List OtpRow → ℕ
usable phone rows = count_if (is_active_for phone) rows

active_otp-none :
    (phone : String) (rows : List OtpRow) → usable phone rows ≡ 0 → active_otp phone rows ≡ none
unfolding active_otp
active_otp-none phone [] h = refl
active_otp-none phone (r ∷ rs) h = elim (Bool-cases (is_active_for phone r)) [
  | inl act ↦
      let some_row : 1 + usable phone rs ≡ 0 = rw act at h in absurd (omega (arith, some_row))
  | inr passive ↦
      let rest : 0 + usable phone rs ≡ 0 = rw passive at h in
      rw passive (active_otp-none phone rs (omega (arith, rest)))
]

usable-le :
    (phone : String) (test : OtpRow → Bool) (now : ℕ) (rows : List OtpRow)
    → usable phone (change_otps test (set_consumed now) rows) ≤ usable phone rows
usable-le phone test now [] = omega arith
usable-le phone test now (r ∷ rs) = ground (arith, usable-le phone test now rs)

usable-consumed :
    (phone : String) (now : ℕ) (rows : List OtpRow)
    → usable phone (change_otps (is_active_for phone) (set_consumed now) rows) ≡ 0
usable-consumed phone now [] = refl
usable-consumed phone now (r ∷ rs) = ground (arith, usable-consumed phone now rs)

-- The new row is voided by its own key.
usable-voided :
    (phone : String) (row : OtpRow) (now : ℕ) (rows : List OtpRow)
    → usable phone rows ≡ 0
    → usable phone (change_otps (has_id row.id) (set_consumed now) (row ∷ rows)) ≡ 0
usable-voided phone row now rows h =
    ground (arith, ==_refl row.id, usable-le phone (has_id row.id) now rows)

abbrev is_sent : Delivery → Bool
is_sent sent = true
is_sent unreachable = false
is_sent send_failed = false

-- Whether a code of the number is left that a login could use, and which one.
abbrev pub OnlyUnvoided : (phone : String) (id : ℕ) (voided_at : Option ℕ) → List OtpRow → Type 0
OnlyUnvoided phone id voided_at rows =
    (r : OtpRow) → active_otp phone rows ≡ some r → (voided_at ≡ none) × (r.id ≡ id)

void_otp-OnlyUnvoided :
    (phone : String) (row : OtpRow) (voided_at : Option ℕ) (d : RunnerDb)
    → usable phone d.otps ≡ 0
    → OnlyUnvoided phone row.id voided_at
        (void_otp row.id voided_at (record d { otps = row ∷ d.otps })).otps
unfolding active_otp
void_otp-OnlyUnvoided phone row (some t) d h r found =
    let gone =
      active_otp-none phone (change_otps (has_id row.id) (set_consumed t) (row ∷ d.otps))
        (usable-voided phone row t d.otps h) in
    let bad : ◌≡◌ {A = Option OtpRow} none (some r) = sym gone ∙ found in cc
void_otp-OnlyUnvoided phone row none d h r found =
    let older = active_otp-none phone d.otps h in
    elim (Bool-cases (is_active_for phone row)) [
      | inl act ↦
          let it : some row ≡ some r = sym (newest act older) ∙ found in
          (refl, ap (λ (x : OtpRow). x.id) (sym (some-injective _ _ it)))
      | inr passive ↦
          let bad : ◌≡◌ {A = Option OtpRow} none (some r) = sym (no_newest passive older) ∙ found in
          cc
    ]
  where
    newest :
        is_active_for phone row ≡ true
        → active_otp phone d.otps ≡ none
        → active_otp phone (row ∷ d.otps) ≡ some row
    newest act older = rw older (rw act refl)

    no_newest :
        is_active_for phone row ≡ false
        → active_otp phone d.otps ≡ none
        → active_otp phone (row ∷ d.otps) ≡ none
    no_newest passive older = rw passive older

module _ (hash_code : String → String → ℕ) (itoa : ℕ → String) where
  request_allowed-failed :
      (phone code : String) (delivery : Delivery) (id now : ℕ) (voided_at : Option ℕ)
      (l : OtpLimiter) (d : RunnerDb)
      → is_sent delivery ≡ false
      → let after = request_allowed hash_code itoa phone code delivery id now voided_at none l d in
        (after.0 ≢ ok tt) × OnlyUnvoided phone id voided_at after.1.db.otps
  unfolding store_code
  request_allowed-failed phone code sent id now voided_at l d h = cc
  request_allowed-failed phone code unreachable id now voided_at l d h = (
    λ e. cc,
    void_otp-OnlyUnvoided phone (new_otp id phone (hash_code phone code) now) voided_at
        (record d { otps = change_otps (is_active_for phone) (set_consumed now) d.otps })
        (usable-consumed phone now d.otps),
  )
  request_allowed-failed phone code send_failed id now voided_at l d h = (
    λ e. cc,
    void_otp-OnlyUnvoided phone (new_otp id phone (hash_code phone code) now) voided_at
        (record d { otps = change_otps (is_active_for phone) (set_consumed now) d.otps })
        (usable-consumed phone now d.otps),
  )

  -- When a code cannot be delivered the request fails, and no code of the number is left that a login
  -- could use, unless the query that voids the new code failed as well; then at most the new one is.
  pub request_phone_code-failed :
      (phone ip code : String) (delivery : Delivery) (id now : ℕ) (voided_at : Option ℕ)
      (s : RunnerState)
      → valid_e164 phone ≡ true
      → (allow now phone ip s.limiter).0 ≡ none
      → is_sent delivery ≡ false
      → let after = request_phone_code hash_code itoa phone ip code delivery id now voided_at s in
        (after.0 ≢ ok tt) × OnlyUnvoided phone id voided_at after.1.db.otps
  unfolding request_phone_code
  request_phone_code-failed phone ip code delivery id now voided_at s valid free lost = rw valid (
      rw free (
        request_allowed-failed phone code delivery id now voided_at (allow now phone ip s.limiter).1
          s.db lost))
