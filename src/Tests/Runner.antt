-- ===== src/Tests/Runner.antt =====
-- One-time codes, their limits, and sessions.
use Prim.Native.String.{String}
use mathlib.Core.Bool.{true}
use run.Base.{ℕ, zero, suc, ◌≡◌, ◌≢◌, ◌≤◌, ◌<◌, refl, none, some, [], ◌∷◌, arith}
use run.Platform.Apperr.{ok, err, new, unauthenticated}
use run.Iam.Limiter.{prune_before}
use run.Runner.OtpLimiter.{
  new_otp_limiter, OtpLimiter, allow, allow_verify, maybe_sweep_otp, last_of, ceil_seconds,
}
use run.Runner.OtpLimiter.Runs.{
  OtpCalls, done, step, allows, verifies, IsOtpBounded, new-IsOtpBounded,
}
use run.Runner.OtpLimiter.Cooldown.{allow-cooldown}
use run.Runner.OtpLimiter.Waits.{OtherCalls, verifies_other, allow_verify-wait}
use run.Runner.Rows.{RunnerState, active_otp, user_by_phone, upsert_phone_user}
use run.Runner.Otp.{
  Login, sent, unreachable, store_code, valid_e164, request_phone_code, verify_phone_code,
  verify_tx, otp_max_attempts, check_otp, start_session,
}
use run.Runner.Otp.Tries.{Attempt, guesses, request-guesses}
use run.Runner.Otp.Voided.{OnlyUnvoided, request_phone_code-failed}
use run.Runner.Session.{authenticate, logout}
use run.Runner.Session.Login.{verify_phone_code-authenticate}

abbrev number : String
number = "+85512345678"

-- One second after the first code.
new-IsOtpBounded_example : IsOtpBounded (allow 5000000000 number "ip" new_otp_limiter).1
new-IsOtpBounded_example = new-IsOtpBounded (
    step {s = 0} (omega arith) (allows 5000000000 number "ip" new_otp_limiter)
      (done 5000000000 (allow 5000000000 number "ip" new_otp_limiter).1))

allow_ok : (allow 5000000000 number "a" new_otp_limiter).0 ≡ none
unfolding allow prune_before maybe_sweep_otp last_of
allow_ok = refl

allow-cooldown_example :
    (wait : ℕ) × ((allow 64000000000 number "b" (allow 5000000000 number "a" new_otp_limiter).1).0
      ≡ some wait)
allow-cooldown_example =
    allow-cooldown 5000000000 64000000000 number "a" "b" new_otp_limiter allow_ok
      (done 5000000000 (allow 5000000000 number "a" new_otp_limiter).1) (omega arith) (omega arith)

abbrev hash : String → String → ℕ
hash phone code = 7

abbrev no_text : ℕ → String
no_text n = ""

abbrev empty_state : RunnerState
empty_state = record {
  limiter = new_otp_limiter;
  db = record { otps = []; users = λ k. none; user_ids = []; sessions = λ k. none; audit = [] };
}

abbrev login : Login
login = record { token = 99; new_id = 1; locale = "km" }

-- Thirty verifications from one address in the same instant.
tried : ℕ → OtpLimiter → OtpLimiter
tried zero l = l
tried (suc n) l = tried n (allow_verify 5000000000 "a" l).1

tried_run : (n : ℕ) (l : OtpLimiter) → OtpCalls 5000000000 5000000000 l (tried n l)
unfolding tried
tried_run zero l = done 5000000000 l
tried_run (suc n) l =
    step (omega arith) (verifies 5000000000 "a" l) (tried_run n (allow_verify 5000000000 "a" l).1)

tried_told : (allow_verify 5000000001 "a" (tried 30 new_otp_limiter)).0 ≡ some 600000000000
unfolding tried allow_verify prune_before maybe_sweep_otp ceil_seconds
tried_told = refl

abbrev after_refusal : OtpLimiter
after_refusal = (allow_verify 5000000001 "a" (tried 30 new_otp_limiter)).1

abbrev after_other : OtpLimiter
after_other = (allow_verify 6000000000 "b" after_refusal).1

allow_verify-wait_example :
    (0 < 600000000000) × ((allow_verify 605000000001 "a" after_other).0 ≡ none)
allow_verify-wait_example =
    allow_verify-wait 5000000001 600000000000 605000000001 "a" (tried_run 30 new_otp_limiter)
      tried_told
      (OtherCalls.step (omega arith) (verifies_other 6000000000 "b" after_refusal refl)
        (OtherCalls.done 6000000000 after_other))
      (omega arith) (omega arith)

abbrev requested : RunnerState
requested =
    (request_phone_code hash no_text number "ip" "123456" sent 1 5000000000 (some 0) empty_state).1

request_ok :
    request_phone_code hash no_text number "ip" "123456" sent 1 5000000000 (some 0) empty_state
    ≡ (ok tt, requested)
unfolding request_phone_code allow prune_before maybe_sweep_otp last_of store_code valid_e164
request_ok = refl

abbrev a_try : Attempt
a_try = record { phone = number; ip = "ip"; code = "000000"; now = 6000000000; login = login }

request-guesses_example :
    guesses hash no_text number (a_try ∷ a_try ∷ a_try ∷ a_try ∷ a_try ∷ a_try ∷ []) requested
    ≤ otp_max_attempts
request-guesses_example =
    request-guesses hash no_text number "ip" "123456" sent 1 5000000000 (some 0) empty_state
      requested (a_try ∷ a_try ∷ a_try ∷ a_try ∷ a_try ∷ a_try ∷ []) request_ok

valid_number : valid_e164 number ≡ true
unfolding valid_e164
valid_number = refl

request_phone_code-failed_example :
    ((request_phone_code hash no_text number "a" "123456" unreachable 1 5000000000 none
        empty_state).0
      ≢ ok tt)
    × OnlyUnvoided number 1 none
        (request_phone_code hash no_text number "a" "123456" unreachable 1 5000000000 none
          empty_state).1.db.otps
request_phone_code-failed_example =
    request_phone_code-failed hash no_text number "a" "123456" unreachable 1 5000000000 none
      empty_state valid_number allow_ok refl

abbrev logged_in : RunnerState
logged_in = (verify_phone_code hash no_text number "ip" "123456" 6000000000 login requested).1

login_ok :
    verify_phone_code hash no_text number "ip" "123456" 6000000000 login requested
    ≡ (ok 1, logged_in)
unfolding verify_phone_code request_phone_code allow allow_verify prune_before maybe_sweep_otp
    last_of store_code valid_e164 active_otp check_otp verify_tx user_by_phone upsert_phone_user
    start_session
login_ok = refl

verify_phone_code-authenticate_example :
    (authenticate 99 7000000000 logged_in.db ≡ ok 1)
    × (authenticate 99 7000000000 (logout 99 6500000000 logged_in.db)
        ≡ err (new 401 unauthenticated))
verify_phone_code-authenticate_example =
    verify_phone_code-authenticate hash no_text number "ip" "123456" 6000000000 1 6500000000
      7000000000 login requested logged_in login_ok
