-- ===== src/Runner/Otp.antt =====
-- `RequestPhoneCode` and `VerifyPhoneCode` of api/internal/runner/otp.go. `hash_code` stands for the HMAC of a phone and a code and `itoa` for
-- strconv.Itoa; a code's and a token's hash are numbers. The random code and token, the keys of new
-- rows and what the sender answered come as arguments. Addresses of requests and user agents are
-- kept by the limiter alone.
pub mod Guesses
pub mod Tries
pub mod Voided
use Prim.Native.Char.{code}
use Prim.Native.String.{String}
use text.Mathlib.Text.{◌==◌ as str_eq}
use run.Base.{
  ℕ, ◌+◌, ◌-◌, ◌*◌, ◌/◌, Bool, true, false, not, ◌&&◌, ◌||◌, Option, none, some, List, [], ◌∷◌, map,
  ltb, leb, ◌==◌, if◌then◌else◌, length, some_and,
}
use run.Platform.Apperr.{
  field, Error, Result, ok, err, new, with_field, internal_error, forbidden, rate_limited,
  otp_phone_invalid, otp_invalid, otp_expired, otp_attempts_exceeded, otp_phone_not_on_telegram,
  otp_send_failed, unauthenticated, Tx, pure, gets, modify, in_tx, ◌>>=◌, ◌>>◌,
}
use run.Platform.Table.{Table, put}
use run.Store.{AuditRow}
use run.Runner.Rows.{
  otp_ttl, session_ttl, OtpRow, UserStatus, active, disabled, UserRow, SessionRow, RunnerDb,
  RunnerState, is_unset, consume_active_otps, new_otp, insert_otp, has_id, consume_otp,
  increment_otp_attempts, active_otp, upsert_phone_user, is_active, insert_user_session,
  new_session,
}
use run.Runner.OtpLimiter.{second, OtpLimiter, allow, allow_verify}

abbrev pub otp_max_attempts : ℕ
otp_max_attempts = 5

-- The pattern ^\+[1-9][0-9]{6,14}$ of ValidE164.
abbrev pub codes : String → List ℕ
codes String.[] = []
codes (String.◌∷◌ c s) = code c ∷ codes s

abbrev pub is_digit : ℕ → Bool
is_digit c = leb b'0' c && leb c b'9'

abbrev pub all_digits : List ℕ → Bool
all_digits [] = true
all_digits (c ∷ cs) = is_digit c && all_digits cs

abbrev pub is_e164 : List ℕ → Bool
is_e164 (plus ∷ first ∷ rest) =
    (plus == b'+')
    && (leb b'1' first && leb first b'9')
    && all_digits rest
    && (leb 6 (length rest) && leb (length rest) 14)
is_e164 (plus ∷ []) = false
is_e164 [] = false

unfoldable pub valid_e164 : String → Bool
valid_e164 phone = is_e164 (codes phone)

-- What the sender answered.
pub data Delivery : Type 0 where
  sent unreachable send_failed : Delivery

-- The voiding of a code that was not delivered, outside the transaction: `none` is a query that fails,
-- which leaves the error of the request as it is.
abbrev pub void_otp : (id : ℕ) (voided_at : Option ℕ) → RunnerDb → RunnerDb
void_otp id none d = d
void_otp id (some now) d = consume_otp id now d

abbrev pub after_send :
    Delivery → (id : ℕ) (voided_at : Option ℕ) → RunnerDb → Result (Unit {0}) × RunnerDb
after_send sent id voided_at d = (ok tt, d)
after_send unreachable id voided_at d =
    (err (new 422 otp_phone_not_on_telegram), void_otp id voided_at d)
after_send send_failed id voided_at d = (err (new 502 otp_send_failed), void_otp id voided_at d)

-- The transaction of RequestPhoneCode.
unfoldable pub store_code : (id : ℕ) (phone : String) (hash now : ℕ) → Tx RunnerDb (Unit {0})
store_code id phone hash now = do
  consume_active_otps phone now
  insert_otp (new_otp id phone hash now)

abbrev pub retry_after : (itoa : ℕ → String) → (wait : ℕ) → Error
retry_after itoa wait =
    with_field (new 429 rate_limited) (field "retryAfterSeconds") (itoa (wait / second))

abbrev pub send_if_stored :
    Delivery
    → (id : ℕ) (voided_at : Option ℕ) → Result (Unit {0}) × RunnerDb
    → Result (Unit {0}) × RunnerDb
send_if_stored delivery id voided_at (err e, d) = (err e, d)
send_if_stored delivery id voided_at (ok u, d) = after_send delivery id voided_at d

abbrev pub with_db : {A : Type 0} → OtpLimiter → Result A × RunnerDb → Result A × RunnerState
with_db l r = (r.0, record { limiter = l; db = r.1 })

module _ (hash_code : String → String → ℕ) (itoa : ℕ → String) where
  abbrev pub request_allowed :
      (phone code : String) (delivery : Delivery) (id now : ℕ) (voided_at : Option ℕ)
      → Option ℕ
      → OtpLimiter
      → RunnerDb
      → Result (Unit {0}) × RunnerState
  request_allowed phone code delivery id now voided_at (some wait) l d =
      (err (retry_after itoa wait), record { limiter = l; db = d })
  request_allowed phone code delivery id now voided_at none l d = with_db l (
      send_if_stored delivery id voided_at
        (in_tx (store_code id phone (hash_code phone code) now) d))

  unfoldable pub request_phone_code :
      (phone ip code : String) (delivery : Delivery) (id now : ℕ) (voided_at : Option ℕ)
      → RunnerState
      → Result (Unit {0}) × RunnerState
  unfolding valid_e164 store_code
  request_phone_code phone ip code delivery id now voided_at s =
      let (wait, l) = allow now phone ip s.limiter in
      if not (valid_e164 phone)
      then (err (new 422 otp_phone_invalid), s)
      else request_allowed phone code delivery id now voided_at wait l s.db

-- What a login carries besides the number and the code: the hash of its random token, the key of a
-- user that it may create, and the language.
pub record Login : Type 0 where
  pub token : ℕ
  pub new_id : ℕ
  pub locale : String

abbrev pub record_login : (user : ℕ) → Tx RunnerDb (Unit {0})
record_login user =
    modify
      (λ d. record d { audit = record { action = "runner.login"; entity_id = user } ∷ d.audit })

unfoldable pub start_session : (now : ℕ) → Login → (user : ℕ) → Tx RunnerDb (Result ℕ)
start_session now login user = do
  insert_user_session login.token (new_session user now)
  record_login user
  pure (ok user)

-- The rest of the transaction once the code was right. A login that is refused commits too.
abbrev pub open_session : (now : ℕ) → Login → ℕ × RunnerDb → Result (Result ℕ × RunnerDb)
open_session now login (user, d) =
    let opened = start_session now login user d in
    if is_active (d.users user) then opened else ok (err (new 403 forbidden), d)

abbrev pub invalid_code : (itoa : ℕ → String) → (attempts : ℕ) → Error
invalid_code itoa attempts =
    with_field (new 422 otp_invalid) (field "attemptsLeft") (itoa (otp_max_attempts - attempts))

unfoldable pub check_otp :
    (itoa : ℕ → String) → (phone : String) (hash now : ℕ) → Login → OtpRow → Tx RunnerDb (Result ℕ)
unfolding upsert_phone_user start_session
check_otp itoa phone hash now login otp d =
    if leb otp.expires_at now
    then ok (err (new 422 otp_expired), d)
    else if leb otp_max_attempts otp.attempts
    then ok (err (new 422 otp_attempts_exceeded), consume_otp otp.id now d)
    else if not (otp.code_hash == hash)
    then ok (err (invalid_code itoa (otp.attempts + 1)), increment_otp_attempts otp.id d)
    else open_session now login
        (upsert_phone_user phone login.locale now login.new_id (consume_otp otp.id now d))

abbrev pub check_active :
    (itoa : ℕ → String)
    → (phone : String) (hash now : ℕ) → Login
    → Option OtpRow
    → Tx RunnerDb (Result ℕ)
check_active itoa phone hash now login none d = ok (err (new 422 otp_expired), d)
check_active itoa phone hash now login (some otp) d = check_otp itoa phone hash now login otp d

-- The transaction of VerifyPhoneCode: it commits with the expected refusals, and rolls back only on
-- an error of the database.
unfoldable pub verify_tx :
    (itoa : ℕ → String) → (phone : String) (hash now : ℕ) → Login → Tx RunnerDb (Result ℕ)
unfolding active_otp check_otp
verify_tx itoa phone hash now login d =
    check_active itoa phone hash now login (active_otp phone d.otps) d

abbrev pub flatten : Result (Result ℕ) × RunnerDb → Result ℕ × RunnerDb
flatten (ok r, d) = (r, d)
flatten (err e, d) = (err e, d)

module _ (hash_code : String → String → ℕ) (itoa : ℕ → String) where
  abbrev pub verify_allowed :
      (phone code : String) (now : ℕ)
      → Login
      → Option ℕ
      → OtpLimiter
      → RunnerDb
      → Result ℕ × RunnerState
  verify_allowed phone code now login (some wait) l d =
      (err (retry_after itoa wait), record { limiter = l; db = d })
  verify_allowed phone code now login none l d =
      with_db l (flatten (in_tx (verify_tx itoa phone (hash_code phone code) now login) d))

  unfoldable pub verify_phone_code :
      (phone ip code : String) (now : ℕ) → Login → RunnerState → Result ℕ × RunnerState
  unfolding valid_e164 verify_tx
  verify_phone_code phone ip code now login s =
      let (wait, l) = allow_verify now ip s.limiter in
      if not (valid_e164 phone)
      then (err (new 422 otp_phone_invalid), s)
      else verify_allowed phone code now login wait l s.db
