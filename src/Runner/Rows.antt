-- ===== src/Runner/Rows.antt =====
-- The rows of auth_otps, users and sessions, and the queries on them
-- (api/internal/runner/store/runner.sql.go).
use Prim.Native.String.{String}
use text.Mathlib.Text.{◌==◌ as str_eq}
use run.Base.{
  ℕ, ◌+◌, ◌*◌, Bool, true, false, ◌&&◌, Option, none, some, List, [], ◌∷◌, map, ltb, ◌==◌,
  if◌then◌else◌, some_and,
}
use run.Platform.Apperr.{ok, err, internal_error, Tx, modify}
use run.Platform.Table.{Table, put}
use run.Store.{AuditRow}
use run.Runner.OtpLimiter.{second, OtpLimiter}

abbrev pub otp_ttl : ℕ
otp_ttl = 300 * second

abbrev pub session_ttl : ℕ
session_ttl = 24 * 3600 * second

-- auth_otps, with purpose LOGIN.
pub record OtpRow : Type 0 where
  pub id : ℕ
  pub phone_e164 : String
  pub code_hash : ℕ
  pub attempts : ℕ
  pub expires_at : ℕ
  pub consumed_at : Option ℕ
  pub created_at : ℕ

pub data UserStatus : Type 0 where
  active disabled : UserStatus

-- users, where a runner that came by Telegram may have no number.
pub record UserRow : Type 0 where
  pub phone_e164 : Option String
  pub locale : String
  pub status : UserStatus
  pub last_login_at : Option ℕ

-- sessions, with subject_type USER, by token_hash.
pub record SessionRow : Type 0 where
  pub user_id : ℕ
  pub expires_at : ℕ
  pub revoked_at : Option ℕ

pub record RunnerDb : Type 0 where
  pub otps : List OtpRow
  pub users : Table UserRow
  pub user_ids : List ℕ
  pub sessions : Table SessionRow
  pub audit : List AuditRow

pub record RunnerState : Type 0 where
  pub limiter : OtpLimiter
  pub db : RunnerDb

abbrev pub is_unset : Option ℕ → Bool
is_unset none = true
is_unset (some t) = false

-- `phone_e164 = @phone AND purpose = 'LOGIN' AND consumed_at IS NULL`
abbrev pub is_active_for : String → OtpRow → Bool
is_active_for phone r = str_eq r.phone_e164 phone && is_unset r.consumed_at

abbrev pub set_consumed : (now : ℕ) → OtpRow → OtpRow
set_consumed now r = record r { consumed_at = some now }

abbrev pub change_otps : (OtpRow → Bool) → (OtpRow → OtpRow) → List OtpRow → List OtpRow
change_otps test change rows = map (λ r. if test r then change r else r) rows

-- ConsumeActiveOTPs, InsertOTP, ConsumeOTP and IncrementOTPAttempts.
abbrev pub consume_active_otps : (phone : String) (now : ℕ) → Tx RunnerDb (Unit {0})
consume_active_otps phone now =
    modify (λ d. record d { otps = change_otps (is_active_for phone) (set_consumed now) d.otps })

abbrev pub new_otp : (id : ℕ) (phone : String) (hash now : ℕ) → OtpRow
new_otp id phone hash now = record {
  id = id;
  phone_e164 = phone;
  code_hash = hash;
  attempts = 0;
  expires_at = now + otp_ttl;
  consumed_at = none;
  created_at = now;
}

abbrev pub insert_otp : OtpRow → Tx RunnerDb (Unit {0})
insert_otp row = modify (λ d. record d { otps = row ∷ d.otps })

abbrev pub has_id : ℕ → OtpRow → Bool
has_id id r = r.id == id

abbrev pub consume_otp : (id now : ℕ) → RunnerDb → RunnerDb
consume_otp id now d = record d { otps = change_otps (has_id id) (set_consumed now) d.otps }

abbrev pub one_more_attempt : OtpRow → OtpRow
one_more_attempt r = record r { attempts = r.attempts + 1 }

abbrev pub increment_otp_attempts : (id : ℕ) → RunnerDb → RunnerDb
increment_otp_attempts id d = record d { otps = change_otps (has_id id) one_more_attempt d.otps }

-- GetActiveOTPForUpdate: the newest of the rows that are active.
abbrev pub newer : OtpRow → Option OtpRow → Option OtpRow
newer r none = some r
newer r (some s) = if ltb r.created_at s.created_at then some s else some r

unfoldable pub active_otp : String → List OtpRow → Option OtpRow
active_otp phone [] = none
active_otp phone (r ∷ rs) =
    let rest = active_otp phone rs in if is_active_for phone r then newer r rest else rest

-- UpsertPhoneUser.
abbrev pub has_phone : String → Option UserRow → Bool
has_phone phone none = false
has_phone phone (some u) = some_and (λ p. str_eq p phone) u.phone_e164

unfoldable pub user_by_phone : String → Table UserRow → List ℕ → Option ℕ
user_by_phone phone users [] = none
user_by_phone phone users (id ∷ ids) =
    let rest = user_by_phone phone users ids in if has_phone phone (users id) then some id else rest

abbrev pub new_user : (phone locale : String) (now : ℕ) → UserRow
new_user phone locale now = record {
  phone_e164 = some phone;
  locale = locale;
  status = active;
  last_login_at = some now;
}

abbrev pub touched : (now : ℕ) → Option UserRow → Option UserRow
touched now none = none
touched now (some u) = some (record u { last_login_at = some now })

abbrev pub upsert_user :
    (phone locale : String) (now new_id : ℕ) → Option ℕ → RunnerDb → ℕ × RunnerDb
upsert_user phone locale now new_id (some id) d =
    (id, record d { users = λ k. if k == id then touched now (d.users id) else d.users k })
upsert_user phone locale now new_id none d = (
  new_id,
  record d {
    users = put d.users new_id (new_user phone locale now);
    user_ids = new_id ∷ d.user_ids;
  },
)

unfoldable pub upsert_phone_user :
    (phone locale : String) (now new_id : ℕ) → RunnerDb → ℕ × RunnerDb
unfolding user_by_phone
upsert_phone_user phone locale now new_id d =
    upsert_user phone locale now new_id (user_by_phone phone d.users d.user_ids) d

abbrev pub is_active : Option UserRow → Bool
is_active none = false
is_active (some u) = elim u.status [ active ↦ true | disabled ↦ false ]

-- InsertUserSession, with `UNIQUE (token_hash)`.
abbrev pub insert_user_session : (token : ℕ) → SessionRow → Tx RunnerDb (Unit {0})
insert_user_session token row d = elim (d.sessions token) [
  | some s ↦ err internal_error
  | none ↦ ok (tt, record d { sessions = put d.sessions token row })
]

abbrev pub new_session : (user now : ℕ) → SessionRow
new_session user now = record { user_id = user; expires_at = now + session_ttl; revoked_at = none }
