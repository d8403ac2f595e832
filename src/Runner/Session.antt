-- ===== src/Runner/Session.antt =====
-- `Authenticate` and `Logout` of api/internal/runner/service.go.
pub mod Login
use Prim.Native.Char.{code}
use Prim.Native.String.{String}
use text.Mathlib.Text.{◌==◌ as str_eq}
use run.Base.{
  ℕ, ◌+◌, ◌-◌, ◌*◌, ◌/◌, Bool, true, false, not, ◌&&◌, ◌||◌, Option, none, some, List, [], ◌∷◌, map,
  ltb, leb, ◌==◌, if◌then◌else◌, length, some_and,
}
use run.Platform.Apperr.{
  field, Error, Result, ok, err, new, with_field, internal_error, forbidden, rate_limited,
  otp_phone_invalid, otp_invalid, otp_expired, otp_attempts_exceeded, otp_phone_not_on_telegram,
  otp_send_failed, unauthenticated, Tx, pure, gets, modify, in_tx, ◌>>=◌, ◌>>◌,
}
use run.Platform.Table.{Table, put}
use run.Store.{AuditRow}
use run.Runner.OtpLimiter.{second, OtpLimiter, allow, allow_verify}
use run.Runner.Rows.{SessionRow, RunnerDb, is_unset, is_active}

-- Authenticate and Logout, from the hash of a token in the right form.
abbrev pub is_open : (now : ℕ) → SessionRow → Bool
is_open now s = is_unset s.revoked_at && ltb now s.expires_at

abbrev pub authenticate_session : (now : ℕ) → RunnerDb → Option SessionRow → Result ℕ
authenticate_session now d none = err (new 401 unauthenticated)
authenticate_session now d (some s) =
    if is_open now s && is_active (d.users s.user_id)
    then ok s.user_id
    else err (new 401 unauthenticated)

unfoldable pub authenticate : (token now : ℕ) → RunnerDb → Result ℕ
authenticate token now d = authenticate_session now d (d.sessions token)

abbrev pub revoked : (now : ℕ) → Option SessionRow → Option SessionRow
revoked now none = none
revoked now (some s) =
    if is_unset s.revoked_at then some (record s { revoked_at = some now }) else some s

unfoldable pub logout : (token now : ℕ) → RunnerDb → RunnerDb
logout token now d = record d {
  sessions = λ k. if k == token then revoked now (d.sessions token) else d.sessions k;
}
