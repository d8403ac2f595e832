-- ===== src/Iam/Sessions/Requests.antt =====
-- `Authenticate`, `Logout` and `DeleteExpiredSessions` of api/internal/iam/service.go.
use run.Base.{
  ℕ, ◌+◌, Bool, true, false, ◌&&◌, ◌||◌, Option, none, some, ltb, leb, ◌==◌, if◌then◌else◌,
}
use run.Platform.Apperr.{Result, ok, err, new, internal_error, unauthenticated}
use run.Platform.Table.{put}
use run.Iam.Matrix.{Role}
use run.Iam.Sessions.{
  StaffRow, StaffSession, IamDb, is_active, idle_timeout, absolute_timeout, touch_interval,
}

-- GetStaffSession joins the staff.
abbrev pub with_staff : StaffSession → Option StaffRow → Option (StaffSession × StaffRow)
with_staff s none = none
with_staff s (some row) = some (s, row)

abbrev pub session_of : IamDb → Option StaffSession → Option (StaffSession × StaffRow)
session_of d none = none
session_of d (some s) = with_staff s (d.staff s.staff_id)

abbrev pub is_unset : Option ℕ → Bool
is_unset none = true
is_unset (some t) = false

abbrev pub is_valid : (now : ℕ) → StaffSession → StaffRow → Bool
is_valid now s row =
    is_unset s.revoked_at
    && ltb now s.expires_at
    && ltb now (s.created_at + absolute_timeout)
    && is_active row.status

abbrev pub target_of : (now : ℕ) → StaffSession → ℕ
target_of now s =
    let absolute = s.created_at + absolute_timeout in
    if ltb absolute (now + idle_timeout) then absolute else now + idle_timeout

-- UpdateSessionExpiry, of a session that is not revoked.
abbrev pub touch : (token now : ℕ) → StaffSession → IamDb → IamDb
touch token now s d =
    if leb (s.expires_at + touch_interval) (target_of now s)
    then record d { sessions = put d.sessions token (record s { expires_at = target_of now s }) }
    else d

abbrev pub with_role : (id : ℕ) → Option Role → Result (ℕ × Role)
with_role id none = err internal_error
with_role id (some role) = ok (id, role)

abbrev pub authenticate_session :
    (token now : ℕ) → Option (StaffSession × StaffRow) → IamDb → Result (ℕ × Role) × IamDb
authenticate_session token now none d = (err (new 401 unauthenticated), d)
authenticate_session token now (some (s, row)) d =
    if is_valid now s row
    then (with_role s.staff_id row.role, touch token now s d)
    else (err (new 401 unauthenticated), d)

-- Authenticate and Logout, from the hash of a token in the right form.
unfoldable pub authenticate : (token now : ℕ) → IamDb → Result (ℕ × Role) × IamDb
authenticate token now d = authenticate_session token now (session_of d (d.sessions token)) d

abbrev pub revoked : (now : ℕ) → Option StaffSession → Option StaffSession
revoked now none = none
revoked now (some s) =
    if is_unset s.revoked_at then some (record s { revoked_at = some now }) else some s

unfoldable pub logout : (token now : ℕ) → IamDb → IamDb
logout token now d = record d {
  sessions = λ k. if k == token then revoked now (d.sessions token) else d.sessions k;
}

-- DeleteExpiredSessions, without the count, where `cutoff` is `now` less `olderThan`.
abbrev pub is_before : (cutoff : ℕ) → Option ℕ → Bool
is_before cutoff none = false
is_before cutoff (some t) = ltb t cutoff

abbrev pub kept_session : (cutoff : ℕ) → Option StaffSession → Option StaffSession
kept_session cutoff none = none
kept_session cutoff (some s) =
    if ltb s.expires_at cutoff || is_before cutoff s.revoked_at then none else some s

unfoldable pub delete_expired_sessions : (cutoff : ℕ) → IamDb → IamDb
delete_expired_sessions cutoff d = record d { sessions = λ k. kept_session cutoff (d.sessions k) }
