-- ===== src/Iam/Sessions.antt =====
-- `Login` of api/internal/iam/service.go, with the queries of iam/store/iam.sql.go; Requests is what
-- becomes of its sessions. A user name (trimmed, in lower case), an address and the hash of a token are
-- numbers; times are in seconds, as in Iam.Limiter.
pub mod Held
pub mod Requests
pub mod Ended
pub mod Uses
use run.Base.{
  ℕ, ◌+◌, ◌*◌, Bool, true, false, not, Option, none, some, List, [], ◌∷◌, ◌==◌, if◌then◌else◌,
}
use run.Platform.Apperr.{
  Error, Result, ok, err, new, internal_error, rate_limited, account_locked, invalid_credentials,
  Tx, guard, modify, in_tx, ◌>>=◌, ◌>>◌,
}
use run.Platform.Table.{Table, put}
use run.Store.{AuditRow}
use run.Iam.Matrix.{Role}
use run.Iam.Limiter.{LoginLimiter, allow_ip, begin_attempt, failure, success, release}

abbrev pub idle_timeout : ℕ
idle_timeout = 8 * 3600

abbrev pub absolute_timeout : ℕ
absolute_timeout = 7 * (24 * 3600)

abbrev pub touch_interval : ℕ
touch_interval = 60

pub data StaffStatus : Type 0 where
  active disabled : StaffStatus

-- staff, by id. `role` is what ParseRole makes of the text of the column.
pub record StaffRow : Type 0 where
  pub username : ℕ
  pub role : Option Role
  pub status : StaffStatus
  pub last_login_at : Option ℕ

-- sessions, with subject_type STAFF, by token_hash.
pub record StaffSession : Type 0 where
  pub staff_id : ℕ
  pub expires_at : ℕ
  pub created_at : ℕ
  pub revoked_at : Option ℕ

pub record IamDb : Type 0 where
  pub staff : Table StaffRow
  pub staff_ids : List ℕ
  pub sessions : Table StaffSession
  pub audit : List AuditRow

pub record IamState : Type 0 where
  pub limiter : LoginLimiter
  pub db : IamDb

abbrev pub is_active : StaffStatus → Bool
is_active active = true
is_active disabled = false

-- The answer of verifyPasswordLimited: argon2 may be busy, and the hash of the row malformed.
pub data Verified : Type 0 where
  matches differs busy malformed : Verified

-- The queries and the source of random bytes that may fail during a login.
pub record Faults : Type 0 where
  pub load_fails : Bool
  pub audit_fails : Bool
  pub rand_fails : Bool
  pub session_fails : Bool

-- GetStaffByUsername.
abbrev pub found_or :
    (username id : ℕ) → Option StaffRow → Option (ℕ × StaffRow) → Option (ℕ × StaffRow)
found_or username id none rest = rest
found_or username id (some row) rest = if row.username == username then some (id, row) else rest

unfoldable pub staff_by_username : (username : ℕ) → Table StaffRow → List ℕ → Option (ℕ × StaffRow)
staff_by_username username staff [] = none
staff_by_username username staff (id ∷ ids) =
    let rest = staff_by_username username staff ids in found_or username id (staff id) rest

-- InsertStaffSession (`UNIQUE (token_hash)`), SetStaffLastLogin and audit.Record.
abbrev pub insert_staff_session : (token : ℕ) → StaffSession → Tx IamDb (Unit {0})
insert_staff_session token row d = elim (d.sessions token) [
  | some s ↦ err internal_error
  | none ↦ ok (tt, record d { sessions = put d.sessions token row })
]

abbrev pub logged_in : (now : ℕ) → Option StaffRow → Option StaffRow
logged_in now none = none
logged_in now (some row) = some (record row { last_login_at = some now })

abbrev pub set_staff_last_login : (id now : ℕ) → Tx IamDb (Unit {0})
set_staff_last_login id now =
    modify
      (λ d. record d { staff = λ k. if k == id then logged_in now (d.staff id) else d.staff k })

abbrev pub record_audit : AuditRow → Tx IamDb (Unit {0})
record_audit entry = modify (λ d. record d { audit = entry ∷ d.audit })

abbrev pub new_session : (id now : ℕ) → StaffSession
new_session id now = record {
  staff_id = id;
  expires_at = now + idle_timeout;
  created_at = now;
  revoked_at = none;
}

unfoldable pub open_session : Faults → (id token now : ℕ) → Tx IamDb (Unit {0})
open_session faults id token now = do
  insert_staff_session token (new_session id now)
  set_staff_last_login id now
  guard (not faults.session_fails) internal_error
  record_audit (record { action = "staff.login"; entity_id = id })

-- Outcomes of Login once BeginAttempt holds a place: each gives the place back once.
abbrev pub with_release : (username : ℕ) → Error → IamState → Result ℕ × IamState
with_release username e s = (err e, record s { limiter = release username s.limiter })

abbrev pub with_failure : (username now : ℕ) → Error → IamState → Result ℕ × IamState
with_failure username now e s = (err e, record s { limiter = failure now username s.limiter })

abbrev pub deny : Faults → (username id now : ℕ) → IamState → Result ℕ × IamState
deny faults username id now s =
    if faults.audit_fails
    then with_failure username now internal_error s
    else with_failure username now (new 401 invalid_credentials) (record s {
      db = record s.db {
        audit = record { action = "staff.login_failed"; entity_id = id } ∷ s.db.audit;
      };
    })

abbrev pub session_result :
    (id : ℕ) → LoginLimiter → Result (Unit {0}) × IamDb → Result ℕ × IamState
session_result id l (ok u, d) = (ok id, record { limiter = l; db = d })
session_result id l (err e, d) = (err internal_error, record { limiter = l; db = d })

unfoldable pub grant : Faults → (username id token now : ℕ) → IamState → Result ℕ × IamState
grant faults username id token now s =
    let l = success username s.limiter in
    if faults.rand_fails
    then (err internal_error, record s { limiter = l })
    else session_result id l (in_tx (open_session faults id token now) s.db)

unfoldable pub check_password :
    Faults → Verified → (username id token now : ℕ) → StaffRow → IamState → Result ℕ × IamState
check_password faults busy username id token now row s =
    with_release username (new 429 rate_limited) s
check_password faults malformed username id token now row s = with_release username internal_error s
check_password faults differs username id token now row s = deny faults username id now s
check_password faults matches username id token now row s =
    if is_active row.status
    then grant faults username id token now s
    else deny faults username id now s

-- An unknown name: the hash of a dummy is verified, and only whether argon2 was busy counts.
abbrev pub check_unknown : Verified → (username now : ℕ) → IamState → Result ℕ × IamState
check_unknown busy username now s = with_release username (new 429 rate_limited) s
check_unknown matches username now s = with_failure username now (new 401 invalid_credentials) s
check_unknown differs username now s = with_failure username now (new 401 invalid_credentials) s
check_unknown malformed username now s = with_failure username now (new 401 invalid_credentials) s

abbrev pub check_found :
    Faults
    → Verified
    → (username token now : ℕ) → Option (ℕ × StaffRow)
    → IamState
    → Result ℕ × IamState
check_found faults v username token now none s = check_unknown v username now s
check_found faults v username token now (some (id, row)) s =
    check_password faults v username id token now row s

unfoldable pub attempt :
    Faults → Verified → (username token now : ℕ) → IamState → Result ℕ × IamState
attempt faults v username token now s =
    if faults.load_fails
    then with_release username internal_error s
    else check_found faults v username token now
        (staff_by_username username s.db.staff s.db.staff_ids) s

abbrev pub try_attempt :
    Faults → Verified → (username token now : ℕ) → IamDb → Bool × LoginLimiter → Result ℕ × IamState
try_attempt faults v username token now d (true, l) =
    attempt faults v username token now (record { limiter = l; db = d })
try_attempt faults v username token now d (false, l) =
    (err (new 423 account_locked), record { limiter = l; db = d })

abbrev pub try_login :
    Faults
    → Verified
    → (username token started now : ℕ) → IamDb
    → Bool × LoginLimiter
    → Result ℕ × IamState
try_login faults v username token started now d (true, l) =
    try_attempt faults v username token now d (begin_attempt started username l)
try_login faults v username token started now d (false, l) =
    (err (new 429 rate_limited), record { limiter = l; db = d })

-- Login, with the id of the staff for the answer. The clock shows `started` to the limiter's first
-- two calls and `now` after the password was verified.
unfoldable pub login :
    Faults → Verified → (ip username token started now : ℕ) → IamState → Result ℕ × IamState
login faults v ip username token started now s =
    try_login faults v username token started now s.db (allow_ip started ip s.limiter)
