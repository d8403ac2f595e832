-- ===== src/Iam/Sessions/Uses.antt =====
-- Any sequence of the operations on the sessions of staff.
use run.Base.{
  ℕ, ◌≡◌, refl, ◌∙◌, ap, Bool, true, false, Option, none, some, arith, Bool-cases, Option-cases,
  inl, inr, ◌==◌, ◌∷◌,
}
use run.Platform.Apperr.{
  Result, ok, err, new, unauthenticated, in_tx, internal_error, invalid_credentials,
}
use run.Store.{AuditRow}
use run.Iam.Limiter.{LoginLimiter, allow_ip, begin_attempt, success}
use run.Iam.Sessions.{
  IamState, IamDb, StaffRow, Faults, Verified, matches, differs, busy, malformed, with_release,
  with_failure, deny, grant, check_password, check_found, attempt, try_attempt, try_login, login,
  staff_by_username, is_active, session_result, open_session,
}
use run.Iam.Sessions.Requests.{authenticate, logout, delete_expired_sessions}
use run.Iam.Sessions.Held.{if_both}
use run.Iam.Sessions.Ended.{
  is_ended, logout-ended, logout-keeps, delete-keeps, authenticate-keeps, authenticate-ended,
}

-- A login whose new token is another one leaves the row of `k`.
module _ (faults : Faults) (username now token k : ℕ) (other : (k == token) ≡ false) where
  abbrev Keeps : IamDb → Result ℕ × IamState → Type 0
  Keeps d r = r.1.db.sessions k ≡ d.sessions k

  session_result-Keeps :
      (id : ℕ) (l : LoginLimiter) (d : IamDb) (r : Result (Unit {0}) × IamDb)
      → r.1.sessions k ≡ d.sessions k
      → Keeps d (session_result id l r)
  session_result-Keeps id l d (ok u, d') h = h
  session_result-Keeps id l d (err e, d') h = h

  open_session-keeps :
      (id : ℕ) (d : IamDb)
      → (in_tx (open_session faults id token now) d).1.sessions k ≡ d.sessions k
  unfolding open_session
  open_session-keeps id d = elim (Option-cases (d.sessions token)) [
    | inr (s, found) ↦ ground (arith, found)
    | inl free ↦ elim (Bool-cases faults.session_fails) [
      | inl fails ↦ ground (arith, free, fails)
      | inr fine ↦ ground (arith, free, fine, other)
    ]
  ]

  grant-Keeps : (id : ℕ) (s : IamState) → Keeps s.db (grant faults username id token now s)
  unfolding grant
  grant-Keeps id s =
      let l = success username s.limiter in
      let opened = in_tx (open_session faults id token now) s.db in
      if_both (Keeps s.db) faults.rand_fails (err internal_error, record s { limiter = l })
        (session_result id l opened) refl
        (session_result-Keeps id l s.db opened (open_session-keeps id s.db))

  deny-Keeps : (id : ℕ) (s : IamState) → Keeps s.db (deny faults username id now s)
  deny-Keeps id s =
      let note : AuditRow = record { action = "staff.login_failed"; entity_id = id } in
      let noted : IamState = record s { db = record s.db { audit = note ∷ s.db.audit } } in
      if_both (Keeps s.db) faults.audit_fails (with_failure username now internal_error s)
        (with_failure username now (new 401 invalid_credentials) noted) refl refl

  check_password-Keeps :
      (v : Verified) (id : ℕ) (row : StaffRow) (s : IamState)
      → Keeps s.db (check_password faults v username id token now row s)
  unfolding check_password
  check_password-Keeps busy id row s = refl
  check_password-Keeps malformed id row s = refl
  check_password-Keeps differs id row s = deny-Keeps id s
  check_password-Keeps matches id row s =
      if_both (Keeps s.db) (is_active row.status) (grant faults username id token now s)
        (deny faults username id now s) (grant-Keeps id s) (deny-Keeps id s)

  check_found-Keeps :
      (v : Verified) (found : Option (ℕ × StaffRow)) (s : IamState)
      → Keeps s.db (check_found faults v username token now found s)
  check_found-Keeps busy none s = refl
  check_found-Keeps malformed none s = refl
  check_found-Keeps differs none s = refl
  check_found-Keeps matches none s = refl
  check_found-Keeps v (some (id, row)) s = check_password-Keeps v id row s

  attempt-Keeps : (v : Verified) (s : IamState) → Keeps s.db (attempt faults v username token now s)
  unfolding attempt
  attempt-Keeps v s =
      let found = staff_by_username username s.db.staff s.db.staff_ids in
      if_both (Keeps s.db) faults.load_fails (with_release username internal_error s)
        (check_found faults v username token now found s) refl (check_found-Keeps v found s)

  try_attempt-Keeps :
      (v : Verified) (d : IamDb) (x : Bool × LoginLimiter)
      → Keeps d (try_attempt faults v username token now d x)
  try_attempt-Keeps v d (true, l) = attempt-Keeps v (record { limiter = l; db = d })
  try_attempt-Keeps v d (false, l) = refl

  try_login-Keeps :
      (v : Verified) (started : ℕ) (d : IamDb) (x : Bool × LoginLimiter)
      → Keeps d (try_login faults v username token started now d x)
  try_login-Keeps v started d (true, l) = try_attempt-Keeps v d (begin_attempt started username l)
  try_login-Keeps v started d (false, l) = refl

login-sessions :
    (faults : Faults) (v : Verified) (ip username token started now k : ℕ) (s : IamState)
    → (k == token) ≡ false
    → (login faults v ip username token started now s).1.db.sessions k ≡ s.db.sessions k
unfolding login
login-sessions faults v ip username token started now k s other =
    try_login-Keeps faults username now token k other v started s.db (allow_ip started ip s.limiter)

-- What happens to sessions, where no login draws the token `k` again.
pub data Use (k : ℕ) : IamState → IamState → Type 0 where
  logs_in :
      (faults : Faults) (v : Verified) (ip username token started now : ℕ) (s : IamState)
      → (k == token) ≡ false
      → Use k s (login faults v ip username token started now s).1
  authenticates :
      (token now : ℕ) (s : IamState) → Use k s (record s { db = (authenticate token now s.db).1 })
  logs_out : (token now : ℕ) (s : IamState) → Use k s (record s { db = logout token now s.db })
  purges :
      (cutoff : ℕ) (s : IamState) → Use k s (record s { db = delete_expired_sessions cutoff s.db })

pub data Uses (k : ℕ) : IamState → IamState → Type 0 where
  done : (s : IamState) → Uses k s s
  step : {s t u : IamState} → Use k s t → Uses k t u → Uses k s u

Use-ended :
    {k : ℕ} {s t : IamState}
    → Use k s t
    → is_ended (s.db.sessions k) ≡ true
    → is_ended (t.db.sessions k) ≡ true
Use-ended {k} (logs_in faults v ip username token started now s other) h =
    ap is_ended (login-sessions faults v ip username token started now k s other) ∙ h
Use-ended {k} (authenticates token now s) h = authenticate-keeps k token now s.db h
Use-ended {k} (logs_out token now s) h = logout-keeps k token now s.db h
Use-ended {k} (purges cutoff s) h = delete-keeps k cutoff s.db h

Uses-ended :
    {k : ℕ} {s t : IamState}
    → Uses k s t
    → is_ended (s.db.sessions k) ≡ true
    → is_ended (t.db.sessions k) ≡ true
Uses-ended (done s) h = h
Uses-ended (step u us) h = Uses-ended us (Use-ended u h)

-- A token that was logged out is refused ever after: whatever logins that draw another token,
-- requests, logouts and purges of sessions come in between.
pub logout-refused :
    (k now later : ℕ) (s t : IamState)
    → Uses k (record s { db = logout k now s.db }) t
    → (authenticate k later t.db).0 ≡ err (new 401 unauthenticated)
logout-refused k now later s t us =
    authenticate-ended k later t.db (Uses-ended us (logout-ended k now s.db))
