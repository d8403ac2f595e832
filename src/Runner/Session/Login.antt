-- ===== src/Runner/Session/Login.antt =====
-- A login, and what its token is worth.
use Prim.Native.String.{String}
use mathlib.Core.Path.{subst}
use run.Base.{
  ℕ, ◌+◌, ◌≡◌, refl, sym, ap, inl, inr, true, Option, none, some, leb, ltb, ◌==◌, if◌then◌else◌,
  Bool-cases, Option-cases, ==_refl,
}
use run.Platform.Table.{put}
use run.Platform.Apperr.{
  Result, ok, err, new, internal_error, otp_phone_invalid, unauthenticated, in_tx, bind-ok,
  bind-err,
}
use run.Runner.OtpLimiter.{OtpLimiter, allow_verify}
use run.Runner.Rows.{
  session_ttl, OtpRow, RunnerDb, RunnerState, active_otp, consume_otp, upsert_phone_user, is_active,
  insert_user_session, new_session,
}
use run.Runner.Otp.{
  otp_max_attempts, Login, start_session, open_session, check_otp, verify_tx, flatten, valid_e164,
  verify_allowed, verify_phone_code,
}
use run.Runner.Session.{authenticate, logout}

-- The session of the login is stored, and its user is active.
pub record IsLoggedIn (now : ℕ) (login : Login) (user : ℕ) (d : RunnerDb) : Type 0 where
  pub session : d.sessions login.token ≡ some (new_session user now)
  pub user_active : is_active (d.users user) ≡ true

abbrev LogsIn : ℕ → Login → Result (Result ℕ × RunnerDb) → Type 0
LogsIn now login (ok (ok user, d)) = IsLoggedIn now login user d
LogsIn now login (ok (err e, d)) = Unit
LogsIn now login (err e) = Unit

start_session-LogsIn :
    (now : ℕ) (login : Login) (user : ℕ) (d : RunnerDb)
    → is_active (d.users user) ≡ true
    → LogsIn now login (start_session now login user d)
unfolding start_session
start_session-LogsIn now login user d act =
    let insert = insert_user_session login.token (new_session user now) in
    elim (Option-cases (d.sessions login.token)) [
      | inl fresh ↦
          let d1 : RunnerDb = record d {
            sessions = put d.sessions login.token (new_session user now);
          } in
          let inserted : insert d ≡ ok (tt, d1) = rw (fresh, insert_user_session) refl in
          subst (LogsIn now login) (sym (bind-ok insert _ d d1 tt inserted))
            (record { session = rw (==_refl login.token) refl; user_active = act })
      | inr (row, used) ↦
          let failed : insert d ≡ err internal_error = rw (used, insert_user_session) refl in
          subst (LogsIn now login) (sym (bind-err insert _ d internal_error failed)) tt
    ]

open_session-LogsIn :
    (now : ℕ) (login : Login) (p : ℕ × RunnerDb) → LogsIn now login (open_session now login p)
open_session-LogsIn now login (user, d) = elim (Bool-cases (is_active (d.users user))) [
  | inl act ↦ rw act (start_session-LogsIn now login user d act)
  | inr disabled ↦ rw disabled tt
]

check_otp-LogsIn :
    (itoa : ℕ → String) (phone : String) (hash now : ℕ) (login : Login) (otp : OtpRow)
    (d : RunnerDb)
    → LogsIn now login (check_otp itoa phone hash now login otp d)
unfolding check_otp
check_otp-LogsIn itoa phone hash now login otp d = elim (Bool-cases (leb otp.expires_at now)) [
  | inl over ↦ rw over tt
  | inr valid ↦ rw valid (elim (Bool-cases (leb otp_max_attempts otp.attempts)) [
    | inl spent ↦ rw spent tt
    | inr left ↦ rw left (elim (Bool-cases (otp.code_hash == hash)) [
      | inl right ↦ rw right (
          open_session-LogsIn now login
            (upsert_phone_user phone login.locale now login.new_id (consume_otp otp.id now d)))
      | inr wrong ↦ rw wrong tt
    ])
  ])
]

verify_tx-LogsIn :
    (itoa : ℕ → String) (phone : String) (hash now : ℕ) (login : Login) (d : RunnerDb)
    → LogsIn now login (verify_tx itoa phone hash now login d)
unfolding verify_tx
verify_tx-LogsIn itoa phone hash now login d = elim (Option-cases (active_otp phone d.otps)) [
  | inl e ↦ rw e tt
  | inr (otp, e) ↦ rw e (check_otp-LogsIn itoa phone hash now login otp d)
]

settled-IsLoggedIn :
    (now : ℕ) (login : Login) (m : RunnerDb → Result (Result ℕ × RunnerDb)) (d d' : RunnerDb)
    (user : ℕ)
    → LogsIn now login (m d)
    → flatten (in_tx m d) ≡ (ok user, d')
    → IsLoggedIn now login user d'
settled-IsLoggedIn now login m d d' user = go (m d)
  where
    settled : Result (Result ℕ × RunnerDb) → Result ℕ × RunnerDb
    settled x = flatten (elim x as (λ _. Result (Result ℕ) × RunnerDb) [
      | ok (r, e) ↦ (ok r, e)
      | err e ↦ (err e, d)
    ])

    go :
        (x : Result (Result ℕ × RunnerDb))
        → LogsIn now login x
        → settled x ≡ (ok user, d')
        → IsLoggedIn now login user d'
    go (ok (ok u, d1)) logged h =
        subst (λ (r : Result ℕ × RunnerDb). LogsIn now login (ok r)) h logged
    go (ok (err e, d1)) logged h = cc
    go (err e) logged h = cc

authenticate-session :
    (token user now later : ℕ) (d : RunnerDb)
    → d.sessions token ≡ some (new_session user now)
    → is_active (d.users user) ≡ true
    → authenticate token later d
      ≡ (if ltb later (now + session_ttl) then ok user else err (new 401 unauthenticated))
unfolding authenticate
authenticate-session token user now later d session act =
    rw session (elim (Bool-cases (ltb later (now + session_ttl))) [
      | inl valid ↦ rw (valid, act) refl
      | inr over ↦ rw over refl
    ])

logout-authenticate :
    (token user now at_time later : ℕ) (d : RunnerDb)
    → d.sessions token ≡ some (new_session user now)
    → authenticate token later (logout token at_time d) ≡ err (new 401 unauthenticated)
unfolding authenticate logout
logout-authenticate token user now at_time later d session = rw (==_refl token) (rw session refl)

module _ (hash_code : String → String → ℕ) (itoa : ℕ → String) where
  verify_allowed-IsLoggedIn :
      (phone code : String) (now user : ℕ) (login : Login) (w : Option ℕ) (l : OtpLimiter)
      (d : RunnerDb) (s' : RunnerState)
      → verify_allowed hash_code itoa phone code now login w l d ≡ (ok user, s')
      → IsLoggedIn now login user s'.db
  verify_allowed-IsLoggedIn phone code now user login (some wait) l d s' h = cc
  verify_allowed-IsLoggedIn phone code now user login none l d s' h =
      let m = verify_tx itoa phone (hash_code phone code) now login in
      settled-IsLoggedIn now login m d s'.db user
        (verify_tx-LogsIn itoa phone (hash_code phone code) now login d)
        (ap (λ (r : Result ℕ × RunnerState). (r.0, r.1.db)) h)

  -- The token of a login that succeeded stands for its user until 24 hours are over, and for nobody
  -- from then on or after it was logged out.
  pub verify_phone_code-authenticate :
      (phone ip code : String) (now user at_time later : ℕ) (login : Login) (s s' : RunnerState)
      → verify_phone_code hash_code itoa phone ip code now login s ≡ (ok user, s')
      → (authenticate login.token later s'.db
          ≡ (if ltb later (now + session_ttl) then ok user else err (new 401 unauthenticated)))
        × (authenticate login.token later (logout login.token at_time s'.db)
            ≡ err (new 401 unauthenticated))
  unfolding verify_phone_code
  verify_phone_code-authenticate phone ip code now user at_time later login s s' h =
      elim (Bool-cases (valid_e164 phone)) [
        | inl valid ↦
            let (w, l) = allow_verify now ip s.limiter in
            let logged =
              verify_allowed-IsLoggedIn phone code now user login w l s.db s' (rw valid at h) in
            (
              authenticate-session login.token user now later s'.db logged.session
                  logged.user_active,
              logout-authenticate login.token user now at_time later s'.db logged.session,
            )
        | inr invalid ↦
            let bad : ◌≡◌ {A = Result ℕ × RunnerState} (err (new 422 otp_phone_invalid), s)
                (ok user, s') =
              rw invalid at h in
            cc
      ]
