-- ===== src/Iam/Sessions/Ended.antt =====
-- A session that was ended by Logout stays ended.
use run.Base.{
  ◌+◌, ==→eq, ==_refl, ℕ, ◌≡◌, refl, sym, ◌∙◌, ap, Bool, true, false, not, ◌||◌, Option, none, some,
  arith, Bool-cases, inl, inr, ◌==◌, leb, ltb,
}
use run.Platform.Apperr.{err, new, unauthenticated}
use run.Iam.Sessions.{IamDb, StaffSession, StaffRow, touch_interval}
use run.Iam.Sessions.Requests.{
  with_staff, is_unset, is_valid, touch, target_of, authenticate, revoked, logout, is_before,
  kept_session, delete_expired_sessions, authenticate_session, session_of,
}

abbrev pub is_ended : Option StaffSession → Bool
is_ended none = true
is_ended (some s) = not (is_unset s.revoked_at)

revoked-ended : (now : ℕ) (x : Option StaffSession) → is_ended (revoked now x) ≡ true
revoked-ended now none = refl
revoked-ended now (some s) = elim (Bool-cases (is_unset s.revoked_at)) [
  | inl unset ↦ rw unset refl
  | inr set ↦ rw set (rw set refl)
]

pub logout-ended :
    (token now : ℕ) (d : IamDb) → is_ended ((logout token now d).sessions token) ≡ true
unfolding logout
logout-ended token now d = rw (==_refl token) (revoked-ended now (d.sessions token))

pub logout-keeps :
    (token other now : ℕ) (d : IamDb)
    → is_ended (d.sessions token) ≡ true
    → is_ended ((logout other now d).sessions token) ≡ true
unfolding logout
logout-keeps token other now d h = elim (Bool-cases (token == other)) [
  | inl same ↦ rw same (revoked-ended now (d.sessions other))
  | inr ne ↦ rw ne h
]

pub delete-keeps :
    (token cutoff : ℕ) (d : IamDb)
    → is_ended (d.sessions token) ≡ true
    → is_ended ((delete_expired_sessions cutoff d).sessions token) ≡ true
unfolding delete_expired_sessions
delete-keeps token cutoff d h = go (d.sessions token) h
  where
    go : (x : Option StaffSession) → is_ended x ≡ true → is_ended (kept_session cutoff x) ≡ true
    go none e = refl
    go (some s) e = elim (Bool-cases (ltb s.expires_at cutoff || is_before cutoff s.revoked_at)) [
      | inl old ↦ rw old refl
      | inr young ↦ rw young e
    ]

touch-keeps :
    (token other now : ℕ) (s : StaffSession) (d : IamDb)
    → is_unset s.revoked_at ≡ true
    → d.sessions other ≡ some s
    → is_ended (d.sessions token) ≡ true
    → is_ended ((touch other now s d).sessions token) ≡ true
touch-keeps token other now s d live stored h =
    elim (Bool-cases (leb (s.expires_at + touch_interval) (target_of now s))) [
      | inl due ↦ rw due (elim (Bool-cases (token == other)) [
        | inl same ↦
            let bad : false ≡ true =
              sym (ap not live)
              ∙ sym (ap is_ended (ap d.sessions (==→eq token other same) ∙ stored))
              ∙ h in
            cc
        | inr ne ↦ rw ne h
      ])
      | inr early ↦ rw early h
    ]

-- A session that is ended is refused, and the refusal changes nothing; to use another changes it not.
pub authenticate-keeps :
    (token other now : ℕ) (d : IamDb)
    → is_ended (d.sessions token) ≡ true
    → is_ended ((authenticate other now d).1.sessions token) ≡ true
unfolding authenticate
authenticate-keeps token other now d h = go (d.sessions other) refl
  where
    joined :
        (s : StaffSession) (x : Option StaffRow)
        → d.sessions other ≡ some s
        → is_ended ((authenticate_session other now (with_staff s x) d).1.sessions token) ≡ true
    joined s none stored = h
    joined s (some row) stored = elim (Bool-cases (is_valid now s row)) [
      | inl valid ↦ rw valid (touch-keeps token other now s d (ground (arith, valid)) stored h)
      | inr ended ↦ rw ended h
    ]

    go :
        (x : Option StaffSession)
        → d.sessions other ≡ x
        → is_ended ((authenticate_session other now (session_of d x) d).1.sessions token) ≡ true
    go none stored = h
    go (some s) stored = joined s (d.staff s.staff_id) stored

pub authenticate-ended :
    (token now : ℕ) (d : IamDb)
    → is_ended (d.sessions token) ≡ true
    → (authenticate token now d).0 ≡ err (new 401 unauthenticated)
unfolding authenticate
authenticate-ended token now d h = go (d.sessions token) h
  where
    joined :
        (s : StaffSession) (x : Option StaffRow)
        → is_ended (some s) ≡ true
        → (authenticate_session token now (with_staff s x) d).0 ≡ err (new 401 unauthenticated)
    joined s none e = refl
    joined s (some row) e =
        let refused : is_valid now s row ≡ false = ground (arith, e) in rw refused refl

    go :
        (x : Option StaffSession)
        → is_ended x ≡ true
        → (authenticate_session token now (session_of d x) d).0 ≡ err (new 401 unauthenticated)
    go none e = refl
    go (some s) e = joined s (d.staff s.staff_id) e
