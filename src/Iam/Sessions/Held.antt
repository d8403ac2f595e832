-- ===== src/Iam/Sessions/Held.antt =====
-- The places of the login limiter that a login holds, and what it leaves of them.
use mathlib.Core.Path.{subst}
use run.Base.{
  ==→eq, ℕ, ◌+◌, ◌-◌, ◌≡◌, refl, ◌∙◌, ap, Bool, true, false, Option, none, some, arith, Bool-cases,
  inl, inr, ◌==◌, leb, length, [], ◌∷◌, ◌++◌, ◌%◌, if◌then◌else◌,
}
use run.Platform.Apperr.{Result, ok, err, in_tx, internal_error}
use run.Iam.Limiter.{
  is_locked_at, times, prune_before, failure_window, max_failures, sweep_every, ip_window,
  ip_max_attempts, LoginLimiter, amount_of, maybe_sweep, allow_ip, begin_attempt, failure, success,
  release,
}
use run.Iam.Sessions.{
  session_result, open_session, IamState, IamDb, StaffRow, Faults, Verified, matches, differs, busy,
  malformed, with_release, deny, grant, check_password, check_found, attempt, try_attempt,
  try_login, login, staff_by_username, is_active,
}

-- How many attempts of `k` are under way.
abbrev pub held : (k : ℕ) → LoginLimiter → ℕ
held k l = amount_of (l.in_flight k)

-- The places of `k` after one of `username` was given back.
abbrev pub given_back : (username k : ℕ) → ℕ → ℕ
given_back username k n = if k == username then n - 1 else n

release-held :
    (username k : ℕ) (l : LoginLimiter)
    → held k (release username l) ≡ given_back username k (held k l)
unfolding release
release-held username k l = go (l.in_flight k) refl
  where
    go :
        (x : Option ℕ)
        → l.in_flight k ≡ x
        → held k (release username l) ≡ given_back username k (held k l)
    go none e = rw e (ground arith)
    go (some n) e = rw e (ground arith)

success-held :
    (username k : ℕ) (l : LoginLimiter)
    → held k (success username l) ≡ given_back username k (held k l)
unfolding success release
success-held username k l = release-held username k l

failure-held :
    (now username k : ℕ) (l : LoginLimiter)
    → held k (failure now username l) ≡ given_back username k (held k l)
unfolding failure release
failure-held now username k l =
    let back = release-held username k l in
    let n = length (prune_before now failure_window (times (l.failures username)) ++ (now ∷ [])) in
    elim (Bool-cases (leb max_failures n)) [ inl enough ↦ rw enough back | inr few ↦ rw few back ]

sweep-held : (now k : ℕ) (l : LoginLimiter) → held k (maybe_sweep now l) ≡ held k l
unfolding maybe_sweep
sweep-held now k l = elim (Bool-cases ((l.calls + 1) % sweep_every == 0)) [
  | inl due ↦ rw due refl
  | inr early ↦ rw early refl
]

allow_ip-held : (now ip k : ℕ) (l : LoginLimiter) → held k (allow_ip now ip l).1 ≡ held k l
unfolding allow_ip
allow_ip-held now ip k l =
    let swept = maybe_sweep now l in
    let n = length (prune_before now ip_window (times (swept.ip_hits ip))) in
    elim (Bool-cases (leb ip_max_attempts n)) [
      | inl full ↦ rw full (sweep-held now k l)
      | inr room ↦ rw room (sweep-held now k l)
    ]

-- The places of `k` after one of `username` was taken.
abbrev taken : (username k : ℕ) → ℕ → ℕ
taken username k n = if k == username then n + 1 else n

given_back-taken : (username k n : ℕ) → given_back username k (taken username k n) ≡ n
given_back-taken username k n = ground arith

-- What BeginAttempt leaves, with its answer.
begin_attempt-held :
    (now username k : ℕ) (l : LoginLimiter)
    → held k (begin_attempt now username l).1
      ≡ (if (begin_attempt now username l).0 then taken username k (held k l) else held k l)
unfolding begin_attempt
begin_attempt-held now username k l =
    let swept = maybe_sweep now l in
    let failures = prune_before now failure_window (times (swept.failures username)) in
    let kept = sweep-held now k l in
    let n = length failures + amount_of (swept.in_flight username) in
    elim (Bool-cases (is_locked_at now (swept.locked username))) [
      | inl locked ↦ rw locked kept
      | inr free ↦ elim (Bool-cases (leb max_failures n)) [
        | inl full ↦ rw (free, full) kept
        | inr room ↦
            rw (free, room)
              (elim (Bool-cases (k == username)) [
                | inl same ↦ rw (==→eq k username same) (ground (arith, sweep-held now username l))
                | inr other ↦ rw other (ground (arith, kept, other))
              ])
      ]
    ]

session_result-limiter :
    (id : ℕ) (l : LoginLimiter) (r : Result (Unit {0}) × IamDb)
    → (session_result id l r).1.limiter ≡ l
session_result-limiter id l (ok u, d) = refl
session_result-limiter id l (err e, d) = refl

-- What holds of both branches of a test.
pub if_both :
    (P : Result ℕ × IamState → Type 0) (b : Bool) (x y : Result ℕ × IamState)
    → P x
    → P y
    → P (if b then x else y)
if_both P true x y px py = px
if_both P false x y px py = py

module _ (faults : Faults) (username k now : ℕ) where
  -- An outcome of a login that gave its place back once.
  abbrev Returns : IamState → Result ℕ × IamState → Type 0
  Returns s r = held k r.1.limiter ≡ given_back username k (held k s.limiter)

  grant-held : (id token : ℕ) (s : IamState) → Returns s (grant faults username id token now s)
  unfolding grant
  grant-held id token s =
      let l = success username s.limiter in
      let back = success-held username k s.limiter in
      let opened = in_tx (open_session faults id token now) s.db in
      if_both (Returns s) faults.rand_fails (err internal_error, record s { limiter = l })
        (session_result id l opened) back (ap (held k) (session_result-limiter id l opened) ∙ back)

  deny-held : (id : ℕ) (s : IamState) → Returns s (deny faults username id now s)
  deny-held id s =
      let back = failure-held now username k s.limiter in
      elim (Bool-cases faults.audit_fails) [ inl fails ↦ rw fails back | inr fine ↦ rw fine back ]

  check_password-held :
      (v : Verified) (id token : ℕ) (row : StaffRow) (s : IamState)
      → Returns s (check_password faults v username id token now row s)
  unfolding check_password
  check_password-held busy id token row s = release-held username k s.limiter
  check_password-held malformed id token row s = release-held username k s.limiter
  check_password-held differs id token row s = deny-held id s
  check_password-held matches id token row s = elim (Bool-cases (is_active row.status)) [
    | inl works ↦ rw works (grant-held id token s)
    | inr left ↦ rw left (deny-held id s)
  ]

  check_found-held :
      (v : Verified) (token : ℕ) (found : Option (ℕ × StaffRow)) (s : IamState)
      → Returns s (check_found faults v username token now found s)
  check_found-held busy token none s = release-held username k s.limiter
  check_found-held malformed token none s = failure-held now username k s.limiter
  check_found-held differs token none s = failure-held now username k s.limiter
  check_found-held matches token none s = failure-held now username k s.limiter
  check_found-held v token (some (id, row)) s = check_password-held v id token row s

  attempt-held :
      (v : Verified) (token : ℕ) (s : IamState) → Returns s (attempt faults v username token now s)
  unfolding attempt
  attempt-held v token s =
      let found = staff_by_username username s.db.staff s.db.staff_ids in
      if_both (Returns s) faults.load_fails (with_release username internal_error s)
        (check_found faults v username token now found s) (release-held username k s.limiter)
        (check_found-held v token found s)

  try_attempt-held :
      (v : Verified) (token n : ℕ) (d : IamDb) (x : Bool × LoginLimiter)
      → held k x.1 ≡ (if x.0 then taken username k n else n)
      → held k (try_attempt faults v username token now d x).1.limiter ≡ n
  try_attempt-held v token n d (true, l) h =
      attempt-held v token (record { limiter = l; db = d })
      ∙ ap (given_back username k) h
      ∙ given_back-taken username k n
  try_attempt-held v token n d (false, l) h = h

  try_login-held :
      (v : Verified) (token started n : ℕ) (d : IamDb) (x : Bool × LoginLimiter)
      → held k x.1 ≡ n
      → held k (try_login faults v username token started now d x).1.limiter ≡ n
  try_login-held v token started n d (true, l) h =
      try_attempt-held v token n d (begin_attempt started username l) (
        subst
          (λ (m : ℕ).
            held k (begin_attempt started username l).1
            ≡ (if (begin_attempt started username l).0 then taken username k m else m))
          h (begin_attempt-held started username k l))
  try_login-held v token started n d (false, l) h = h

-- However a login ends, be it refused, granted, or broken off by a query that failed or by a machine
-- that was busy, it leaves as many attempts under way for each user name as it found.
pub login-held :
    (faults : Faults) (v : Verified) (ip username token started now k : ℕ) (s : IamState)
    → amount_of ((login faults v ip username token started now s).1.limiter.in_flight k)
      ≡ amount_of (s.limiter.in_flight k)
unfolding login
login-held faults v ip username token started now k s =
    try_login-held faults username k now v token started (held k s.limiter) s.db
      (allow_ip started ip s.limiter) (allow_ip-held started ip k s.limiter)
