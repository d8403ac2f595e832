-- ===== src/Iam/Limiter/Bounded.antt =====
-- Logins that fail lock the user name, however many of them run at the same time.
use run.Base.{
  ℕ, ◌+◌, ◌-◌, ◌%◌, ◌≤◌, ◌<◌, ◌≡◌, refl, true, false, Option, none, some, List, [], ◌∷◌, ◌==◌,
  length, length-append, leb, arith, Bool-cases, inl, inr,
}
use run.Iam.Limiter.{
  LoginLimiter, max_failures, failure_window, lock_duration, times, amount_of, prune_before, stored,
  prune_entry, unexpired, maybe_sweep, sweep_every, is_locked_at, allow_ip, ip_window,
  ip_max_attempts, begin_attempt, one_less, failure, success, release,
}

pub prune_before-le :
    (now window : ℕ) (ts : List ℕ) → length (prune_before now window ts) ≤ length ts
unfolding prune_before
prune_before-le now window [] = omega arith
prune_before-le now window (t ∷ ts) = ground (arith, prune_before-le now window ts)

pub times-stored : (ts : List ℕ) → times (stored ts) ≡ ts
times-stored [] = refl
times-stored (t ∷ ts) = refl

-- Recent failures and logins under way are at most five together, for each user name.
abbrev pub IsBounded : LoginLimiter → Type 0
IsBounded l = (u : ℕ) → length (times (l.failures u)) + amount_of (l.in_flight u) ≤ max_failures

prune_all-le :
    (now window : ℕ) (x : Option (List ℕ))
    → length (times (prune_entry now window x)) ≤ length (times x)
prune_all-le now window none = omega arith
prune_all-le now window (some ts) =
    ground (arith, times-stored (prune_before now window ts), prune_before-le now window ts)

maybe_sweep-failures :
    (now : ℕ) (l : LoginLimiter) (u : ℕ)
    → (length (times ((maybe_sweep now l).failures u)) ≤ length (times (l.failures u)))
      × ((maybe_sweep now l).in_flight u ≡ l.in_flight u)
unfolding maybe_sweep
maybe_sweep-failures now l u = elim (Bool-cases ((l.calls + 1) % sweep_every == 0)) [
  | inl now_due ↦ rw now_due (prune_all-le now failure_window (l.failures u), refl)
  | inr later ↦ rw later (omega arith, refl)
]

pub maybe_sweep-locked :
    (now : ℕ) (l : LoginLimiter) (u : ℕ)
    → is_locked_at now ((maybe_sweep now l).locked u) ≡ is_locked_at now (l.locked u)
unfolding maybe_sweep
maybe_sweep-locked now l u = elim (Bool-cases ((l.calls + 1) % sweep_every == 0)) [
  | inl now_due ↦ rw now_due (kept (l.locked u))
  | inr later ↦ rw later refl
]
  where
    kept : (x : Option ℕ) → is_locked_at now (unexpired now x) ≡ is_locked_at now x
    kept none = refl
    kept (some until) = ground arith

one_less-amount : (x : Option ℕ) → amount_of (one_less x) ≡ amount_of x - 1
one_less-amount none = refl
one_less-amount (some n) = ground arith

pub allow_ip-failures :
    (now ip : ℕ) (l : LoginLimiter) (u : ℕ)
    → ((allow_ip now ip l).1.failures u ≡ (maybe_sweep now l).failures u)
      × ((allow_ip now ip l).1.in_flight u ≡ (maybe_sweep now l).in_flight u)
      × ((allow_ip now ip l).1.locked u ≡ (maybe_sweep now l).locked u)
unfolding allow_ip
allow_ip-failures now ip l u =
    let hits = prune_before now ip_window (times ((maybe_sweep now l).ip_hits ip)) in
    elim (Bool-cases (leb ip_max_attempts (length hits))) [
      | inl full ↦ rw full (refl, refl, refl)
      | inr room ↦ rw room (refl, refl, refl)
    ]

allow_ip-IsBounded : (now ip : ℕ) (l : LoginLimiter) → IsBounded l → IsBounded (allow_ip now ip l).1
allow_ip-IsBounded now ip l b u =
    let (fails, flying, lock) = allow_ip-failures now ip l u in
    let (few, same) = maybe_sweep-failures now l u in
    rw (fails, flying, same) (omega (arith, b u, few))

begin_attempt-IsBounded :
    (now username : ℕ) (l : LoginLimiter) → IsBounded l → IsBounded (begin_attempt now username l).1
unfolding begin_attempt
begin_attempt-IsBounded now username l b u =
    let swept = maybe_sweep now l in
    ground (
      arith,
      b u,
      maybe_sweep-failures now l u,
      prune_before-le now failure_window (times (swept.failures username)),
      times-stored (prune_before now failure_window (times (swept.failures username))),
    )

failure-IsBounded :
    (now username : ℕ) (l : LoginLimiter)
    → 1 ≤ amount_of (l.in_flight username)
    → IsBounded l
    → IsBounded (failure now username l)
unfolding failure
failure-IsBounded now username l begun b u =
    let recent = prune_before now failure_window (times (l.failures username)) in
    ground (
      arith,
      b u,
      b username,
      one_less-amount (l.in_flight username),
      prune_before-le now failure_window (times (l.failures username)),
      length-append recent (now ∷ []),
    )

success-IsBounded : (username : ℕ) (l : LoginLimiter) → IsBounded l → IsBounded (success username l)
unfolding success
success-IsBounded username l b u =
    ground (arith, b u, b username, one_less-amount (l.in_flight username))

release-IsBounded : (username : ℕ) (l : LoginLimiter) → IsBounded l → IsBounded (release username l)
unfolding release
release-IsBounded username l b u =
    ground (arith, b u, b username, one_less-amount (l.in_flight username))

-- What a login does: it asks for its address and begins, and one that began ends in a failure, a
-- success or a release.
pub data Call : LoginLimiter → LoginLimiter → Type 0 where
  asks : (now ip : ℕ) (l : LoginLimiter) → Call l (allow_ip now ip l).1
  begins : (now username : ℕ) (l : LoginLimiter) → Call l (begin_attempt now username l).1
  fails :
      (now username : ℕ) (l : LoginLimiter)
      → 1 ≤ amount_of (l.in_flight username)
      → Call l (failure now username l)
  succeeds : (username : ℕ) (l : LoginLimiter) → Call l (success username l)
  releases : (username : ℕ) (l : LoginLimiter) → Call l (release username l)

pub data Calls : LoginLimiter → LoginLimiter → Type 0 where
  done : (l : LoginLimiter) → Calls l l
  step : {l m n : LoginLimiter} → Call l m → Calls m n → Calls l n

Call-IsBounded : {l m : LoginLimiter} → Call l m → IsBounded l → IsBounded m
Call-IsBounded (asks now ip l) b = allow_ip-IsBounded now ip l b
Call-IsBounded (begins now username l) b = begin_attempt-IsBounded now username l b
Call-IsBounded (fails now username l begun) b = failure-IsBounded now username l begun b
Call-IsBounded (succeeds username l) b = success-IsBounded username l b
Call-IsBounded (releases username l) b = release-IsBounded username l b

Calls-IsBounded : {l m : LoginLimiter} → Calls l m → IsBounded l → IsBounded m
Calls-IsBounded (done l) b = b
Calls-IsBounded (step c cs) b = Calls-IsBounded cs (Call-IsBounded c b)

abbrev pub new_login_limiter : LoginLimiter
new_login_limiter = record {
  ip_hits = λ k. none;
  failures = λ k. none;
  locked = λ k. none;
  in_flight = λ k. none;
  calls = 0;
}

-- However the calls of any number of logins interleave, as long as only logins that were begun fail,
-- the failures kept for a user name and its logins under way are at most five together.
pub Calls-bounded :
    (l : LoginLimiter) (username : ℕ)
    → Calls new_login_limiter l
    → length (times (l.failures username)) + amount_of (l.in_flight username) ≤ max_failures
Calls-bounded l username cs = Calls-IsBounded cs (λ u. omega arith) username

pub begin_attempt-locked :
    (now username : ℕ) (l : LoginLimiter)
    → is_locked_at now (l.locked username) ≡ true
    → (begin_attempt now username l).0 ≡ false
unfolding begin_attempt
begin_attempt-locked now username l h = ground (arith, maybe_sweep-locked now l username, h)

pub failure-locks :
    (now later username : ℕ) (l : LoginLimiter)
    → max_failures ≤ length (prune_before now failure_window (times (l.failures username))) + 1
    → later < now + lock_duration
    → is_locked_at later ((failure now username l).locked username) ≡ true
unfolding failure
failure-locks now later username l fifth soon = ground (
  arith,
  length-append (prune_before now failure_window (times (l.failures username))) (now ∷ []),
)
