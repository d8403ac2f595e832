-- ===== src/Iam/Limiter/Lock.antt =====
-- A user name that is locked stays so for its time, whatever other calls come.
use run.Base.{
  ℕ, ◌*◌, ◌+◌, ◌%◌, ◌≤◌, ◌<◌, ◌≡◌, sym, ◌∙◌, ap, Bool, true, false, Option, none, some, List, [],
  ◌∷◌, ◌++◌, ◌==◌, leb, ltb, length, length-append, arith, Bool-cases, inl, inr, ==→eq, ==_refl,
  count_if,
}
use run.Iam.Limiter.{
  LoginLimiter, max_failures, failure_window, lock_duration, times, prune_before, maybe_sweep,
  sweep_every, unexpired, is_locked_at, allow_ip, begin_attempt, failure, success, release,
  amount_of,
}
use run.Iam.Limiter.Bounded.{allow_ip-failures, begin_attempt-locked}

-- The name is locked until `until` at least.
abbrev pub until_of : Option ℕ → ℕ
until_of none = 0
until_of (some t) = t

abbrev pub LockedUntil : (until u : ℕ) → LoginLimiter → Type 0
LockedUntil until u l = until ≤ until_of (l.locked u)

maybe_sweep-LockedUntil :
    (now until u : ℕ) (l : LoginLimiter)
    → now < until
    → LockedUntil until u l
    → LockedUntil until u (maybe_sweep now l)
unfolding maybe_sweep
maybe_sweep-LockedUntil now until u l soon h =
    elim (Bool-cases ((l.calls + 1) % sweep_every == 0)) [
      | inl due ↦ rw due (swept (l.locked u) h)
      | inr early ↦ rw early h
    ]
  where
    swept : (x : Option ℕ) → until ≤ until_of x → until ≤ until_of (unexpired now x)
    swept none e = e
    swept (some t) e = ground arith

-- The calls that may come while `u` is locked: all but the success of a login of `u`.
pub data LockedCall (since u : ℕ) : LoginLimiter → LoginLimiter → Type 0 where
  asks :
      (now ip : ℕ) (l : LoginLimiter)
      → now < since + lock_duration
      → LockedCall since u l (allow_ip now ip l).1
  begins :
      (now username : ℕ) (l : LoginLimiter)
      → now < since + lock_duration
      → LockedCall since u l (begin_attempt now username l).1
  fails :
      (now username : ℕ) (l : LoginLimiter)
      → since ≤ now
      → LockedCall since u l (failure now username l)
  succeeds :
      (username : ℕ) (l : LoginLimiter)
      → (u == username) ≡ false
      → LockedCall since u l (success username l)
  releases : (username : ℕ) (l : LoginLimiter) → LockedCall since u l (release username l)

pub data LockedCalls (since u : ℕ) : LoginLimiter → LoginLimiter → Type 0 where
  done : (l : LoginLimiter) → LockedCalls since u l l
  step :
      {l m n : LoginLimiter}
      → LockedCall since u l m
      → LockedCalls since u m n
      → LockedCalls since u l n

is_locked_at-until : (now : ℕ) (x : Option ℕ) → now < until_of x → is_locked_at now x ≡ true
is_locked_at-until now none h = absurd (omega arith)
is_locked_at-until now (some t) h = ground arith

begin_attempt-LockedUntil :
    (now username until u : ℕ) (l : LoginLimiter)
    → now < until
    → LockedUntil until u l
    → LockedUntil until u (begin_attempt now username l).1
unfolding begin_attempt
begin_attempt-LockedUntil now username until u l soon h =
    let swept = maybe_sweep now l in
    let kept = maybe_sweep-LockedUntil now until u l soon h in
    let failures = prune_before now failure_window (times (swept.failures username)) in
    let n = length failures + amount_of (swept.in_flight username) in
    elim (Bool-cases (is_locked_at now (swept.locked username))) [
      | inl locked ↦ rw locked kept
      | inr free ↦ elim (Bool-cases (u == username)) [
        | inl same ↦
            let here : is_locked_at now (swept.locked username) ≡ true =
              ap (λ (x : ℕ). is_locked_at now (swept.locked x)) (sym (==→eq u username same))
              ∙ is_locked_at-until now (swept.locked u) (omega (arith, kept, soon)) in
            let bad : false ≡ true = sym free ∙ here in cc
        | inr other ↦ elim (Bool-cases (leb max_failures n)) [
          | inl full ↦ rw (free, full, other) kept
          | inr room ↦ rw (free, room, other) kept
        ]
      ]
    ]

failure-LockedUntil :
    (now username since u : ℕ) (l : LoginLimiter)
    → since ≤ now
    → LockedUntil (since + lock_duration) u l
    → LockedUntil (since + lock_duration) u (failure now username l)
unfolding failure
failure-LockedUntil now username since u l after h =
    let n = length (prune_before now failure_window (times (l.failures username)) ++ (now ∷ [])) in
    elim (Bool-cases (leb max_failures n)) [
      | inl full ↦ elim (Bool-cases (u == username)) [
        | inl same ↦ rw (full, same) (omega (arith, after))
        | inr other ↦ rw (full, other) h
      ]
      | inr few ↦ rw few h
    ]

success-LockedUntil :
    (username until u : ℕ) (l : LoginLimiter)
    → (u == username) ≡ false
    → LockedUntil until u l
    → LockedUntil until u (success username l)
unfolding success
success-LockedUntil username until u l other h = rw other h

release-LockedUntil :
    (username until u : ℕ) (l : LoginLimiter)
    → LockedUntil until u l
    → LockedUntil until u (release username l)
unfolding release
release-LockedUntil username until u l h = h

LockedCall-LockedUntil :
    {since u : ℕ} {l m : LoginLimiter}
    → LockedCall since u l m
    → LockedUntil (since + lock_duration) u l
    → LockedUntil (since + lock_duration) u m
LockedCall-LockedUntil {since} {u} (asks now ip l soon) h =
    let (f, g, lock) = allow_ip-failures now ip l u in
    rw lock (maybe_sweep-LockedUntil now (since + lock_duration) u l soon h)
LockedCall-LockedUntil {since} {u} (begins now username l soon) h =
    begin_attempt-LockedUntil now username (since + lock_duration) u l soon h
LockedCall-LockedUntil {since} {u} (fails now username l after) h =
    failure-LockedUntil now username since u l after h
LockedCall-LockedUntil {since} {u} (succeeds username l other) h =
    success-LockedUntil username (since + lock_duration) u l other h
LockedCall-LockedUntil {since} {u} (releases username l) h =
    release-LockedUntil username (since + lock_duration) u l h

LockedCalls-LockedUntil :
    {since u : ℕ} {l m : LoginLimiter}
    → LockedCalls since u l m
    → LockedUntil (since + lock_duration) u l
    → LockedUntil (since + lock_duration) u m
LockedCalls-LockedUntil (done l) h = h
LockedCalls-LockedUntil (step c cs) h = LockedCalls-LockedUntil cs (LockedCall-LockedUntil c h)

-- The kept times that are less than `window` old are all in what pruning leaves.
pub count-prune :
    (now window : ℕ) (ts : List ℕ)
    → count_if (λ t. ltb now (t + window)) ts ≤ length (prune_before now window ts)
unfolding prune_before
count-prune now window [] = omega arith
count-prune now window (t ∷ ts) = elim (Bool-cases (ltb now (t + window))) [
  | inl young ↦ rw young (omega (arith, count_if-le (λ u. ltb now (u + window)) ts))
  | inr old ↦ rw old (omega (arith, count-prune now window ts))
]
  where
    count_if-le : (test : ℕ → Bool) (us : List ℕ) → count_if test us ≤ length us
    count_if-le test [] = omega arith
    count_if-le test (u ∷ us) = ground (arith, count_if-le test us)

failure-LockedUntil_now :
    (now username : ℕ) (l : LoginLimiter)
    → 4 ≤ count_if (λ t. ltb now (t + 15 * 60)) (times (l.failures username))
    → LockedUntil (now + lock_duration) username (failure now username l)
unfolding failure
failure-LockedUntil_now now username l fifth =
    let kept = prune_before now failure_window (times (l.failures username)) in
    let many = count-prune now (15 * 60) (times (l.failures username)) in
    let full : leb max_failures (length (kept ++ (now ∷ []))) ≡ true =
      ground (arith, length-append kept (now ∷ []), many, fifth) in
    rw full (rw (==_refl username) (omega arith))

-- When a login of a user name fails and at least four failures of the name in the 15 minutes before are
-- kept, no login of the name begins for the next 15 minutes, whatever other calls come between, as long
-- as no login of the name that was under way before succeeds.
pub failure-begin_attempt :
    (now later username : ℕ) (l m : LoginLimiter)
    → 4 ≤ count_if (λ t. ltb now (t + 15 * 60)) (times (l.failures username))
    → LockedCalls now username (failure now username l) m
    → later < now + 15 * 60
    → (begin_attempt later username m).0 ≡ false
failure-begin_attempt now later username l m fifth calls soon =
    begin_attempt-locked later username m (
      is_locked_at-until later (m.locked username) (
        omega
          (arith, LockedCalls-LockedUntil calls (failure-LockedUntil_now now username l fifth))))
