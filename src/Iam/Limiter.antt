-- ===== src/Iam/Limiter.antt =====
-- `LoginLimiter` of api/internal/iam/limiter.go. A method runs under one mutex, so it is one step on
-- the state; `now` is what the clock shows to it, in seconds. A user name or an address is a number
-- here, since only equality is asked of it.
pub mod Bounded
pub mod Window
pub mod Minute
pub mod Lock
use run.Base.{
  ℕ, ◌+◌, ◌-◌, ◌*◌, ◌%◌, Bool, true, false, not, Option, none, some, List, [], ◌∷◌, ◌++◌, ltb, leb,
  ◌==◌, if◌then◌else◌, length,
}
use run.Platform.Table.{Table, put}

abbrev pub ip_window : ℕ
ip_window = 60

abbrev pub ip_max_attempts : ℕ
ip_max_attempts = 20

abbrev pub failure_window : ℕ
failure_window = 15 * 60

abbrev pub max_failures : ℕ
max_failures = 5

abbrev pub lock_duration : ℕ
lock_duration = 15 * 60

abbrev pub sweep_every : ℕ
sweep_every = 64

pub record LoginLimiter : Type 0 where
  pub ip_hits : Table (List ℕ)
  pub failures : Table (List ℕ)
  pub locked : Table ℕ
  pub in_flight : Table ℕ
  pub calls : ℕ

-- `m[key]` of a missing key, and `delete(m, key)`.
abbrev pub times : Option (List ℕ) → List ℕ
times none = []
times (some ts) = ts

abbrev pub amount_of : Option ℕ → ℕ
amount_of none = 0
amount_of (some n) = n

abbrev pub delete : {Row : Type 0} → Table Row → ℕ → Table Row
delete t id j = if j == id then none else t j

-- pruneBefore with the cutoff `now - window`: it drops the leading times that are not after it. The
-- test is `not (cutoff < t)`, written without the subtraction.
unfoldable pub prune_before : (now window : ℕ) → List ℕ → List ℕ
prune_before now window [] = []
prune_before now window (t ∷ ts) =
    let rest = prune_before now window ts in if ltb now (t + window) then t ∷ ts else rest

abbrev pub stored : List ℕ → Option (List ℕ)
stored [] = none
stored (t ∷ ts) = some (t ∷ ts)

-- setTimes.
abbrev pub set_times : Table (List ℕ) → ℕ → List ℕ → Table (List ℕ)
set_times m key ts j = if j == key then stored ts else m j

-- A `range` loop of maybeSweep over a map of times.
abbrev pub prune_entry : (now window : ℕ) → Option (List ℕ) → Option (List ℕ)
prune_entry now window none = none
prune_entry now window (some ts) = stored (prune_before now window ts)

abbrev pub prune_all : (now window : ℕ) → Table (List ℕ) → Table (List ℕ)
prune_all now window m k = prune_entry now window (m k)

abbrev pub unexpired : (now : ℕ) → Option ℕ → Option ℕ
unexpired now none = none
unexpired now (some until) = if ltb now until then some until else none

abbrev pub sweep : (now : ℕ) → LoginLimiter → LoginLimiter
sweep now l = record l {
  ip_hits = prune_all now ip_window l.ip_hits;
  failures = prune_all now failure_window l.failures;
  locked = λ k. unexpired now (l.locked k);
}

unfoldable pub maybe_sweep : (now : ℕ) → LoginLimiter → LoginLimiter
unfolding prune_before
maybe_sweep now l =
    let counted : LoginLimiter = record l { calls = l.calls + 1 } in
    if not (counted.calls % sweep_every == 0) then counted else sweep now counted

unfoldable pub allow_ip : (now ip : ℕ) → LoginLimiter → Bool × LoginLimiter
unfolding maybe_sweep
allow_ip now ip l =
    let swept = maybe_sweep now l in
    let hits = prune_before now ip_window (times (swept.ip_hits ip)) in
    if leb ip_max_attempts (length hits)
    then (false, record swept { ip_hits = set_times swept.ip_hits ip hits })
    else (true, record swept { ip_hits = put swept.ip_hits ip (hits ++ (now ∷ [])) })

abbrev pub is_locked_at : (now : ℕ) → Option ℕ → Bool
is_locked_at now none = false
is_locked_at now (some until) = ltb now until

-- Locked.
unfoldable pub is_locked : (now username : ℕ) → LoginLimiter → Bool × LoginLimiter
is_locked now username l =
    if is_locked_at now (l.locked username)
    then (true, l)
    else (false, record l { locked = delete l.locked username })

unfoldable pub begin_attempt : (now username : ℕ) → LoginLimiter → Bool × LoginLimiter
unfolding maybe_sweep
begin_attempt now username l =
    let swept = maybe_sweep now l in
    let failures = prune_before now failure_window (times (swept.failures username)) in
    let pruned : LoginLimiter = record swept {
      locked = delete swept.locked username;
      failures = set_times swept.failures username failures;
    } in
    if is_locked_at now (swept.locked username)
    then (false, swept)
    else if leb max_failures (length failures + amount_of (pruned.in_flight username))
    then (false, pruned)
    else (
      true,
      record pruned {
        in_flight = put pruned.in_flight username (amount_of (pruned.in_flight username) + 1);
      },
    )

-- releaseInFlight, on one entry.
abbrev pub one_less : Option ℕ → Option ℕ
one_less none = none
one_less (some n) = if leb n 1 then none else some (n - 1)

abbrev pub release_in_flight : (username : ℕ) → LoginLimiter → LoginLimiter
release_in_flight username l = record l {
  in_flight = λ k. if k == username then one_less (l.in_flight k) else l.in_flight k;
}

unfoldable pub failure : (now username : ℕ) → LoginLimiter → LoginLimiter
unfolding prune_before
failure now username l =
    let failures = prune_before now failure_window (times (l.failures username)) ++ (now ∷ []) in
    let released = release_in_flight username l in
    if leb max_failures (length failures)
    then record released {
      locked = put released.locked username (now + lock_duration);
      failures = delete released.failures username;
    }
    else record released { failures = put released.failures username failures }

unfoldable pub success : (username : ℕ) → LoginLimiter → LoginLimiter
success username l = record (release_in_flight username l) {
  failures = delete l.failures username;
  locked = delete l.locked username;
}

unfoldable pub release : (username : ℕ) → LoginLimiter → LoginLimiter
release username l = release_in_flight username l
