-- ===== src/Iam/Limiter/Window.antt =====
-- `AllowIP` against a limiter that forgets nothing.
use run.Base.{
  ℕ, ◌+◌, ◌%◌, ◌≤◌, ◌≡◌, refl, sym, ◌∙◌, ap, Bool, true, false, not, Option, none, some, List, [],
  ◌∷◌, ◌++◌, leb, ◌==◌, if◌then◌else◌, length, arith, Bool-cases, inl, inr,
}
use run.Platform.Table.{Table, put}
use run.Iam.Limiter.Bounded.{times-stored}
use run.Iam.Limiter.{
  LoginLimiter, ip_window, ip_max_attempts, times, prune_before, prune_entry, maybe_sweep,
  sweep_every, allow_ip, set_times, begin_attempt, failure, failure_window, amount_of, is_locked_at,
  max_failures,
}

-- What was pruned earlier would be pruned now.
pub prune-prune :
    (now later window : ℕ) (ts : List ℕ)
    → now ≤ later
    → prune_before later window (prune_before now window ts) ≡ prune_before later window ts
unfolding prune_before
prune-prune now later window [] h = refl
prune-prune now later window (t ∷ ts) h = ground (arith, prune-prune now later window ts h)

pub prune-append :
    (now later window : ℕ) (ts us : List ℕ)
    → now ≤ later
    → prune_before later window (prune_before now window ts ++ us)
      ≡ prune_before later window (ts ++ us)
unfolding prune_before
prune-append now later window [] us h = refl
prune-append now later window (t ∷ ts) us h = ground (arith, prune-append now later window ts us h)

-- The abstract limiter: `granted` lists all the times at which an attempt was let through.
abbrev pub recent : (now : ℕ) → List ℕ → List ℕ
recent now granted = prune_before now ip_window granted

abbrev pub may_try : (now : ℕ) → List ℕ → Bool
may_try now granted = not (leb ip_max_attempts (length (recent now granted)))

abbrev pub granted_after : (now : ℕ) → List ℕ → List ℕ
granted_after now granted = if may_try now granted then granted ++ (now ∷ []) else granted

-- The limiter remembers what a later attempt of the address may depend on.
abbrev pub Remembers : (now ip : ℕ) → LoginLimiter → List ℕ → Type 0
Remembers now ip l granted =
    (later : ℕ) → now ≤ later → recent later (times (l.ip_hits ip)) ≡ recent later granted

maybe_sweep-Remembers :
    (before now ip : ℕ) (l : LoginLimiter) (granted : List ℕ)
    → before ≤ now
    → Remembers before ip l granted
    → Remembers now ip (maybe_sweep now l) granted
unfolding maybe_sweep
maybe_sweep-Remembers before now ip l granted h r later h' =
    elim (Bool-cases ((l.calls + 1) % sweep_every == 0)) [
      | inl now_due ↦ rw now_due (swept (l.ip_hits ip) ∙ r later (omega arith))
      | inr not_due ↦ rw not_due (r later (omega arith))
    ]
  where
    swept :
        (x : Option (List ℕ))
        → recent later (times (prune_entry now ip_window x)) ≡ recent later (times x)
    swept none = refl
    swept (some ts) =
        ap (recent later) (times-stored (prune_before now ip_window ts))
        ∙ prune-prune now later ip_window ts h'

-- The hits that AllowIP counts are those that a limiter that forgets nothing would count.
allow_ip-count :
    (before now ip : ℕ) (l : LoginLimiter) (granted : List ℕ)
    → before ≤ now
    → Remembers before ip l granted
    → recent now (times ((maybe_sweep now l).ip_hits ip)) ≡ recent now granted
allow_ip-count before now ip l granted h r =
    maybe_sweep-Remembers before now ip l granted h r now (omega arith)

times-set : (m : Table (List ℕ)) (ip : ℕ) (ts : List ℕ) → times (set_times m ip ts ip) ≡ ts
times-set m ip ts = ground (arith, times-stored ts)

times-put : (m : Table (List ℕ)) (ip : ℕ) (ts : List ℕ) → times (put m ip (ts) ip) ≡ ts
times-put m ip ts = ground arith

-- AllowIP counts what a limiter that forgets nothing would count, and remembers enough to go on so.
pub allow_ip-Remembers :
    (before now ip : ℕ) (l : LoginLimiter) (granted : List ℕ)
    → before ≤ now
    → Remembers before ip l granted
    → ((allow_ip now ip l).0 ≡ may_try now granted)
      × Remembers now ip (allow_ip now ip l).1 (granted_after now granted)
unfolding allow_ip
allow_ip-Remembers before now ip l granted h r =
    let m = maybe_sweep now l in
    let count = allow_ip-count before now ip l granted h r in
    elim (Bool-cases (leb ip_max_attempts (length (recent now (times (m.ip_hits ip)))))) [
      | inl full ↦
          let full' : leb ip_max_attempts (length (recent now granted)) ≡ true =
            ap (λ ts. leb ip_max_attempts (length ts)) (sym count) ∙ full in
          rw (full, allow_ip)
            (rw full' (
              refl,
              λ later h'.
                  ap (recent later) (times-set m.ip_hits ip (recent now (times (m.ip_hits ip))))
                  ∙ prune-prune now later ip_window (times (m.ip_hits ip)) h'
                  ∙ maybe_sweep-Remembers before now ip l granted h r later h',
            ))
      | inr free ↦
          let free' : leb ip_max_attempts (length (recent now granted)) ≡ false =
            ap (λ ts. leb ip_max_attempts (length ts)) (sym count) ∙ free in
          rw (free, allow_ip)
            (rw free' (
              refl,
              λ later h'.
                  ap (recent later)
                    (times-put m.ip_hits ip (recent now (times (m.ip_hits ip)) ++ (now ∷ [])))
                  ∙ ap (λ ts. recent later (ts ++ (now ∷ []))) count
                  ∙ prune-append now later ip_window granted (now ∷ []) h',
            ))
    ]

pub begin_attempt-Remembers :
    (before now username ip : ℕ) (l : LoginLimiter) (granted : List ℕ)
    → before ≤ now
    → Remembers before ip l granted
    → Remembers now ip (begin_attempt now username l).1 granted
unfolding begin_attempt
begin_attempt-Remembers before now username ip l granted h r later h' =
    let swept = maybe_sweep now l in
    let rest = maybe_sweep-Remembers before now ip l granted h r later h' in
    let failures = prune_before now failure_window (times (swept.failures username)) in
    let n = length failures + amount_of (swept.in_flight username) in
    elim (Bool-cases (is_locked_at now (swept.locked username))) [
      | inl locked ↦ rw locked rest
      | inr free ↦ elim (Bool-cases (leb max_failures n)) [
        | inl full ↦ rw (free, full) rest
        | inr room ↦ rw (free, room) rest
      ]
    ]

pub failure-ip_hits :
    (now username : ℕ) (l : LoginLimiter) → (failure now username l).ip_hits ≡ l.ip_hits
unfolding failure
failure-ip_hits now username l =
    let kept = prune_before now failure_window (times (l.failures username)) in
    elim (Bool-cases (leb max_failures (length (kept ++ (now ∷ []))))) [
      | inl full ↦ rw full refl
      | inr few ↦ rw few refl
    ]

-- An attempt of another address changes nothing that this one depends on.
pub allow_ip-other :
    (before now ip j : ℕ) (l : LoginLimiter) (granted : List ℕ)
    → before ≤ now
    → (ip == j) ≡ false
    → Remembers before ip l granted
    → Remembers now ip (allow_ip now j l).1 granted
unfolding allow_ip
allow_ip-other before now ip j l granted h differ r later h' =
    let m = maybe_sweep now l in
    let rest = maybe_sweep-Remembers before now ip l granted h r later h' in
    elim (Bool-cases (leb ip_max_attempts (length (recent now (times (m.ip_hits j)))))) [
      | inl full ↦ rw (full, allow_ip) (rw differ rest)
      | inr free ↦ rw (free, allow_ip) (rw differ rest)
    ]
