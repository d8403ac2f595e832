-- ===== src/Iam/Limiter/Minute.antt =====
-- How many attempts of an address AllowIP lets through in a minute.
use run.Base.{
  All, count_if, ltb, ℕ, ◌+◌, ◌≤◌, ◌<◌, ◌≡◌, refl, sym, ◌∙◌, ap, true, false, List, [], ◌∷◌, ◌++◌,
  ◌==◌, length, arith, Bool-cases, inl, inr,
}
use run.Platform.Table.{Table}
use mathlib.Core.Path.{subst}
use run.Iam.Limiter.Bounded.{new_login_limiter}
use run.Iam.Limiter.{
  LoginLimiter, times, prune_before, allow_ip, begin_attempt, failure, success, release,
}
use run.Iam.Limiter.Window.{
  recent, may_try, Remembers, allow_ip-Remembers, begin_attempt-Remembers, failure-ip_hits,
  allow_ip-other,
}

-- What happens at the limiter from its start: attempts of the address, with the answers it gives,
-- attempts of others, and the rest of their logins. `granted` lists the times at which the address was
-- let through.
pub data Attempts (ip : ℕ) : (now : ℕ) → LoginLimiter → List ℕ → Type 0 where
  starts : Attempts ip 0 new_login_limiter []
  passes :
      {before now : ℕ} {l : LoginLimiter} {granted : List ℕ}
      → Attempts ip before l granted
      → before ≤ now
      → (allow_ip now ip l).0 ≡ true
      → Attempts ip now (allow_ip now ip l).1 (granted ++ (now ∷ []))
  is_refused :
      {before now : ℕ} {l : LoginLimiter} {granted : List ℕ}
      → Attempts ip before l granted
      → before ≤ now
      → (allow_ip now ip l).0 ≡ false
      → Attempts ip now (allow_ip now ip l).1 granted
  others :
      (j : ℕ) {before now : ℕ} {l : LoginLimiter} {granted : List ℕ}
      → Attempts ip before l granted
      → before ≤ now
      → (ip == j) ≡ false
      → Attempts ip now (allow_ip now j l).1 granted
  begins :
      (username : ℕ) {before now : ℕ} {l : LoginLimiter} {granted : List ℕ}
      → Attempts ip before l granted
      → before ≤ now
      → Attempts ip now (begin_attempt now username l).1 granted
  fails :
      (username : ℕ) {before now : ℕ} {l : LoginLimiter} {granted : List ℕ}
      → Attempts ip before l granted
      → before ≤ now
      → Attempts ip now (failure now username l) granted
  succeeds :
      (username : ℕ) {now : ℕ} {l : LoginLimiter} {granted : List ℕ}
      → Attempts ip now l granted
      → Attempts ip now (success username l) granted
  releases :
      (username : ℕ) {now : ℕ} {l : LoginLimiter} {granted : List ℕ}
      → Attempts ip now l granted
      → Attempts ip now (release username l) granted

-- Times that do not fall, up to `now`.
abbrev pub IsOrdered : List ℕ → Type 0
IsOrdered [] = Unit
IsOrdered (t ∷ ts) = All (λ u. t ≤ u) ts × IsOrdered ts

All-append : (P : ℕ → Type 0) (ts : List ℕ) (u : ℕ) → All P ts → P u → All P (ts ++ (u ∷ []))
All-append P [] u h pu = (pu, tt)
All-append P (t ∷ ts) u h pu = (h.0, All-append P ts u h.1 pu)

All-later :
    (before now : ℕ) (ts : List ℕ) → before ≤ now → All (λ t. t ≤ before) ts → All (λ t. t ≤ now) ts
All-later before now [] h all = tt
All-later before now (t ∷ ts) h all = (omega (arith, all.0), All-later before now ts h all.1)

IsOrdered-append :
    (ts : List ℕ) (now : ℕ) → IsOrdered ts → All (λ t. t ≤ now) ts → IsOrdered (ts ++ (now ∷ []))
IsOrdered-append [] now o h = (tt, tt)
IsOrdered-append (t ∷ ts) now o h =
    (All-append (λ u. t ≤ u) ts now o.0 h.0, IsOrdered-append ts now o.1 h.1)

-- How many of the times are less than a minute old.
abbrev pub last_minute : (now : ℕ) → List ℕ → ℕ
last_minute now ts = count_if (λ t. ltb now (t + 60)) ts

last_minute-length :
    (now t : ℕ) (ts : List ℕ) → now < t + 60 → All (λ u. t ≤ u) ts → last_minute now ts ≡ length ts
last_minute-length now t [] h all = refl
last_minute-length now t (u ∷ us) h all = ground (arith, last_minute-length now t us h all.1, all.0)

-- On ordered times pruning leaves as many as are young.
recent-last_minute :
    (now : ℕ) (ts : List ℕ) → IsOrdered ts → length (recent now ts) ≡ last_minute now ts
unfolding prune_before
recent-last_minute now [] o = refl
recent-last_minute now (t ∷ ts) o = elim (Bool-cases (ltb now (t + 60))) [
  | inl young ↦ rw young (omega (arith, last_minute-length now t ts (ground arith) o.0))
  | inr old ↦ rw old (omega (arith, recent-last_minute now ts o.1))
]

record IsRemembered (ip now : ℕ) (l : LoginLimiter) (granted : List ℕ) : Type 0 where
  remembers : Remembers now ip l granted
  ordered : IsOrdered granted
  past : All (λ t. t ≤ now) granted

IsRemembered-refused :
    (before now ip : ℕ) (l m : LoginLimiter) (granted : List ℕ)
    → before ≤ now
    → IsRemembered ip before l granted
    → Remembers now ip m granted
    → IsRemembered ip now m granted
IsRemembered-refused before now ip l m granted h r r' = record {
  remembers = r';
  ordered = r.ordered;
  past = All-later before now granted h r.past;
}

Attempts-IsRemembered :
    {ip now : ℕ} {l : LoginLimiter} {granted : List ℕ}
    → Attempts ip now l granted
    → IsRemembered ip now l granted
unfolding success release
Attempts-IsRemembered starts = record { remembers = λ later h. refl; ordered = tt; past = tt }
Attempts-IsRemembered {ip} (passes {before} {now} {l} {granted} a h through) =
    let r = Attempts-IsRemembered a in
    let (answer, r') = allow_ip-Remembers before now ip l granted h r.remembers in
    let free : may_try now granted ≡ true = sym answer ∙ through in
    let earlier = All-later before now granted h r.past in
    record {
      remembers = subst (λ gs. Remembers now ip (allow_ip now ip l).1 gs) (rw free refl) r';
      ordered = IsOrdered-append granted now r.ordered earlier;
      past = All-append (λ t. t ≤ now) granted now earlier (omega arith);
    }
Attempts-IsRemembered {ip} (is_refused {before} {now} {l} {granted} a h stopped) =
    let r = Attempts-IsRemembered a in
    let (answer, r') = allow_ip-Remembers before now ip l granted h r.remembers in
    let full : may_try now granted ≡ false = sym answer ∙ stopped in
    IsRemembered-refused before now ip l (allow_ip now ip l).1 granted h r
      (subst (λ gs. Remembers now ip (allow_ip now ip l).1 gs) (rw full refl) r')
Attempts-IsRemembered {ip} (others j {before} {now} {l} {granted} a h differ) =
    let r = Attempts-IsRemembered a in
    IsRemembered-refused before now ip l (allow_ip now j l).1 granted h r
      (allow_ip-other before now ip j l granted h differ r.remembers)
Attempts-IsRemembered {ip} (begins username {before} {now} {l} {granted} a h) =
    let r = Attempts-IsRemembered a in
    IsRemembered-refused before now ip l (begin_attempt now username l).1 granted h r
      (begin_attempt-Remembers before now username ip l granted h r.remembers)
Attempts-IsRemembered {ip} (fails username {before} {now} {l} {granted} a h) =
    let r = Attempts-IsRemembered a in
    IsRemembered-refused before now ip l (failure now username l) granted h r (λ later h'.
      ap (λ (m : Table (List ℕ)). recent later (times (m ip))) (failure-ip_hits now username l)
      ∙ r.remembers later (omega arith))
Attempts-IsRemembered (succeeds username a) =
    let r = Attempts-IsRemembered a in
    record { remembers = r.remembers; ordered = r.ordered; past = r.past }
Attempts-IsRemembered (releases username a) =
    let r = Attempts-IsRemembered a in
    record { remembers = r.remembers; ordered = r.ordered; past = r.past }

-- In whatever order the calls of logins from this address and from others come, at times that do not
-- fall, AllowIP lets an attempt of the address through exactly if fewer than 20 attempts of it were let
-- through less than a minute before, though the limiter prunes and sweeps what it keeps.
pub Attempts-allow_ip :
    (ip before now : ℕ) (l : LoginLimiter) (granted : List ℕ)
    → Attempts ip before l granted
    → before ≤ now
    → (allow_ip now ip l).0 ≡ ltb (last_minute now granted) 20
Attempts-allow_ip ip before now l granted a h =
    let r = Attempts-IsRemembered a in
    let count = recent-last_minute now granted r.ordered in
    (allow_ip-Remembers before now ip l granted h r.remembers).0 ∙ ground (arith, count)

last_minute-falls :
    (now later : ℕ) (ts : List ℕ) → now ≤ later → last_minute later ts ≤ last_minute now ts
last_minute-falls now later [] h = omega arith
last_minute-falls now later (t ∷ ts) h = ground (arith, last_minute-falls now later ts h)

last_minute-append :
    (now : ℕ) (ts : List ℕ) → last_minute now (ts ++ (now ∷ [])) ≡ last_minute now ts + 1
last_minute-append now [] = ground arith
last_minute-append now (t ∷ ts) = omega (arith, last_minute-append now ts)

-- At any moment of such a run at most 20 attempts of the address were let through less than a minute
-- before.
pub Attempts-last_minute :
    {ip now : ℕ} {l : LoginLimiter} {granted : List ℕ}
    → Attempts ip now l granted
    → last_minute now granted ≤ 20
Attempts-last_minute starts = omega arith
Attempts-last_minute {ip} (passes {before} {now} {l} {granted} a h through) =
    let answer : ltb (last_minute now granted) 20 ≡ true =
      sym (Attempts-allow_ip ip before now l granted a h) ∙ through in
    ground (arith, answer, last_minute-append now granted)
Attempts-last_minute (is_refused {before} {now} {l} {granted} a h stopped) =
    omega (arith, Attempts-last_minute a, last_minute-falls before now granted h)
Attempts-last_minute (others j {before} {now} {l} {granted} a h differ) =
    omega (arith, Attempts-last_minute a, last_minute-falls before now granted h)
Attempts-last_minute (begins username {before} {now} {l} {granted} a h) =
    omega (arith, Attempts-last_minute a, last_minute-falls before now granted h)
Attempts-last_minute (fails username {before} {now} {l} {granted} a h) =
    omega (arith, Attempts-last_minute a, last_minute-falls before now granted h)
Attempts-last_minute (succeeds username a) = Attempts-last_minute a
Attempts-last_minute (releases username a) = Attempts-last_minute a
