-- ===== src/Runner/OtpLimiter/Waits.antt =====
-- What a caller of AllowVerify that is refused can rely on.
use Prim.Native.String.{String}
use text.Mathlib.Text.{◌==◌ as str_eq}
use text.Mathlib.TextPositions.{eq_refl}
use run.Base.{
  ℕ, ◌+◌, ◌-◌, ◌%◌, ◌≤◌, ◌<◌, ◌≡◌, refl, sym, ap, ◌∙◌, true, false, Option, none, some, List, [],
  ◌∷◌, leb, ◌==◌, length, arith, Bool-cases, inl, inr, leb→le, lt→leb_false,
}
use run.Iam.Limiter.{prune_before, times}
use run.Iam.Limiter.Bounded.{prune_before-le, times-stored}
use run.Iam.Limiter.Window.{prune-prune}
use run.Runner.OtpLimiter.Runs.{OtpCalls, new-IsOtpBounded}
use mathlib.Core.Option.{some-injective}
use run.Runner.OtpLimiter.{
  new_otp_limiter, otp_verify_window, otp_verify_max, otp_sweep_every, TimesBy, put_times,
  OtpLimiter, prune_otp, sweep_entry, maybe_sweep_otp, ceil_seconds, first_of, allow_verify, allow,
  allow_phone, phone_wait, otp_ip_window, otp_ip_max, otp_phone_window,
}

-- Pruning what the sweep left is pruning what was there.
pub prune-sweep_entry :
    (now later window : ℕ) (x : Option (List ℕ))
    → now ≤ later
    → prune_otp later window (times (sweep_entry now window x)) ≡ prune_otp later window (times x)
prune-sweep_entry now later window none h = refl
prune-sweep_entry now later window (some ts) h =
    ap (prune_otp later window) (times-stored (prune_otp now window ts))
    ∙ prune-prune now later window ts h

pub times-put_times :
    (m : TimesBy) (key : String) (ts : List ℕ) → times (put_times m key ts key) ≡ ts
times-put_times m key ts = rw (eq_refl key) refl

module _ (now : ℕ) (ip : String) (l : OtpLimiter) where
  abbrev hits_at : List ℕ
  hits_at = prune_otp now otp_verify_window (times (l.verify ip))

  swept_hits : prune_otp now otp_verify_window (times ((maybe_sweep_otp now l).verify ip)) ≡ hits_at
  unfolding maybe_sweep_otp
  swept_hits = elim (Bool-cases ((l.calls + 1) % otp_sweep_every == 0)) [
    | inl due ↦ rw due (prune-sweep_entry now now otp_verify_window (l.verify ip) (omega arith))
    | inr later ↦ rw later refl
  ]

  allow_verify-test : leb otp_verify_max (length hits_at) ≡ false → (allow_verify now ip l).0 ≡ none
  unfolding allow_verify
  allow_verify-test room = rw swept_hits (rw room refl)

  -- A refusal names the time until the oldest hit is forgotten, and keeps the hits.
  refused :
      leb otp_verify_max (length hits_at) ≡ true
      → ((allow_verify now ip l).0
          ≡ some (ceil_seconds (first_of hits_at + otp_verify_window - now)))
        × (times ((allow_verify now ip l).1.verify ip) ≡ hits_at)
  unfolding allow_verify
  refused full =
      rw swept_hits (rw full (refl, times-put_times (maybe_sweep_otp now l).verify ip hits_at))

ceil_seconds-le : (d : ℕ) → d ≤ ceil_seconds d
unfolding ceil_seconds
ceil_seconds-le d = omega arith

-- The oldest of the pruned hits is gone once its window is over.
forgets :
    (later window : ℕ) (ts : List ℕ)
    → first_of ts + window ≤ later
    → 1 ≤ length ts
    → length (prune_before later window ts) + 1 ≤ length ts
unfolding prune_before
forgets later window [] h some_hit = omega arith
forgets later window (t ∷ ts) h some_hit = ground (arith, prune_before-le later window ts)

first_of-prune :
    (now window : ℕ) (ts : List ℕ)
    → 1 ≤ length (prune_before now window ts)
    → now < first_of (prune_before now window ts) + window
unfolding prune_before
first_of-prune now window [] h = omega arith
first_of-prune now window (t ∷ ts) h = ground (arith, first_of-prune now window ts)

-- Calls that do not verify from the address `ip`, at times that do not fall.
pub data OtherCall (ip : String) : ℕ → OtpLimiter → OtpLimiter → Type 0 where
  asks :
      (now : ℕ) (phone other : String) (l : OtpLimiter)
      → OtherCall ip now l (allow now phone other l).1
  verifies_other :
      (now : ℕ) (other : String) (l : OtpLimiter)
      → str_eq ip other ≡ false
      → OtherCall ip now l (allow_verify now other l).1

pub data OtherCalls (ip : String) : ℕ → ℕ → OtpLimiter → OtpLimiter → Type 0 where
  done : (t : ℕ) (l : OtpLimiter) → OtherCalls ip t t l l
  step :
      {s t u : ℕ} {l m n : OtpLimiter}
      → s ≤ t
      → OtherCall ip t l m
      → OtherCalls ip t u m n
      → OtherCalls ip s u l n

-- The hits of an address that a later call may depend on.
abbrev SameHits : (later : ℕ) (ip : String) → OtpLimiter → OtpLimiter → Type 0
SameHits later ip l m =
    prune_otp later otp_verify_window (times (m.verify ip))
    ≡ prune_otp later otp_verify_window (times (l.verify ip))

maybe_sweep_otp-SameHits :
    (now later : ℕ) (ip : String) (l : OtpLimiter)
    → now ≤ later
    → SameHits later ip l (maybe_sweep_otp now l)
unfolding maybe_sweep_otp
maybe_sweep_otp-SameHits now later ip l h =
    elim (Bool-cases ((l.calls + 1) % otp_sweep_every == 0)) [
      | inl due ↦ rw due (prune-sweep_entry now later otp_verify_window (l.verify ip) h)
      | inr early ↦ rw early refl
    ]

allow_phone-verify :
    (now : ℕ) (phone ip : String) (ip_hits hits : List ℕ) (l : OtpLimiter) (w : Option ℕ)
    → (allow_phone now phone ip ip_hits hits l w).1.verify ≡ l.verify
allow_phone-verify now phone ip ip_hits hits l (some wait) = refl
allow_phone-verify now phone ip ip_hits hits l none = refl

allow-verify :
    (now : ℕ) (phone ip : String) (l : OtpLimiter)
    → (allow now phone ip l).1.verify ≡ (maybe_sweep_otp now l).verify
unfolding allow
allow-verify now phone ip l =
    let swept = maybe_sweep_otp now l in
    let ip_hits = prune_otp now otp_ip_window (times (swept.ip ip)) in
    let hits = prune_otp now otp_phone_window (times (swept.phone phone)) in
    elim (Bool-cases (leb otp_ip_max (length ip_hits))) [
      | inl full ↦ rw full refl
      | inr room ↦
          rw room (allow_phone-verify now phone ip ip_hits hits swept (phone_wait now hits))
    ]

allow_verify-other :
    (now : ℕ) (ip other : String) (l : OtpLimiter)
    → str_eq ip other ≡ false
    → (allow_verify now other l).1.verify ip ≡ (maybe_sweep_otp now l).verify ip
unfolding allow_verify
allow_verify-other now ip other l ne =
    let hits = prune_otp now otp_verify_window (times ((maybe_sweep_otp now l).verify other)) in
    elim (Bool-cases (leb otp_verify_max (length hits))) [
      | inl full ↦ rw full (rw ne refl)
      | inr room ↦ rw room (rw ne refl)
    ]

OtherCall-SameHits :
    {ip : String} {now : ℕ} {l m : OtpLimiter} (later : ℕ)
    → OtherCall ip now l m
    → now ≤ later
    → SameHits later ip l m
OtherCall-SameHits {ip} later (asks now phone other l) h =
    ap (λ (v : TimesBy). prune_otp later otp_verify_window (times (v ip)))
      (allow-verify now phone other l)
    ∙ maybe_sweep_otp-SameHits now later ip l h
OtherCall-SameHits {ip} later (verifies_other now other l ne) h =
    ap (λ (x : Option (List ℕ)). prune_otp later otp_verify_window (times x))
      (allow_verify-other now ip other l ne)
    ∙ maybe_sweep_otp-SameHits now later ip l h

OtherCalls-ordered : {ip : String} {s u : ℕ} {l m : OtpLimiter} → OtherCalls ip s u l m → s ≤ u
OtherCalls-ordered (done t l) = omega arith
OtherCalls-ordered (step h c cs) = omega (arith, h, OtherCalls-ordered cs)

OtherCalls-SameHits :
    {ip : String} {s u : ℕ} {l m : OtpLimiter} (later : ℕ)
    → OtherCalls ip s u l m
    → u ≤ later
    → SameHits later ip l m
OtherCalls-SameHits later (done t l) h = refl
OtherCalls-SameHits later (step first c cs) h =
    OtherCalls-SameHits later cs h
    ∙ OtherCall-SameHits later c (omega (arith, h, OtherCalls-ordered cs))

-- A caller that AllowVerify refuses is told how long to wait, and one that waits as long is let
-- through, whatever codes are requested and whatever is verified from other addresses between, as long
-- as no call verifies from that address.
pub allow_verify-wait :
    {s t u : ℕ} {l m : OtpLimiter} (now wait later : ℕ) (ip : String)
    → OtpCalls s t new_otp_limiter l
    → (allow_verify now ip l).0 ≡ some wait
    → OtherCalls ip now u (allow_verify now ip l).1 m
    → u ≤ later
    → now + wait ≤ later
    → (0 < wait) × ((allow_verify later ip m).0 ≡ none)
allow_verify-wait {s} {t} {u} {l} {m} now wait later ip run told calls over h =
    let hits = hits_at now ip l in
    elim (Bool-cases (leb otp_verify_max (length hits))) [
      | inl full ↦ waits full
      | inr room ↦ let bad : none ≡ some wait = sym (allow_verify-test now ip l room) ∙ told in cc
    ]
  where
    waits :
        leb otp_verify_max (length (hits_at now ip l)) ≡ true
        → (0 < wait) × ((allow_verify later ip m).0 ≡ none)
    waits full =
        let hits = hits_at now ip l in
        let (asked, kept) = refused now ip l full in
        let exact : ceil_seconds (first_of hits + otp_verify_window - now) ≡ wait =
          some-injective _ _ (sym asked ∙ told) in
        let enough = ceil_seconds-le (first_of hits + otp_verify_window - now) in
        let some_hit = leb→le otp_verify_max (length hits) full in
        let first = first_of-prune now otp_verify_window (times (l.verify ip)) (omega arith) in
        let few = (new-IsOtpBounded run).verifies ip in
        let pruned = prune_before-le now otp_verify_window (times (l.verify ip)) in
        let gone = forgets later otp_verify_window hits (omega arith) (omega arith) in
        (
          omega arith,
          allow_verify-test later ip m (
              rw
                (OtherCalls-SameHits later calls over ∙ ap (prune_otp later otp_verify_window) kept)
                (lt→leb_false otp_verify_max (length (prune_otp later otp_verify_window hits))
                  (omega arith))),
        )
