-- ===== src/Runner/OtpLimiter/Cooldown.antt =====
-- After a code is sent to a number, the next one has to wait.
use Prim.Native.String.{String}
use text.Mathlib.Text.{◌==◌ as str_eq}
use run.Base.{
  ℕ, ◌+◌, ◌-◌, ◌%◌, ◌≤◌, ◌<◌, ◌≡◌, refl, ◌∙◌, ap, false, Option, none, some, List, [], ◌∷◌, ◌++◌,
  leb, ◌==◌, length, arith, Bool-cases, inl, inr,
}
use mathlib.Core.Path.{subst}
use text.Mathlib.TextEquality.{eq_iff}
use run.Iam.Limiter.{prune_before, times}
use run.Iam.Limiter.Bounded.{times-stored}
use run.Runner.OtpLimiter.{
  otp_phone_cooldown, otp_phone_window, otp_ip_max, otp_ip_window, otp_verify_max,
  otp_verify_window, otp_sweep_every, put_times, OtpLimiter, prune_otp, sweep_entry,
  maybe_sweep_otp, ceil_seconds, first_of, last_of, phone_wait, allow_phone, allow, allow_verify,
}
use run.Runner.OtpLimiter.Runs.{OtpCall, allows, verifies, OtpCalls, done, step}
use run.Runner.OtpLimiter.Waits.{times-put_times}

last_of-append : (ts : List ℕ) (t : ℕ) → last_of (ts ++ (t ∷ [])) ≡ some t
unfolding last_of
last_of-append [] t = refl
last_of-append (u ∷ []) t = refl
last_of-append (u ∷ v ∷ ts) t = last_of-append (v ∷ ts) t

-- A time that is not over is not pruned.
last_of-prune :
    (now window t : ℕ) (ts : List ℕ)
    → now < t + window
    → last_of ts ≡ some t
    → last_of (prune_before now window ts) ≡ some t
unfolding prune_before last_of
last_of-prune now window t [] h e = e
last_of-prune now window t (u ∷ []) h e = ground arith
last_of-prune now window t (u ∷ v ∷ ts) h e =
    ground (arith, last_of-prune now window t (v ∷ ts) h e)

-- The last code for the number was sent at `t`.
abbrev SentAt : (t : ℕ) (phone : String) → OtpLimiter → Type 0
SentAt t phone l = last_of (times (l.phone phone)) ≡ some t

maybe_sweep_otp-SentAt :
    (now t : ℕ) (phone : String) (l : OtpLimiter)
    → now < t + otp_phone_window
    → SentAt t phone l
    → SentAt t phone (maybe_sweep_otp now l)
unfolding maybe_sweep_otp
maybe_sweep_otp-SentAt now t phone l h sent =
    elim (Bool-cases ((l.calls + 1) % otp_sweep_every == 0)) [
      | inl due ↦ rw due (swept (l.phone phone) sent)
      | inr later ↦ rw later sent
    ]
  where
    swept :
        (x : Option (List ℕ))
        → last_of (times x) ≡ some t
        → last_of (times (sweep_entry now otp_phone_window x)) ≡ some t
    swept none e = e
    swept (some ts) e =
        ap last_of (times-stored (prune_otp now otp_phone_window ts))
        ∙ last_of-prune now otp_phone_window t ts h e

-- Within the cooldown the number waits, and its last code stays the last.
cooling :
    (now t : ℕ) (phone ip : String) (ip_hits hits : List ℕ) (l : OtpLimiter)
    → now < t + otp_phone_cooldown
    → last_of hits ≡ some t
    → (wait : ℕ) × (phone_wait now hits ≡ some wait)
cooling now t phone ip ip_hits hits l h e =
    (ceil_seconds (t + otp_phone_cooldown - now), rw e (ground arith))

put_times-other :
    (t : ℕ) (phone other : String) (ts : List ℕ) (l : OtpLimiter)
    → str_eq phone other ≡ false
    → SentAt t phone l
    → last_of (times (put_times l.phone other ts phone)) ≡ some t
put_times-other t phone other ts l ne sent = rw ne sent

module _ (now t : ℕ) (phone : String) (soon : now < t + otp_phone_cooldown) where
  allow_phone-other :
      (other ip : String) (ip_hits hits : List ℕ) (l : OtpLimiter) (w : Option ℕ)
      → str_eq phone other ≡ false
      → SentAt t phone l
      → SentAt t phone (allow_phone now other ip ip_hits hits l w).1
  allow_phone-other other ip ip_hits hits l (some wait) ne sent =
      put_times-other t phone other hits l ne sent
  allow_phone-other other ip ip_hits hits l none ne sent =
      put_times-other t phone other (hits ++ (now ∷ [])) l ne sent

  -- Another request for the number is refused, whatever its address, and changes nothing of it.
  allow-same :
      (ip : String) (l : OtpLimiter)
      → SentAt t phone l
      → ((wait : ℕ) × ((allow now phone ip l).0 ≡ some wait))
        × SentAt t phone (allow now phone ip l).1
  unfolding allow
  allow-same ip l sent =
      let swept = maybe_sweep_otp now l in
      let ip_hits = prune_otp now otp_ip_window (times (swept.ip ip)) in
      let hits = prune_otp now otp_phone_window (times (swept.phone phone)) in
      let sent' = maybe_sweep_otp-SentAt now t phone l (omega arith) sent in
      let kept : last_of hits ≡ some t =
        last_of-prune now otp_phone_window t (times (swept.phone phone)) (omega arith) sent' in
      let (wait, waits) = cooling now t phone ip ip_hits hits swept soon kept in
      elim (Bool-cases (leb otp_ip_max (length ip_hits))) [
        | inl full ↦ rw full ((_, refl), sent')
        | inr room ↦
            rw (room, waits)
              ((wait, refl), ap last_of (times-put_times swept.phone phone hits) ∙ kept)
      ]

  allow-other :
      (other ip : String) (l : OtpLimiter)
      → str_eq phone other ≡ false
      → SentAt t phone l
      → SentAt t phone (allow now other ip l).1
  unfolding allow
  allow-other other ip l ne sent =
      let swept = maybe_sweep_otp now l in
      let ip_hits = prune_otp now otp_ip_window (times (swept.ip ip)) in
      let hits = prune_otp now otp_phone_window (times (swept.phone other)) in
      let sent' = maybe_sweep_otp-SentAt now t phone l (omega arith) sent in
      elim (Bool-cases (leb otp_ip_max (length ip_hits))) [
        | inl full ↦ rw full sent'
        | inr room ↦
            rw room (allow_phone-other other ip ip_hits hits swept (phone_wait now hits) ne sent')
      ]

  allow-SentAt :
      (other ip : String) (l : OtpLimiter)
      → SentAt t phone l
      → SentAt t phone (allow now other ip l).1
  allow-SentAt other ip l sent = elim (Bool-cases (str_eq phone other)) [
    | inl same ↦
        subst {A = String} (λ (p : String). SentAt t phone (allow now p ip l).1)
          ((eq_iff phone other).0 same) (allow-same ip l sent).1
    | inr ne ↦ allow-other other ip l ne sent
  ]

  allow_verify-SentAt :
      (ip : String) (l : OtpLimiter) → SentAt t phone l → SentAt t phone (allow_verify now ip l).1
  unfolding allow_verify
  allow_verify-SentAt ip l sent =
      let swept = maybe_sweep_otp now l in
      let hits = prune_otp now otp_verify_window (times (swept.verify ip)) in
      let sent' = maybe_sweep_otp-SentAt now t phone l (omega arith) sent in
      elim (Bool-cases (leb otp_verify_max (length hits))) [
        | inl full ↦ rw full sent'
        | inr room ↦ rw room sent'
      ]

OtpCall-SentAt :
    {now : ℕ} {l m : OtpLimiter} (t : ℕ) (phone : String)
    → now < t + otp_phone_cooldown
    → OtpCall now l m
    → SentAt t phone l
    → SentAt t phone m
OtpCall-SentAt t phone soon (allows now other ip l) sent =
    allow-SentAt now t phone soon other ip l sent
OtpCall-SentAt t phone soon (verifies now ip l) sent =
    allow_verify-SentAt now t phone soon ip l sent

OtpCalls-le : {s u : ℕ} {l m : OtpLimiter} → OtpCalls s u l m → s ≤ u
OtpCalls-le (done u l) = omega arith
OtpCalls-le (step h c cs) = omega (arith, OtpCalls-le cs)

OtpCalls-SentAt :
    {s u : ℕ} {l m : OtpLimiter} (t : ℕ) (phone : String)
    → u < t + otp_phone_cooldown
    → OtpCalls s u l m
    → SentAt t phone l
    → SentAt t phone m
OtpCalls-SentAt t phone soon (done u l) sent = sent
OtpCalls-SentAt t phone soon (step h c cs) sent =
    OtpCalls-SentAt t phone soon cs (OtpCall-SentAt t phone (omega (arith, OtpCalls-le cs)) c sent)

allow_phone-none :
    (now : ℕ) (phone ip : String) (ip_hits hits : List ℕ) (l : OtpLimiter) (w : Option ℕ)
    → (allow_phone now phone ip ip_hits hits l w).0 ≡ none
    → SentAt now phone (allow_phone now phone ip ip_hits hits l w).1
allow_phone-none now phone ip ip_hits hits l (some wait) granted = cc
allow_phone-none now phone ip ip_hits hits l none granted =
    ap last_of (times-put_times l.phone phone (hits ++ (now ∷ []))) ∙ last_of-append hits now

allow-none :
    (now : ℕ) (phone ip : String) (l : OtpLimiter)
    → (allow now phone ip l).0 ≡ none
    → SentAt now phone (allow now phone ip l).1
unfolding allow
allow-none now phone ip l granted =
    let swept = maybe_sweep_otp now l in
    let ip_hits = prune_otp now otp_ip_window (times (swept.ip ip)) in
    let hits = prune_otp now otp_phone_window (times (swept.phone phone)) in
    elim (Bool-cases (leb otp_ip_max (length ip_hits))) [
      | inl full ↦
          let bad : ◌≡◌ {A = Option ℕ}
              (some (ceil_seconds (first_of ip_hits + otp_ip_window - now))) none =
            rw full at granted in
          cc
      | inr room ↦ rw room (
          allow_phone-none now phone ip ip_hits hits swept (phone_wait now hits)
            (rw room at granted))
    ]

-- Once a code may be sent to a number, no other is for 60 seconds, whatever calls for any number and
-- from any address come between.
pub allow-cooldown :
    {u : ℕ} {m : OtpLimiter} (now later : ℕ) (phone ip ip' : String) (l : OtpLimiter)
    → (allow now phone ip l).0 ≡ none
    → OtpCalls now u (allow now phone ip l).1 m
    → u ≤ later
    → later < now + otp_phone_cooldown
    → (wait : ℕ) × ((allow later phone ip' m).0 ≡ some wait)
allow-cooldown {u} {m} now later phone ip ip' l granted run h soon =
    let sent = OtpCalls-SentAt now phone (omega arith) run (allow-none now phone ip l granted) in
    (allow-same later now phone soon ip' m sent).0
