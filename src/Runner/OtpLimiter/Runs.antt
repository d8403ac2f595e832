-- ===== src/Runner/OtpLimiter/Runs.antt =====
-- Runs of the limiter's calls, and the times that it keeps.
use Prim.Native.String.{String}
use text.Mathlib.Text.{◌==◌ as str_eq}
use run.Base.{
  ℕ, ◌+◌, ◌%◌, ◌≤◌, ◌≡◌, refl, Option, none, some, List, [], ◌∷◌, ◌++◌, leb, ◌==◌, length,
  length-append, arith, Bool-cases, Option-cases, inl, inr,
}
use run.Iam.Limiter.{times}
use run.Iam.Limiter.Bounded.{prune_before-le, times-stored}
use run.Runner.OtpLimiter.{
  otp_phone_max, otp_phone_window, otp_ip_max, otp_ip_window, otp_verify_window, otp_verify_max,
  otp_sweep_every, TimesBy, put_times, OtpLimiter, new_otp_limiter, prune_otp, sweep_entry,
  sweep_times, maybe_sweep_otp, last_of, phone_wait, allow_phone, allow, allow_verify,
}

-- Any number of callers, ordered by the mutex; the clock does not go back.
pub data OtpCall : ℕ → OtpLimiter → OtpLimiter → Type 0 where
  allows : (now : ℕ) (phone ip : String) (l : OtpLimiter) → OtpCall now l (allow now phone ip l).1
  verifies : (now : ℕ) (ip : String) (l : OtpLimiter) → OtpCall now l (allow_verify now ip l).1

pub data OtpCalls : ℕ → ℕ → OtpLimiter → OtpLimiter → Type 0 where
  done : (t : ℕ) (l : OtpLimiter) → OtpCalls t t l l
  step :
      {s t u : ℕ} {l m n : OtpLimiter} → s ≤ t → OtpCall t l m → OtpCalls t u m n → OtpCalls s u l n

abbrev pub AtMost : ℕ → TimesBy → Type 0
AtMost bound m = (k : String) → length (times (m k)) ≤ bound

-- No list is longer than its limit.
pub record IsOtpBounded (l : OtpLimiter) : Type 0 where
  pub phones : AtMost otp_phone_max l.phone
  pub ips : AtMost otp_ip_max l.ip
  pub verifies : AtMost otp_verify_max l.verify

sweep_entry-le :
    (now window : ℕ) (x : Option (List ℕ))
    → length (times (sweep_entry now window x)) ≤ length (times x)
sweep_entry-le now window none = omega arith
sweep_entry-le now window (some ts) =
    ground (arith, times-stored (prune_otp now window ts), prune_before-le now window ts)

AtMost-sweep :
    (now window bound : ℕ) (m : TimesBy) → AtMost bound m → AtMost bound (sweep_times now window m)
AtMost-sweep now window bound m h k = omega (arith, h k, sweep_entry-le now window (m k))

maybe_sweep_otp-IsOtpBounded :
    (now : ℕ) (l : OtpLimiter) → IsOtpBounded l → IsOtpBounded (maybe_sweep_otp now l)
unfolding maybe_sweep_otp
maybe_sweep_otp-IsOtpBounded now l b = elim (Bool-cases ((l.calls + 1) % otp_sweep_every == 0)) [
  | inl due ↦ rw due (record {
    phones = AtMost-sweep now otp_phone_window otp_phone_max l.phone b.phones;
    ips = AtMost-sweep now otp_ip_window otp_ip_max l.ip b.ips;
    verifies = AtMost-sweep now otp_verify_window otp_verify_max l.verify b.verifies;
  })
  | inr later ↦ rw later (record { phones = b.phones; ips = b.ips; verifies = b.verifies })
]

AtMost-put :
    (bound : ℕ) (m : TimesBy) (key : String) (ts : List ℕ)
    → AtMost bound m
    → length ts ≤ bound
    → AtMost bound (put_times m key ts)
AtMost-put bound m key ts h small k = elim (Bool-cases (str_eq k key)) [
  | inl same ↦ rw same small
  | inr other ↦ rw other (h k)
]

AtMost-prune :
    (now window bound : ℕ) (m : TimesBy) (key : String)
    → AtMost bound m
    → length (prune_otp now window (times (m key))) ≤ bound
AtMost-prune now window bound m key h =
    omega (arith, h key, prune_before-le now window (times (m key)))

-- A number that waits for nothing has room for one more code.
last_of-none : (ts : List ℕ) → last_of ts ≡ none → length ts ≡ 0
unfolding last_of
last_of-none [] h = refl
last_of-none (t ∷ []) h = cc
last_of-none (t ∷ u ∷ ts) h = absurd (never u ts h)
  where
    never : (v : ℕ) (vs : List ℕ) → last_of (v ∷ vs) ≡ none → ⊥
    never v [] e = cc
    never v (w ∷ ws) e = never w ws e

phone_wait-none :
    (now : ℕ) (hits : List ℕ) → phone_wait now hits ≡ none → length hits + 1 ≤ otp_phone_max
phone_wait-none now hits h = elim (Option-cases (last_of hits)) [
  | inl e ↦ omega (arith, last_of-none hits e)
  | inr (last, e) ↦ ground (arith, e, h)
]

allow_phone-IsOtpBounded :
    (now : ℕ) (phone ip : String) (ip_hits hits : List ℕ) (l : OtpLimiter) (w : Option ℕ)
    → IsOtpBounded l
    → length ip_hits + 1 ≤ otp_ip_max
    → length hits ≤ otp_phone_max
    → (w ≡ none → length hits + 1 ≤ otp_phone_max)
    → IsOtpBounded (allow_phone now phone ip ip_hits hits l w).1
allow_phone-IsOtpBounded now phone ip ip_hits hits l (some wait) b hi hp free = record {
  phones = AtMost-put otp_phone_max l.phone phone hits b.phones hp;
  ips = b.ips;
  verifies = b.verifies;
}
allow_phone-IsOtpBounded now phone ip ip_hits hits l none b hi hp free = record {
  phones =
      AtMost-put otp_phone_max l.phone phone (hits ++ (now ∷ [])) b.phones
        (omega (arith, free refl, length-append hits (now ∷ [])));
  ips =
      AtMost-put otp_ip_max l.ip ip (ip_hits ++ (now ∷ [])) b.ips
        (omega (arith, hi, length-append ip_hits (now ∷ [])));
  verifies = b.verifies;
}

allow-IsOtpBounded :
    (now : ℕ) (phone ip : String) (l : OtpLimiter)
    → IsOtpBounded l
    → IsOtpBounded (allow now phone ip l).1
unfolding allow
allow-IsOtpBounded now phone ip l b =
    let swept = maybe_sweep_otp now l in
    let sb = maybe_sweep_otp-IsOtpBounded now l b in
    let ip_hits = prune_otp now otp_ip_window (times (swept.ip ip)) in
    let hits = prune_otp now otp_phone_window (times (swept.phone phone)) in
    let ips_few : length ip_hits ≤ otp_ip_max =
      AtMost-prune now otp_ip_window otp_ip_max swept.ip ip sb.ips in
    elim (Bool-cases (leb otp_ip_max (length ip_hits))) [
      | inl full ↦ rw full (record {
        phones = sb.phones;
        ips = AtMost-put otp_ip_max swept.ip ip ip_hits sb.ips ips_few;
        verifies = sb.verifies;
      })
      | inr room ↦ rw room (
          allow_phone-IsOtpBounded now phone ip ip_hits hits swept (phone_wait now hits) sb
            (ground (arith, room))
            (AtMost-prune now otp_phone_window otp_phone_max swept.phone phone sb.phones)
            (phone_wait-none now hits))
    ]

allow_verify-IsOtpBounded :
    (now : ℕ) (ip : String) (l : OtpLimiter)
    → IsOtpBounded l
    → IsOtpBounded (allow_verify now ip l).1
unfolding allow_verify
allow_verify-IsOtpBounded now ip l b =
    let swept = maybe_sweep_otp now l in
    let sb = maybe_sweep_otp-IsOtpBounded now l b in
    let hits = prune_otp now otp_verify_window (times (swept.verify ip)) in
    let few : length hits ≤ otp_verify_max =
      AtMost-prune now otp_verify_window otp_verify_max swept.verify ip sb.verifies in
    elim (Bool-cases (leb otp_verify_max (length hits))) [
      | inl full ↦ rw full (record {
        phones = sb.phones;
        ips = sb.ips;
        verifies = AtMost-put otp_verify_max swept.verify ip hits sb.verifies few;
      })
      | inr room ↦ rw room (record {
        phones = sb.phones;
        ips = sb.ips;
        verifies =
            AtMost-put otp_verify_max swept.verify ip (hits ++ (now ∷ [])) sb.verifies
              (ground (arith, room, length-append hits (now ∷ [])));
      })
    ]

OtpCall-IsOtpBounded : {t : ℕ} {l m : OtpLimiter} → OtpCall t l m → IsOtpBounded l → IsOtpBounded m
OtpCall-IsOtpBounded (allows now phone ip l) b = allow-IsOtpBounded now phone ip l b
OtpCall-IsOtpBounded (verifies now ip l) b = allow_verify-IsOtpBounded now ip l b

OtpCalls-IsOtpBounded :
    {s t : ℕ} {l m : OtpLimiter} → OtpCalls s t l m → IsOtpBounded l → IsOtpBounded m
OtpCalls-IsOtpBounded (done t l) b = b
OtpCalls-IsOtpBounded (step h c cs) b = OtpCalls-IsOtpBounded cs (OtpCall-IsOtpBounded c b)

-- However calls interleave from the start, the limiter keeps at most 5 times for a number, and at
-- most 20 and 30 for an address.
pub new-IsOtpBounded : {s t : ℕ} {l : OtpLimiter} → OtpCalls s t new_otp_limiter l → IsOtpBounded l
new-IsOtpBounded cs =
    OtpCalls-IsOtpBounded cs
      (record { phones = λ k. omega arith; ips = λ k. omega arith; verifies = λ k. omega arith })
