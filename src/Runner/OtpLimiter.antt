-- ===== src/Runner/OtpLimiter.antt =====
-- `OTPLimiter` of api/internal/runner/limiter.go. A method runs under one mutex, so it is one step on
-- the state; `now` is what the clock shows to it, in nanoseconds like Go's time.Duration. A result
-- `some wait` is a refusal with the time to wait.
pub mod Runs
pub mod Waits
pub mod Cooldown
use Prim.Native.String.{String}
use text.Mathlib.Text.{◌==◌ as str_eq}
use run.Base.{
  ℕ, ◌+◌, ◌-◌, ◌*◌, ◌/◌, ◌%◌, not, Option, none, some, List, [], ◌∷◌, ◌++◌, ltb, leb, ◌==◌,
  if◌then◌else◌, length,
}
use run.Iam.Limiter.{prune_before, times, stored}

abbrev pub second : ℕ
second = 1000000000

abbrev pub otp_phone_cooldown : ℕ
otp_phone_cooldown = 60 * second

abbrev pub otp_phone_window : ℕ
otp_phone_window = 3600 * second

abbrev pub otp_phone_max : ℕ
otp_phone_max = 5

abbrev pub otp_ip_window : ℕ
otp_ip_window = 3600 * second

abbrev pub otp_ip_max : ℕ
otp_ip_max = 20

abbrev pub otp_verify_window : ℕ
otp_verify_window = 600 * second

abbrev pub otp_verify_max : ℕ
otp_verify_max = 30

abbrev pub otp_sweep_every : ℕ
otp_sweep_every = 64

-- `map[string][]time.Time`
abbrev pub TimesBy : Type 0
TimesBy = String → Option (List ℕ)

abbrev pub put_times : TimesBy → String → List ℕ → TimesBy
put_times m key ts k = if str_eq k key then some ts else m k

pub record OtpLimiter : Type 0 where
  pub phone : TimesBy
  pub ip : TimesBy
  pub verify : TimesBy
  pub calls : ℕ

abbrev pub new_otp_limiter : OtpLimiter
new_otp_limiter = record { phone = λ k. none; ip = λ k. none; verify = λ k. none; calls = 0 }

-- pruneOTP, the same loop as pruneBefore of api/internal/iam, with the cutoff `now - window`.
abbrev pub prune_otp : (now window : ℕ) → List ℕ → List ℕ
prune_otp now window ts = prune_before now window ts

-- A `range` loop of maybeSweep.
abbrev pub sweep_entry : (now window : ℕ) → Option (List ℕ) → Option (List ℕ)
sweep_entry now window none = none
sweep_entry now window (some ts) = stored (prune_otp now window ts)

abbrev pub sweep_times : (now window : ℕ) → TimesBy → TimesBy
sweep_times now window m k = sweep_entry now window (m k)

abbrev pub sweep_all : (now : ℕ) → OtpLimiter → OtpLimiter
sweep_all now l = record l {
  ip = sweep_times now otp_ip_window l.ip;
  phone = sweep_times now otp_phone_window l.phone;
  verify = sweep_times now otp_verify_window l.verify;
}

unfoldable pub maybe_sweep_otp : (now : ℕ) → OtpLimiter → OtpLimiter
maybe_sweep_otp now l =
    let counted : OtpLimiter = record l { calls = l.calls + 1 } in
    if not (counted.calls % otp_sweep_every == 0) then counted else sweep_all now counted

-- `ceilSeconds(until.Sub(now))`, which is 0 if `until` is not after `now`.
unfoldable pub ceil_seconds : ℕ → ℕ
ceil_seconds d = (d + second - 1) / second * second

-- `ts[0]`, where there is one.
abbrev pub first_of : List ℕ → ℕ
first_of [] = 0
first_of (t ∷ ts) = t

-- `ts[len(ts)-1]`.
unfoldable pub last_of : List ℕ → Option ℕ
last_of [] = none
last_of (t ∷ []) = some t
last_of (t ∷ u ∷ ts) = last_of (u ∷ ts)

-- The wait that Allow finds on the number: the cooldown of the last code, then the hourly limit.
abbrev pub wait_after : (now : ℕ) → List ℕ → Option ℕ → Option ℕ
wait_after now hits none = none
wait_after now hits (some last) =
    if ltb now (last + otp_phone_cooldown)
    then some (ceil_seconds (last + otp_phone_cooldown - now))
    else if leb otp_phone_max (length hits)
    then some (ceil_seconds (first_of hits + otp_phone_window - now))
    else none

abbrev pub phone_wait : (now : ℕ) → List ℕ → Option ℕ
phone_wait now hits = wait_after now hits (last_of hits)

abbrev pub allow_phone :
    (now : ℕ) (phone ip : String)
    → (ip_hits hits : List ℕ) → OtpLimiter
    → Option ℕ
    → Option ℕ × OtpLimiter
allow_phone now phone ip ip_hits hits l (some wait) =
    (some wait, record l { phone = put_times l.phone phone hits })
allow_phone now phone ip ip_hits hits l none = (
  none,
  record l {
    ip = put_times l.ip ip (ip_hits ++ (now ∷ []));
    phone = put_times l.phone phone (hits ++ (now ∷ []));
  },
)

-- Allow.
unfoldable pub allow : (now : ℕ) (phone ip : String) → OtpLimiter → Option ℕ × OtpLimiter
unfolding maybe_sweep_otp ceil_seconds last_of
allow now phone ip l =
    let swept = maybe_sweep_otp now l in
    let ip_hits = prune_otp now otp_ip_window (times (swept.ip ip)) in
    let hits = prune_otp now otp_phone_window (times (swept.phone phone)) in
    let on_phone = allow_phone now phone ip ip_hits hits swept (phone_wait now hits) in
    if leb otp_ip_max (length ip_hits)
    then (
      some (ceil_seconds (first_of ip_hits + otp_ip_window - now)),
      record swept { ip = put_times swept.ip ip ip_hits },
    )
    else on_phone

-- AllowVerify.
unfoldable pub allow_verify : (now : ℕ) (ip : String) → OtpLimiter → Option ℕ × OtpLimiter
unfolding maybe_sweep_otp ceil_seconds
allow_verify now ip l =
    let swept = maybe_sweep_otp now l in
    let hits = prune_otp now otp_verify_window (times (swept.verify ip)) in
    if leb otp_verify_max (length hits)
    then (
      some (ceil_seconds (first_of hits + otp_verify_window - now)),
      record swept { verify = put_times swept.verify ip hits },
    )
    else (none, record swept { verify = put_times swept.verify ip (hits ++ (now ∷ [])) })
