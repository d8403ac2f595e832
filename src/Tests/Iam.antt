-- ===== src/Tests/Iam.antt =====
-- The login limiter and the permission matrix.
use run.Base.{none, ltb, ◌+◌, ◌≤◌, ◌≡◌, refl, true, false, [], ◌∷◌, length, arith, some}
use run.Iam.Limiter.{LoginLimiter, max_failures, times, amount_of, allow_ip, begin_attempt, failure}
use run.Iam.Limiter.Bounded.{new_login_limiter, done, step, Call, Calls-bounded}
use run.Iam.Limiter.Lock
use run.Iam.Limiter.Lock.{LockedCall, failure-begin_attempt}
use run.Iam.Limiter.Minute.{Attempts, passes, last_minute, Attempts-allow_ip, Attempts-last_minute}
use run.Iam.Matrix.{admin}
use run.Platform.Apperr.{err, new, unauthenticated}
use run.Platform.Table.{put}
use run.Iam.Sessions.{IamState, Faults, active, matches, login, new_session}
use run.Iam.Sessions.Requests.{authenticate, logout}
use run.Iam.Sessions.Held.{login-held}
use run.Iam.Sessions.Uses.{logout-refused, authenticates, logs_in}
use run.Iam.Sessions.Uses

abbrev one_attempt : LoginLimiter
one_attempt = (allow_ip 100 7 new_login_limiter).1

one_run : Attempts 7 100 one_attempt (100 ∷ [])
unfolding allow_ip
one_run = passes Attempts.starts (omega arith) refl

Attempts-last_minute_example : last_minute 100 (100 ∷ []) ≤ 20
Attempts-last_minute_example = Attempts-last_minute one_run

Attempts-allow_ip_example : (allow_ip 130 7 one_attempt).0 ≡ ltb (last_minute 130 (100 ∷ [])) 20
Attempts-allow_ip_example = Attempts-allow_ip 7 100 130 one_attempt (100 ∷ []) one_run (omega arith)

abbrev one_login : LoginLimiter
one_login = (allow_ip 10 3 new_login_limiter).1

abbrev begun : LoginLimiter
begun = (begin_attempt 10 7 one_login).1

begun-in_flight : 1 ≤ amount_of (begun.in_flight 7)
unfolding begin_attempt allow_ip
begun-in_flight = omega arith

abbrev failed_once : LoginLimiter
failed_once = failure 12 7 begun

Calls-bounded_example :
    length (times (failed_once.failures 7)) + amount_of (failed_once.in_flight 7) ≤ max_failures
Calls-bounded_example = Calls-bounded failed_once 7 (
    step (Call.asks 10 3 new_login_limiter) (
      step (Call.begins 10 7 one_login)
        (step (Call.fails 12 7 begun begun-in_flight) (done failed_once))))

-- Four failures in the last minutes, and a fifth login under way.
abbrev four_failures : LoginLimiter
four_failures = record new_login_limiter {
  failures = λ k. some (10 ∷ 20 ∷ 30 ∷ 40 ∷ []);
  in_flight = λ k. some 1;
}

abbrev after_lock : LoginLimiter
after_lock = (allow_ip 500 3 (failure 60 7 four_failures)).1

failure-begin_attempt_example : (begin_attempt 700 7 after_lock).0 ≡ false
failure-begin_attempt_example =
    failure-begin_attempt 60 700 7 four_failures after_lock (omega arith)
      (Lock.step (LockedCall.asks 500 3 (failure 60 7 four_failures) (omega arith))
        (Lock.done after_lock))
      (omega arith)

abbrev one_admin : IamState
one_admin = record {
  limiter = new_login_limiter;
  db = record {
    staff =
        put (λ k. none) 1
          (record { username = 7; role = some admin; status = active; last_login_at = none });
    staff_ids = 1 ∷ [];
    sessions = put (λ k. none) 44 (new_session 1 10);
    audit = [];
  };
}

-- The row of the session cannot be written.
abbrev session_fault : Faults
session_fault = record {
  load_fails = false;
  audit_fails = false;
  rand_fails = false;
  session_fails = true;
}

login-held_example :
    amount_of ((login session_fault matches 3 7 45 20 21 one_admin).1.limiter.in_flight 7)
    ≡ amount_of (new_login_limiter.in_flight 7)
login-held_example = login-held session_fault matches 3 7 45 20 21 7 one_admin

abbrev logged_out : IamState
logged_out = record one_admin { db = logout 44 30 one_admin.db }

abbrev logged_in_again : IamState
logged_in_again = (login session_fault matches 3 7 45 40 41 logged_out).1

logout-refused_example : (authenticate 44 50 logged_in_again.db).0 ≡ err (new 401 unauthenticated)
logout-refused_example = logout-refused 44 30 50 one_admin logged_in_again (
    Uses.step (logs_in session_fault matches 3 7 45 40 41 logged_out refl)
      (Uses.done logged_in_again))
