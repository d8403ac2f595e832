-- ===== src/Notify/Worker.antt =====
-- `SendWorker.Work` of api/internal/notify/worker.go, with the queries of notify/store/notify.sql.go.
-- River, which runs the jobs, and the sender to Telegram are outside: what the sender answers and
-- which queries fail are arguments of a run.
pub mod Delivered
use Prim.Native.String.{String}
use run.Base.{ℕ, ◌+◌, Bool, true, false, Option, none, some, List, ◌∷◌, leb, if◌then◌else◌}
use run.Platform.Table.{Table, put}

pub data NotifyStatus : Type 0 where
  pending sent failed : NotifyStatus

-- notification_logs, by id.
pub record LogRow : Type 0 where
  pub status : NotifyStatus
  pub attempts : ℕ
  pub sent_at : Option ℕ
  pub last_error : Option String

-- `delivered` lists the logs whose message the sender took, one entry for each message.
pub record NotifyState : Type 0 where
  pub logs : Table LogRow
  pub delivered : List ℕ

-- The answer of Sender.Send. `error_text` of a failure is what truncateError leaves of it.
pub data SendResult : Type 0 where
  took : SendResult
  recipient_blocked broke : (error_text : String) → SendResult

-- What River does with the job: no error, JobCancel, or an error, for another attempt if one is left.
pub data WorkResult : Type 0 where
  completed cancelled retried : WorkResult

pub record Faults : Type 0 where
  pub load_fails : Bool
  pub mark_fails : Bool

pub record Job : Type 0 where
  pub log_id : ℕ
  pub attempt : ℕ
  pub max_attempts : ℕ

abbrev pub is_sent : NotifyStatus → Bool
is_sent pending = false
is_sent sent = true
is_sent failed = false

-- MarkNotificationSent and MarkNotificationAttemptFailed.
abbrev pub mark_notification_sent : (id now : ℕ) → LogRow → NotifyState → NotifyState
mark_notification_sent id now row s = record s {
  logs = put s.logs id (record row {
    status = sent;
    sent_at = some now;
    attempts = row.attempts + 1;
    last_error = none;
  });
}

abbrev pub mark_notification_attempt_failed :
    (id : ℕ) → NotifyStatus → (last_error : String) → LogRow → NotifyState → NotifyState
mark_notification_attempt_failed id status last_error row s = record s {
  logs =
      put s.logs id
        (record row { status = status; attempts = row.attempts + 1; last_error = some last_error });
}

abbrev pub deliver : (id : ℕ) → NotifyState → NotifyState
deliver id s = record s { delivered = id ∷ s.delivered }

-- The rest of Work once the sender answered.
unfoldable pub after_send :
    Faults → Job → (now : ℕ) → SendResult → LogRow → NotifyState → WorkResult × NotifyState
after_send faults job now took row s =
    if faults.mark_fails
    then (retried, deliver job.log_id s)
    else (completed, mark_notification_sent job.log_id now row (deliver job.log_id s))
after_send faults job now (recipient_blocked text) row s =
    if faults.mark_fails
    then (retried, s)
    else (cancelled, mark_notification_attempt_failed job.log_id failed text row s)
after_send faults job now (broke text) row s =
    let status = if leb job.max_attempts job.attempt then failed else pending in
    if faults.mark_fails
    then (retried, s)
    else (retried, mark_notification_attempt_failed job.log_id status text row s)

abbrev pub work_on :
    Faults → Job → (now : ℕ) → SendResult → Option LogRow → NotifyState → WorkResult × NotifyState
work_on faults job now answer none s = (cancelled, s)
work_on faults job now answer (some row) s =
    if is_sent row.status then (completed, s) else after_send faults job now answer row s

unfoldable pub work : Faults → Job → (now : ℕ) → SendResult → NotifyState → WorkResult × NotifyState
work faults job now answer s =
    if faults.load_fails then (retried, s) else work_on faults job now answer (s.logs job.log_id) s
