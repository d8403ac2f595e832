-- ===== src/Tests/Notify.antt =====
-- A message whose first delivery could not be marked.
use run.Base.{ℕ, ◌+◌, ◌≤◌, true, false, none, []}
use run.Platform.Table.{put}
use run.Notify.Worker.{NotifyState, Faults, Job, pending, took, work}
use run.Notify.Worker.Delivered.{count, unsent, done, step, Works-delivered}

abbrev queued : NotifyState
queued = record {
  logs =
      put (λ k. none) 4
        (record { status = pending; attempts = 0; sent_at = none; last_error = none });
  delivered = [];
}

abbrev unmarked : Faults
unmarked = record { load_fails = false; mark_fails = true }

abbrev no_faults : Faults
no_faults = record { load_fails = false; mark_fails = false }

abbrev job : (attempt : ℕ) → Job
job attempt = record { log_id = 4; attempt = attempt; max_attempts = 5 }

abbrev after_first : NotifyState
after_first = (work unmarked (job 1) 10 took queued).1

abbrev after_second : NotifyState
after_second = (work no_faults (job 2) 20 took after_first).1

abbrev after_third : NotifyState
after_third = (work no_faults (job 3) 30 took after_second).1

Works-delivered_example :
    count 4 after_third.delivered ≤ count 4 queued.delivered + unsent (queued.logs 4) + 1
Works-delivered_example = Works-delivered 4 queued after_third (
    step unmarked (job 1) 10 took queued (
      step no_faults (job 2) 20 took after_first
        (step no_faults (job 3) 30 took after_second (done after_third))))
