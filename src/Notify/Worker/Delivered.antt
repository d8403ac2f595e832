-- ===== src/Notify/Worker/Delivered.antt =====
-- How often a message is delivered.
use run.Base.{
  ==→eq, ℕ, ◌+◌, ◌≡◌, ◌≤◌, refl, false, Option, none, some, List, [], ◌∷◌, arith, Bool-cases, inl,
  inr, ◌==◌, if◌then◌else◌,
}
use run.Notify.Worker.{
  LogRow, NotifyState, SendResult, took, recipient_blocked, broke, Faults, Job, is_sent, after_send,
  work,
}

pub count : ℕ → List ℕ → ℕ
count id [] = 0
count id (i ∷ ids) = let rest = count id ids in if i == id then rest + 1 else rest

-- How many messages a log has left to send: one until it is marked as sent.
abbrev pub unsent : Option LogRow → ℕ
unsent none = 1
unsent (some row) = if is_sent row.status then 0 else 1

abbrev pub lost : Faults → ℕ
lost faults = if faults.mark_fails then 1 else 0

-- Messages that were delivered or are left.
abbrev total : ℕ → NotifyState → ℕ
total id s = count id s.delivered + unsent (s.logs id)

after_send-total :
    (faults : Faults) (job : Job) (now id : ℕ) (answer : SendResult) (row : LogRow)
    (s : NotifyState)
    → s.logs job.log_id ≡ some row
    → is_sent row.status ≡ false
    → total id (after_send faults job now answer row s).1 ≤ total id s + lost faults
unfolding after_send count
after_send-total faults job now id took row s found waits = elim (Bool-cases (id == job.log_id)) [
  | inl same ↦ let here = ==→eq id job.log_id same in ground (arith, found, waits, here)
  | inr other ↦ ground (arith, found, waits, other)
]
after_send-total faults job now id (recipient_blocked text) row s found waits =
    elim (Bool-cases (id == job.log_id)) [
      | inl same ↦ let here = ==→eq id job.log_id same in ground (arith, found, waits, here)
      | inr other ↦ ground (arith, found, waits, other)
    ]
after_send-total faults job now id (broke text) row s found waits =
    elim (Bool-cases (id == job.log_id)) [
      | inl same ↦ let here = ==→eq id job.log_id same in ground (arith, found, waits, here)
      | inr other ↦ ground (arith, found, waits, other)
    ]

work-total :
    (faults : Faults) (job : Job) (now id : ℕ) (answer : SendResult) (s : NotifyState)
    → total id (work faults job now answer s).1 ≤ total id s + lost faults
unfolding work
work-total faults job now id answer s = elim (Bool-cases faults.load_fails) [
  | inl fails ↦ ground (arith, fails)
  | inr fine ↦ go (s.logs job.log_id) refl fine
]
  where
    go :
        (x : Option LogRow)
        → s.logs job.log_id ≡ x
        → faults.load_fails ≡ false
        → total id (work faults job now answer s).1 ≤ total id s + lost faults
    go none found fine = ground (arith, found, fine)
    go (some row) found fine = elim (Bool-cases (is_sent row.status)) [
      | inl over ↦ ground (arith, found, fine, over)
      | inr waits ↦
          let rest = after_send-total faults job now id answer row s found waits in
          ground (arith, found, fine, waits, rest)
    ]

-- Runs of jobs one after the other, of any logs and in any order, of which `n` could not mark a log.
pub data Works : ℕ → NotifyState → NotifyState → Type 0 where
  done : (s : NotifyState) → Works 0 s s
  step :
      {n : ℕ} {t : NotifyState} (faults : Faults) (job : Job) (now : ℕ) (answer : SendResult)
      (s : NotifyState)
      → Works n (work faults job now answer s).1 t
      → Works (n + lost faults) s t

Works-total : {n : ℕ} {s t : NotifyState} (id : ℕ) → Works n s t → total id t ≤ total id s + n
Works-total id (done s) = omega arith
Works-total id (step {n} faults job now answer s ws) =
    omega (arith, Works-total id ws, work-total faults job now id answer s)

-- However often the jobs of messages are run, a message whose log is not marked as sent is delivered
-- at most once more, and one whose log is marked not again, but for the runs that could not mark it.
pub Works-delivered :
    {n : ℕ} (id : ℕ) (s t : NotifyState)
    → Works n s t
    → count id t.delivered ≤ count id s.delivered + unsent (s.logs id) + n
Works-delivered id s t ws = omega (arith, Works-total id ws)
