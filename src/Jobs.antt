-- ===== src/Jobs.antt =====
-- The queue of jobs and the outbox of messages: backend/internal/jobs (repository.go, outbox.go and
-- runner.go). Errors of the connection are left out, and so is the text of an error.
pub mod Once
pub mod Marking
pub mod Attempts
use pontoqap.Base.{
  ℕ, zero, suc, ◌+◌, ◌/◌, Bool, true, false, ◌&&◌, Option, none, some, List, [], ◌∷◌, ◌==◌, leb,
  if◌then◌else◌, map,
}
use pontoqap.Store.Table.{select_where, insert_row}
use pontoqap.Store.Table.Keys.{update_by}
use pontoqap.Store.Schema.{CloseType, Db}
use pontoqap.Store.Shop.{Job, JobType, JobStatus, OutboxEvent}
use pontoqap.Store.Tx.{Error}
use pontoqap.Billing.Dates.{Location, civil_of_day, seconds_per_day, previous_month}
use pontoqap.Billing.Periods.{close_open_periods_for_reference}
use pontoqap.Billing.Settlement.{mark_overdue_invoices}

abbrev pub is_waiting : JobStatus → Bool
is_waiting JobStatus.waiting = true
is_waiting _ = false

module _ {ℓ} {A : Type ℓ} where
  unfoldable pub insert_by : (A → ℕ) → A → List A → List A
  insert_by key a [] = a ∷ []
  insert_by key a (b ∷ bs) =
      let rest = insert_by key a bs in if leb (key a) (key b) then a ∷ b ∷ bs else b ∷ rest

  -- `ORDER BY key`; of equal keys the row inserted first stands first.
  unfoldable pub order_by : (A → ℕ) → List A → List A
  unfolding insert_by
  order_by key [] = []
  order_by key (a ∷ as_) = insert_by key a (order_by key as_)

  -- `LIMIT n`.
  unfoldable pub limit : ℕ → List A → List A
  limit zero rs = []
  limit (suc n) [] = []
  limit (suc n) (r ∷ rs) = r ∷ limit n rs

abbrev pub event_key : OutboxEvent → ℕ
event_key e = e.id

abbrev pub job_key : Job → ℕ
job_key j = j.id

abbrev pub set_outbox : List OutboxEvent → Db → Db
set_outbox t db = record db { queue = record db.queue { outbox = t } }

abbrev pub set_jobs : List Job → Db → Db
set_jobs t db = record db { queue = record db.queue { jobs = t } }

-- `status = 'pending' AND available_at <= NOW()`.
abbrev pub is_due_event : ℕ → OutboxEvent → Bool
is_due_event now e = is_waiting e.status && leb e.available_at now

abbrev pub processing : OutboxEvent → OutboxEvent
processing e = record e { status = JobStatus.running_job; attempts = e.attempts + 1 }

-- The updates of `AcquireOutbox`, one for each event.
unfoldable pub mark_processing : List OutboxEvent → List OutboxEvent → List OutboxEvent
mark_processing [] t = t
mark_processing (e ∷ es) t = mark_processing es (update_by event_key e.id processing t)

abbrev pub due_events : ℕ → ℕ → Db → List OutboxEvent
due_events now n db =
    limit n (order_by (λ e. e.available_at) (select_where (is_due_event now) db.queue.outbox))

-- `AcquireOutbox`: the events as they were read, before their attempt is counted.
unfoldable pub acquire_outbox : ℕ → ℕ → Db → List OutboxEvent × Db
unfolding mark_processing order_by limit
acquire_outbox now n db =
    let events = due_events now n db in
    (events, set_outbox (mark_processing events db.queue.outbox) db)

-- `CompleteOutbox`.
unfoldable pub complete_outbox : ℕ → Db → Db
complete_outbox id db =
    set_outbox
      (update_by event_key id (λ e. record e { status = JobStatus.done_job }) db.queue.outbox) db

-- `FailOutbox`, with a delay in seconds.
unfoldable pub fail_outbox : ℕ → ℕ → ℕ → Db → Db
fail_outbox now id retry_after db =
    set_outbox
      (update_by event_key id
        (λ e. record e {
          status = (if retry_after == 0 then JobStatus.failed_job else JobStatus.waiting);
          available_at = now + retry_after;
        })
        db.queue.outbox)
      db

-- The delay after a handler's error: none once five attempts were counted before.
abbrev pub retry_delay : OutboxEvent → ℕ
retry_delay e = if leb 5 e.attempts then 0 else 30

-- The loop of `ProcessOutbox`; `handle` tells whether the handler took a message.
unfoldable pub process_each : (ℕ → Bool) → ℕ → List OutboxEvent → Db → Db
unfolding complete_outbox fail_outbox
process_each handle now [] db = db
process_each handle now (e ∷ es) db =
    process_each handle now es (
      if handle e.content then complete_outbox e.id db else fail_outbox now e.id (retry_delay e) db)

-- `ProcessOutbox`.
unfoldable pub process_outbox : (ℕ → Bool) → ℕ → ℕ → Db → Db
unfolding acquire_outbox process_each
process_outbox handle now n db =
    let (events, db') = acquire_outbox now n db in process_each handle now events db'

-- `Enqueue`.
unfoldable pub enqueue : ℕ → ℕ → JobType → Db → Db
enqueue now new_job job_type db =
    set_jobs
      (insert_row
        (record {
          id = new_job;
          job_type = job_type;
          status = JobStatus.waiting;
          attempts = 0;
          available_at = now;
          locked_by = none;
        })
        db.queue.jobs)
      db

abbrev pub is_due_job : ℕ → Job → Bool
is_due_job now j = is_waiting j.status && leb j.available_at now

abbrev pub running : ℕ → Job → Job
running worker j = record j {
  status = JobStatus.running_job;
  locked_by = some worker;
  attempts = j.attempts + 1;
}

-- The updates of `Acquire`, one for each job.
unfoldable pub mark_running : ℕ → List Job → List Job → List Job
mark_running worker [] t = t
mark_running worker (j ∷ js) t = mark_running worker js (update_by job_key j.id (running worker) t)

-- `Acquire`.
unfoldable pub acquire : ℕ → ℕ → ℕ → Db → List Job × Db
unfolding mark_running order_by limit
acquire worker now n db =
    let jobs =
      limit n (order_by (λ j. j.available_at) (select_where (is_due_job now) db.queue.jobs)) in
    (jobs, set_jobs (mark_running worker jobs db.queue.jobs) db)

-- `Complete`.
unfoldable pub complete : ℕ → Db → Db
complete id db =
    set_jobs
      (update_by job_key id (λ j. record j { status = JobStatus.done_job; locked_by = none })
        db.queue.jobs)
      db

-- `Fail`, with a delay in seconds.
unfoldable pub fail : ℕ → ℕ → ℕ → Db → Db
fail now id retry_after db =
    set_jobs
      (update_by job_key id
        (λ j. record j {
          status = (if retry_after == 0 then JobStatus.failed_job else JobStatus.waiting);
          available_at = now + retry_after;
          locked_by = none;
        })
        db.queue.jobs)
      db

-- What the runner works with: the time zones of billing and of the server, the identifiers that the
-- uuid package gives for a period, and the handler of messages.
pub record Worker : Type 0 where
  pub loc : Location
  pub server : Location
  pub new_invoice : ℕ → ℕ
  pub new_plan : ℕ → ℕ
  pub name : ℕ
  pub batch : ℕ
  pub notify : ℕ → Bool

-- The month that a closing is for: a payload without a year means the month before this one.
abbrev pub closing_month : Location → ℕ → ℕ → ℕ → ℕ × ℕ
closing_month server now year month =
    let today = civil_of_day (server.local now / seconds_per_day) in
    if year == 0 then previous_month today.year today.month else (year, month)

-- `Handler.Handle`: an unknown type is only logged.
unfoldable pub handle_job : Worker → ℕ → Job → Db → Option Error × Db
unfolding previous_month close_open_periods_for_reference mark_overdue_invoices
handle_job w now j db = elim j.job_type [
  | JobType.monthly_close year month ↦
      let (y, m) = closing_month w.server now year month in
      let (n, e, db') =
        close_open_periods_for_reference w.loc w.new_invoice w.new_plan y m CloseType.monthly_auto
          db in
      (e, db')
  | JobType.mark_overdue ↦ (none, (mark_overdue_invoices now db).1)
  | JobType.unknown_job ↦ (none, db)
]

-- The loop of `Tick`: a job that fails waits for 30 seconds.
unfoldable pub run_each : Worker → ℕ → List Job → Db → Db
unfolding handle_job complete fail
run_each w now [] db = db
run_each w now (j ∷ js) db =
    let (e, db') = handle_job w now j db in
    run_each w now js (elim e [ none ↦ complete j.id db' | some _ ↦ fail now j.id 30 db' ])

-- `Tick`: messages first, then jobs.
unfoldable pub tick : Worker → ℕ → Db → Db
unfolding process_outbox acquire run_each
tick w now db =
    let (jobs, db') = acquire w.name now w.batch (process_outbox w.notify now w.batch db) in
    run_each w now jobs db'
