-- ===== src/Store/Outbox.antt =====
-- outbox.go, and `ReclaimJobs` of store.go: the statements on `outbox`, and the two transactions
-- that change both tables.
use ironwork.Prelude.{
  ℕ, suc, ◌+◌, ◌-◌, String, Bool, true, false, ◌&&◌, Option, none, some, List, [], ◌∷◌, ◌++◌, ◌==◌,
  ltb, ◌||◌, str_eq, take, if◌then◌else◌,
}
use ironwork.Sort.{sort}
use ironwork.Store.Rows.{
  Uuid, Payload, Status, OutboxStatus, dispatched, Message, JobRow, OutboxRow, Job, OutboxEntry, Db,
  Result, ok, err, not_found, call, scan_job,
}
use ironwork.Store.Jobs.{insert_job}

abbrev pub new_command : Db → Uuid → OutboxRow
new_command db job_id = record {
  id = db.next_id;
  job_id = job_id;
  status = OutboxStatus.pending;
  attempts = 0;
  last_error = none;
  created_at = db.clock;
  dispatched_at = none;
}

-- enqueueOutbox
unfoldable pub enqueue_outbox : Uuid → Db → Db
enqueue_outbox job_id db = record db {
  outbox = new_command db job_id ∷ db.outbox;
  next_id = suc db.next_id;
}

-- The transaction of `CreateJobWithOutbox`.
unfoldable pub insert_both : String → Payload → Db → Job × Db
insert_both name payload db =
    let (job, db') = insert_job name payload db in (job, enqueue_outbox job.id db')

-- (*Store).CreateJobWithOutbox
unfoldable pub create_job_with_outbox : String → Payload → Db → Result Job × Db
create_job_with_outbox name payload =
    call (λ db. let (job, db') = insert_both name payload db in (ok job, db'))

abbrev pub is_pending : OutboxStatus → Bool
is_pending OutboxStatus.pending = true
is_pending _ = false

-- `o.status = 'pending'`, `ORDER BY o.created_at ASC`
abbrev pub older : OutboxRow → OutboxRow → Bool
older a b = ltb a.created_at b.created_at

unfoldable pub pending_rows : List OutboxRow → List OutboxRow
pending_rows [] = []
pending_rows (o ∷ rows) =
    let rest = pending_rows rows in if is_pending o.status then o ∷ rest else rest

-- `JOIN jobs j ON j.id = o.job_id`
unfoldable pub join_jobs : OutboxRow → List JobRow → List OutboxEntry
join_jobs o [] = []
join_jobs o (r ∷ rows) =
    let rest = join_jobs o rows in
    if r.id == o.job_id
    then record { id = o.id; attempts = o.attempts; job = scan_job r } ∷ rest
    else rest

unfoldable pub join_all : List OutboxRow → List JobRow → List OutboxEntry
join_all [] jobs = []
join_all (o ∷ rows) jobs = join_jobs o jobs ++ join_all rows jobs

-- (*Store).ClaimOutbox
unfoldable pub claim_outbox : ℕ → Db → Result (List OutboxEntry) × Db
claim_outbox limit =
    call (λ db. (ok (take limit (join_all (sort older (pending_rows db.outbox)) db.jobs)), db))

-- `UPDATE outbox SET … WHERE id = $1`
unfoldable pub update_commands : Uuid → (OutboxRow → OutboxRow) → List OutboxRow → List OutboxRow
update_commands id f [] = []
update_commands id f (o ∷ rows) = (if o.id == id then f o else o) ∷ update_commands id f rows

unfoldable pub has_command : Uuid → List OutboxRow → Bool
has_command id [] = false
has_command id (o ∷ rows) = o.id == id || has_command id rows

-- `exec`, of an update of one command
unfoldable pub exec_command : Uuid → (ℕ → OutboxRow → OutboxRow) → Db → Result (Unit {0}) × Db
exec_command id f = call (λ db.
    if has_command id db.outbox
    then (ok tt, record db { outbox = update_commands id (f db.clock) db.outbox })
    else (err not_found, db))

abbrev pub to_dispatched : ℕ → OutboxRow → OutboxRow
to_dispatched now o = record o { status = dispatched; dispatched_at = some now }

-- (*Store).MarkOutboxDispatched
unfoldable pub mark_outbox_dispatched : Uuid → Db → Result (Unit {0}) × Db
mark_outbox_dispatched id = exec_command id to_dispatched

abbrev pub to_retried : Message → ℕ → OutboxRow → OutboxRow
to_retried message now o = record o { attempts = o.attempts + 1; last_error = some message }

-- (*Store).RecordOutboxFailure
unfoldable pub record_outbox_failure : Uuid → Message → Db → Result (Unit {0}) × Db
record_outbox_failure id message = exec_command id (to_retried message)

abbrev pub to_abandoned : Message → ℕ → OutboxRow → OutboxRow
to_abandoned message now o = record o { status = OutboxStatus.failed; last_error = some message }

-- (*Store).MarkOutboxFailed
unfoldable pub mark_outbox_failed : Uuid → Message → Db → Result (Unit {0}) × Db
mark_outbox_failed id message = exec_command id (to_abandoned message)

-- `WHERE assigned_worker_id = $1 AND status IN ('scheduled', 'running')`
abbrev in_flight : Status → Bool
in_flight Status.scheduled = true
in_flight Status.running = true
in_flight _ = false

abbrev pub assigned_to : String → Option String → Bool
assigned_to worker none = false
assigned_to worker (some w) = str_eq w worker

abbrev pub reclaimable : String → JobRow → Bool
reclaimable worker r = assigned_to worker r.assigned_worker_id && in_flight r.status

abbrev pub to_reclaimed : ℕ → JobRow → JobRow
to_reclaimed now r = record r {
  status = Status.pending;
  assigned_worker_id = none;
  updated_at = now;
}

unfoldable pub reclaim_rows : String → ℕ → List JobRow → List JobRow
reclaim_rows worker now [] = []
reclaim_rows worker now (r ∷ rows) =
    (if reclaimable worker r then to_reclaimed now r else r) ∷ reclaim_rows worker now rows

-- The rows that `RETURNING` gives.
unfoldable pub reclaimed : String → ℕ → List JobRow → List Job
reclaimed worker now [] = []
reclaimed worker now (r ∷ rows) =
    let rest = reclaimed worker now rows in
    if reclaimable worker r then scan_job (to_reclaimed now r) ∷ rest else rest

unfoldable pub enqueue_all : List Job → Db → Db
enqueue_all [] db = db
enqueue_all (j ∷ jobs) db = enqueue_all jobs (enqueue_outbox j.id db)

-- The transaction of `ReclaimJobs`.
unfoldable pub reclaim : String → Db → List Job × Db
reclaim worker db =
    let jobs = reclaimed worker db.clock db.jobs in
    (jobs, enqueue_all jobs (record db { jobs = reclaim_rows worker db.clock db.jobs }))

-- (*Store).ReclaimJobs
unfoldable pub reclaim_jobs : String → Db → Result (List Job) × Db
reclaim_jobs worker = call (λ db. let (jobs, db') = reclaim worker db in (ok jobs, db'))

pub record OutboxStats : Type 0 where
  pub pending : ℕ
  pub dispatched : ℕ
  pub failed : ℕ
  pub oldest_pending : ℕ

unfoldable pub count_rows : (OutboxStatus → Bool) → List OutboxRow → ℕ
count_rows p [] = 0
count_rows p (o ∷ rows) = (if p o.status then 1 else 0) + count_rows p rows

abbrev is_dispatched : OutboxStatus → Bool
is_dispatched OutboxStatus.dispatched = true
is_dispatched _ = false

abbrev is_failed : OutboxStatus → Bool
is_failed OutboxStatus.failed = true
is_failed _ = false

abbrev min_created : Option ℕ → ℕ → ℕ
min_created none t = t
min_created (some u) t = if ltb u t then u else t

-- `min(created_at) FILTER (WHERE status = 'pending')`
unfoldable pub oldest_created : List OutboxRow → Option ℕ
oldest_created [] = none
oldest_created (o ∷ rows) =
    let rest = oldest_created rows in
    if is_pending o.status then some (min_created rest o.created_at) else rest

abbrev pub age : ℕ → Option ℕ → ℕ
age now none = 0
age now (some t) = now - t

-- (*Store).OutboxStats; created_at is never later than now()
unfoldable pub outbox_stats : Db → Result OutboxStats × Db
outbox_stats = call (λ db. (
  ok (record {
    pending = count_rows is_pending db.outbox;
    dispatched = count_rows is_dispatched db.outbox;
    failed = count_rows is_failed db.outbox;
    oldest_pending = age db.clock (oldest_created db.outbox);
  }),
  db,
))
