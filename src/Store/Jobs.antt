-- ===== src/Store/Jobs.antt =====
-- store.go: the statements on `jobs`.
use mathlib.Core.Logic.{ite}
use ironwork.Prelude.{
  ℕ, suc, ◌+◌, String, Bool, false, Option, none, some, List, [], ◌∷◌, ◌==◌, ltb, ◌||◌, take,
  if◌then◌else◌,
}
use ironwork.Sort.{sort}
use ironwork.Store.Rows.{
  Uuid, Payload, Status, Status-discrete, scheduled, running, succeeded, Message, empty, JobRow,
  Job, Db, Result, ok, err, not_found, call, scan_job,
}

-- `INSERT INTO jobs (name, payload)`, the other columns by their defaults
abbrev pub new_row : Db → String → Payload → JobRow
new_row db name payload = record {
  id = db.next_id;
  name = name;
  payload = payload;
  status = Status.pending;
  assigned_worker_id = none;
  attempts = 0;
  error = none;
  created_at = db.clock;
  updated_at = db.clock;
  started_at = none;
  finished_at = none;
}

unfoldable pub insert_job : String → Payload → Db → Job × Db
insert_job name payload db = (
  scan_job (new_row db name payload),
  record db { jobs = new_row db name payload ∷ db.jobs; next_id = suc db.next_id },
)

-- (*Store).CreateJob
unfoldable create_job : String → Payload → Db → Result Job × Db
create_job name payload = call (λ db. let (job, db') = insert_job name payload db in (ok job, db'))

unfoldable pub find_job : Uuid → List JobRow → Result Job
find_job id [] = err not_found
find_job id (r ∷ rows) = if r.id == id then ok (scan_job r) else find_job id rows

-- (*Store).GetJob
unfoldable pub get_job : Uuid → Db → Result Job × Db
get_job id = call (λ db. (find_job id db.jobs, db))

-- `WHERE ($1 = '' OR status = $1)`; `none` is ''
unfoldable pub select_status : Option Status → List JobRow → List Job
select_status filter [] = []
select_status none (r ∷ rows) = scan_job r ∷ select_status none rows
select_status (some status) (r ∷ rows) =
    let rest = select_status (some status) rows in
    ite (Status-discrete r.status status) (scan_job r ∷ rest) rest

-- `ORDER BY created_at DESC`
abbrev pub newer : Job → Job → Bool
newer a b = ltb b.created_at a.created_at

-- (*Store).ListJobs
unfoldable pub list_jobs : Option Status → ℕ → Db → Result (List Job) × Db
list_jobs filter limit =
    call (λ db. (ok (take limit (sort newer (select_status filter db.jobs))), db))

-- `UPDATE jobs SET … WHERE id = $1`
unfoldable pub update_rows : Uuid → (JobRow → JobRow) → List JobRow → List JobRow
update_rows id f [] = []
update_rows id f (r ∷ rows) = (if r.id == id then f r else r) ∷ update_rows id f rows

unfoldable pub has_row : Uuid → List JobRow → Bool
has_row id [] = false
has_row id (r ∷ rows) = r.id == id || has_row id rows

-- `exec`, of an update of one job
unfoldable pub exec_job : Uuid → (ℕ → JobRow → JobRow) → Db → Result (Unit {0}) × Db
exec_job id f = call (λ db.
    if has_row id db.jobs
    then (ok tt, record db { jobs = update_rows id (f db.clock) db.jobs })
    else (err not_found, db))

abbrev pub to_scheduled : String → ℕ → JobRow → JobRow
to_scheduled worker now r = record r {
  status = scheduled;
  assigned_worker_id = some worker;
  updated_at = now;
}

-- (*Store).MarkScheduled
unfoldable pub mark_scheduled : Uuid → String → Db → Result (Unit {0}) × Db
mark_scheduled id worker = exec_job id (to_scheduled worker)

abbrev pub to_running : ℕ → JobRow → JobRow
to_running now r = record r {
  status = running;
  started_at = some now;
  attempts = r.attempts + 1;
  updated_at = now;
}

-- (*Store).MarkRunning
unfoldable pub mark_running : Uuid → Db → Result (Unit {0}) × Db
mark_running id = exec_job id to_running

-- `NULLIF($3, '')`
abbrev pub null_if_empty : Message → Option Message
null_if_empty empty = none
null_if_empty m = some m

abbrev pub to_finished : Bool → Message → ℕ → JobRow → JobRow
to_finished succeeded' message now r = record r {
  status = if succeeded' then succeeded else Status.failed;
  error = null_if_empty message;
  finished_at = some now;
  updated_at = now;
}

-- (*Store).MarkFinished
unfoldable pub mark_finished : Uuid → Bool → Message → Db → Result (Unit {0}) × Db
mark_finished id succeeded' message = exec_job id (to_finished succeeded' message)
