-- ===== src/Store/Rows.antt =====
-- The rows of the two tables (migrations/*.sql) and the structs of store.go and outbox.go. A uuid is
-- a number that the database draws from a counter; a timestamp is a number of nanoseconds. A text
-- that the code formats is the constructor of its format.
use ironwork.Prelude.{ℕ, String, Option, none, some, List}

abbrev pub Uuid : Type 0
Uuid = ℕ

abbrev pub Payload : Type 0
Payload = List ℕ

pub data Status : Type 0 where
  pending scheduled running succeeded failed : Status

pub Status-discrete : Discrete Status
Status-discrete = hlevel

pub data OutboxStatus : Type 0 where
  pending dispatched failed : OutboxStatus

-- Error texts of jobs and of dispatch commands; `empty` is "".
pub data Message : Type 0 where
  empty : Message
  gave_up : (attempts : ℕ) → Message
  undispatchable : (attempts : ℕ) → Message
  invalid_payload : Message
  negative_duration : Message
  requested_failure : Message
  not_dispatched : Message

-- A row of `jobs`; `none` is NULL.
pub record JobRow : Type 0 where
  pub id : Uuid
  pub name : String
  pub payload : Payload
  pub status : Status
  pub assigned_worker_id : Option String
  pub attempts : ℕ
  pub error : Option Message
  pub created_at : ℕ
  pub updated_at : ℕ
  pub started_at : Option ℕ
  pub finished_at : Option ℕ

-- A row of `outbox`.
pub record OutboxRow : Type 0 where
  pub id : Uuid
  pub job_id : Uuid
  pub status : OutboxStatus
  pub attempts : ℕ
  pub last_error : Option Message
  pub created_at : ℕ
  pub dispatched_at : Option ℕ

-- The struct `Job`.
pub record Job : Type 0 where
  pub id : Uuid
  pub name : String
  pub payload : Payload
  pub status : Status
  pub assigned_worker : String
  pub attempts : ℕ
  pub error : Message
  pub created_at : ℕ
  pub updated_at : ℕ
  pub started_at : Option ℕ
  pub finished_at : Option ℕ

-- The struct `OutboxEntry`.
pub record OutboxEntry : Type 0 where
  pub id : Uuid
  pub attempts : ℕ
  pub job : Job

-- How the database answers a call: it serves it; it refuses it, and nothing has changed; or it does
-- its work and the answer is lost.
pub data Fault : Type 0 where
  served refused unacked : Fault

pub record Db : Type 0 where
  pub jobs : List JobRow
  pub outbox : List OutboxRow
  pub next_id : Uuid  -- gen_random_uuid()
  pub clock : ℕ  -- now()
  pub faults : List Fault  -- of the calls to come; served when the list is empty

-- `ErrNotFound`, and any other error.
pub data Error : Type 0 where
  not_found call_failed : Error

pub data Result {ℓ} (A : Type ℓ) : Type ℓ where
  ok : A → Result A
  err : Error → Result A

abbrev pub next_fault : List Fault → Fault
next_fault List.[] = served
next_fault (List.◌∷◌ f fs) = f

abbrev pub later_faults : List Fault → List Fault
later_faults List.[] = List.[]
later_faults (List.◌∷◌ f fs) = fs

-- Runs a statement or a transaction under the fault of this call.
abbrev pub run_under {ℓ} : {A : Type ℓ} → Fault → Db → Result A → Db → Result A × Db
run_under served before r after = (r, after)
run_under refused before r after = (err call_failed, before)
run_under unacked before r after = (err call_failed, after)

-- A call: its result and the database after it, computed from the database before it.
unfoldable pub call {ℓ} : {A : Type ℓ} → (Db → Result A × Db) → Db → Result A × Db
call work db =
    let db' : Db = record db { faults = later_faults db.faults } in
    let (r, after) = work db' in run_under (next_fault db.faults) db' r after

abbrev or_empty : Option String → String
or_empty none = ""
or_empty (some w) = w

abbrev pub or_no_message : Option Message → Message
or_no_message none = empty
or_no_message (some m) = m

-- `jobColumns` and `scanJob`, of a row that is there
abbrev pub scan_job : JobRow → Job
scan_job r = record {
  id = r.id;
  name = r.name;
  payload = r.payload;
  status = r.status;
  assigned_worker = or_empty r.assigned_worker_id;
  attempts = r.attempts;
  error = or_no_message r.error;
  created_at = r.created_at;
  updated_at = r.updated_at;
  started_at = r.started_at;
  finished_at = r.finished_at;
}
