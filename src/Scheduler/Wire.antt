-- ===== src/Scheduler/Wire.antt =====
-- internal/protoconv/protoconv.go: the status of a job, and a job, on the wire.
use ironwork.Prelude.{ℕ, ◌%◌, ◌^◌, ◌≡◌, ◌↔◌, arith, String, Option, none, some}
use ironwork.Store.Rows.{Uuid, Payload, Status, Message, Job}

-- The enum `JobStatus`; an open enum, so that any other number may stand in a message.
pub data JobStatus : Type 0 where
  unspecified pending scheduled running succeeded failed : JobStatus
  unknown_status : ℕ → JobStatus

-- StatusToProto, of a status that the database stores
abbrev pub status_to_proto : Status → JobStatus
status_to_proto Status.pending = JobStatus.pending
status_to_proto Status.scheduled = JobStatus.scheduled
status_to_proto Status.running = JobStatus.running
status_to_proto Status.succeeded = JobStatus.succeeded
status_to_proto Status.failed = JobStatus.failed

-- StatusFromProto; `none` is ""
abbrev pub status_from_proto : JobStatus → Option Status
status_from_proto JobStatus.unspecified = none
status_from_proto JobStatus.pending = some Status.pending
status_from_proto JobStatus.scheduled = some Status.scheduled
status_from_proto JobStatus.running = some Status.running
status_from_proto JobStatus.succeeded = some Status.succeeded
status_from_proto JobStatus.failed = some Status.failed
status_from_proto (JobStatus.unknown_status n) = none

-- The message `Job`.
pub record WireJob : Type 0 where
  pub id : Uuid
  pub name : String
  pub payload : Payload
  pub status : JobStatus
  pub assigned_worker_id : String
  pub attempts : ℕ
  pub error : Message
  pub created_at : ℕ
  pub updated_at : ℕ
  pub started_at : Option ℕ
  pub finished_at : Option ℕ

-- JobToProto
unfoldable pub job_to_proto : Job → WireJob
job_to_proto j = record {
  id = j.id;
  name = j.name;
  payload = j.payload;
  status = status_to_proto j.status;
  assigned_worker_id = j.assigned_worker;
  attempts = j.attempts % 2 ^ 32;
  error = j.error;
  created_at = j.created_at;
  updated_at = j.updated_at;
  started_at = j.started_at;
  finished_at = j.finished_at;
}

-- A status comes back from the wire, and what comes back as a status was sent as that one.
pub status_round_trip :
    (s : Status) (p : JobStatus) → (status_from_proto p ≡ some s) ↔ (p ≡ status_to_proto s)
status_round_trip s p = elim s [
  | Status.pending ↦ ground arith
  | Status.scheduled ↦ ground arith
  | Status.running ↦ ground arith
  | Status.succeeded ↦ ground arith
  | Status.failed ↦ ground arith
]
