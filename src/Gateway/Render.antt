-- ===== src/Gateway/Render.antt =====
-- internal/gatewayhttp/gatewayhttp.go: a job as the REST surface renders it. `json.Valid` is a
-- parameter.
use ironwork.Prelude.{ℕ, String, Bool, Option, none, some, if◌then◌else◌}
use ironwork.Store.Rows.{Uuid, Payload, Status, Message}
use ironwork.Scheduler.Wire.{WireJob, status_from_proto}

-- jobJSON; a status `none` is ""
pub record JobJson : Type 0 where
  pub id : Uuid
  pub name : String
  pub status : Option Status
  pub assigned_worker : String
  pub attempts : ℕ
  pub error : Message
  pub created_at : ℕ
  pub updated_at : ℕ
  pub started_at : Option ℕ
  pub finished_at : Option ℕ
  pub payload : Option Payload

-- renderJob
unfoldable pub render_job : (Payload → Bool) → WireJob → JobJson
render_job valid j = record {
  id = j.id;
  name = j.name;
  status = status_from_proto j.status;
  assigned_worker = j.assigned_worker_id;
  attempts = j.attempts;
  error = j.error;
  created_at = j.created_at;
  updated_at = j.updated_at;
  started_at = j.started_at;
  finished_at = j.finished_at;
  payload = if valid j.payload then some j.payload else none;
}
