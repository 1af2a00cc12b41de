-- ===== src/Scheduler/Submit.antt =====
-- What a submission leaves in the tables.
use ironwork.Prelude.{
  ℕ, ◌≡◌, refl, String, Bool, true, false, ◌||◌, ◌==◌, ltb, Bool-cases, inl, inr, Any, arith,
}
use ironwork.Rpc as Rpc
use ironwork.Rpc.{failed_precondition}
use ironwork.Store.Rows.{Uuid, Payload, Status, JobRow, Db}
use ironwork.Store.Jobs.{insert_job}
use ironwork.Store.Outbox.{create_job_with_outbox, insert_both, enqueue_outbox}
use ironwork.Relay.{World, on_db, interfere}
use ironwork.Relay.Cover.{Covers}
use ironwork.Relay.Ready.{call_result-cases}
use ironwork.Scheduler.Wire.{WireJob, job_to_proto}
use ironwork.Scheduler.{byte_length, max_name_length, submit_reply, submit_job}

-- The table has the job, pending, and a pending command for it.
unfoldable pub IsEnqueued : Uuid → Db → Type 0
IsEnqueued id db =
    Any (λ (r : JobRow). (r.id ≡ id) × (r.status ≡ Status.pending)) db.jobs × Covers 0 id db.outbox

-- What a response promises of the database.
abbrev pub IsKept : Rpc.Result WireJob → Db → Type 0
IsKept (Rpc.ok job) db = IsEnqueued job.id db
IsKept (Rpc.err e) db = Unit

insert_both-IsEnqueued :
    (name : String) (payload : Payload) (db : Db)
    → IsEnqueued (insert_both name payload db).0.id (insert_both name payload db).1
unfolding IsEnqueued insert_both insert_job enqueue_outbox
insert_both-IsEnqueued name payload db = (inl (refl, refl), inl (refl, refl, omega arith))

create-IsKept :
    (name : String) (payload : Payload) (wakes : ℕ) (w : World)
    → let r = submit_reply (on_db (create_job_with_outbox name payload) w) wakes in
      IsKept r.0.0 r.1.db
unfolding on_db create_job_with_outbox job_to_proto
create-IsKept name payload wakes w =
    call_result-cases
      (λ r db'.
        let v : World = record (interfere w) { db = db' } in
        IsKept (submit_reply (r, v) wakes).0.0 (submit_reply (r, v) wakes).1.db)
      _ (interfere w).db tt (insert_both-IsEnqueued name payload _) tt

-- A submission that is answered with a job has left that job pending in the table, with a pending
-- dispatch command, whatever the other processes did before it.
pub submit_job-IsKept :
    (leads : Bool) (name : String) (payload : Payload) (wakes : ℕ) (w : World)
    → IsKept
        (submit_job leads name payload wakes w).0.0
        (submit_job leads name payload wakes w).1.db
unfolding submit_job
submit_job-IsKept false name payload wakes w = tt
submit_job-IsKept true name payload wakes w =
    elim (Bool-cases (byte_length name == 0 || ltb max_name_length (byte_length name))) [
      | inl y ↦ simp y tt
      | inr n ↦ simp n (create-IsKept name payload wakes w)
    ]
