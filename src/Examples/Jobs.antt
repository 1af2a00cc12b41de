-- ===== src/Examples/Jobs.antt =====
-- Inputs for the theorems on jobs: the store, the relay, the reaper, the scheduler and the worker.
use Prim.Native.Nat.{min}
use ironwork.Prelude.{
  Any, pos, ℕ, zero, suc, ◌*◌, ◌≤◌, ◌<◌, ◌≡◌, ◌⊎◌, refl, inl, inr, true, false, Option, none, some,
  List, [], ◌∷◌, arith,
}
use ironwork.Store.Rows.{
  Status, OutboxStatus, JobRow, OutboxRow, OutboxEntry, Db, served, refused, gave_up, Payload,
  scan_job, Uuid, call,
}
use ironwork.Store.Jobs.{mark_scheduled, exec_job, has_row}
use ironwork.Store.Outbox.{claim_outbox}
use ironwork.Relay.{World, accepts, ticks, submits, on_db, drain, drain_batch, entries_of, abandon}
use ironwork.Relay.Cover.{Covers, Covered, IsDb}
use ironwork.Relay.Drain.{GivenUp, drain-Covered}
use ironwork.Relay.Stranded.{abandon_strands}
use ironwork.Registry
use ironwork.Reaper.{Reaper}
use ironwork.Scheduler.{submit_job}
use ironwork.Scheduler.Submit.{IsKept, submit_job-IsKept}
use ironwork.Worker
use ironwork.Worker.{Body, Worker, proceeds, arrives, run_all, execute, max_sleep, sleep_of}
use ironwork.Worker.Slots.{held_by, slots_exact}
use ironwork.Worker.Drained.{turns, drain_ends}
use ironwork.Worker.Runs.{execute-bounds}

abbrev row : JobRow
row = record {
  id = 0;
  name = "job";
  payload = [];
  status = Status.pending;
  assigned_worker_id = none;
  attempts = 3;
  error = none;
  created_at = 5;
  updated_at = 5;
  started_at = none;
  finished_at = none;
}

abbrev command : OutboxRow
command = record {
  id = 1;
  job_id = 0;
  status = OutboxStatus.pending;
  attempts = 0;
  last_error = none;
  created_at = 5;
  dispatched_at = none;
}

abbrev db : Db
db = record { jobs = row ∷ []; outbox = command ∷ []; next_id = 2; clock = 9; faults = [] }

abbrev world : World
world = record {
  db = db;
  others = (ticks 1 ∷ []) ∷ (submits "other" [] ∷ []) ∷ [];
  replies = accepts "w1" true ∷ [];
  offered = [];
  placements = [];
}

abbrev entry : OutboxEntry
entry = record { id = 1; attempts = 0; job = scan_job row }

abbrev NoneLost : Uuid → Type 0
NoneLost job = ⊥

db-IsDb : IsDb db
db-IsDb = record { jobs = (omega arith, tt); outbox = (omega arith, tt) }

db-Covered : Covered NoneLost db
unfolding Covered
db-Covered = (λ e. inr (inl (refl, refl, omega arith)), tt)

drain-Covered_example :
    Covered
      (λ job. NoneLost job ⊎ GivenUp (entries_of (on_db (claim_outbox drain_batch) world).0) job)
      (drain world).db
    × IsDb (drain world).db
drain-Covered_example = drain-Covered NoneLost world db-IsDb db-Covered

abandon_strands_example :
    let db =
      (abandon entry (gave_up 3) (record world {
        db = record world.db { faults = served ∷ refused ∷ [] };
        others = [];
      })).db in
    Any (λ r. (r.id ≡ 0) × (r.status ≡ Status.pending)) db.jobs × ¬ Covers 0 0 db.outbox
abandon_strands_example =
    abandon_strands entry (gave_up 3) world [] (inl (refl, refl)) (λ e. refl, tt)

abbrev reaper : Reaper
reaper = record { world = world; reg = Registry.new 20 50; reenqueued = false }

submit_job-IsKept_example :
    IsKept (submit_job true "job" [] 0 world).0.0 (submit_job true "job" [] 0 world).1.db
submit_job-IsKept_example = submit_job-IsKept true "job" [] 0 world

abbrev no_json : Payload → Option Body
no_json bytes = none

slots_exact_example :
    let w =
      run_all no_json
        (Worker.new "w1" 1 db)
        (arrives (some 0) [] ∷ proceeds 0 ∷ proceeds 0 ∷ proceeds 0 ∷ []) in
    (w.inflight_n ≡ held_by w.calls) × (w.inflight_n ≤ w.capacity) × (1 ≤ w.capacity)
slots_exact_example =
    slots_exact no_json "w1" 1 db (arrives (some 0) [] ∷ proceeds 0 ∷ proceeds 0 ∷ proceeds 0 ∷ [])
      (omega arith)

-- A call that is accepted, then the server stops.
abbrev accepting : List Worker.Move
accepting = arrives (some 0) [] ∷ proceeds 0 ∷ proceeds 0 ∷ proceeds 0 ∷ proceeds 0 ∷ []

abbrev four : List Worker.Move
four = proceeds 0 ∷ Worker.others (ticks 1) ∷ proceeds 0 ∷ proceeds 0 ∷ proceeds 0 ∷ []

turns-four : (i : ℕ) → i < 1 → 4 ≤ turns i four
unfolding turns
turns-four zero h = omega arith
turns-four (suc i) h = omega (arith, h)

accepting_calls :
    (run_all no_json (Worker.new "w1" 1 db) accepting).calls ≡ Worker.accepted 0 [] ∷ []
unfolding run_all Worker.move Worker.advance Worker.advance_at mark_scheduled exec_job call has_row
accepting_calls = refl

drain_ends_example :
    let (ended, w) = Worker.drain no_json four (run_all no_json (Worker.new "w1" 1 db) accepting) in
    (ended ≡ true) × (w.inflight_n ≡ 0)
drain_ends_example =
    drain_ends no_json "w1" 1 db accepting four (rw accepting_calls (tt, tt))
      (tt, (tt, (tt, (tt, (tt, tt))))) (rw accepting_calls turns-four)

abbrev one_second : Payload → Option Body
one_second bytes = some (record { duration_ms = pos 1500; fail = false })

execute-bounds_example :
    ((execute one_second []).0 ≤ 60 * 1000000000)
    × ((execute one_second (1 ∷ [])).0 ≡ min (1500 * 1000000) (60 * 1000000000))
execute-bounds_example =
    execute-bounds one_second [] (1 ∷ []) (record { duration_ms = pos 1500; fail = false }) 1499
      (λ e. cc e) refl refl (omega arith)

-- A duration whose nanoseconds an int64 does not hold is not capped: nothing is slept.
overflow : sleep_of 9223372036855 ≡ 0
unfolding sleep_of
overflow = refl
