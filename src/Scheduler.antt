-- ===== src/Scheduler.antt =====
-- internal/schedulersvc: the services of a scheduler, over the store, the registry and the relay's
-- wakes; with the conversions of internal/protoconv. A wire id is a uuid that is read already;
-- `uuid.Parse` is a parameter where the source calls it.
pub mod Wire
pub mod Submit
pub mod State
use Prim.Native.Char.{code}
use Prim.Native.String.{[] as nil_str, ◌∷◌ as cons_str}
use ironwork.Prelude.{
  ℕ, ◌+◌, ◌/◌, ◌%◌, ◌^◌, String, Bool, true, false, not, ◌||◌, Option, none, some, List, map, ltb,
  ◌==◌, if◌then◌else◌,
}
use ironwork.Rpc.{Code, failed_precondition, invalid_argument, internal}
use ironwork.Rpc as Rpc
use ironwork.Store.Rows.{Uuid, Payload, Job, Error, not_found, call_failed, Result, ok, err}
use ironwork.Store.Jobs.{get_job, list_jobs}
use ironwork.Store.Outbox.{create_job_with_outbox, OutboxStats, outbox_stats}
use ironwork.Relay.{World, on_db, wake}
use ironwork.Registry.{Registry, record_heartbeat}
use ironwork.Scheduler.Wire.{WireJob, JobStatus, job_to_proto, status_from_proto}

abbrev pub max_name_length : ℕ
max_name_length = 200

abbrev pub default_limit : ℕ
default_limit = 50

abbrev pub max_limit : ℕ
max_limit = 200

-- The bytes of a code point in UTF-8.
abbrev byte_count : ℕ → ℕ
byte_count c = if ltb c 128 then 1 else if ltb c 2048 then 2 else if ltb c 65536 then 3 else 4

-- `len` of a string
abbrev pub byte_length : String → ℕ
byte_length nil_str = 0
byte_length (cons_str c s) = byte_count (code c) + byte_length s

abbrev pub submit_reply : Result Job × World → ℕ → (Rpc.Result WireJob × ℕ) × World
submit_reply (ok job, w) wakes = ((Rpc.ok (job_to_proto job), wake wakes), w)
submit_reply (err e, w) wakes = ((Rpc.err internal, wakes), w)

-- (*Server).SubmitJob: the response and the relay's pending wakes, and the world after it
unfoldable pub submit_job : Bool → String → Payload → ℕ → World → (Rpc.Result WireJob × ℕ) × World
submit_job leads name payload wakes w =
    if not leads
    then ((Rpc.err failed_precondition, wakes), w)
    else if byte_length name == 0 || ltb max_name_length (byte_length name)
    then ((Rpc.err invalid_argument, wakes), w)
    else submit_reply (on_db (create_job_with_outbox name payload) w) wakes

abbrev pub get_reply : Result Job → Rpc.Result WireJob
get_reply (ok job) = Rpc.ok (job_to_proto job)
get_reply (err not_found) = Rpc.err Code.not_found
get_reply (err call_failed) = Rpc.err internal

-- (*Server).GetJob, of the id that `uuid.Parse` reads
unfoldable pub get_job_by : Option Uuid → World → Rpc.Result WireJob × World
get_job_by none w = (Rpc.err invalid_argument, w)
get_job_by (some id) w = let (r, w') = on_db (get_job id) w in (get_reply r, w')

abbrev pub limit_of : ℕ → ℕ
limit_of page_size = if ltb page_size 1 || ltb max_limit page_size then default_limit else page_size

abbrev pub list_reply : Result (List Job) → Rpc.Result (List WireJob)
list_reply (ok jobs) = Rpc.ok (map job_to_proto jobs)
list_reply (err e) = Rpc.err internal

-- (*Server).ListJobs
unfoldable pub list_jobs_by : JobStatus → ℕ → World → Rpc.Result (List WireJob) × World
list_jobs_by filter page_size w =
    let (r, w') = on_db (list_jobs (status_from_proto filter) (limit_of page_size)) w in
    (list_reply r, w')

abbrev pub stats_reply : Result OutboxStats → Rpc.Result OutboxStats
stats_reply (ok stats) = Rpc.ok stats
stats_reply (err e) = Rpc.err internal

-- (*Server).GetOutboxStats; the age is in nanoseconds
unfoldable pub get_outbox_stats : World → Rpc.Result OutboxStats × World
get_outbox_stats w = let (r, w') = on_db outbox_stats w in (stats_reply r, w')

-- (*WorkerServer).RegisterWorker, at the time `now`; the response is the heartbeat interval, which is
-- given in nanoseconds, in seconds
unfoldable pub register_worker : ℕ → ℕ → String → ℕ → Registry → Rpc.Result ℕ × Registry
register_worker now interval worker capacity reg =
    if byte_length worker == 0
    then (Rpc.err invalid_argument, reg)
    else (Rpc.ok (interval / 10 ^ 9 % 2 ^ 32), record_heartbeat now reg worker capacity 0)

-- (*WorkerServer).Heartbeat
unfoldable pub heartbeat : ℕ → String → ℕ → ℕ → Registry → Rpc.Result (Unit {0}) × Registry
heartbeat now worker capacity inflight reg =
    if byte_length worker == 0
    then (Rpc.err invalid_argument, reg)
    else (Rpc.ok tt, record_heartbeat now reg worker capacity inflight)
