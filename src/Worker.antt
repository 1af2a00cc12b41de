-- ===== src/Worker.antt =====
-- internal/workersvc/workersvc.go: a worker that executes several jobs at once. Each call of
-- `ExecuteJob`, and the goroutine that it starts, goes on by atomic actions; a schedule says whose
-- action is next. The capacity is kept as the 32 bits of an int32, which is negative from 2^31 on.
pub mod Slots
pub mod Runs
pub mod Completes
pub mod Drained
use ironwork.Prelude.{
  ◌||◌, ℕ, zero, suc, ◌+◌, ◌-◌, ◌*◌, ◌%◌, ◌^◌, String, Bool, true, false, Option, none, some, List,
  [], ◌∷◌, ◌++◌, ltb, leb, ◌==◌, ℤ, pos, negsuc, if◌then◌else◌,
}
use ironwork.Rpc.{Code, invalid_argument, resource_exhausted, internal}
use ironwork.Store.Rows.{
  Uuid, Payload, Message, empty, invalid_payload, negative_duration, requested_failure, Db, Error,
  Result, ok, err,
}
use ironwork.Store.Jobs.{mark_scheduled, mark_running, mark_finished}
use ironwork.Relay.{Action, act}

-- `maxSleep` and `defaultSleep`, in nanoseconds
abbrev pub max_sleep : ℕ
max_sleep = 60000000000

abbrev default_sleep : ℕ
default_sleep = 1000000000

-- The struct `payload`.
pub record Body : Type 0 where
  pub duration_ms : ℤ
  pub fail : Bool

abbrev zero_body : Body
zero_body = record { duration_ms = pos 0; fail = false }

-- How long `execute` sleeps for a positive duration: the product is an int64, and `time.Sleep` of a
-- negative one returns at once.
unfoldable pub sleep_of : ℕ → ℕ
sleep_of d =
    let ns = d * 1000000 % 2 ^ 64 in
    if leb (2 ^ 63) ns then 0 else if ltb max_sleep ns then max_sleep else ns

abbrev failure_of : Bool → Message
failure_of true = requested_failure
failure_of false = empty

-- The time slept, and the error, which is `empty` for nil.
unfoldable pub execute_body : Body → ℕ × Message
execute_body body = elim body.duration_ms [
  | negsuc n ↦ (0, negative_duration)
  | pos zero ↦ (default_sleep, failure_of body.fail)
  | pos (suc n) ↦ (sleep_of (suc n), failure_of body.fail)
]

abbrev pub execute_decoded : Option Body → ℕ × Message
execute_decoded none = (0, invalid_payload)
execute_decoded (some body) = execute_body body

-- (*Server).execute; `decode` is `json.Unmarshal` into a fresh `payload`
unfoldable pub execute : (Payload → Option Body) → Payload → ℕ × Message
execute decode [] = execute_body zero_body
execute decode (b ∷ bytes) = execute_decoded (decode (b ∷ bytes))

-- Where a call of `ExecuteJob`, or the goroutine `run`, stands.
pub data Phase : Type 0 where
  arrived : Option Uuid → Payload → Phase  -- at the entry; `none` is the job id ""
  trying : Uuid → Payload → Phase  -- at the head of the loop
  loaded : Uuid → Payload → ℕ → Phase  -- before CompareAndSwap
  reserved : Uuid → Payload → Phase  -- before MarkScheduled
  giving_back : Code → Phase  -- before Add(-1) of a rejection
  rejected : Code → Phase
  accepted : Uuid → Payload → Phase  -- before MarkRunning
  executing : Uuid → Payload → Phase  -- before execute and MarkFinished
  reporting : Uuid → Bool → Phase  -- before ReportJobEvent
  releasing : Phase  -- before the deferred Add(-1)
  finished : Phase

pub record Worker : Type 0 where
  pub instance_name : String
  pub capacity : ℕ
  pub inflight_n : ℕ
  pub db : Db
  pub reports : List (Uuid × Bool)
  pub calls : List Phase

-- New
abbrev pub new : String → ℕ → Db → Worker
new instance_name capacity db = record {
  instance_name = instance_name;
  capacity = (if ltb capacity 1 then 1 else capacity) % 2 ^ 32;
  inflight_n = 0;
  db = db;
  reports = [];
  calls = [];
}

-- (*Server).Inflight
abbrev inflight : Worker → ℕ
inflight w = w.inflight_n

abbrev pub is_empty : Message → Bool
is_empty empty = true
is_empty _ = false

abbrev pub scheduled_phase : Uuid → Payload → Result (Unit {0}) → Phase
scheduled_phase job payload (ok _) = accepted job payload
scheduled_phase job payload (err Error.not_found) = giving_back Code.not_found
scheduled_phase job payload (err Error.call_failed) = giving_back internal

abbrev pub running_phase : Uuid → Payload → Result (Unit {0}) → Phase
running_phase job payload (ok _) = executing job payload
running_phase job payload (err e) = releasing

abbrev pub finished_phase : Uuid → Bool → Result (Unit {0}) → Phase
finished_phase job succeeded (ok _) = reporting job succeeded
finished_phase job succeeded (err e) = releasing

-- A call arrives, one goes on, or another process changes the database.
pub data Move : Type 0 where
  arrives : Option Uuid → Payload → Move
  proceeds : ℕ → Move
  others : Action → Move

-- The counter of the WaitGroup `inflight`: the goroutines that have not ended.
abbrev pub undone : Phase → ℕ
undone (accepted job payload) = 1
undone (executing job payload) = 1
undone (reporting job succeeded) = 1
undone releasing = 1
undone _ = 0

unfoldable pub waiting : List Phase → ℕ
waiting [] = 0
waiting (p ∷ calls) = undone p + waiting calls

module _ (decode : Payload → Option Body) where
  -- One atomic action of a call.
  unfoldable pub advance : Phase → Worker → Phase × Worker
  advance (arrived none payload) w = (rejected invalid_argument, w)
  advance (arrived (some job) payload) w = (trying job payload, w)
  advance (trying job payload) w = (
    if leb (2 ^ 31) w.capacity || leb w.capacity w.inflight_n
        then rejected resource_exhausted
        else loaded job payload w.inflight_n,
    w,
  )
  advance (loaded job payload cur) w =
      if w.inflight_n == cur
      then (reserved job payload, record w { inflight_n = cur + 1 })
      else (trying job payload, w)
  advance (reserved job payload) w =
      let (r, db) = mark_scheduled job w.instance_name w.db in
      (scheduled_phase job payload r, record w { db = db })
  advance (giving_back code) w = (rejected code, record w { inflight_n = w.inflight_n - 1 })
  advance (rejected code) w = (rejected code, w)
  advance (accepted job payload) w =
      let (r, db) = mark_running job w.db in (running_phase job payload r, record w { db = db })
  advance (executing job payload) w =
      let message = (execute decode payload).1 in
      let (r, db) = mark_finished job (is_empty message) message w.db in
      (finished_phase job (is_empty message) r, record w { db = db })
  advance (reporting job succeeded) w =
      (releasing, record w { reports = (job, succeeded) ∷ w.reports })
  advance releasing w = (finished, record w { inflight_n = w.inflight_n - 1 })
  advance finished w = (finished, w)

  -- The call at position `i` goes on.
  unfoldable pub advance_at : ℕ → List Phase → Worker → List Phase × Worker
  advance_at i [] w = ([], w)
  advance_at zero (p ∷ calls) w = let (p', w') = advance p w in (p' ∷ calls, w')
  advance_at (suc i) (p ∷ calls) w = let (calls', w') = advance_at i calls w in (p ∷ calls', w')

  unfoldable pub move : Worker → Move → Worker
  move w (arrives job payload) = record w { calls = arrived job payload ∷ w.calls }
  move w (proceeds i) = let (calls, w') = advance_at i w.calls w in record w' { calls = calls }
  move w (others a) = record w { db = act w.db a }

  unfoldable pub run_all : Worker → List Move → Worker
  run_all w [] = w
  run_all w (m ∷ moves) = run_all (move w m) moves

  -- (*Server).Drain, where `moves` is what goes on before the timeout: whether the jobs ended, and the
  -- worker when it returns.
  unfoldable pub drain : List Move → Worker → Bool × Worker
  drain [] w = (waiting w.calls == 0, w)
  drain (m ∷ moves) w =
      let rest = drain moves (move w m) in if waiting w.calls == 0 then (true, w) else rest
