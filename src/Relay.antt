-- ===== src/Relay.antt =====
-- internal/outbox/relay.go: the leader's relay, over a database that the other processes change
-- between any two of its calls. `World` holds what the others will do and answer.
pub mod Cover
pub mod Updates
pub mod Reclaim
pub mod Actions
pub mod Ready
pub mod Marks
pub mod Claim
pub mod Drain
pub mod Offers
pub mod Stranded
pub mod Handle
use ironwork.Prelude.{
  ℕ, zero, suc, ◌+◌, String, Bool, true, false, not, Option, none, some, List, [], ◌∷◌, ◌++◌, leb,
  if◌then◌else◌,
}
use ironwork.Store.Rows.{
  Uuid, Payload, Status, Message, gave_up, undispatchable, not_dispatched, Job, OutboxEntry, Db,
  Result, ok, err,
}
use ironwork.Store.Jobs.{update_rows, to_scheduled, to_running, to_finished, mark_finished}
use ironwork.Store.Outbox.{
  insert_both, reclaim, claim_outbox, mark_outbox_dispatched, record_outbox_failure,
  mark_outbox_failed,
}

-- A change of the database by another process: a submission, a worker's transition of a job, a
-- reclaim, or time. The updates that another scheduler's relay would make of the commands are not among
-- them: the relays of two schedulers overlap only at a change of leader, which is not modelled.
pub data Action : Type 0 where
  submits : String → Payload → Action
  schedules : Uuid → String → Action
  runs : Uuid → Action
  finishes : Uuid → Bool → Message → Action
  reclaims : String → Action
  ticks : ℕ → Action

unfoldable pub act : Db → Action → Db
act db (submits name payload) = (insert_both name payload db).1
act db (schedules id worker) = record db {
  jobs = update_rows id (to_scheduled worker db.clock) db.jobs;
}
act db (runs id) = record db { jobs = update_rows id (to_running db.clock) db.jobs }
act db (finishes id succeeded message) = record db {
  jobs = update_rows id (to_finished succeeded message db.clock) db.jobs;
}
act db (reclaims worker) = (reclaim worker db).1
act db (ticks n) = record db { clock = db.clock + n }

unfoldable pub act_all : Db → List Action → Db
act_all db [] = db
act_all db (a ∷ actions) = act_all (act db a) actions

-- How `Dispatch` ends: the worker that has accepted the job, and whether the Raft log then takes the
-- placement; or an error.
pub data Reply : Type 0 where
  accepts : String → Bool → Reply
  rejects : Reply

pub record World : Type 0 where
  pub db : Db
  pub others : List (List Action)  -- before each call of this process
  pub replies : List Reply  -- of the calls of `Dispatch`
  pub offered : List Uuid  -- the jobs given to `Dispatch`, newest first
  pub placements : List (Uuid × String)  -- the placement log

abbrev pub next_actions : List (List Action) → List Action
next_actions [] = []
next_actions (actions ∷ rest) = actions

abbrev later_actions : List (List Action) → List (List Action)
later_actions [] = []
later_actions (actions ∷ rest) = rest

-- The other processes act.
unfoldable pub interfere : World → World
interfere w = record w {
  db = act_all w.db (next_actions w.others);
  others = later_actions w.others;
}

-- A call of the store.
unfoldable pub on_db {ℓ} : {A : Type ℓ} → (Db → Result A × Db) → World → Result A × World
on_db op w = let w' = interfere w in let (r, db) = op w'.db in (r, record w' { db = db })

abbrev pub next_reply : List Reply → Reply
next_reply [] = rejects
next_reply (r ∷ rest) = r

abbrev later_replies : List Reply → List Reply
later_replies [] = []
later_replies (r ∷ rest) = rest

-- A worker that accepts the job has recorded it in the database before it answers.
unfoldable pub answer : Job → Reply → World → Reply × World
answer job (accepts worker logged) w =
    (accepts worker logged, interfere (record w { db = act w.db (schedules job.id worker) }))
answer job rejects w = (rejects, interfere w)

-- `r.disp.Dispatch`
unfoldable pub dispatch : Job → World → Reply × World
dispatch job w =
    let w' = interfere w in
    answer job (next_reply w'.replies)
      (record w' { replies = later_replies w'.replies; offered = job.id ∷ w'.offered })

abbrev pub max_dispatch_attempts : ℕ
max_dispatch_attempts = 30

abbrev pub max_execution_attempts : ℕ
max_execution_attempts = 3

abbrev pub drain_batch : ℕ
drain_batch = 50

-- (*Relay).abandon
unfoldable pub abandon : OutboxEntry → Message → World → World
abandon e reason w =
    let (r, w') = on_db (mark_outbox_failed e.id reason) w in
    let (r', w'') = on_db (mark_finished e.job.id false reason) w' in w''

-- What `handle` does once `Dispatch` has returned. An error of a mark is logged and dropped.
unfoldable pub settle : OutboxEntry → Reply × World → World
settle e (rejects, w) = (on_db (record_outbox_failure e.id not_dispatched) w).1
settle e (accepts worker logged, w) =
    let (r, w') = on_db (mark_outbox_dispatched e.id) w in
    if logged then record w' { placements = w'.placements ++ (e.job.id, worker) ∷ [] } else w'

abbrev pub is_pending : Status → Bool
is_pending Status.pending = true
is_pending _ = false

-- (*Relay).handle
unfoldable pub handle : OutboxEntry → World → World
handle e w =
    if not (is_pending e.job.status)
    then (on_db (mark_outbox_dispatched e.id) w).1
    else if leb max_execution_attempts e.job.attempts
    then abandon e (gave_up e.job.attempts) w
    else if leb max_dispatch_attempts e.attempts
    then abandon e (undispatchable e.attempts) w
    else settle e (dispatch e.job w)

unfoldable pub handle_all : List OutboxEntry → World → World
handle_all [] w = w
handle_all (e ∷ entries) w = handle_all entries (handle e w)

abbrev pub entries_of : Result (List OutboxEntry) → List OutboxEntry
entries_of (ok entries) = entries
entries_of (err e) = []

-- (*Relay).drain; after an error it returns, which is to handle no entry
unfoldable pub drain : World → World
drain w =
    let (claimed, w') = on_db (claim_outbox drain_batch) w in handle_all (entries_of claimed) w'

-- A round of `Run`, once a tick or a wake has come.
unfoldable pub round : Bool → World → World
round leads w = if leads then drain w else w

-- `Wake`: the channel holds one pending wake at most.
unfoldable pub wake : ℕ → ℕ
wake zero = 1
wake (suc pending) = suc pending

-- What `Run` waits for.
pub data Signal : Type 0 where
  ticked woken : Signal

-- The wakes that are left once `Run` has received the signal; `none` where it goes on waiting.
abbrev pub received : Signal → ℕ → Option ℕ
received ticked pending = some pending
received woken zero = none
received woken (suc pending) = some pending

-- A turn of the loop of `Run`.
abbrev pub turned : Bool → ℕ × World → Option ℕ → ℕ × World
turned leads s none = s
turned leads (pending, w) (some left) = (left, round leads w)

unfoldable pub turn : Signal → Bool → ℕ × World → ℕ × World
turn signal leads (pending, w) = turned leads (pending, w) (received signal pending)
