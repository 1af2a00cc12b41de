-- ===== src/Heartbeat.antt =====
-- internal/heartbeat/heartbeat.go: the loop in which a worker reports to every scheduler, with the
-- times of cmd/scheduler/main.go. A time is a number of nanoseconds. The handlers are those of the
-- schedulers; a call may be lost, and a call that ran out of its time may still have been handled.
pub mod Clients
pub mod Fanout
pub mod Tolerance
pub mod Silence
use ironwork.Prelude.{
  ℕ, ◌+◌, ◌*◌, ◌%◌, ◌^◌, String, Bool, true, false, Option, none, some, List, [], ◌∷◌, map, lt_str,
  str_eq, if◌then◌else◌,
}
use ironwork.Sort.{sort}
use ironwork.Registry.{Registry}
use ironwork.Scheduler.{register_worker, heartbeat}

abbrev pub second : ℕ
second = 1000000000

-- Interval
abbrev pub interval : ℕ
interval = 2 * second

abbrev pub worker_stale_ttl : ℕ
worker_stale_ttl = 5 * second

abbrev pub worker_dead_ttl : ℕ
worker_dead_ttl = 8 * second

-- A Loop: the worker it reports for, and the names of the schedulers, which stand for the clients.
pub record Loop : Type 0 where
  pub instance_name : String
  pub capacity : ℕ
  pub targets : List String

abbrev target_of : String × String → String
target_of (name, addr) = name

-- New; `none` is an error
unfoldable new : String → ℕ → List (String × String) → Option Loop
new name capacity [] = none
new name capacity (s ∷ schedulers) = some (record {
  instance_name = name;
  capacity = capacity;
  targets = sort lt_str (map target_of (s ∷ schedulers));
})

-- The schedulers' registries.
abbrev pub Registries : Type 0
Registries = String → Registry

-- When the call to a scheduler is handled there, `none` where it is lost.
abbrev pub Arrivals : Type 0
Arrivals = String → Option ℕ

abbrev pub handle : (ℕ → Registry → Registry) → Option ℕ → Registry → Registry
handle fn none reg = reg
handle fn (some now) reg = fn now reg

abbrev set : Registries → String → Registry → Registries
set regs t reg = λ k. if str_eq t k then reg else regs k

-- (*Loop).fanOut, of the effect that a call has at a scheduler; the calls are parallel, and each is
-- handled at a scheduler of its own
unfoldable pub fan_out :
    List String → Arrivals → (ℕ → Registry → Registry) → Registries → Registries
fan_out [] arrivals fn regs = regs
fan_out (t ∷ targets) arrivals fn regs =
    fan_out targets arrivals fn (set regs t (handle fn (arrivals t) (regs t)))

-- The effect of `RegisterWorker`.
abbrev pub registers : Loop → ℕ → Registry → Registry
registers l now reg = (register_worker now interval l.instance_name (l.capacity % 2 ^ 32) reg).1

-- The effect of `Heartbeat`.
abbrev pub beats : Loop → ℕ → ℕ → Registry → Registry
beats l inflight now reg =
    (heartbeat now l.instance_name (l.capacity % 2 ^ 32) (inflight % 2 ^ 32) reg).1

-- A tick: what `Inflight` answers, and how the calls fare.
pub record Tick : Type 0 where
  pub inflight : ℕ
  pub arrivals : Arrivals

-- The loop of `Run`, for the ticks until the context is done.
unfoldable pub ticks : Loop → List Tick → Registries → Registries
ticks l [] regs = regs
ticks l (t ∷ later) regs = ticks l later (fan_out l.targets t.arrivals (beats l t.inflight) regs)

-- (*Loop).Run
unfoldable pub run : Loop → Arrivals → List Tick → Registries → Registries
run l registration later regs = ticks l later (fan_out l.targets registration (registers l) regs)
