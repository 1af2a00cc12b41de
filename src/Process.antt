-- ===== src/Process.antt =====
-- cmd/scheduler/main.go: a scheduler, of the services that `main` puts together over one database,
-- one registry and one relay. Its events are the calls that it serves, the signals of the relay and the
-- ticks of the reaper, in any order; what Raft says of its leadership comes with each. What the other
-- processes do between two calls of the database is in the world.
pub mod Sound
pub mod Covers
pub mod Wakes
pub mod History
use ironwork.Prelude.{ℕ, String, Bool, Option, none, some, List, [], ◌∷◌}
use ironwork.Store.Rows.{Payload}
use ironwork.Registry as Registry
use ironwork.Registry.{Registry}
use ironwork.Dispatch as Dispatch
use ironwork.Dispatch.{Dispatcher}
use ironwork.Dispatch.Registered.{available_now}
use ironwork.Heartbeat.{interval, worker_stale_ttl, worker_dead_ttl}
use ironwork.Relay.{World, Signal, turn}
use ironwork.Reaper as Reaper
use ironwork.Reaper.{Reaper}
use ironwork.Scheduler.{submit_job, register_worker, heartbeat}

-- What `main` holds: `reg`, `disp`, the pending wakes of `relay`, and the database behind `st`.
pub record Scheduler : Type 0 where
  pub reg : Registry
  pub disp : Dispatcher (ℕ × Registry)
  pub wakes : ℕ
  pub world : World

abbrev pub with_dispatcher : World → Option (Dispatcher (ℕ × Registry)) → Option Scheduler
with_dispatcher w none = none
with_dispatcher w (some d) =
    some (record {
      reg = Registry.new worker_stale_ttl worker_dead_ttl;
      disp = d;
      wakes = 0;
      world = w;
    })

-- `main`, up to the services, of the names of the configured workers; `none` where it is fatal
unfoldable pub start : List String → World → Option Scheduler
start workers w = with_dispatcher w (Dispatch.new workers (some available_now))

pub data Event : Type 0 where
  submits : (leads : Bool) → String → Payload → Event
  registers : (now : ℕ) → String → (capacity : ℕ) → Event
  beats : (now : ℕ) → String → (capacity inflight : ℕ) → Event
  relays : Signal → (leads : Bool) → Event
  reaps : (leads : Bool) → (now : ℕ) → Event

abbrev pub swept : Scheduler → Reaper × ℕ → Scheduler
swept p (r, wakes) = record p { reg = r.reg; wakes = wakes; world = r.world }

unfoldable pub step : Event → Scheduler → Scheduler
step (submits leads name payload) p =
    let ((reply, wakes), w) = submit_job leads name payload p.wakes p.world in
    record p { wakes = wakes; world = w }
step (registers now worker capacity) p = record p {
  reg = (register_worker now interval worker capacity p.reg).1;
}
step (beats now worker capacity inflight) p = record p {
  reg = (heartbeat now worker capacity inflight p.reg).1;
}
step (relays signal leads) p =
    let (wakes, w) = turn signal leads (p.wakes, p.world) in record p { wakes = wakes; world = w }
step (reaps leads now) p = swept p (Reaper.tick leads now p.world p.reg p.wakes)

unfoldable pub run : List Event → Scheduler → Scheduler
run [] p = p
run (e ∷ events) p = run events (step e p)
