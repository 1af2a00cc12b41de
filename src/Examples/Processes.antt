-- ===== src/Examples/Processes.antt =====
-- Inputs for the theorems on a scheduler's process, the recovery from a crash, reads and connections.
use ironwork.Prelude.{
  eq_iff, ℕ, ◌-◌, ◌*◌, ◌<◌, ◌≤◌, ◌≡◌, ◌⊎◌, refl, inl, String, Bool, true, none, some, List, [], ◌∷◌,
  ◌++◌, arith, length, map, lt_str, str_eq, ◌==◌,
}
use ironwork.Dict.{lookup, insert}
use ironwork.Sort.{sort, place}
use ironwork.Store.Rows.{Uuid, Status, JobRow, refused, unacked, Payload, call, scan_job}
use ironwork.Store.Jobs.{insert_job, new_row}
use ironwork.Store.Outbox.{
  create_job_with_outbox, insert_both, enqueue_outbox, reclaim_jobs, reclaim, reclaimed,
  reclaim_rows, enqueue_all, pending_rows, join_jobs, join_all,
}
use ironwork.Relay as Relay
use ironwork.Relay.{
  World, ticked, woken, accepts, rejects, on_db, interfere, act_all, drain, drain_batch,
}
use ironwork.Relay.Cover.{Covered, IsDb}
use ironwork.Registry.{Registry, new, dead, collect, record_heartbeat}
use ironwork.Registry.Liveness.{IsRegistry, record_heartbeat-IsRegistry}
use ironwork.Dispatch as Dispatch
use ironwork.Dispatch.{Dispatcher, eligible}
use ironwork.Dispatch.Registered.{available_now, Has}
use ironwork.Heartbeat.{second}
use ironwork.Reaper.{sweep, sweep_loop}
use ironwork.Scheduler.{submit_job}
use ironwork.Scheduler.Wire.{job_to_proto}
use ironwork.Process.{Scheduler, Event, submits, registers, beats, relays, reaps, start, step, run}
use ironwork.Process.History.{run-Grown}
use ironwork.Store.History.{Grown}
use ironwork.Process.Covers.{GivesUp, run_covers}
use ironwork.Process.Wakes.{wake_drains}
use ironwork.Relay.Offers.{count}
use ironwork.Recovery.Offered.{claims}
use ironwork.Recovery.Crash.{heard_from, crash_recovered}
use ironwork.Connections.{Net, name_of}
use ironwork.Connections.Leaks.{Opened}
use ironwork.Connections.Closed.{Reports, connections_closed}
use ironwork.Leader.Clients as Router
use ironwork.Dispatch.Clients as Offerer
use ironwork.Heartbeat.Clients as Beater
use ironwork.Crdtview.Clients as Dashboard
use ironwork.Statereport.Clients as Reporter
use ironwork.Statesvc.Clients.{gossip_connections}
use ironwork.Observer.Targets.{check_target}

-- An empty database that loses an answer and refuses a call, and a process that submits a job.
abbrev shaky : World
shaky = record {
  db = record { jobs = []; outbox = []; next_id = 0; clock = 9; faults = unacked ∷ refused ∷ [] };
  others = (Relay.submits "theirs" [] ∷ Relay.ticks 5 ∷ []) ∷ [];
  replies = rejects ∷ accepts "w1" true ∷ [];
  offered = [];
  placements = [];
}

abbrev started : World → Scheduler
started w = record {
  reg = new (5 * second) (8 * second);
  disp = record {
    workers = "w1" ∷ [];
    by_name = ("w1", "w1") ∷ [];
    candidates = some available_now;
    next = 0;
  };
  wakes = 0;
  world = w;
}

started-start : (w : World) → start ("w1" ∷ []) w ≡ some (started w)
started-start w = unfold start Dispatch.new sort place in refl

abbrev day : List Event
day =
    registers 9 "w1" 2
    ∷ submits true "ours" []
    ∷ relays woken true
    ∷ beats 20 "w1" 2 1
    ∷ relays ticked true
    ∷ reaps true (20 * second)
    ∷ []

abbrev NoneLost : Uuid → Type 0
NoneLost job = ⊥

run_covers_example :
    Covered
      (λ job. NoneLost job ⊎ GivesUp day (started shaky) job)
      (run day (started shaky)).world.db
    × IsDb (run day (started shaky)).world.db
    × IsRegistry (run day (started shaky)).reg
    × ((run day (started shaky)).wakes ≤ 1)
run_covers_example =
    run_covers NoneLost ("w1" ∷ []) shaky (started shaky) day (started-start shaky)
      (record { jobs = tt; outbox = tt }) (unfold Covered in tt)

run-Grown_example : Grown (started shaky).world.db.jobs (run day (started shaky)).world.db.jobs
run-Grown_example = run-Grown day (started shaky)

-- A database that serves every call, with a job that runs at "w1".
abbrev flying : JobRow
flying = record {
  id = 0;
  name = "job";
  payload = [];
  status = Status.running;
  assigned_worker_id = some "w1";
  attempts = 1;
  error = none;
  created_at = 5;
  updated_at = 6;
  started_at = some 6;
  finished_at = none;
}

abbrev steady : World
steady = record {
  db = record { jobs = flying ∷ []; outbox = []; next_id = 1; clock = 9; faults = [] };
  others = [];
  replies = accepts "w2" true ∷ [];
  offered = 0 ∷ [];
  placements = [];
}

wake_drains_example :
    let q = run (reaps true 20 ∷ []) (step (submits true "ours" []) (started steady)) in
    (0 < q.wakes)
    × (step (relays woken true) q ≡ record q { wakes = q.wakes - 1; world = drain q.world })
wake_drains_example =
    wake_drains true "ours" [] (started steady)
      (job_to_proto (scan_job (new_row steady.db "ours" []))) (reaps true 20 ∷ [])
      (unfold submit_job on_db interfere act_all create_job_with_outbox call insert_both
          insert_job in
        refl)
      (tt, tt)

abbrev two_workers : Registry
two_workers = record_heartbeat 95 (record_heartbeat 7 (new 20 50) "w1" 4 1) "w2" 4 0

two_workers-IsRegistry : IsRegistry two_workers
two_workers-IsRegistry =
    record_heartbeat-IsRegistry 95 (record_heartbeat 7 (new 20 50) "w1" 4 1) "w2" 4 0
      (record_heartbeat-IsRegistry 7 (new 20 50) "w1" 4 1 (record { map_like = tt; keyed = tt }))

few : length (claims (sweep 100 steady two_workers 0).0.world.db) ≤ drain_batch
unfolding sweep sweep_loop dead collect record_heartbeat insert sort place on_db interfere act_all
    reclaim_jobs call reclaim reclaimed reclaim_rows enqueue_all enqueue_outbox pending_rows
    join_jobs join_all
few = omega arith

abbrev d_of : Dispatcher (ℕ × Registry)
d_of = record {
  workers = "w1" ∷ "w2" ∷ [];
  by_name = ("w1", "w1") ∷ ("w2", "w2") ∷ [];
  candidates = some available_now;
  next = 0;
}

crash_recovered_example :
    let r = sweep 100 steady two_workers 0 in
    (0 < r.1)
    × (lookup "w1" r.0.reg.workers ≡ none)
    × ¬ (Has "w1" (eligible (101, heard_from ((101, "w2", 4, 1) ∷ []) r.0.reg) d_of).0)
    × ((new : List Uuid) × ((drain r.0.world).offered ≡ new ++ r.0.world.offered)
        × (1 ≤ count 0 new))
crash_recovered_example =
    crash_recovered steady two_workers 100 101 0 "w1" 0 ("w2" ∷ "w1" ∷ []) d_of
      ((101, "w2", 4, 1) ∷ []) (record { alone = refl; served = refl }) two_workers-IsRegistry
      (unfold record_heartbeat lookup insert in (_, refl, refl)) (inl (refl, refl, omega arith)) few
      (unfold Dispatch.new sort place in refl) ((λ e. ground (arith, (eq_iff "w2" "w1").1 e)), tt)

abbrev takes : String → Bool
takes addr = str_eq addr "b:1"

abbrev configured : List (String × String)
configured = ("a", "b:1") ∷ ("b", "c:1") ∷ []

abbrev net : Net
net = record { next = 2; live = 1 ∷ [] }

connections_closed_example :
    let names = sort lt_str (map name_of configured) in
    Opened Router.close names net (Router.dial takes configured net)
    × Opened Offerer.close names net (Offerer.dial takes configured net)
    × Opened Beater.close names net (Beater.dial takes configured net)
    × Opened Dashboard.close names net (Dashboard.dial takes configured net)
    × Reports net (Reporter.dial takes "b:1" net)
    × ((gossip_connections takes configured "c" net).1.live ≡ net.live)
    × ((check_target takes (λ addr. true) "b:1" net).1.live ≡ net.live)
connections_closed_example =
    connections_closed takes (λ addr. true) configured "c" "b:1" net (omega arith, tt)

abbrev all_valid : Payload → Bool
all_valid bytes = true

abbrev second_up : ℕ → Bool
second_up j = j == 1
