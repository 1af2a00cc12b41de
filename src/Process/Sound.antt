-- ===== src/Process/Sound.antt =====
-- What an event does to the tables, the registry and the pending wakes.
use ironwork.Prelude.{
  ℕ, zero, suc, ◌≤◌, String, Bool, true, false, ◌||◌, ◌⊎◌, inl, inr, List, [], ◌∷◌, ltb, ◌==◌,
  Bool-cases, arith, if◌then◌else◌,
}
use ironwork.Store.Rows.{Uuid, Payload, Job, Db, Result, ok, err, later_faults}
use ironwork.Store.Outbox.{claim_outbox, create_job_with_outbox, reclaim_jobs}
use ironwork.Registry.Liveness.{IsRegistry, record_heartbeat-IsRegistry, forget-IsRegistry}
use ironwork.Relay.{
  World, Signal, ticked, woken, turn, round, drain, drain_batch, on_db, entries_of, interfere, wake,
}
use ironwork.Relay.Cover.{IsSafe}
use ironwork.Relay.Actions.{interfere-Keeps}
use ironwork.Relay.Reclaim.{insert_both-Keeps}
use ironwork.Relay.Ready.{faults-Keeps, call-cases}
use ironwork.Relay.Drain.{GivenUp, Covered-imp, drain-Covered}
use ironwork.Reaper as Reaper
use ironwork.Reaper.{Reaper, sweep_loop, sweep, reclaimed_from}
use ironwork.Reaper.Sweep.{sweep_loop-IsSafe}
use ironwork.Scheduler.{
  submit_job, submit_reply, register_worker, heartbeat, byte_length, max_name_length,
}
use ironwork.Process.{Scheduler, Event, submits, registers, beats, relays, reaps, step}

-- The jobs that a turn of the relay gives up.
abbrev pub TurnGivesUp : Signal → Bool → ℕ → World → Uuid → Type 0
TurnGivesUp signal false pending w job = ⊥
TurnGivesUp woken true zero w job = ⊥
TurnGivesUp woken true (suc pending) w job =
    GivenUp (entries_of (on_db (claim_outbox drain_batch) w).0) job
TurnGivesUp ticked true pending w job =
    GivenUp (entries_of (on_db (claim_outbox drain_batch) w).0) job

abbrev pub StepGivesUp : Event → Scheduler → Uuid → Type 0
StepGivesUp (relays signal leads) p job = TurnGivesUp signal leads p.wakes p.world job
StepGivesUp _ p job = ⊥

-- What every state of a scheduler satisfies.
pub record IsSound (Lost : Uuid → Type 0) (p : Scheduler) : Type 0 where
  pub safe : IsSafe 0 Lost p.world.db
  pub registry : IsRegistry p.reg
  pub one_wake : p.wakes ≤ 1

wake-le : (n : ℕ) → n ≤ 1 → wake n ≤ 1
unfolding wake
wake-le zero h = omega arith
wake-le (suc n) h = h

module _ (Lost : Uuid → Type 0) where
  pub imp :
      (Lost' : Uuid → Type 0) (db : Db)
      → ((job : Uuid) → Lost job → Lost' job)
      → IsSafe 0 Lost db
      → IsSafe 0 Lost' db
  imp Lost' db f h = record {
    covered = Covered-imp Lost Lost' db f h.covered;
    bound = h.bound;
    tables = h.tables;
  }

  create-IsSafe :
      (name : String) (payload : Payload) (w : World)
      → IsSafe 0 Lost w.db
      → IsSafe 0 Lost (on_db (create_job_with_outbox name payload) w).1.db
  unfolding on_db create_job_with_outbox
  create-IsSafe name payload w h =
      let db : Db = (interfere w).db in
      let s =
        (faults-Keeps 0 Lost db (later_faults db.faults)).safe
          ((interfere-Keeps 0 Lost w).safe h) in
      call-cases (IsSafe 0 Lost) _ db s ((insert_both-Keeps 0 Lost _ name payload).safe s)

  submit_job-IsSafe :
      (leads : Bool) (name : String) (payload : Payload) (wakes : ℕ) (w : World)
      → IsSafe 0 Lost w.db
      → wakes ≤ 1
      → IsSafe 0 Lost (submit_job leads name payload wakes w).1.db
        × ((submit_job leads name payload wakes w).0.1 ≤ 1)
  unfolding submit_job
  submit_job-IsSafe false name payload wakes w h le = (h, le)
  submit_job-IsSafe true name payload wakes w h le =
      elim (Bool-cases (byte_length name == 0 || ltb max_name_length (byte_length name))) [
        | inl y ↦ rw y (h, le)
        | inr n ↦ rw n (
            replied (on_db (create_job_with_outbox name payload) w)
              (create-IsSafe name payload w h))
      ]
    where
      replied :
          (q : Result Job × World)
          → IsSafe 0 Lost q.1.db
          → IsSafe 0 Lost (submit_reply q wakes).1.db × ((submit_reply q wakes).0.1 ≤ 1)
      replied (ok job, w) h = (h, wake-le wakes le)
      replied (err e, w) h = (h, le)

  sweep_loop-IsRegistry :
      (names : List String) (r : Reaper) → IsRegistry r.reg → IsRegistry (sweep_loop names r).reg
  unfolding sweep_loop
  sweep_loop-IsRegistry [] r h = h
  sweep_loop-IsRegistry (n ∷ names) r h =
      sweep_loop-IsRegistry names _ (one (on_db (reclaim_jobs n) r.world))
    where
      one : (q : Result (List Job) × World) → IsRegistry (reclaimed_from n q.0 q.1 r).reg
      one (ok jobs, w) = forget-IsRegistry r.reg n h
      one (err e, w) = h

  tick-IsSound :
      (leads : Bool) (now : ℕ) (p : Scheduler)
      → IsSound Lost p
      → IsSound Lost (step (reaps leads now) p)
  unfolding step Reaper.tick sweep
  tick-IsSound false now p h = h
  tick-IsSound true now p h = record {
    safe = sweep_loop-IsSafe Lost _ _ h.safe;
    registry = sweep_loop-IsRegistry _ _ h.registry;
    one_wake = le_if _ p.wakes h.one_wake;
  }
    where
      le_if : (b : Bool) (n : ℕ) → n ≤ 1 → (if b then wake n else n) ≤ 1
      le_if true n le = wake-le n le
      le_if false n le = le

  register-IsSound :
      (now : ℕ) (worker : String) (capacity : ℕ) (p : Scheduler)
      → IsSound Lost p
      → IsSound Lost (step (registers now worker capacity) p)
  unfolding step register_worker
  register-IsSound now worker capacity p h = record {
    safe = h.safe;
    registry = elim (Bool-cases (byte_length worker == 0)) [
      | inl y ↦ simp y h.registry
      | inr n ↦ simp n (record_heartbeat-IsRegistry now p.reg worker capacity 0 h.registry)
    ];
    one_wake = h.one_wake;
  }

  beat-IsSound :
      (now : ℕ) (worker : String) (capacity inflight : ℕ) (p : Scheduler)
      → IsSound Lost p
      → IsSound Lost (step (beats now worker capacity inflight) p)
  unfolding step heartbeat
  beat-IsSound now worker capacity inflight p h = record {
    safe = h.safe;
    registry = elim (Bool-cases (byte_length worker == 0)) [
      | inl y ↦ simp y h.registry
      | inr n ↦ simp n (record_heartbeat-IsRegistry now p.reg worker capacity inflight h.registry)
    ];
    one_wake = h.one_wake;
  }

  drain-IsSafe :
      (w : World)
      → IsSafe 0 Lost w.db
      → IsSafe 0
          (λ job. Lost job ⊎ GivenUp (entries_of (on_db (claim_outbox drain_batch) w).0) job)
          (drain w).db
  drain-IsSafe w h =
      let r = drain-Covered Lost w h.tables h.covered in
      record { covered = r.0; bound = omega arith; tables = r.1 }

  turn-IsSafe :
      (signal : Signal) (leads : Bool) (pending : ℕ) (w : World)
      → IsSafe 0 Lost w.db
      → pending ≤ 1
      → IsSafe 0
          (λ job. Lost job ⊎ TurnGivesUp signal leads pending w job)
          (turn signal leads (pending, w)).1.db
        × ((turn signal leads (pending, w)).0 ≤ 1)
  unfolding turn round
  turn-IsSafe woken leads zero w h le = (imp _ w.db (λ job l. inl l) h, le)
  turn-IsSafe woken false (suc pending) w h le = (imp _ w.db (λ job l. inl l) h, omega (arith, le))
  turn-IsSafe woken true (suc pending) w h le = (drain-IsSafe w h, omega (arith, le))
  turn-IsSafe ticked false pending w h le = (imp _ w.db (λ job l. inl l) h, le)
  turn-IsSafe ticked true pending w h le = (drain-IsSafe w h, le)

  pub wider : (q : Scheduler) → IsSound Lost q → IsSound (λ job. Lost job ⊎ ⊥) q
  wider q h = record {
    safe = imp _ _ (λ job l. inl l) h.safe;
    registry = h.registry;
    one_wake = h.one_wake;
  }

  pub step-IsSound :
      (e : Event) (p : Scheduler)
      → IsSound Lost p
      → IsSound (λ job. Lost job ⊎ StepGivesUp e p job) (step e p)
  step-IsSound (submits leads name payload) p h =
      let r = submit_job-IsSafe leads name payload p.wakes p.world h.safe h.one_wake in
      unfold step in
      record { safe = imp _ _ (λ job l. inl l) r.0; registry = h.registry; one_wake = r.1 }
  step-IsSound (registers now worker capacity) p h =
      wider _ (register-IsSound now worker capacity p h)
  step-IsSound (beats now worker capacity inflight) p h =
      wider _ (beat-IsSound now worker capacity inflight p h)
  step-IsSound (reaps leads now) p h = wider _ (tick-IsSound leads now p h)
  step-IsSound (relays signal leads) p h =
      let r = turn-IsSafe signal leads p.wakes p.world h.safe h.one_wake in
      unfold step in record { safe = r.0; registry = h.registry; one_wake = r.1 }
