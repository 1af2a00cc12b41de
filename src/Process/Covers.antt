-- ===== src/Process/Covers.antt =====
-- The tables and the registry over the life of a scheduler.
use ironwork.Prelude.{◌≤◌, ◌≡◌, String, ◌⊎◌, inl, inr, some, List, [], subst, ◌∷◌, arith}
use ironwork.Store.Rows.{Uuid}
use ironwork.Registry.{new}
use ironwork.Heartbeat.{worker_stale_ttl, worker_dead_ttl}
use ironwork.Registry.Liveness.{IsRegistry}
use ironwork.Relay.{World}
use ironwork.Relay.Cover.{Covered, IsDb, IsSafe}
use ironwork.Dispatch.{new as dispatcher}
use ironwork.Process.{Scheduler, Event, step, run, start}
use ironwork.Process.Sound.{StepGivesUp, IsSound, imp, wider, step-IsSound}

-- The jobs that the relay gives up on the way.
abbrev pub GivesUp : List Event → Scheduler → Uuid → Type 0
GivesUp [] p job = ⊥
GivesUp (e ∷ events) p job = StepGivesUp e p job ⊎ GivesUp events (step e p) job

run-IsSound :
    (Lost : Uuid → Type 0) (events : List Event) (p : Scheduler)
    → IsSound Lost p
    → IsSound (λ job. Lost job ⊎ GivesUp events p job) (run events p)
unfolding run
run-IsSound Lost [] p h = wider Lost p h
run-IsSound Lost (e ∷ events) p h =
    let r =
      run-IsSound (λ job. Lost job ⊎ StepGivesUp e p job) events (step e p)
        (step-IsSound Lost e p h) in
    record {
      safe =
          imp _ _ _
            (λ job l. elim l [
              | inl (inl x) ↦ inl x
              | inl (inr x) ↦ inr (inl x)
              | inr x ↦ inr (inr x)
            ])
            r.safe;
      registry = r.registry;
      one_wake = r.one_wake;
    }

start_fields :
    (workers : List String) (w : World) (p : Scheduler)
    → start workers w ≡ some p
    → (w ≡ p.world) × (new worker_stale_ttl worker_dead_ttl ≡ p.reg) × (p.wakes ≡ 0)
unfolding start dispatcher
start_fields [] w p e = absurd (cc e)
start_fields (n ∷ workers) w p e = (cc e, cc e, cc e)

start-IsSound :
    (Lost : Uuid → Type 0) (workers : List String) (w : World) (p : Scheduler)
    → start workers w ≡ some p
    → IsDb w.db
    → Covered Lost w.db
    → IsSound Lost p
start-IsSound Lost workers w p e t c =
    let (x, y, z) = start_fields workers w p e in
    record {
      safe =
          subst (λ (v : World). IsSafe 0 Lost v.db) x
            (record { covered = c; bound = omega arith; tables = t });
      registry = subst IsRegistry y (record { map_like = tt; keyed = tt });
      one_wake = omega (arith, z);
    }

-- From its start on, whatever calls, signals and ticks come in whatever order, and whatever
-- clients, workers and other schedulers' reapers do and the database refuses meanwhile, while no other
-- scheduler's relay is at work, a scheduler has every pending job covered by a pending command, but for those lost before and those that its relay gave up because a budget was
-- exhausted; it keeps the tables sound, one entry for a worker under its name, and one wake of the
-- relay pending at most.
pub run_covers :
    (Lost : Uuid → Type 0) (workers : List String) (w : World) (p : Scheduler) (events : List Event)
    → start workers w ≡ some p
    → IsDb w.db
    → Covered Lost w.db
    → Covered (λ job. Lost job ⊎ GivesUp events p job) (run events p).world.db
      × IsDb (run events p).world.db
      × IsRegistry (run events p).reg
      × ((run events p).wakes ≤ 1)
run_covers Lost workers w p events e t c =
    let h = run-IsSound Lost events p (start-IsSound Lost workers w p e t c) in
    (h.safe.covered, h.safe.tables, h.registry, h.one_wake)
