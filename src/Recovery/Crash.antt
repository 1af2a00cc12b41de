-- ===== src/Recovery/Crash.antt =====
-- A sweep and a drain after a worker has crashed.
use ironwork.Prelude.{
  some, if◌then◌else◌, All, ℕ, zero, suc, ◌++◌, subst, ◌<◌, ◌≤◌, ◌≡◌, ◌≢◌, refl, sym, ◌∙◌, String,
  Bool, true, false, not, ◌||◌, none, List, [], ◌∷◌, Any, inl, inr, Bool-cases, arith, str_eq,
  eq_iff, length,
}
use ironwork.Dict.{lookup, lookup-delete, lookup-insert}
use ironwork.Store.Rows.{Uuid, Job, ok}
use ironwork.Store.Outbox.{reclaim, reclaim_jobs}
use ironwork.Registry.{Registry, WorkerState, record_heartbeat, dead, forget, seen_within}
use ironwork.Registry.Liveness.{IsRegistry, IsNamed, forget-IsRegistry, record_heartbeat-IsRegistry}
use ironwork.Registry.Complete.{dead_iff}
use ironwork.Relay.{World, wake, drain, drain_batch}
use ironwork.Reaper.{Reaper, reclaimed_from, sweep_loop, sweep, is_nil}
use ironwork.Dispatch.{Dispatcher, eligible}
use ironwork.Dispatch.Registered.{Has, IsNew, eligible_iff}
use ironwork.Relay.Offers.{count}
use ironwork.Recovery.Served.{IsQuiet, on_db-served}
use ironwork.Recovery.Returned.{
  Flies, Waits, reclaimed-Any, reclaim-Waits, reclaim-Waits_kept, reclaim-Flies, reclaim-faults,
}
use ironwork.Recovery.Offered.{claims, drain-offered}

-- The next state of the sweep's loop, where the database serves the reclaim.
abbrev after : String → Reaper → Reaper
after n r =
    reclaimed_from n (ok (reclaim n r.world.db).0)
      (record r.world { db = (reclaim n r.world.db).1 }) r

sweep_loop-served :
    (n : String) (names : List String) (r : Reaper)
    → IsQuiet r.world
    → sweep_loop (n ∷ names) r ≡ sweep_loop names (after n r)
unfolding sweep_loop reclaim_jobs
sweep_loop-served n names r q = rw (on_db-served _ r.world q) refl

after-IsQuiet : (n : String) (r : Reaper) → IsQuiet r.world → IsQuiet (after n r).world
after-IsQuiet n r q = record { alone = q.alone; served = reclaim-faults n r.world.db ∙ q.served }

-- The worker's job has been taken back, and the worker forgotten.
record Swept (id : Uuid) (worker : String) (r : Reaper) : Type 0 where
  quiet : IsQuiet r.world
  waits : Waits id r.world.db
  forgotten : lookup worker r.reg.workers ≡ none
  reenqueued : r.reenqueued ≡ true
  registry : IsRegistry r.reg

after-Swept :
    (id : Uuid) (worker n : String) (r : Reaper) → Swept id worker r → Swept id worker (after n r)
unfolding forget
after-Swept id worker n r h = record {
  quiet = after-IsQuiet n r h.quiet;
  waits = reclaim-Waits_kept id n r.world.db h.waits;
  forgotten = ground (arith, lookup-delete n worker r.reg.workers, h.forgotten);
  reenqueued = rw h.reenqueued refl;
  registry = unfold forget in forget-IsRegistry r.reg n h.registry;
}

sweep_loop-Swept :
    (id : Uuid) (worker : String) (names : List String) (r : Reaper)
    → Swept id worker r
    → Swept id worker (sweep_loop names r)
sweep_loop-Swept id worker [] r h = unfold sweep_loop in h
sweep_loop-Swept id worker (n ∷ names) r h =
    rw (sweep_loop-served n names r h.quiet)
      (sweep_loop-Swept id worker names (after n r) (after-Swept id worker n r h))

not_nil :
    (P : Job → Type 0) (b : Bool) (jobs : List Job) → Any P jobs → b || not (is_nil jobs) ≡ true
not_nil P true jobs h = refl
not_nil P false [] h = elim h [ ]
not_nil P false (j ∷ jobs) h = refl

reclaimed-Swept :
    (id : Uuid) (worker : String) (r : Reaper)
    → IsQuiet r.world
    → IsRegistry r.reg
    → Flies id worker r.world.db
    → Swept id worker (after worker r)
unfolding forget reclaim
reclaimed-Swept id worker r q i h = record {
  quiet = unfold reclaim in after-IsQuiet worker r q;
  waits = unfold reclaim in reclaim-Waits id worker r.world.db h;
  forgotten = ground (arith, lookup-delete worker worker r.reg.workers, eq_iff worker worker);
  reenqueued =
      not_nil _ r.reenqueued _ (reclaimed-Any id worker r.world.db.clock r.world.db.jobs h);
  registry = unfold forget in forget-IsRegistry r.reg worker i;
}

dead-Swept :
    (id : Uuid) (worker : String) (names : List String) (r : Reaper)
    → IsQuiet r.world
    → IsRegistry r.reg
    → Flies id worker r.world.db
    → Has worker names
    → Swept id worker (sweep_loop names r)
dead-Swept id worker [] r q i h m = elim m [ ]
dead-Swept id worker (n ∷ names) r q i h m =
    rw (sweep_loop-served n names r q) (elim (Bool-cases (str_eq n worker)) [
      | inl y ↦
          let e : worker ≡ n = sym ((eq_iff n worker).0 y) in
          subst (λ k. Swept id worker (sweep_loop names (after k r))) e
            (sweep_loop-Swept id worker names (after worker r) (reclaimed-Swept id worker r q i h))
      | inr x ↦
          let ne : n ≢ worker = ground (arith, eq_iff n worker) in
          dead-Swept id worker names (after n r) (after-IsQuiet n r q)
            (unfold forget in forget-IsRegistry r.reg n i)
            (reclaim-Flies id n worker r.world.db ne h)
            (elim m [ inl e ↦ absurd (ne (sym e)) | inr k ↦ k ])
    ])

wake-pos : (wakes : ℕ) → 0 < wake wakes
unfolding wake
wake-pos zero = omega arith
wake-pos (suc n) = omega arith

-- The registry after further heartbeats and registrations: when, whose, the capacity, the jobs.
unfoldable pub heard_from : List (ℕ × String × ℕ × ℕ) → Registry → Registry
heard_from [] r = r
heard_from ((now, name, capacity, inflight) ∷ beats) r =
    heard_from beats (record_heartbeat now r name capacity inflight)

heard_from-forgotten :
    (worker : String) (beats : List (ℕ × String × ℕ × ℕ)) (r : Registry)
    → All (λ (b : ℕ × String × ℕ × ℕ). b.1 ≢ worker) beats
    → IsRegistry r
    → lookup worker r.workers ≡ none
    → IsRegistry (heard_from beats r) × (lookup worker (heard_from beats r).workers ≡ none)
unfolding heard_from record_heartbeat
heard_from-forgotten worker [] r h i f = (i, f)
heard_from-forgotten worker ((now, name, capacity, inflight) ∷ beats) r h i f =
    heard_from-forgotten worker beats (record_heartbeat now r name capacity inflight) h.1
      (record_heartbeat-IsRegistry now r name capacity inflight i)
      (lookup-insert name worker _ r.workers ∙ missed _)
  where
    missed :
        (v : WorkerState) → (if str_eq name worker then some v else lookup worker r.workers) ≡ none
    missed v = ground (arith, eq_iff name worker, h.0, f)

-- When a job that was started less than three times is in flight at a worker that was not heard from
-- within the dead time, the leader's sweep wakes the relay and forgets the worker; until the worker is
-- heard from again, whoever else is, it is offered no job; and the relay's next drain offers the job.
-- Nobody else acts meanwhile, the database serves every call, and no more commands are pending after
-- the sweep than a drain claims.
pub crash_recovered :
    (w : World) (reg : Registry) (now later wakes : ℕ) (worker : String) (id : Uuid)
    (names : List String) (d : Dispatcher (ℕ × Registry)) (beats : List (ℕ × String × ℕ × ℕ))
    → IsQuiet w
    → IsRegistry reg
    → IsNamed (λ v. not (seen_within reg.dead_ttl now v)) reg worker
    → Flies id worker w.db
    → length (claims (sweep now w reg wakes).0.world.db) ≤ drain_batch
    → IsNew names d
    → All (λ (b : ℕ × String × ℕ × ℕ). b.1 ≢ worker) beats
    → let r = sweep now w reg wakes in
      (0 < r.1)
      × (lookup worker r.0.reg.workers ≡ none)
      × ¬ (Has worker (eligible (later, heard_from beats r.0.reg) d).0)
      × ((new : List Uuid) × ((drain r.0.world).offered ≡ new ++ r.0.world.offered)
          × (1 ≤ count id new))
unfolding sweep
crash_recovered w reg now later wakes worker id names d beats q i u h le e away =
    let s =
      dead-Swept id worker (dead now reg) (record { world = w; reg = reg; reenqueued = false }) q i
        h ((dead_iff now reg worker i).1 u) in
    let a = heard_from-forgotten worker beats _ away s.registry s.forgotten in
    (
      rw s.reenqueued (wake-pos wakes),
      s.forgotten,
      (λ m.
          let (v, f, y, z) = ((eligible_iff names d later _ worker e a.0).0 m).1 in
          absurd (cc (f, a.1))),
      drain-offered _ s.quiet le id s.waits,
    )
