-- ===== src/Heartbeat/Tolerance.antt =====
-- How many beats may be lost.
use ironwork.Prelude.{
  ℕ, ◌+◌, ◌*◌, ◌%◌, ◌^◌, ◌<◌, ◌≤◌, ◌≡◌, ◌≢◌, refl, String, none, some, List, [], ◌∷◌, All, All-imp,
  Any, length, arith, not, subst, Option-cases, inl, inr,
}
use ironwork.Dict.{lookup}
use ironwork.Registry.{WorkerState, Registry, record_heartbeat, seen_within, available, dead}
use ironwork.Registry.Liveness.{IsRegistry, IsNamed, record_heartbeat-IsRegistry, dead-IsNamed}
use ironwork.Registry.Complete.{available_iff}
use ironwork.Heartbeat.{
  second, interval, worker_stale_ttl, worker_dead_ttl, Loop, Registries, Arrivals, handle, beats,
  Tick, run,
}
use ironwork.Heartbeat.Fanout.{
  Once, heard, run-heard, entry, IsNamedLoop, beats-record, registers-record, lookup-record,
}

-- A worker with a name and with room registers at this scheduler, once the loop has started.
pub record Registers (l : Loop) (t : String) (start : ℕ) (registration : Arrivals) (reg : Registry)
    (now : ℕ) : Type 0 where
  pub named : IsNamedLoop l
  pub once : Once t l.targets
  pub valid : IsRegistry reg
  pub room : 0 < l.capacity % 2 ^ 32
  pub arrives : registration t ≡ some now
  pub started : start ≤ now

module _ (l : Loop) (t : String) (start most read : ℕ) where
  -- From the tick `n` on, no more than `most` beats in succession are lost on the way to the
  -- scheduler, where `lost` of them already are; none arrives before it is sent, `n` intervals after
  -- the start, or later than the registry is read, and each reports a free slot.
  abbrev pub Hears : ℕ → ℕ → List Tick → Type 0
  Hears n lost [] = Unit
  Hears n lost (k ∷ ks) = (k.inflight % 2 ^ 32 < l.capacity % 2 ^ 32) × elim (k.arrivals t) [
    | none ↦ (lost < most) × Hears (n + 1) (lost + 1) ks
    | some now ↦ (start + n * interval ≤ now) × (now ≤ read) × Hears (n + 1) 0 ks
  ]

  -- A registry that was heard from no more than `lost` intervals before the tick `n`.
  record IsHeard (reg0 : Registry) (n lost : ℕ) (reg : Registry) : Type 0 where
    valid : IsRegistry reg
    stale_ttl : reg.stale_ttl ≡ reg0.stale_ttl
    dead_ttl : reg.dead_ttl ≡ reg0.dead_ttl
    worker : WorkerState
    found : lookup l.instance_name reg.workers ≡ some worker
    seen : start + n * interval ≤ worker.last_seen + (lost + 1) * interval
    room : worker.inflight < worker.capacity

  recorded :
      (reg0 reg : Registry) (n now inflight : ℕ)
      → IsRegistry reg
      → (reg.stale_ttl ≡ reg0.stale_ttl) × (reg.dead_ttl ≡ reg0.dead_ttl)
      → start + n * interval ≤ now
      → inflight % 2 ^ 32 < l.capacity % 2 ^ 32
      → IsHeard reg0
          (n + 1)
          0
          (record_heartbeat now reg l.instance_name (l.capacity % 2 ^ 32) (inflight % 2 ^ 32))
  recorded reg0 reg n now inflight v ttl le lt = record {
    valid = record_heartbeat-IsRegistry now reg l.instance_name _ _ v;
    stale_ttl = unfold record_heartbeat in ttl.0;
    dead_ttl = unfold record_heartbeat in ttl.1;
    worker = entry l inflight now;
    found = lookup-record l inflight now reg;
    seen = omega (arith, le);
    room = lt;
  }

  module _ (named : IsNamedLoop l) (reg0 : Registry) where
    step :
        (n lost : ℕ) (k : Tick) (ks : List Tick) (reg : Registry)
        → IsHeard reg0 n lost reg
        → lost ≤ most
        → Hears n lost (k ∷ ks)
        → (lost' : ℕ) × (lost' ≤ most)
          × Hears (n + 1) lost' ks
          × IsHeard reg0 (n + 1) lost' (handle (beats l k.inflight) (k.arrivals t) reg)
    step n lost k ks reg h le e = elim (Option-cases (k.arrivals t)) [
      | inl x ↦
          let (lt, more) = simp x at e.1 in
          rw x (
            lost + 1,
            omega (arith, lt),
            more,
            record {
              valid = h.valid;
              stale_ttl = h.stale_ttl;
              dead_ttl = h.dead_ttl;
              worker = h.worker;
              found = h.found;
              seen = omega (arith, h.seen);
              room = h.room;
            },
          )
      | inr (now, x) ↦
          let (at, past, more) = simp x at e.1 in
          rw (x, beats-record l k.inflight now reg named)
            (
              0,
              omega arith,
              more,
              recorded reg0 reg n now k.inflight h.valid (h.stale_ttl, h.dead_ttl) at e.0,
            )
    ]

    heard-IsHeard :
        (n lost : ℕ) (ks : List Tick) (reg : Registry)
        → IsHeard reg0 n lost reg
        → lost ≤ most
        → Hears n lost ks
        → IsHeard reg0 (n + length ks) most (heard l t ks reg)
    unfolding heard
    heard-IsHeard n lost [] reg h le e = record {
      valid = h.valid;
      stale_ttl = h.stale_ttl;
      dead_ttl = h.dead_ttl;
      worker = h.worker;
      found = h.found;
      seen = omega (arith, h.seen, le);
      room = h.room;
    }
    heard-IsHeard n lost (k ∷ ks) reg h le e =
        let (lost', le', more, h') = step n lost k ks reg h le e in
        subst
          (λ j. IsHeard reg0 j most (heard l t ks (handle (beats l k.inflight) (k.arrivals t) reg)))
          (omega arith) (heard-IsHeard (n + 1) lost' ks _ h' le' more)

  run-IsHeard :
      (registration : Arrivals) (now : ℕ) (ks : List Tick) (regs : Registries)
      → Registers l t start registration (regs t) now
      → Hears 1 0 ks
      → IsHeard (regs t) (1 + length ks) most (run l registration ks regs t)
  run-IsHeard registration now ks regs h e =
      rw
        (
          run-heard l registration t ks regs h.once,
          h.arrives,
          registers-record l now (regs t) h.named,
        )
        (heard-IsHeard h.named (regs t) 1 0 ks _
          (recorded (regs t) (regs t) 0 now 0 h.valid (refl, refl) (omega (arith, h.started))
            h.room)
          (omega arith) e)

module _ (l : Loop) (t : String) (start now : ℕ) (registration : Arrivals) (at : ℕ) (ks : List Tick)
    (regs : Registries) (h : Registers l t start registration (regs t) at) where
  -- Until a second after the next beat is due, a scheduler that registered the worker from the loop's
  -- start on goes on offering it jobs, if of the beats that were due no two in succession are lost on
  -- the way to it, each of the others has arrived by now, not before it was due, and each reports a
  -- free slot; the worker has a name and room, and the
  -- stale time is that of the schedulers.
  pub available_one_lost :
      at ≤ now
      → Hears l t start 1 now 1 0 ks
      → (regs t).stale_ttl ≡ worker_stale_ttl
      → now ≤ start + (1 + length ks) * interval + second
      → Any (λ other. l.instance_name ≡ other) (available now (run l registration ks regs t))
  available_one_lost past e ttl le =
      let r = run-IsHeard l t start 1 now registration at ks regs h e in
      (available_iff now (run l registration ks regs t) l.instance_name r.valid).1
        (r.worker, r.found, ground (arith, r.seen, r.room, r.stale_ttl, ttl, le))

  -- Until the next beat is due, a scheduler that registered the worker from the loop's start on does
  -- not presume it dead, if of the beats that were due no four in succession are lost on the way
  -- to it, each of the others has arrived by now, not before it was due, and each reports a free slot; the worker has a name and room, and the dead time is that
  -- of the schedulers.
  pub dead_three_lost :
      at ≤ now
      → Hears l t start 3 now 1 0 ks
      → (regs t).dead_ttl ≡ worker_dead_ttl
      → now ≤ start + (1 + length ks) * interval
      → All (λ other. l.instance_name ≢ other) (dead now (run l registration ks regs t))
  dead_three_lost past e ttl le =
      let r = run-IsHeard l t start 3 now registration at ks regs h e in
      All-imp _ _ _ (λ other d q. clash r other d q)
        (dead-IsNamed now (run l registration ks regs t) r.valid)
    where
      clash :
          IsHeard l t start 3 now (regs t) (1 + length ks) 3 (run l registration ks regs t)
          → (other : String)
          → IsNamed
              (λ w. not (seen_within (run l registration ks regs t).dead_ttl now w))
              (run l registration ks regs t)
              other
          → l.instance_name ≢ other
      clash r other (w, p, y) q = ground (arith, r.seen, r.found, r.dead_ttl, ttl, le, p, y, q)
