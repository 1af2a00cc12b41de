-- ===== src/Heartbeat/Silence.antt =====
-- A worker whose beats no longer reach a scheduler.
use ironwork.Prelude.{
  ℕ, ◌+◌, ◌%◌, ◌^◌, ◌<◌, ◌≤◌, ◌≡◌, refl, String, some, List, [], ◌∷◌, All, Any, inl, inr, arith,
  Option-cases,
}
use ironwork.Dict.{lookup}
use ironwork.Registry.{WorkerState, Registry, record_heartbeat, available, dead}
use ironwork.Registry.Liveness.{IsRegistry, record_heartbeat-IsRegistry}
use ironwork.Registry.Complete.{available_iff, dead_iff}
use ironwork.Heartbeat.{worker_stale_ttl, worker_dead_ttl, Loop, Registries, Arrivals, Tick, run}
use ironwork.Heartbeat.Fanout.{
  Once, heard, run-heard, entry, IsNamedLoop, beats-record, registers-record, lookup-record,
}

module _ (l : Loop) (t : String) (last : ℕ) where
  -- Whatever of the tick reaches the scheduler reaches it by the time `last`.
  abbrev pub IsBefore : Tick → Type 0
  IsBefore k = (at : ℕ) → k.arrivals t ≡ some at → at ≤ last

  -- A registry that was heard from at the time `last` at the latest.
  record IsSilent (reg0 reg : Registry) : Type 0 where
    valid : IsRegistry reg
    stale_ttl : reg.stale_ttl ≡ reg0.stale_ttl
    dead_ttl : reg.dead_ttl ≡ reg0.dead_ttl
    worker : WorkerState
    found : lookup l.instance_name reg.workers ≡ some worker
    seen : worker.last_seen ≤ last

  module _ (reg0 : Registry) where
    recorded :
        (reg : Registry) (at inflight : ℕ)
        → IsRegistry reg
        → (reg.stale_ttl ≡ reg0.stale_ttl) × (reg.dead_ttl ≡ reg0.dead_ttl)
        → at ≤ last
        → IsSilent reg0
            (record_heartbeat at reg l.instance_name (l.capacity % 2 ^ 32) (inflight % 2 ^ 32))
    recorded reg at inflight v ttl le = record {
      valid = record_heartbeat-IsRegistry at reg l.instance_name _ _ v;
      stale_ttl = unfold record_heartbeat in ttl.0;
      dead_ttl = unfold record_heartbeat in ttl.1;
      worker = entry l inflight at;
      found = lookup-record l inflight at reg;
      seen = le;
    }

    heard-IsSilent :
        (ks : List Tick) (reg : Registry)
        → IsNamedLoop l
        → All IsBefore ks
        → IsSilent reg0 reg
        → IsSilent reg0 (heard l t ks reg)
    unfolding heard
    heard-IsSilent [] reg n b h = h
    heard-IsSilent (k ∷ ks) reg n b h =
        heard-IsSilent ks _ n b.1 (elim (Option-cases (k.arrivals t)) [
          | inl x ↦ rw x h
          | inr (at, x) ↦
              rw (x, beats-record l k.inflight at reg n)
                (recorded reg at k.inflight h.valid (h.stale_ttl, h.dead_ttl) (b.0 at x))
        ])

  -- A scheduler that registered the worker presumes it dead, and offers it no job, once eight seconds
  -- have passed since the last time at which it heard from it; the worker has a name and reports to
  -- the scheduler once a round, and the times are those of the schedulers.
  pub silent_dead :
      (registration : Arrivals) (at now : ℕ) (ks : List Tick) (regs : Registries)
      → IsNamedLoop l
      → Once t l.targets
      → IsRegistry (regs t)
      → ((regs t).stale_ttl ≡ worker_stale_ttl) × ((regs t).dead_ttl ≡ worker_dead_ttl)
      → registration t ≡ some at
      → at ≤ last
      → All IsBefore ks
      → last + worker_dead_ttl < now
      → Any (λ other. l.instance_name ≡ other) (dead now (run l registration ks regs t))
        × ¬ (Any (λ other. l.instance_name ≡ other) (available now (run l registration ks regs t)))
  silent_dead registration at now ks regs n o v ttl e le b late =
      let reg = run l registration ks regs t in
      let r : IsSilent (regs t) reg =
        rw (run-heard l registration t ks regs o, e, registers-record l at (regs t) n)
          (heard-IsSilent (regs t) ks _ n b (recorded (regs t) (regs t) at 0 v (refl, refl) le)) in
      (
        (dead_iff now reg l.instance_name r.valid).1
            (r.worker, r.found, ground (arith, r.seen, r.dead_ttl, ttl.1, late)),
        λ m.
            let (w, f, y) = (available_iff now reg l.instance_name r.valid).0 m in
            ground (arith, f, r.found, y, r.seen, r.stale_ttl, ttl.0, late),
      )
