-- ===== src/Heartbeat/Fanout.antt =====
-- What the loop makes of each scheduler's registry.
use ironwork.Prelude.{
  ℕ, ◌%◌, ◌^◌, ◌≡◌, ◌≢◌, refl, ap, ◌∙◌, ◌⊎◌, inl, inr, String, false, eq_iff, ◌==◌, Option, none,
  some, List, [], ◌∷◌, All, arith,
}
use ironwork.Dict.{lookup, lookup-insert}
use ironwork.Scheduler.{byte_length, register_worker, heartbeat}
use ironwork.Registry.{WorkerState, Registry, record_heartbeat}
use ironwork.Heartbeat.{
  Loop, Registries, Arrivals, handle, fan_out, registers, beats, Tick, ticks, run,
}

-- The loop reports to this scheduler, once a round.
abbrev pub Once : String → List String → Type 0
Once t [] = ⊥
Once t (u ∷ us) = ((t ≡ u) × All (λ v. t ≢ v) us) ⊎ ((t ≢ u) × Once t us)

module _ (arrivals : Arrivals) (fn : ℕ → Registry → Registry) (t : String) where
  fan_out-away :
      (targets : List String) (regs : Registries)
      → All (λ v. t ≢ v) targets
      → fan_out targets arrivals fn regs t ≡ regs t
  unfolding fan_out
  fan_out-away [] regs h = refl
  fan_out-away (u ∷ us) regs h = fan_out-away us _ h.1 ∙ ground (arith, eq_iff u t, h.0)

  fan_out-at :
      (targets : List String) (regs : Registries)
      → Once t targets
      → fan_out targets arrivals fn regs t ≡ handle fn (arrivals t) (regs t)
  unfolding fan_out
  fan_out-at [] regs h = absurd h
  fan_out-at (u ∷ us) regs (inl (e, h)) = fan_out-away us _ h ∙ ground (arith, eq_iff u t, e)
  fan_out-at (u ∷ us) regs (inr (n, h)) =
      fan_out-at us _ h ∙ ap (handle fn (arrivals t)) (ground (arith, eq_iff u t, n))

-- What a scheduler makes of the ticks by itself.
unfoldable pub heard : Loop → String → List Tick → Registry → Registry
heard l t [] reg = reg
heard l t (k ∷ later) reg = heard l t later (handle (beats l k.inflight) (k.arrivals t) reg)

ticks-heard :
    (l : Loop) (t : String) (ks : List Tick) (regs : Registries)
    → Once t l.targets
    → ticks l ks regs t ≡ heard l t ks (regs t)
unfolding ticks heard
ticks-heard l t [] regs h = refl
ticks-heard l t (k ∷ ks) regs h =
    ticks-heard l t ks _ h
    ∙ ap (heard l t ks) (fan_out-at k.arrivals (beats l k.inflight) t l.targets regs h)

-- Each scheduler hears the worker by itself: how the calls to the others fare makes no difference.
pub run-heard :
    (l : Loop) (registration : Arrivals) (t : String) (ks : List Tick) (regs : Registries)
    → Once t l.targets
    → run l registration ks regs t ≡ heard l t ks (handle (registers l) (registration t) (regs t))
unfolding run
run-heard l registration t ks regs h =
    ticks-heard l t ks _ h
    ∙ ap (heard l t ks) (fan_out-at registration (registers l) t l.targets regs h)

-- The entry of a worker that reports this load at this time.
abbrev pub entry : Loop → ℕ → ℕ → WorkerState
entry l inflight now = record {
  instance_name = l.instance_name;
  capacity = l.capacity % 2 ^ 32;
  inflight = inflight % 2 ^ 32;
  last_seen = now;
  alive = false;
}

abbrev pub heard_or : Option WorkerState → Loop → ℕ → Option ℕ → Option WorkerState
heard_or old l inflight none = old
heard_or old l inflight (some now) = some (entry l inflight now)

-- The last report that reached the scheduler, if any did.
abbrev pub latest : Loop → String → List Tick → Option WorkerState → Option WorkerState
latest l t [] old = old
latest l t (k ∷ later) old = latest l t later (heard_or old l k.inflight (k.arrivals t))

-- The worker has a name.
abbrev pub IsNamedLoop : Loop → Type 0
IsNamedLoop l = (byte_length l.instance_name == 0) ≡ false

pub beats-record :
    (l : Loop) (inflight now : ℕ) (reg : Registry)
    → IsNamedLoop l
    → beats l inflight now reg
      ≡ record_heartbeat now reg l.instance_name (l.capacity % 2 ^ 32) (inflight % 2 ^ 32)
unfolding heartbeat
beats-record l inflight now reg h = rw (beats, h) refl

pub registers-record :
    (l : Loop) (now : ℕ) (reg : Registry)
    → IsNamedLoop l
    → registers l now reg ≡ record_heartbeat now reg l.instance_name (l.capacity % 2 ^ 32) 0
unfolding register_worker
registers-record l now reg h = rw (registers, h) refl

pub lookup-record :
    (l : Loop) (inflight now : ℕ) (reg : Registry)
    → lookup l.instance_name
        (record_heartbeat now reg l.instance_name (l.capacity % 2 ^ 32) (inflight % 2 ^ 32)).workers
      ≡ some (entry l inflight now)
unfolding record_heartbeat
lookup-record l inflight now reg =
    lookup-insert l.instance_name l.instance_name (entry l inflight now) reg.workers
    ∙ ground (arith, eq_iff l.instance_name l.instance_name)

lookup-heard :
    (l : Loop) (t : String) (ks : List Tick) (reg : Registry)
    → IsNamedLoop l
    → lookup l.instance_name (heard l t ks reg).workers
      ≡ latest l t ks (lookup l.instance_name reg.workers)
unfolding heard
lookup-heard l t [] reg h = refl
lookup-heard l t (k ∷ ks) reg h = lookup-heard l t ks _ h ∙ ap (latest l t ks) (one (k.arrivals t))
  where
    one :
        (arrival : Option ℕ)
        → lookup l.instance_name (handle (beats l k.inflight) arrival reg).workers
          ≡ heard_or (lookup l.instance_name reg.workers) l k.inflight arrival
    one none = refl
    one (some now) = rw (beats-record l k.inflight now reg h) (lookup-record l k.inflight now reg)

-- The entry that a scheduler has for a worker with a name, which reports to it once a round, is the
-- last report that reached it, the registration included, and its old entry where none did.
pub run-latest :
    (l : Loop) (registration : Arrivals) (t : String) (ks : List Tick) (regs : Registries)
    → IsNamedLoop l
    → Once t l.targets
    → lookup l.instance_name (run l registration ks regs t).workers
      ≡ latest l t ks (heard_or (lookup l.instance_name (regs t).workers) l 0 (registration t))
run-latest l registration t ks regs n h =
    ap (λ (r : Registry). lookup l.instance_name r.workers) (run-heard l registration t ks regs h)
    ∙ lookup-heard l t ks _ n
    ∙ ap (latest l t ks) (one (registration t))
  where
    one :
        (arrival : Option ℕ)
        → lookup l.instance_name (handle (registers l) arrival (regs t)).workers
          ≡ heard_or (lookup l.instance_name (regs t).workers) l 0 arrival
    one none = refl
    one (some now) = rw (registers-record l now (regs t) n) (lookup-record l 0 now (regs t))
