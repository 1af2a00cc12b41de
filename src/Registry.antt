-- ===== src/Registry.antt =====
-- internal/registry/registry.go: the heartbeat table of a scheduler. A time is a number of
-- nanoseconds, and `now.Sub(w.LastSeen) <= ttl` is `now ≤ last_seen + ttl`, which holds of a negative
-- difference too. The mutex makes each method one step.
pub mod Order
pub mod Liveness
pub mod Complete
use ironwork.Prelude.{
  ℕ, ◌+◌, ◌-◌, ◌<◌, String, Bool, true, false, not, ◌&&◌, Option, none, some, List, [], ◌∷◌, map,
  ltb, leb, ◌==◌, lt_str, if◌then◌else◌,
}
use ironwork.Dict.{lookup, insert, delete}
use ironwork.Sort.{sort}

pub record WorkerState : Type 0 where
  pub instance_name : String
  pub capacity : ℕ
  pub inflight : ℕ
  pub last_seen : ℕ
  pub alive : Bool

pub record Registry : Type 0 where
  pub workers : List (String × WorkerState)
  pub stale_ttl : ℕ
  pub dead_ttl : ℕ

-- New
abbrev pub new : ℕ → ℕ → Registry
new stale_ttl dead_ttl = record { workers = []; stale_ttl = stale_ttl; dead_ttl = dead_ttl }

-- (*Registry).Record
unfoldable pub record_heartbeat : ℕ → Registry → String → ℕ → ℕ → Registry
record_heartbeat now r name capacity inflight = record r {
  workers =
      insert name
        (record {
          instance_name = name;
          capacity = capacity;
          inflight = inflight;
          last_seen = now;
          alive = false;
        })
        r.workers;
}

-- `now.Sub(w.LastSeen) <= ttl`
abbrev pub seen_within : ℕ → ℕ → WorkerState → Bool
seen_within ttl now w = leb now (w.last_seen + ttl)

unfoldable pub collect : (WorkerState → Bool) → List (String × WorkerState) → List WorkerState
collect p [] = []
collect p ((k, w) ∷ m) = let rest = collect p m in if p w then w ∷ rest else rest

abbrev pub by_name : WorkerState → WorkerState → Bool
by_name a b = lt_str a.instance_name b.instance_name

abbrev with_alive : ℕ → ℕ → WorkerState → WorkerState
with_alive ttl now w = record w { alive = seen_within ttl now w }

-- (*Registry).Snapshot
unfoldable pub snapshot : ℕ → Registry → List WorkerState
snapshot now r = sort by_name (map (with_alive r.dead_ttl now) (collect (λ _. true) r.workers))

-- A candidate for placement, with its free capacity.
pub record Cand : Type 0 where
  pub name : String
  pub free : ℕ

-- Most headroom first, ties by name.
abbrev pub better : Cand → Cand → Bool
better a b = if not (a.free == b.free) then ltb b.free a.free else lt_str a.name b.name

abbrev pub is_available : ℕ → ℕ → WorkerState → Bool
is_available ttl now w = seen_within ttl now w && ltb w.inflight w.capacity

abbrev pub to_cand : WorkerState → Cand
to_cand w = record { name = w.instance_name; free = w.capacity - w.inflight }

unfoldable pub cands : ℕ → Registry → List Cand
cands now r = map to_cand (collect (is_available r.stale_ttl now) r.workers)

-- (*Registry).Available
unfoldable pub available : ℕ → Registry → List String
available now r = map (λ (c : Cand). c.name) (sort better (cands now r))

-- (*Registry).Dead
unfoldable pub dead : ℕ → Registry → List String
dead now r = sort lt_str (
    map (λ (w : WorkerState). w.instance_name)
      (collect (λ w. not (seen_within r.dead_ttl now w)) r.workers))

-- (*Registry).Forget
unfoldable pub forget : Registry → String → Registry
forget r name = record r { workers = delete name r.workers }
