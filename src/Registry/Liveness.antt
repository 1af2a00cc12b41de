-- ===== src/Registry/Liveness.antt =====
-- What a heartbeat means: whom the scheduler offers jobs to, and whom it gives up.
use ironwork.Prelude.{
  ◌∙◌, sym, eq_iff, ◌+◌, subst, ℕ, ◌≤◌, ◌≡◌, ◌≢◌, refl, String, Bool, true, not, inl, inr, List, [],
  ◌∷◌, All, All-imp, All-zip, Bool-cases, some, arith, All-self, map-All,
}
use ironwork.Dict.{
  lookup-insert, lookup, IsMap, insert-IsMap, insert-All, delete-IsMap, delete-All, lookup_of_Any,
}
use ironwork.Sort.{sort-All}
use ironwork.Registry.{
  WorkerState, Registry, record_heartbeat, seen_within, collect, is_available, to_cand, cands,
  better, available, dead, forget,
}

-- What a registry satisfies: one entry for a key, and each under the name of its worker.
pub record IsRegistry (r : Registry) : Type 0 where
  pub map_like : IsMap r.workers
  pub keyed : All (λ (e : String × WorkerState). e.0 ≡ e.1.instance_name) r.workers

collect-All :
    (P : WorkerState → Type 0) (p : WorkerState → Bool) (m : List (String × WorkerState))
    → All (λ (e : String × WorkerState). p e.1 ≡ true → P e.1) m
    → All P (collect p m)
unfolding collect
collect-All P p [] h = tt
collect-All P p ((k, w) ∷ m) h = elim (Bool-cases (p w)) [
  | inl y ↦ simp y (h.0 y, collect-All P p m h.1)
  | inr n ↦ simp n (collect-All P p m h.1)
]

-- Every entry is what a lookup of its key finds.
found-All :
    (m : List (String × WorkerState))
    → IsMap m
    → All (λ (e : String × WorkerState). lookup e.0 m ≡ some e.1) m
found-All m h = All-imp _ _ m (λ e a. lookup_of_Any e m h a) (All-self m)

-- The name is that of a worker in the table that passes the test.
abbrev pub IsNamed : (WorkerState → Bool) → Registry → String → Type 0
IsNamed p r name = (w : WorkerState) × (lookup name r.workers ≡ some w) × (p w ≡ true)

collect-IsNamed :
    (p : WorkerState → Bool) (r : Registry)
    → IsRegistry r
    → All (λ (w : WorkerState). IsNamed p r w.instance_name) (collect p r.workers)
collect-IsNamed p r h = collect-All _ p r.workers (
    All-imp _ _ r.workers (λ e k y. (e.1, subst (λ n. lookup n r.workers ≡ some e.1) k.0 k.1, y))
      (All-zip _ _ r.workers h.keyed (found-All r.workers h.map_like)))

-- The same, with the worker that is found.
pub collect-found :
    (p : WorkerState → Bool) (r : Registry)
    → IsRegistry r
    → All
        (λ (w : WorkerState).
          (v : WorkerState) × (lookup w.instance_name r.workers ≡ some v) × (p v ≡ true) × (w ≡ v))
        (collect p r.workers)
collect-found p r h = collect-All _ p r.workers (
    All-imp _ _ r.workers
      (λ e k y. (e.1, subst (λ n. lookup n r.workers ≡ some e.1) k.0 k.1, y, refl))
      (All-zip _ _ r.workers h.keyed (found-All r.workers h.map_like)))

-- Every worker that a scheduler offers jobs to is in its table, was heard from within the stale
-- time, and has a free slot.
pub available-IsNamed :
    (now : ℕ) (r : Registry)
    → IsRegistry r
    → All (IsNamed (is_available r.stale_ttl now) r) (available now r)
unfolding available cands
available-IsNamed now r h =
    map-All _ _ _ (
      sort-All _ better _
        (map-All _ to_cand _ (collect-IsNamed (is_available r.stale_ttl now) r h)))

pub dead-IsNamed :
    (now : ℕ) (r : Registry)
    → IsRegistry r
    → All (IsNamed (λ w. not (seen_within r.dead_ttl now w)) r) (dead now r)
unfolding dead
dead-IsNamed now r h = sort-All _ _ _ (map-All _ _ _ (collect-IsNamed _ r h))

-- No worker is offered jobs and presumed dead at the same time, if a worker is stale before it is
-- dead.
pub available-dead :
    (now : ℕ) (r : Registry)
    → IsRegistry r
    → r.stale_ttl ≤ r.dead_ttl
    → All (λ name. All (λ other. name ≢ other) (dead now r)) (available now r)
available-dead now r h le =
    All-imp _ _ _
      (λ name a. All-imp _ _ _ (λ other d e. clash name other a d e) (dead-IsNamed now r h))
      (available-IsNamed now r h)
  where
    clash :
        (name other : String)
        → IsNamed (is_available r.stale_ttl now) r name
        → IsNamed (λ w. not (seen_within r.dead_ttl now w)) r other
        → name ≢ other
    clash name other (w, p, y) (v, q, z) e = ground arith

-- A heartbeat leaves a registry a registry.
pub record_heartbeat-IsRegistry :
    (now : ℕ) (r : Registry) (name : String) (capacity inflight : ℕ)
    → IsRegistry r
    → IsRegistry (record_heartbeat now r name capacity inflight)
unfolding record_heartbeat
record_heartbeat-IsRegistry now r name capacity inflight h = record {
  map_like = insert-IsMap name _ r.workers h.map_like;
  keyed = insert-All _ name _ r.workers refl h.keyed;
}

-- From a heartbeat on, until the dead time has passed, the worker is not presumed dead.
pub dead-record_heartbeat :
    (now later : ℕ) (r : Registry) (name : String) (capacity inflight : ℕ)
    → IsRegistry r
    → later ≤ now + r.dead_ttl
    → All (λ other. name ≢ other) (dead later (record_heartbeat now r name capacity inflight))
unfolding record_heartbeat
dead-record_heartbeat now later r name capacity inflight h le =
    All-imp _ _ _ (λ other d e. clash other d e)
      (dead-IsNamed later (record_heartbeat now r name capacity inflight)
        (record_heartbeat-IsRegistry now r name capacity inflight h))
  where
    clash :
        (other : String)
        → IsNamed
            (λ w. not (seen_within r.dead_ttl later w))
            (record_heartbeat now r name capacity inflight)
            other
        → name ≢ other
    clash other (w, p, q) e =
        ground (arith, sym (lookup-insert name other _ r.workers) ∙ p, eq_iff name other)

-- So does forgetting a worker.
pub forget-IsRegistry : (r : Registry) (name : String) → IsRegistry r → IsRegistry (forget r name)
unfolding forget
forget-IsRegistry r name h = record {
  map_like = delete-IsMap name r.workers h.map_like;
  keyed = delete-All _ name r.workers h.keyed;
}
