-- ===== src/Recovery/Returned.antt =====
-- What a reclaim makes of a job in flight at a worker: it is pending again, with a command.
use ironwork.Prelude.{
  ℕ, ◌<◌, ◌≡◌, ◌≢◌, refl, String, true, false, Option, none, some, List, [], ◌∷◌, Any, inl, inr,
  Bool-cases, arith, eq_iff,
}
use ironwork.Store.Rows.{Uuid, Status, OutboxStatus, JobRow, OutboxRow, Job, Db}
use ironwork.Store.Outbox.{
  reclaim, reclaim_rows, reclaimed, reclaimable, enqueue_all, enqueue_outbox, assigned_to,
}
use ironwork.Relay.{max_execution_attempts, max_dispatch_attempts}
use ironwork.Reaper.Sweep.{enqueue_all-jobs}

-- The job is in flight at the worker, and may be executed once more.
abbrev pub IsFlying : Uuid → String → JobRow → Type 0
IsFlying id worker r =
    (r.id ≡ id) × (reclaimable worker r ≡ true) × (r.attempts < max_execution_attempts)

-- The job is pending and assigned to nobody, and may be executed once more.
abbrev pub IsReturned : Uuid → JobRow → Type 0
IsReturned id r =
    (r.id ≡ id)
    × (r.status ≡ Status.pending)
    × (r.assigned_worker_id ≡ none)
    × (r.attempts < max_execution_attempts)

-- A pending command for the job, which may be offered once more.
abbrev pub IsCommand : Uuid → OutboxRow → Type 0
IsCommand id o =
    (o.job_id ≡ id) × (o.status ≡ OutboxStatus.pending) × (o.attempts < max_dispatch_attempts)

abbrev pub Flies : Uuid → String → Db → Type 0
Flies id worker db = Any (IsFlying id worker) db.jobs

pub record Waits (id : Uuid) (db : Db) : Type 0 where
  pub returned : Any (IsReturned id) db.jobs
  pub command : Any (IsCommand id) db.outbox

not_assigned :
    (worker other : String) (a : Option String)
    → other ≢ worker
    → assigned_to worker a ≡ true
    → assigned_to other a ≡ false
not_assigned worker other none ne h = refl
not_assigned worker other (some w) ne h = ground (arith, eq_iff w worker, eq_iff w other)

not_reclaimable :
    (worker other : String) (r : JobRow)
    → other ≢ worker
    → reclaimable worker r ≡ true
    → reclaimable other r ≡ false
not_reclaimable worker other r ne h = elim (Bool-cases (assigned_to worker r.assigned_worker_id)) [
  | inl y ↦ rw (not_assigned worker other r.assigned_worker_id ne y) refl
  | inr n ↦ absurd (cc (simp n at h))
]

module _ (id : Uuid) (worker : String) (now : ℕ) where
  reclaim_rows-IsReturned :
      (rows : List JobRow)
      → Any (IsFlying id worker) rows
      → Any (IsReturned id) (reclaim_rows worker now rows)
  unfolding reclaim_rows
  reclaim_rows-IsReturned [] h = h
  reclaim_rows-IsReturned (r ∷ rows) (inl (i, y, a)) = rw y (inl (i, refl, refl, a))
  reclaim_rows-IsReturned (r ∷ rows) (inr h) = inr (reclaim_rows-IsReturned rows h)

  reclaim_rows-IsReturned_kept :
      (rows : List JobRow)
      → Any (IsReturned id) rows
      → Any (IsReturned id) (reclaim_rows worker now rows)
  unfolding reclaim_rows
  reclaim_rows-IsReturned_kept [] h = h
  reclaim_rows-IsReturned_kept (r ∷ rows) (inl h) = elim (Bool-cases (reclaimable worker r)) [
    | inl y ↦ simp y (inl (h.0, refl, refl, h.3))
    | inr n ↦ simp n (inl h)
  ]
  reclaim_rows-IsReturned_kept (r ∷ rows) (inr h) = inr (reclaim_rows-IsReturned_kept rows h)

  reclaim_rows-IsFlying :
      (other : String) (rows : List JobRow)
      → worker ≢ other
      → Any (IsFlying id other) rows
      → Any (IsFlying id other) (reclaim_rows worker now rows)
  unfolding reclaim_rows
  reclaim_rows-IsFlying other [] ne h = h
  reclaim_rows-IsFlying other (r ∷ rows) ne (inl h) =
      simp (not_reclaimable other worker r ne h.1) (inl h)
  reclaim_rows-IsFlying other (r ∷ rows) ne (inr h) = inr (reclaim_rows-IsFlying other rows ne h)

  pub reclaimed-Any :
      (rows : List JobRow)
      → Any (IsFlying id worker) rows
      → Any (λ (j : Job). j.id ≡ id) (reclaimed worker now rows)
  unfolding reclaimed
  reclaimed-Any [] h = h
  reclaimed-Any (r ∷ rows) (inl (i, y, a)) = rw y (inl i)
  reclaimed-Any (r ∷ rows) (inr h) = elim (Bool-cases (reclaimable worker r)) [
    | inl y ↦ simp y (inr (reclaimed-Any rows h))
    | inr n ↦ simp n (reclaimed-Any rows h)
  ]

module _ (id : Uuid) where
  command_kept :
      (jobs : List Job) (db : Db)
      → Any (IsCommand id) db.outbox
      → Any (IsCommand id) (enqueue_all jobs db).outbox
  unfolding enqueue_all enqueue_outbox
  command_kept [] db h = h
  command_kept (j ∷ jobs) db h = command_kept jobs (enqueue_outbox j.id db) (inr h)

  enqueue_all-command :
      (jobs : List Job) (db : Db)
      → Any (λ (j : Job). j.id ≡ id) jobs
      → Any (IsCommand id) (enqueue_all jobs db).outbox
  unfolding enqueue_all enqueue_outbox
  enqueue_all-command [] db h = elim h [ ]
  enqueue_all-command (j ∷ jobs) db (inl e) =
      command_kept jobs (enqueue_outbox j.id db) (inl (e, refl, omega arith))
  enqueue_all-command (j ∷ jobs) db (inr h) = enqueue_all-command jobs (enqueue_outbox j.id db) h

enqueue_all-faults : (jobs : List Job) (db : Db) → (enqueue_all jobs db).faults ≡ db.faults
unfolding enqueue_all enqueue_outbox
enqueue_all-faults [] db = refl
enqueue_all-faults (j ∷ jobs) db = enqueue_all-faults jobs (enqueue_outbox j.id db)

pub reclaim-faults : (worker : String) (db : Db) → (reclaim worker db).1.faults ≡ db.faults
unfolding reclaim
reclaim-faults worker db = enqueue_all-faults (reclaimed worker db.clock db.jobs) _

-- A job in flight at the worker waits after the reclaim.
pub reclaim-Waits :
    (id : Uuid) (worker : String) (db : Db) → Flies id worker db → Waits id (reclaim worker db).1
unfolding reclaim
reclaim-Waits id worker db h = record {
  returned =
      rw (enqueue_all-jobs (reclaimed worker db.clock db.jobs) _)
        (reclaim_rows-IsReturned id worker db.clock db.jobs h);
  command = enqueue_all-command id _ _ (reclaimed-Any id worker db.clock db.jobs h);
}

-- A job that waits goes on waiting, whatever worker is reclaimed from.
pub reclaim-Waits_kept :
    (id : Uuid) (worker : String) (db : Db) → Waits id db → Waits id (reclaim worker db).1
unfolding reclaim
reclaim-Waits_kept id worker db h = record {
  returned =
      rw (enqueue_all-jobs (reclaimed worker db.clock db.jobs) _)
        (reclaim_rows-IsReturned_kept id worker db.clock db.jobs h.returned);
  command = command_kept id (reclaimed worker db.clock db.jobs) _ h.command;
}

-- A reclaim from another worker leaves a job in flight.
pub reclaim-Flies :
    (id : Uuid) (worker other : String) (db : Db)
    → worker ≢ other
    → Flies id other db
    → Flies id other (reclaim worker db).1
unfolding reclaim
reclaim-Flies id worker other db ne h =
    rw (enqueue_all-jobs (reclaimed worker db.clock db.jobs) _)
      (reclaim_rows-IsFlying id worker db.clock other db.jobs ne h)
