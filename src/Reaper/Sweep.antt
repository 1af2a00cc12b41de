-- ===== src/Reaper/Sweep.antt =====
-- What a sweep keeps and what it changes.
use ironwork.Prelude.{
  ℕ, ◌+◌, ◌≡◌, refl, ◌∙◌, String, Bool, false, ◌||◌, Bool-cases, ◌⊎◌, inl, inr, List, [], ◌∷◌, All,
  none, length, arith, str_eq, if◌then◌else◌,
}
use ironwork.Dict.{lookup, lookup-delete}
use ironwork.Store.Rows.{Uuid, Db, JobRow, Job, Db, Result, ok, err, Error}
use ironwork.Store.Outbox.{
  reclaim, reclaim_jobs, reclaim_rows, reclaimed, reclaimable, enqueue_all, enqueue_outbox,
}
use ironwork.Registry.{forget}
use ironwork.Store.Rows.{later_faults}
use ironwork.Relay.{World, on_db, interfere}
use ironwork.Relay.Cover.{IsSafe}
use ironwork.Relay.Actions.{interfere-Keeps}
use ironwork.Relay.Reclaim.{reclaim-Keeps}
use ironwork.Relay.Ready.{faults-Keeps, call-cases}
use ironwork.Reaper.{Reaper, reclaimed_from, sweep_loop}

unfoldable pub cons_answered : String → Result (List Job) → List String → List String
cons_answered name (ok jobs) names = name ∷ names
cons_answered name (err e) names = names

-- The names whose reclaim the database has answered.
unfoldable pub answered : List String → World → List String
answered [] w = []
answered (name ∷ names) w =
    let (r, w') = on_db (reclaim_jobs name) w in cons_answered name r (answered names w')

abbrev pub member : String → List String → Bool
member k [] = false
member k (n ∷ names) = str_eq n k || member k names

reclaim_rows-clear :
    (worker : String) (now : ℕ) (rows : List JobRow)
    → All (λ (r : JobRow). reclaimable worker r ≡ false) (reclaim_rows worker now rows)
unfolding reclaim_rows
reclaim_rows-clear worker now [] = tt
reclaim_rows-clear worker now (r ∷ rows) = elim (Bool-cases (reclaimable worker r)) [
  | inl y ↦ simp y (refl, reclaim_rows-clear worker now rows)
  | inr n ↦ simp n (refl, reclaim_rows-clear worker now rows)
]

pub enqueue_all-jobs : (jobs : List Job) (db : Db) → (enqueue_all jobs db).jobs ≡ db.jobs
unfolding enqueue_all enqueue_outbox
enqueue_all-jobs [] db = refl
enqueue_all-jobs (j ∷ jobs) db = enqueue_all-jobs jobs (enqueue_outbox j.id db)

enqueue_all-outbox :
    (jobs : List Job) (db : Db)
    → length (enqueue_all jobs db).outbox ≡ length db.outbox + length jobs
unfolding enqueue_all enqueue_outbox
enqueue_all-outbox [] db = omega arith
enqueue_all-outbox (j ∷ jobs) db = omega (arith, enqueue_all-outbox jobs (enqueue_outbox j.id db))

-- A reclaim leaves no job in flight at the worker, and adds one dispatch command for each job that it
-- returns.
pub reclaim_clears :
    (worker : String) (db : Db)
    → All (λ (r : JobRow). reclaimable worker r ≡ false) (reclaim worker db).1.jobs
      × (length (reclaim worker db).1.outbox ≡ length db.outbox + length (reclaim worker db).0)
unfolding reclaim
reclaim_clears worker db = (
  rw (enqueue_all-jobs (reclaimed worker db.clock db.jobs) _)
      (reclaim_rows-clear worker db.clock db.jobs),
  enqueue_all-outbox (reclaimed worker db.clock db.jobs) _,
)

-- A sweep forgets exactly the workers whose reclaim the database has answered: a worker whose reclaim
-- fails stays in the table, for the next sweep.
pub sweep_loop-forgets :
    (k : String) (names : List String) (r : Reaper)
    → lookup k (sweep_loop names r).reg.workers
      ≡ (if member k (answered names r.world) then none else lookup k r.reg.workers)
unfolding sweep_loop answered cons_answered forget
sweep_loop-forgets k [] r = refl
sweep_loop-forgets k (name ∷ names) r = elim (result_cases (on_db (reclaim_jobs name) r.world).0) [
  | inl (jobs, e) ↦
      simp e (sweep_loop-forgets k names _ ∙ ground (arith, lookup-delete name k r.reg.workers))
  | inr (x, e) ↦ simp e (sweep_loop-forgets k names _)
]
  where
    result_cases :
        (q : Result (List Job)) → ((jobs : List Job) × (q ≡ ok jobs)) ⊎ ((e : Error) × (q ≡ err e))
    result_cases (ok jobs) = inl (jobs, refl)
    result_cases (err e) = inr (e, refl)

reclaimed_from-world :
    (name : String) (q : Result (List Job)) (w : World) (r : Reaper)
    → (reclaimed_from name q w r).world ≡ w
reclaimed_from-world name (ok jobs) w r = refl
reclaimed_from-world name (err e) w r = refl

module _ (Lost : Uuid → Type 0) where
  reclaim_jobs-IsSafe :
      (name : String) (w : World)
      → IsSafe 0 Lost w.db
      → IsSafe 0 Lost (on_db (reclaim_jobs name) w).1.db
  unfolding on_db reclaim_jobs
  reclaim_jobs-IsSafe name w h =
      let db : Db = (interfere w).db in
      let s =
        (faults-Keeps 0 Lost db (later_faults db.faults)).safe
          ((interfere-Keeps 0 Lost w).safe h) in
      call-cases (IsSafe 0 Lost) _ db s ((reclaim-Keeps 0 Lost _ name).safe s)

  -- A sweep keeps the tables sound and every pending job covered, those that it re-enqueues
  -- included, whatever the other processes do and whichever of its calls fail.
  pub sweep_loop-IsSafe :
      (names : List String) (r : Reaper)
      → IsSafe 0 Lost r.world.db
      → IsSafe 0 Lost (sweep_loop names r).world.db
  unfolding sweep_loop
  sweep_loop-IsSafe [] r h = h
  sweep_loop-IsSafe (name ∷ names) r h =
      let q = on_db (reclaim_jobs name) r.world in
      sweep_loop-IsSafe names (reclaimed_from name q.0 q.1 r)
        (rw (reclaimed_from-world name q.0 q.1 r) (reclaim_jobs-IsSafe name r.world h))
