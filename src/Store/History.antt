-- ===== src/Store/History.antt =====
-- What the statements of store.go and outbox.go leave of the rows of `jobs`.
use ironwork.Prelude.{
  ℕ, ◌≤◌, ◌≡◌, refl, String, Bool, true, false, List, [], ◌∷◌, arith, ◌==◌, Bool-cases, inl, inr,
  if◌then◌else◌,
}
use ironwork.Store.Rows.{Uuid, Payload, Message, JobRow, OutboxRow, Job, Db, Result, call}
use ironwork.Store.Jobs.{
  update_rows, insert_job, has_row, exec_job, to_scheduled, to_running, to_finished, mark_finished,
}
use ironwork.Store.Outbox.{
  insert_both, enqueue_outbox, enqueue_all, reclaim, reclaim_rows, reclaimed, reclaimable,
  reclaim_jobs, create_job_with_outbox, exec_command, has_command, claim_outbox,
}
use ironwork.Relay.Ready.{call-cases}

-- A row and the same job's row later.
abbrev pub Keeps : JobRow → JobRow → Type 0
Keeps r r' =
    (r'.id ≡ r.id)
    × (r'.name ≡ r.name)
    × (r'.payload ≡ r.payload)
    × (r'.created_at ≡ r.created_at)
    × (r.attempts ≤ r'.attempts)

-- A table and the same table later: in the same order, with further rows among them.
pub data Grown : List JobRow → List JobRow → Type 0 where
  none : Grown [] []
  kept :
      {r r' : JobRow} {rows rows' : List JobRow}
      → Keeps r r'
      → Grown rows rows'
      → Grown (r ∷ rows) (r' ∷ rows')
  added : {r : JobRow} {rows rows' : List JobRow} → Grown rows rows' → Grown rows (r ∷ rows')

pub grown : (rows : List JobRow) → Grown rows rows
grown [] = none
grown (r ∷ rows) = kept (refl, refl, refl, refl, omega arith) (grown rows)

-- An update that leaves the job the same.
abbrev Mild : (JobRow → JobRow) → Type 0
Mild f = (r r' : JobRow) → Keeps r r' → Keeps r (f r')

Keeps-if :
    (b : Bool) (r r' r'' : JobRow) → Keeps r r' → Keeps r r'' → Keeps r (if b then r'' else r')
Keeps-if true r r' r'' h k = k
Keeps-if false r r' r'' h k = h

update_rows-Grown :
    (id : Uuid) (f : JobRow → JobRow) (base rows : List JobRow)
    → Mild f
    → Grown base rows
    → Grown base (update_rows id f rows)
unfolding update_rows
update_rows-Grown id f base rows m none = none
update_rows-Grown id f base rows m (added h) = added (update_rows-Grown id f _ _ m h)
update_rows-Grown id f base rows m (kept {r = r} {r' = r'} k h) =
    kept (Keeps-if (r'.id == id) r r' (f r') k (m r r' k)) (update_rows-Grown id f _ _ m h)

reclaim_rows-Grown :
    (worker : String) (now : ℕ) (base rows : List JobRow)
    → Grown base rows
    → Grown base (reclaim_rows worker now rows)
unfolding reclaim_rows
reclaim_rows-Grown worker now base rows none = none
reclaim_rows-Grown worker now base rows (added h) = added (reclaim_rows-Grown worker now _ _ h)
reclaim_rows-Grown worker now base rows (kept {r = r} {r' = r'} k h) =
    kept (Keeps-if (reclaimable worker r') r r' _ k k) (reclaim_rows-Grown worker now _ _ h)

enqueue_all-jobs : (jobs : List Job) (db : Db) → (enqueue_all jobs db).jobs ≡ db.jobs
unfolding enqueue_all enqueue_outbox
enqueue_all-jobs [] db = refl
enqueue_all-jobs (j ∷ jobs) db = enqueue_all-jobs jobs (enqueue_outbox j.id db)

module _ (base : List JobRow) where
  pub scheduled-Grown :
      (id : Uuid) (worker : String) (now : ℕ) (rows : List JobRow)
      → Grown base rows
      → Grown base (update_rows id (to_scheduled worker now) rows)
  scheduled-Grown id worker now rows = update_rows-Grown id _ base rows (λ r r' k. k)

  pub running-Grown :
      (id : Uuid) (now : ℕ) (rows : List JobRow)
      → Grown base rows
      → Grown base (update_rows id (to_running now) rows)
  running-Grown id now rows =
      update_rows-Grown id _ base rows (λ r r' k. (k.0, k.1, k.2, k.3, omega (arith, k.4)))

  pub finished-Grown :
      (id : Uuid) (succeeded : Bool) (message : Message) (now : ℕ) (rows : List JobRow)
      → Grown base rows
      → Grown base (update_rows id (to_finished succeeded message now) rows)
  finished-Grown id succeeded message now rows = update_rows-Grown id _ base rows (λ r r' k. k)

  pub insert_both-Grown :
      (name : String) (payload : Payload) (db : Db)
      → Grown base db.jobs
      → Grown base (insert_both name payload db).1.jobs
  unfolding insert_both insert_job enqueue_outbox
  insert_both-Grown name payload db h = added h

  pub reclaim-Grown :
      (worker : String) (db : Db) → Grown base db.jobs → Grown base (reclaim worker db).1.jobs
  unfolding reclaim
  reclaim-Grown worker db h =
      rw
        (enqueue_all-jobs (reclaimed worker db.clock db.jobs)
          (record db { jobs = reclaim_rows worker db.clock db.jobs }))
        (reclaim_rows-Grown worker db.clock base db.jobs h)

  -- A call of the store, whatever its fault.
  abbrev pub IsGrowing {ℓ} : {A : Type ℓ} → (Db → Result A × Db) → Type 0
  IsGrowing op = (db : Db) → Grown base db.jobs → Grown base (op db).1.jobs

  call-Grown {ℓ} : {A : Type ℓ} (op : Db → Result A × Db) → IsGrowing op → IsGrowing (call op)
  call-Grown op g db h = call-cases (λ db'. Grown base db'.jobs) op db h (g _ h)

  pub create_job_with_outbox-IsGrowing :
      (name : String) (payload : Payload) → IsGrowing (create_job_with_outbox name payload)
  unfolding create_job_with_outbox
  create_job_with_outbox-IsGrowing name payload = call-Grown _ (insert_both-Grown name payload)

  pub reclaim_jobs-IsGrowing : (worker : String) → IsGrowing (reclaim_jobs worker)
  unfolding reclaim_jobs
  reclaim_jobs-IsGrowing worker = call-Grown _ (reclaim-Grown worker)

  pub claim_outbox-IsGrowing : (limit : ℕ) → IsGrowing (claim_outbox limit)
  unfolding claim_outbox
  claim_outbox-IsGrowing limit = call-Grown _ (λ db h. h)

  pub exec_command-IsGrowing :
      (id : Uuid) (f : ℕ → OutboxRow → OutboxRow) → IsGrowing (exec_command id f)
  unfolding exec_command
  exec_command-IsGrowing id f =
      call-Grown _ (λ db h. elim (Bool-cases (has_command id db.outbox)) [
        | inl y ↦ simp y h
        | inr n ↦ simp n h
      ])

  pub mark_finished-IsGrowing :
      (id : Uuid) (succeeded : Bool) (message : Message)
      → IsGrowing (mark_finished id succeeded message)
  unfolding mark_finished exec_job
  mark_finished-IsGrowing id succeeded message = call-Grown _ (λ db h.
      elim (Bool-cases (has_row id db.jobs)) [
        | inl y ↦ simp y (finished-Grown id succeeded message db.clock db.jobs h)
        | inr n ↦ simp n h
      ])
