-- ===== src/Relay/Cover.antt =====
-- The predicates that the relay's safety is stated by.
use ironwork.Prelude.{ℕ, ◌≤◌, ◌<◌, ◌≡◌, ◌≢◌, ◌⊎◌, List, [], ◌∷◌, All, Any}
use ironwork.Store.Rows.{Uuid, Status, OutboxStatus, JobRow, OutboxRow, OutboxEntry, Db}

-- A pending command for the job, with an id from `b` on.
abbrev pub Covers : ℕ → Uuid → List OutboxRow → Type 0
Covers b job = Any (λ o. (o.job_id ≡ job) × (o.status ≡ OutboxStatus.pending) × (b ≤ o.id))

-- Every pending job that is not among the lost ones has a pending command.
unfoldable pub Covered : (Uuid → Type 0) → Db → Type 0
Covered Lost db = All (λ r. r.status ≡ Status.pending → Lost r.id ⊎ Covers 0 r.id db.outbox) db.jobs

-- If the job is pending, it has a pending command with an id from `b` on.
unfoldable pub IsFresh : ℕ → Uuid → Db → Type 0
IsFresh b job db =
    All (λ r. r.id ≡ job → r.status ≡ Status.pending → Covers b job db.outbox) db.jobs

-- A command with this id is a command for this job.
unfoldable pub Owns : Uuid → Uuid → Db → Type 0
Owns command job db = All (λ o. o.id ≡ command → o.job_id ≡ job) db.outbox

-- Ids fall along the list, from below `n`.
abbrev pub FallFrom {ℓ} : {A : Type ℓ} → (A → ℕ) → ℕ → List A → Type 0
FallFrom id n [] = Unit
FallFrom id n (a ∷ l) = (id a < n) × FallFrom id (id a) l

-- What the two tables always satisfy.
pub record IsDb (db : Db) : Type 0 where
  pub jobs : FallFrom (λ (r : JobRow). r.id) db.next_id db.jobs
  pub outbox : FallFrom (λ (o : OutboxRow). o.id) db.next_id db.outbox

-- What the relay may rely on of an entry that it claimed when the counter stood at `b`.
pub record IsTracked (b : ℕ) (db : Db) (e : OutboxEntry) : Type 0 where
  pub old : e.id < b
  pub owns : Owns e.id e.job.id db
  pub settled : e.job.status ≢ Status.pending → IsFresh b e.job.id db

-- A database between two calls of the relay.
pub record IsSafe (b : ℕ) (Lost : Uuid → Type 0) (db : Db) : Type 0 where
  pub covered : Covered Lost db
  pub bound : b ≤ db.next_id
  pub tables : IsDb db

-- What a change of the database keeps: all that the relay relies on.
pub record Keeps (b : ℕ) (Lost : Uuid → Type 0) (db db' : Db) : Type 0 where
  pub grows : db.next_id ≤ db'.next_id
  pub safe : IsSafe b Lost db → IsSafe b Lost db'
  pub fresh : (job : Uuid) → b ≤ db.next_id → IsFresh b job db → IsFresh b job db'
  pub owns :
      (command job : Uuid)
      → b ≤ db.next_id
      → command < b
      → Owns command job db
      → Owns command job db'
