-- ===== src/Relay/Updates.antt =====
-- Updates of single jobs, as the workers make them.
use ironwork.Prelude.{
  ℕ, ◌≤◌, ◌<◌, ◌≡◌, ◌≢◌, List, [], ◌∷◌, All, All-imp, Bool-cases, inl, inr, arith, ◌==◌,
}
use ironwork.Store.Rows.{Uuid, Status, JobRow, Db}
use ironwork.Store.Jobs.{update_rows}
use ironwork.Relay.Cover.{Covers, Covered, IsFresh, Owns, FallFrom, Keeps}

pub FallFrom-All {ℓ} :
    {A : Type ℓ} (id : A → ℕ) (n : ℕ) (l : List A) → FallFrom id n l → All (λ a. id a < n) l
FallFrom-All id n [] h = tt
FallFrom-All id n (a ∷ l) h = (
  h.0,
  All-imp (λ x. id x < id a) (λ x. id x < n) l (λ x p. omega arith) (FallFrom-All id (id a) l h.1),
)

-- The state as a chain of changes.
pub Keeps-refl : (b : ℕ) (Lost : Uuid → Type 0) (db : Db) → Keeps b Lost db db
Keeps-refl b Lost db = record {
  grows = omega arith;
  safe = λ h. h;
  fresh = λ job n h. h;
  owns = λ c job n l h. h;
}

pub Keeps-trans :
    (b : ℕ) (Lost : Uuid → Type 0) (db db' db'' : Db)
    → Keeps b Lost db db'
    → Keeps b Lost db' db''
    → Keeps b Lost db db''
Keeps-trans b Lost db db' db'' k k' = record {
  grows = omega (arith, k.grows, k'.grows);
  safe = λ h. k'.safe (k.safe h);
  fresh = λ job n h. k'.fresh job (omega (arith, n, k.grows)) (k.fresh job n h);
  owns = λ c job n l h. k'.owns c job (omega (arith, n, k.grows)) l (k.owns c job n l h);
}

update_rows-All :
    (P : JobRow → Type 0) (id : Uuid) (f : JobRow → JobRow) (rows : List JobRow)
    → ((r : JobRow) → P (f r))
    → All P rows
    → All P (update_rows id f rows)
unfolding update_rows
update_rows-All P id f [] g h = tt
update_rows-All P id f (r ∷ rows) g h = elim (Bool-cases (r.id == id)) [
  | inl y ↦ simp y (g r, update_rows-All P id f rows g h.1)
  | inr n ↦ simp n (h.0, update_rows-All P id f rows g h.1)
]

update_rows-FallFrom :
    (id : Uuid) (f : JobRow → JobRow) (n : ℕ) (rows : List JobRow)
    → ((r : JobRow) → (f r).id ≡ r.id)
    → FallFrom (λ r. r.id) n rows
    → FallFrom (λ r. r.id) n (update_rows id f rows)
unfolding update_rows
update_rows-FallFrom id f n [] g h = tt
update_rows-FallFrom id f n (r ∷ rows) g h = elim (Bool-cases (r.id == id)) [
  | inl y ↦ simp y (rw g h.0, rw g (update_rows-FallFrom id f r.id rows g h.1))
  | inr m ↦ simp m (h.0, update_rows-FallFrom id f r.id rows g h.1)
]

-- A transition to a status that is not pending.
pub update_rows-Keeps :
    (b : ℕ) (Lost : Uuid → Type 0) (db : Db) (id : Uuid) (f : JobRow → JobRow)
    → ((r : JobRow) → (f r).id ≡ r.id)
    → ((r : JobRow) → (f r).status ≢ Status.pending)
    → Keeps b Lost db (record db { jobs = update_rows id f db.jobs })
unfolding Covered IsFresh Owns
update_rows-Keeps b Lost db id f same moves = record {
  grows = omega arith;
  safe = λ h. record {
    covered = update_rows-All _ id f db.jobs (λ r p. absurd (moves r p)) h.covered;
    bound = h.bound;
    tables = record {
      jobs = update_rows-FallFrom id f db.next_id db.jobs same h.tables.jobs;
      outbox = h.tables.outbox;
    };
  };
  fresh = λ job n h. update_rows-All _ id f db.jobs (λ r e p. absurd (moves r p)) h;
  owns = λ c job n l h. h;
}

-- A transition to a status that is not pending, of the job itself: then it is not pending.
pub update_rows-IsFresh :
    (b : ℕ) (db : Db) (id : Uuid) (f : JobRow → JobRow)
    → ((r : JobRow) → (f r).status ≢ Status.pending)
    → IsFresh b id (record db { jobs = update_rows id f db.jobs })
unfolding IsFresh update_rows
update_rows-IsFresh b db id f moves = go db.jobs
  where
    go :
        (rows : List JobRow)
        → All
            (λ r. r.id ≡ id → r.status ≡ Status.pending → Covers b id db.outbox)
            (update_rows id f rows)
    go [] = tt
    go (r ∷ rows) = elim (Bool-cases (r.id == id)) [
      | inl y ↦ simp y (λ e p. absurd (moves r p), go rows)
      | inr n ↦ simp n (λ e p. absurd (ground arith), go rows)
    ]

pub FallFrom-up {ℓ} :
    {A : Type ℓ} (id : A → ℕ) (n m : ℕ) (l : List A) → n ≤ m → FallFrom id n l → FallFrom id m l
FallFrom-up id n m [] le h = tt
FallFrom-up id n m (a ∷ l) le h = (omega (arith, h.0), h.1)
