-- ===== src/Relay/Marks.antt =====
-- The relay's own updates of commands, and what they keep.
use ironwork.Prelude.{
  ℕ, ◌≤◌, ◌<◌, ◌≡◌, ◌≢◌, ◌⊎◌, sym, ◌∙◌, List, [], ◌∷◌, All, Any, All-imp, All-zip, Any-zip, Any-imp,
  Bool-cases, inl, inr, subst, arith, ◌==◌,
}
use native.Mathlib.Decide.{ℕ_discrete}
use ironwork.Store.Rows.{Uuid, OutboxStatus, OutboxRow, OutboxEntry, Db}
use ironwork.Store.Outbox.{update_commands}
use ironwork.Relay.Ready.{IsReady}
use ironwork.Relay.Cover.{Covers, Covered, IsFresh, Owns, FallFrom, IsTracked}

-- An update that keeps a command's id and its job.
pub record IsMark (f : OutboxRow → OutboxRow) : Type 0 where
  pub id : (o : OutboxRow) → (f o).id ≡ o.id
  pub job : (o : OutboxRow) → (f o).job_id ≡ o.job_id

module _ (id : Uuid) (f : OutboxRow → OutboxRow) where
  -- A command that the update does not reach stays.
  update_commands-Any :
      (P : OutboxRow → Type 0) (rows : List OutboxRow)
      → ((o : OutboxRow) → P o → o.id ≢ id)
      → Any P rows
      → Any P (update_commands id f rows)
  unfolding update_commands
  update_commands-Any P [] g h = h
  update_commands-Any P (o ∷ rows) g (inl p) = elim (Bool-cases (o.id == id)) [
    | inl y ↦ absurd (g o p (ground arith))
    | inr n ↦ simp n (inl p)
  ]
  update_commands-Any P (o ∷ rows) g (inr q) = inr (update_commands-Any P rows g q)

  -- A property that the update keeps.
  update_commands-Any_kept :
      (P : OutboxRow → Type 0) (rows : List OutboxRow)
      → ((o : OutboxRow) → P o → P (f o))
      → Any P rows
      → Any P (update_commands id f rows)
  unfolding update_commands
  update_commands-Any_kept P [] g h = h
  update_commands-Any_kept P (o ∷ rows) g (inl p) = elim (Bool-cases (o.id == id)) [
    | inl y ↦ simp y (inl (g o p))
    | inr n ↦ simp n (inl p)
  ]
  update_commands-Any_kept P (o ∷ rows) g (inr q) = inr (update_commands-Any_kept P rows g q)

  update_commands-All :
      (P : OutboxRow → Type 0) (rows : List OutboxRow)
      → ((o : OutboxRow) → P o → P (f o))
      → All P rows
      → All P (update_commands id f rows)
  unfolding update_commands
  update_commands-All P [] g h = tt
  update_commands-All P (o ∷ rows) g h = elim (Bool-cases (o.id == id)) [
    | inl y ↦ simp y (g o h.0, update_commands-All P rows g h.1)
    | inr n ↦ simp n (h.0, update_commands-All P rows g h.1)
  ]

  update_commands-FallFrom :
      (n : ℕ) (rows : List OutboxRow)
      → IsMark f
      → FallFrom (λ (o : OutboxRow). o.id) n rows
      → FallFrom (λ (o : OutboxRow). o.id) n (update_commands id f rows)
  unfolding update_commands
  update_commands-FallFrom n [] m h = tt
  update_commands-FallFrom n (o ∷ rows) m h = elim (Bool-cases (o.id == id)) [
    | inl y ↦ simp y (rw (m.id o) h.0, rw (m.id o) (update_commands-FallFrom o.id rows m h.1))
    | inr x ↦ simp x (h.0, update_commands-FallFrom o.id rows m h.1)
  ]

  -- What is known of other entries survives an update of an old command.
  mark-IsTracked :
      (b : ℕ) (db : Db) (e : OutboxEntry)
      → IsMark f
      → id < b
      → IsTracked b db e
      → IsTracked b (record db { outbox = update_commands id f db.outbox }) e
  unfolding Owns IsFresh
  mark-IsTracked b db e m l t = record {
    old = t.old;
    owns = update_commands-All _ db.outbox (λ o h x. m.job o ∙ h (sym (m.id o) ∙ x)) t.owns;
    settled = λ n.
        All-imp _ _ db.jobs
          (λ r h x p.
            update_commands-Any _ db.outbox (λ o c y. absurd (omega (arith, c.2, y, l))) (h x p))
          (t.settled n);
  }

  -- Another job's cover is not the updated command.
  other-Covers :
      (job other : Uuid) (db : Db)
      → other ≢ job
      → Owns id job db
      → Covers 0 other db.outbox
      → Covers 0 other (update_commands id f db.outbox)
  unfolding Owns
  other-Covers job other db n o c =
      Any-imp _ _ (update_commands id f db.outbox) (λ x q. q.0)
        (update_commands-Any
          (λ x.
            ((x.job_id ≡ other) × (x.status ≡ OutboxStatus.pending) × (0 ≤ x.id))
            × (x.id ≡ id → x.job_id ≡ job))
          db.outbox (λ x q e. n (sym q.0.0 ∙ q.1 e)) (Any-zip _ _ db.outbox c o))

  -- A cover from `b` on is not the updated command.
  fresh-Covers :
      (b : ℕ) (job other : Uuid) (db : Db)
      → id < b
      → job ≡ other
      → Covers b job db.outbox
      → Covers 0 other (update_commands id f db.outbox)
  fresh-Covers b job other db l e c =
      Any-imp _ _ (update_commands id f db.outbox) (λ x q. (q.0 ∙ e, q.1, omega arith))
        (update_commands-Any
          (λ x. (x.job_id ≡ job) × (x.status ≡ OutboxStatus.pending) × (b ≤ x.id)) db.outbox
          (λ x q y. absurd (omega (arith, q.2, y, l))) c)

  mark-Covered :
      (b : ℕ) (Lost : Uuid → Type 0) (db : Db) (job : Uuid)
      → id < b
      → Owns id job db
      → IsFresh b job db ⊎ Lost job
      → Covered Lost db
      → Covered Lost (record db { outbox = update_commands id f db.outbox })
  unfolding Covered IsFresh
  mark-Covered b Lost db job l o (inl fresh) h =
      All-imp _ _ db.jobs
        (λ r g p. elim (g.0 p) [
          | inl x ↦ inl x
          | inr y ↦ elim (ℕ_discrete r.id job) [
            | yes e ↦ inr (fresh-Covers b job r.id db l (sym e) (g.1 e p))
            | no n ↦ inr (other-Covers job r.id db n o y)
          ]
        ])
        (All-zip _ _ db.jobs h fresh)
  mark-Covered b Lost db job l o (inr lost) h =
      All-imp _ _ db.jobs
        (λ r g p. elim (g p) [
          | inl x ↦ inl x
          | inr y ↦ elim (ℕ_discrete r.id job) [
            | yes e ↦ inl (subst Lost (sym e) lost)
            | no n ↦ inr (other-Covers job r.id db n o y)
          ]
        ])
        h

  -- An update of a command whose job has a later one, if it needs one, or is given up.
  pub mark-IsReady :
      (b : ℕ) (Lost : Uuid → Type 0) (entries : List OutboxEntry) (db : Db) (job : Uuid)
      → IsMark f
      → id < b
      → Owns id job db
      → IsFresh b job db ⊎ Lost job
      → IsReady b Lost entries db
      → IsReady b Lost entries (record db { outbox = update_commands id f db.outbox })
  mark-IsReady b Lost entries db job m l o c h = record {
    safe = record {
      covered = mark-Covered b Lost db job l o c h.safe.covered;
      bound = h.safe.bound;
      tables = record {
        jobs = h.safe.tables.jobs;
        outbox = update_commands-FallFrom db.next_id db.outbox m h.safe.tables.outbox;
      };
    };
    rest = All-imp _ _ entries (λ e. mark-IsTracked b db e m l) h.rest;
  }

  -- An update that leaves the status alone needs no cover.
  pub retry-IsReady :
      (b : ℕ) (Lost : Uuid → Type 0) (entries : List OutboxEntry) (db : Db)
      → IsMark f
      → ((o : OutboxRow) → (f o).status ≡ o.status)
      → id < b
      → IsReady b Lost entries db
      → IsReady b Lost entries (record db { outbox = update_commands id f db.outbox })
  unfolding Covered
  retry-IsReady b Lost entries db m s l h = record {
    safe = record {
      covered =
          All-imp _ _ db.jobs
            (λ r g p. elim (g p) [
              | inl x ↦ inl x
              | inr y ↦ inr (
                  update_commands-Any_kept _ db.outbox
                    (λ o c. (m.job o ∙ c.0, s o ∙ c.1, omega arith)) y)
            ])
            h.safe.covered;
      bound = h.safe.bound;
      tables = record {
        jobs = h.safe.tables.jobs;
        outbox = update_commands-FallFrom db.next_id db.outbox m h.safe.tables.outbox;
      };
    };
    rest = All-imp _ _ entries (λ e. mark-IsTracked b db e m l) h.rest;
  }
