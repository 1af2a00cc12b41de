-- ===== src/Relay/Reclaim.antt =====
-- The two transactions that change both tables: they commit a new command with each job that becomes
-- pending.
use ironwork.Prelude.{
  ℕ, suc, ◌≤◌, ◌<◌, String, ◌≡◌, refl, List, [], ◌∷◌, All, Any, All-imp, Bool-cases, inl, inr,
  subst, arith,
}
use ironwork.Store.Rows.{Uuid, Payload, OutboxStatus, JobRow, OutboxRow, Job, Db}
use ironwork.Store.Jobs.{insert_job}
use ironwork.Store.Outbox.{
  enqueue_outbox, insert_both, enqueue_all, reclaimable, to_reclaimed, reclaim_rows, reclaimed,
  reclaim,
}
use ironwork.Relay.Cover.{Covers, Covered, IsFresh, Owns, FallFrom, Keeps}
use ironwork.Relay.Updates.{FallFrom-up}

pub insert_both-Keeps :
    (b : ℕ) (Lost : Uuid → Type 0) (db : Db) (name : String) (payload : Payload)
    → Keeps b Lost db (insert_both name payload db).1
unfolding Covered IsFresh Owns insert_both insert_job enqueue_outbox
insert_both-Keeps b Lost db name payload = record {
  grows = omega arith;
  safe = λ h. record {
    covered = (
      λ p. inr (inl (refl, refl, omega arith)),
      All-imp _ _ db.jobs (λ r c p. elim (c p) [ inl x ↦ inl x | inr y ↦ inr (inr y) ]) h.covered,
    );
    bound = omega (arith, h.bound);
    tables = record {
      jobs = (omega arith, h.tables.jobs);
      outbox = (
        omega arith,
        FallFrom-up (λ o. o.id) db.next_id (suc db.next_id) db.outbox (omega arith) h.tables.outbox,
      );
    };
  };
  fresh = λ job n h.
      (λ e p. inl (e, refl, omega (arith, n)), All-imp _ _ db.jobs (λ r c e p. inr (c e p)) h);
  owns = λ c job n l h. (λ e. absurd (omega (arith, e, n, l)), h);
}

-- What enqueueing commands keeps, and the commands that it adds.
record Enqueued (js : List Job) (db db' : Db) : Type 1 where
  jobs : db'.jobs ≡ db.jobs
  grows : db.next_id ≤ db'.next_id
  old : (P : OutboxRow → Type 0) → Any P db.outbox → Any P db'.outbox
  new : (b : ℕ) → b ≤ db.next_id → All (λ j. Covers b j.id db'.outbox) js
  falls :
      FallFrom (λ (o : OutboxRow). o.id) db.next_id db.outbox
      → FallFrom (λ (o : OutboxRow). o.id) db'.next_id db'.outbox
  owns : (c job : Uuid) → c < db.next_id → Owns c job db → Owns c job db'

enqueue_all-Enqueued : (js : List Job) (db : Db) → Enqueued js db (enqueue_all js db)
unfolding enqueue_all enqueue_outbox Owns
enqueue_all-Enqueued [] db = record {
  jobs = refl;
  grows = omega arith;
  old = λ P a. a;
  new = λ b h. tt;
  falls = λ h. h;
  owns = λ c job l h. h;
}
enqueue_all-Enqueued (j ∷ js) db =
    let rest = enqueue_all-Enqueued js (enqueue_outbox j.id db) in
    record {
      jobs = rest.jobs;
      grows = omega (arith, rest.grows);
      old = λ P a. rest.old P (inr a);
      new = λ b h. (
        rest.old (λ o. (o.job_id ≡ j.id) × (o.status ≡ OutboxStatus.pending) × (b ≤ o.id))
            (inl (refl, refl, h)),
        rest.new b (omega (arith, h)),
      );
      falls = λ h. rest.falls (omega arith, h);
      owns = λ c job l h. rest.owns c job (omega (arith, l)) (λ e. absurd (omega (arith, e, l)), h);
    }

reclaim_rows-All :
    (worker : String) (now : ℕ) (P Q : JobRow → Type 0) (C : Uuid → Type 0) (rows : List JobRow)
    → ((r : JobRow) → Q r → P r)
    → ((r : JobRow) → C r.id → P (to_reclaimed now r))
    → All Q rows
    → All (λ j. C j.id) (reclaimed worker now rows)
    → All P (reclaim_rows worker now rows)
unfolding reclaimed reclaim_rows
reclaim_rows-All worker now P Q C [] f g h c = tt
reclaim_rows-All worker now P Q C (r ∷ rows) f g h c = elim (Bool-cases (reclaimable worker r)) [
  | inl y ↦
      let c' : C r.id × All (λ j. C j.id) (reclaimed worker now rows) = simp y at c in
      simp y (g r c'.0, reclaim_rows-All worker now P Q C rows f g h.1 c'.1)
  | inr n ↦
      let c' : All (λ j. C j.id) (reclaimed worker now rows) = simp n at c in
      simp n (f r h.0, reclaim_rows-All worker now P Q C rows f g h.1 c')
]

reclaim_rows-FallFrom :
    (worker : String) (now n : ℕ) (rows : List JobRow)
    → FallFrom (λ (r : JobRow). r.id) n rows
    → FallFrom (λ (r : JobRow). r.id) n (reclaim_rows worker now rows)
unfolding reclaim_rows
reclaim_rows-FallFrom worker now n [] h = tt
reclaim_rows-FallFrom worker now n (r ∷ rows) h = elim (Bool-cases (reclaimable worker r)) [
  | inl y ↦ simp y (h.0, reclaim_rows-FallFrom worker now r.id rows h.1)
  | inr m ↦ simp m (h.0, reclaim_rows-FallFrom worker now r.id rows h.1)
]

pub reclaim-Keeps :
    (b : ℕ) (Lost : Uuid → Type 0) (db : Db) (worker : String)
    → Keeps b Lost db (reclaim worker db).1
unfolding Covered IsFresh Owns reclaim
reclaim-Keeps b Lost db worker =
    let js = reclaimed worker db.clock db.jobs in
    let db0 : Db = record db { jobs = reclaim_rows worker db.clock db.jobs } in
    let q = enqueue_all-Enqueued js db0 in
    record {
      grows = q.grows;
      safe = λ h. record {
        covered = rw q.jobs (
            reclaim_rows-All worker db.clock _ _ (λ id. Covers 0 id (enqueue_all js db0).outbox)
              db.jobs (λ r c p. elim (c p) [ inl x ↦ inl x | inr y ↦ inr (q.old _ y) ])
              (λ r c p. inr c) h.covered (q.new 0 (omega arith)));
        bound = omega (arith, h.bound, q.grows);
        tables = record {
          jobs = rw q.jobs (
              FallFrom-up _ db.next_id _ _ q.grows
                (reclaim_rows-FallFrom worker db.clock db.next_id db.jobs h.tables.jobs));
          outbox = q.falls h.tables.outbox;
        };
      };
      fresh = λ job n h. rw q.jobs (
          reclaim_rows-All worker db.clock _ _ (λ id. Covers b id (enqueue_all js db0).outbox)
            db.jobs (λ r c e p. q.old _ (c e p))
            (λ r c e p. subst (λ id. Covers b id (enqueue_all js db0).outbox) e c) h (q.new b n));
      owns = λ c job n l h. q.owns c job (omega (arith, n, l)) h;
    }
