-- ===== src/Relay/Claim.antt =====
-- What a claimed entry is: a pending command with its job, as the two tables stand at the claim.
use ironwork.Prelude.{
  ℕ, ◌<◌, ◌≡◌, ◌≢◌, refl, sym, subst, true, ◌∙◌, List, [], ◌∷◌, All, All-imp, All-zip, take,
  take-All, append-All, Bool-cases, inl, inr, arith, ◌==◌,
}
use ironwork.Sort.{sort, sort-All}
use ironwork.Store.Rows.{Status, JobRow, OutboxRow, Db}
use ironwork.Store.Outbox.{pending_rows, join_jobs, join_all, older, is_pending}
use ironwork.Relay.Cover.{IsFresh, Owns, FallFrom, IsDb, IsTracked}
use ironwork.Relay.Updates.{FallFrom-All}

-- Where ids fall along the list, two elements with one id agree on everything.
FallFrom-same {ℓ} :
    {A : Type ℓ} (id : A → ℕ) (P : A → A → Type 0) (n : ℕ) (l : List A)
    → FallFrom id n l
    → ((a : A) → P a a)
    → All (λ a. All (λ c. id c ≡ id a → P c a) l) l
FallFrom-same id P n [] h r = tt
FallFrom-same id P n (a ∷ l) h r = (
  (
    λ _. r a,
    All-imp _ _ l (λ c lt e. absurd (omega (arith, lt, e))) (FallFrom-All id (id a) l h.1),
  ),
  All-imp _ _ l (λ c q. (λ e. absurd (omega (arith, e, q.0)), q.1))
      (All-zip _ _ l (FallFrom-All id (id a) l h.1) (FallFrom-same id P (id a) l h.1 r)),
)

-- What is known of a row of `outbox`, and of a row of `jobs`.
abbrev Known : Db → OutboxRow → Type 0
Known db o = (o.id < db.next_id) × Owns o.id o.job_id db

abbrev Settled : Db → JobRow → Type 0
Settled db r = r.status ≢ Status.pending → IsFresh db.next_id r.id db

all-Known : (db : Db) → IsDb db → All (Known db) db.outbox
unfolding Owns
all-Known db h =
    All-zip _ _ db.outbox (FallFrom-All (λ (o : OutboxRow). o.id) db.next_id db.outbox h.outbox) (
      FallFrom-same (λ (o : OutboxRow). o.id) (λ c o. c.job_id ≡ o.job_id) db.next_id db.outbox
        h.outbox (λ o. refl))

all-Settled : (db : Db) → IsDb db → All (Settled db) db.jobs
unfolding IsFresh
all-Settled db h =
    All-imp _ _ db.jobs (λ r q n. All-imp _ _ db.jobs (λ c s e p. absurd (n (sym (s e) ∙ p))) q)
      (FallFrom-same (λ (r : JobRow). r.id) (λ c r. c.status ≡ r.status) db.next_id db.jobs h.jobs
        (λ r. refl))

pending_rows-All :
    (P : OutboxRow → Type 0) (rows : List OutboxRow) → All P rows → All P (pending_rows rows)
unfolding pending_rows
pending_rows-All P [] h = tt
pending_rows-All P (o ∷ rows) h = elim (Bool-cases (is_pending o.status)) [
  | inl y ↦ simp y (h.0, pending_rows-All P rows h.1)
  | inr n ↦ simp n (pending_rows-All P rows h.1)
]

same_id : (a b : ℕ) → a == b ≡ true → b ≡ a
same_id a b h = ground arith

join_jobs-IsTracked :
    (db : Db) (o : OutboxRow) (rows : List JobRow)
    → Known db o
    → All (Settled db) rows
    → All (IsTracked db.next_id db) (join_jobs o rows)
unfolding join_jobs
join_jobs-IsTracked db o [] k h = tt
join_jobs-IsTracked db o (r ∷ rows) k h = elim (Bool-cases (r.id == o.job_id)) [
  | inl y ↦ simp y (
    record {
      old = k.0;
      owns = subst (λ job. Owns o.id job db) (same_id r.id o.job_id y) k.1;
      settled = h.0;
    },
    join_jobs-IsTracked db o rows k h.1,
  )
  | inr n ↦ simp n (join_jobs-IsTracked db o rows k h.1)
]

join_all-IsTracked :
    (db : Db) (commands : List OutboxRow)
    → All (Known db) commands
    → All (Settled db) db.jobs
    → All (IsTracked db.next_id db) (join_all commands db.jobs)
unfolding join_all
join_all-IsTracked db [] k h = tt
join_all-IsTracked db (o ∷ commands) k h =
    append-All _ (join_jobs o db.jobs) (join_all commands db.jobs)
      (join_jobs-IsTracked db o db.jobs k.0 h) (join_all-IsTracked db commands k.1 h)

-- Every entry of a claim is tracked from the claim on.
pub claim-IsTracked :
    (db : Db) (limit : ℕ)
    → IsDb db
    → All
        (IsTracked db.next_id db)
        (take limit (join_all (sort older (pending_rows db.outbox)) db.jobs))
claim-IsTracked db limit h = take-All _ limit _ (
    join_all-IsTracked db (sort older (pending_rows db.outbox))
      (sort-All (Known db) older (pending_rows db.outbox)
        (pending_rows-All (Known db) db.outbox (all-Known db h)))
      (all-Settled db h))
