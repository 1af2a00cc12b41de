-- ===== src/Relay/Drain.antt =====
-- A whole batch.
use ironwork.Prelude.{
  ℕ, ◌≡◌, ◌⊎◌, refl, true, false, not, ◌&&◌, List, [], ◌∷◌, All, Any, All-imp, leb, Bool-cases, inl,
  inr, arith, if◌then◌else◌,
}
use ironwork.Store.Rows.{Uuid, OutboxEntry, Db, Result, later_faults}
use ironwork.Store.Outbox.{claim_outbox}
use ironwork.Relay.{
  World, Reply, accepts, rejects, interfere, on_db, dispatch, answer, settle, abandon, is_pending,
  handle, handle_all, entries_of, drain_batch, drain, max_execution_attempts, max_dispatch_attempts,
}
use ironwork.Relay.Cover.{Covered, IsDb, IsTracked, IsSafe}
use ironwork.Relay.Actions.{interfere-Keeps}
use ironwork.Relay.Ready.{IsReady, Keeps-IsReady, faults-Keeps, call_result-cases}
use ironwork.Relay.Claim.{claim-IsTracked}
use ironwork.Relay.Handle.{exhausted, LostWith, handle-IsReady}

-- The jobs that a batch gives up.
abbrev pub GivenUp : List OutboxEntry → Uuid → Type 0
GivenUp entries job = Any (λ e. (exhausted e ≡ true) × (e.job.id ≡ job)) entries

pub Covered-imp :
    (Lost Lost' : Uuid → Type 0) (db : Db)
    → ((job : Uuid) → Lost job → Lost' job)
    → Covered Lost db
    → Covered Lost' db
unfolding Covered
Covered-imp Lost Lost' db f h =
    All-imp _ _ db.jobs (λ r g p. elim (g p) [ inl x ↦ inl (f r.id x) | inr y ↦ inr y ]) h

handle_all-Covered :
    (b : ℕ) (Lost : Uuid → Type 0) (entries : List OutboxEntry) (w : World)
    → IsReady b Lost entries w.db
    → Covered (λ job. Lost job ⊎ GivenUp entries job) (handle_all entries w).db
      × IsDb (handle_all entries w).db
unfolding handle_all
handle_all-Covered b Lost [] w h =
    (Covered-imp Lost _ w.db (λ job x. inl x) h.safe.covered, h.safe.tables)
handle_all-Covered b Lost (e ∷ entries) w h =
    let r =
      handle_all-Covered b (LostWith e Lost) entries (handle e w)
        (handle-IsReady b entries Lost e w h) in
    (
      Covered-imp _ _ _
          (λ job x. elim x [
            | inl (inl l) ↦ inl l
            | inl (inr g) ↦ inr (inl g)
            | inr a ↦ inr (inr a)
          ])
          r.0,
      r.1,
    )

claimed-IsReady :
    (Lost : Uuid → Type 0) (w : World)
    → IsDb w.db
    → Covered Lost w.db
    → IsReady
        (interfere w).db.next_id
        Lost
        (entries_of (on_db (claim_outbox drain_batch) w).0)
        (on_db (claim_outbox drain_batch) w).1.db
unfolding on_db claim_outbox
claimed-IsReady Lost w t c =
    call_result-cases (λ r db'. IsReady db.next_id Lost (entries_of r) db') _ db (ready [] tt)
      (ready _ (claim-IsTracked db drain_batch start.tables)) (ready [] tt)
  where
    db : Db
    db = (interfere w).db

    start : IsSafe 0 Lost db
    start =
        (interfere-Keeps 0 Lost w).safe (record { covered = c; bound = omega arith; tables = t })

    ready :
        (entries : List OutboxEntry)
        → All (IsTracked db.next_id db) entries
        → IsReady db.next_id Lost entries (record db { faults = later_faults db.faults })
    ready entries tracked =
        Keeps-IsReady db.next_id Lost entries db _
          (faults-Keeps db.next_id Lost db (later_faults db.faults))
          (record {
            safe = record { covered = start.covered; bound = omega arith; tables = start.tables };
            rest = tracked;
          })

-- Whatever clients, workers and other schedulers' reapers do between its calls, whatever the workers
-- answer and whichever calls of the database fail, while no other scheduler's relay is at work a drain
-- leaves every pending job with a pending command, but for those lost
-- before and those that it gave up because a budget was exhausted.
pub drain-Covered :
    (Lost : Uuid → Type 0) (w : World)
    → IsDb w.db
    → Covered Lost w.db
    → Covered
        (λ job. Lost job ⊎ GivenUp (entries_of (on_db (claim_outbox drain_batch) w).0) job)
        (drain w).db
      × IsDb (drain w).db
unfolding drain
drain-Covered Lost w t c =
    handle_all-Covered (interfere w).db.next_id Lost
      (entries_of (on_db (claim_outbox drain_batch) w).0) (on_db (claim_outbox drain_batch) w).1
      (claimed-IsReady Lost w t c)

pub offered_of_on_db {ℓ} :
    {A : Type ℓ} (op : Db → Result A × Db) (w : World) → (on_db op w).1.offered ≡ w.offered
unfolding on_db interfere
offered_of_on_db op w = refl

offered-settle :
    (e : OutboxEntry) (reply : Reply) (w : World)
    → (settle e (answer e.job reply w)).offered ≡ w.offered
unfolding settle answer on_db interfere
offered-settle e rejects w = refl
offered-settle e (accepts worker true) w = refl
offered-settle e (accepts worker false) w = refl

-- The relay offers a job to the workers once if the claimed entry shows it pending and within both
-- budgets, and not at all otherwise.
pub offered-handle :
    (e : OutboxEntry) (w : World)
    → (handle e w).offered
      ≡ (if is_pending e.job.status && not (exhausted e) then e.job.id ∷ w.offered else w.offered)
unfolding handle abandon dispatch exhausted on_db interfere
offered-handle e w = elim (Bool-cases (is_pending e.job.status)) [
  | inr n ↦ simp n
  | inl y ↦ elim (Bool-cases (leb max_execution_attempts e.job.attempts)) [
    | inl x ↦ simp (y, x)
    | inr x ↦ elim (Bool-cases (leb max_dispatch_attempts e.attempts)) [
      | inl z ↦ simp (y, x, z)
      | inr z ↦ simp (y, x, z) (offered-settle e _ _)
    ]
  ]
]
