-- ===== src/Relay/Handle.antt =====
-- What each branch of `handle` leaves of the batch.
use ironwork.Prelude.{
  ℕ, ◌≡◌, ◌≢◌, ◌⊎◌, refl, Bool, true, false, ◌||◌, ◌&&◌, leb, List, ◌∷◌, All-imp, Bool-cases, inl,
  inr, arith,
}
use ironwork.Store.Rows.{
  Uuid, Status, Message, gave_up, undispatchable, not_dispatched, OutboxRow, OutboxEntry, Db,
  later_faults,
}
use ironwork.Store.Jobs.{to_scheduled, mark_finished, exec_job, has_row, to_finished}
use ironwork.Store.Outbox.{
  has_command, exec_command, to_dispatched, to_retried, to_abandoned, mark_outbox_dispatched,
  record_outbox_failure, mark_outbox_failed,
}
use ironwork.Relay.{
  World, Reply, accepts, rejects, next_reply, schedules, act, interfere, on_db, dispatch, answer,
  abandon, settle, is_pending, max_execution_attempts, max_dispatch_attempts, handle,
}
use ironwork.Relay.Cover.{Covered, IsFresh, Owns, Keeps}
use ironwork.Relay.Updates.{Keeps-trans, update_rows-Keeps, update_rows-IsFresh}
use ironwork.Relay.Actions.{act-Keeps, interfere-Keeps, finished_not_pending}
use ironwork.Relay.Ready.{IsReady, Keeps-IsReady, faults-Keeps, call-cases}
use ironwork.Relay.Marks.{IsMark, mark-IsReady, retry-IsReady}

-- A command that `handle` gives up: its job is still pending, and a budget is exhausted.
unfoldable pub exhausted : OutboxEntry → Bool
exhausted e =
    is_pending e.job.status
    && (leb max_execution_attempts e.job.attempts || leb max_dispatch_attempts e.attempts)

-- The jobs lost once `e` has been handled.
abbrev pub LostWith : OutboxEntry → (Uuid → Type 0) → Uuid → Type 0
LostWith e Lost job = Lost job ⊎ ((exhausted e ≡ true) × (e.job.id ≡ job))

not_pending : (s : Status) → is_pending s ≡ false → s ≢ Status.pending
not_pending s n e = ground arith

module _ (b : ℕ) (entries : List OutboxEntry) where
  weaken :
      (Lost Lost' : Uuid → Type 0) (db : Db)
      → ((job : Uuid) → Lost job → Lost' job)
      → IsReady b Lost entries db
      → IsReady b Lost' entries db
  unfolding Covered
  weaken Lost Lost' db f h = record {
    safe = record {
      covered =
          All-imp _ _ db.jobs (λ r g p. elim (g p) [ inl x ↦ inl (f r.id x) | inr y ↦ inr y ])
            h.safe.covered;
      bound = h.safe.bound;
      tables = h.safe.tables;
    };
    rest = h.rest;
  }

  first :
      (Lost : Uuid → Type 0) (e : OutboxEntry) (db : Db)
      → IsReady b Lost (e ∷ entries) db
      → IsReady b Lost entries db
  first Lost e db h = record { safe = h.safe; rest = h.rest.1 }

  lost_more :
      (Lost Lost' : Uuid → Type 0) (e : OutboxEntry) (db : Db)
      → ((job : Uuid) → Lost job → Lost' job)
      → IsReady b Lost (e ∷ entries) db
      → IsReady b Lost' (e ∷ entries) db
  lost_more Lost Lost' e db f h = record {
    safe = (weaken Lost Lost' db f (first Lost e db h)).safe;
    rest = h.rest;
  }

  -- `exec` on a command whose job has a later one, if it needs one, or is given up.
  exec_mark :
      (Lost : Uuid → Type 0) (e : OutboxEntry) (f : ℕ → OutboxRow → OutboxRow) (db : Db)
      → ((now : ℕ) → IsMark (f now))
      → IsFresh b e.job.id db ⊎ Lost e.job.id
      → IsReady b Lost (e ∷ entries) db
      → IsReady b Lost entries (exec_command e.id f db).1
  unfolding exec_command Owns IsFresh
  exec_mark Lost e f db m c h =
      let db' : Db = record db { faults = later_faults db.faults } in
      let h' =
        Keeps-IsReady b Lost (e ∷ entries) db db' (faults-Keeps b Lost db (later_faults db.faults))
          h in
      call-cases (IsReady b Lost entries) _ db (first Lost e db' h')
        (elim (Bool-cases (has_command e.id db.outbox)) [
          | inl y ↦ simp y (
              mark-IsReady e.id (f db.clock) b Lost entries db' e.job.id (m db.clock) h.rest.0.old
                h.rest.0.owns c (first Lost e db' h'))
          | inr n ↦ simp n (first Lost e db' h')
        ])

  -- `exec` of an update that leaves the status alone.
  exec_retry :
      (Lost : Uuid → Type 0) (e : OutboxEntry) (f : ℕ → OutboxRow → OutboxRow) (db : Db)
      → ((now : ℕ) → IsMark (f now))
      → ((now : ℕ) (o : OutboxRow) → (f now o).status ≡ o.status)
      → IsReady b Lost (e ∷ entries) db
      → IsReady b Lost entries (exec_command e.id f db).1
  unfolding exec_command
  exec_retry Lost e f db m s h =
      let db' : Db = record db { faults = later_faults db.faults } in
      let h' =
        Keeps-IsReady b Lost (e ∷ entries) db db' (faults-Keeps b Lost db (later_faults db.faults))
          h in
      call-cases (IsReady b Lost entries) _ db (first Lost e db' h')
        (elim (Bool-cases (has_command e.id db.outbox)) [
          | inl y ↦ simp y (
              retry-IsReady e.id (f db.clock) b Lost entries db' (m db.clock) (s db.clock)
                h.rest.0.old (first Lost e db' h'))
          | inr n ↦ simp n (first Lost e db' h')
        ])

  mark_finished-Keeps :
      (Lost : Uuid → Type 0) (id : Uuid) (s : Bool) (m : Message) (db : Db)
      → Keeps b Lost db (mark_finished id s m db).1
  unfolding mark_finished exec_job
  mark_finished-Keeps Lost id s m db =
      let db' : Db = record db { faults = later_faults db.faults } in
      let k = faults-Keeps b Lost db (later_faults db.faults) in
      call-cases (Keeps b Lost db) _ db k (elim (Bool-cases (has_row id db.jobs)) [
        | inl y ↦ simp y (
            Keeps-trans b Lost db db' _ k (
              update_rows-Keeps b Lost db' id (to_finished s m db.clock) (λ r. refl)
                (finished_not_pending s m db.clock)))
        | inr n ↦ simp n k
      ])

  -- The marks on a world: the others act first.
  on_mark :
      (Lost : Uuid → Type 0) (e : OutboxEntry) (f : ℕ → OutboxRow → OutboxRow) (w : World)
      → ((now : ℕ) → IsMark (f now))
      → IsFresh b e.job.id w.db ⊎ Lost e.job.id
      → IsReady b Lost (e ∷ entries) w.db
      → IsReady b Lost entries (on_db (exec_command e.id f) w).1.db
  unfolding on_db
  on_mark Lost e f w m c h =
      let k = interfere-Keeps b Lost w in
      exec_mark Lost e f (interfere w).db m
        (elim c [ inl x ↦ inl (k.fresh e.job.id h.safe.bound x) | inr y ↦ inr y ])
        (Keeps-IsReady b Lost (e ∷ entries) w.db (interfere w).db k h)

  marks_dispatched : (now : ℕ) → IsMark (to_dispatched now)
  marks_dispatched now = record { id = λ o. refl; job = λ o. refl }

  settle-answer :
      (Lost : Uuid → Type 0) (e : OutboxEntry) (reply : Reply) (w : World)
      → IsReady b Lost (e ∷ entries) w.db
      → IsReady b Lost entries (settle e (answer e.job reply w)).db
  unfolding settle answer record_outbox_failure on_db
  settle-answer Lost e rejects w h =
      let h' = Keeps-IsReady b Lost (e ∷ entries) w.db _ (interfere-Keeps b Lost w) h in
      exec_retry Lost e (to_retried not_dispatched) (interfere (interfere w)).db
        (λ now. record { id = λ o. refl; job = λ o. refl }) (λ now o. refl)
        (Keeps-IsReady b Lost (e ∷ entries) (interfere w).db _
          (interfere-Keeps b Lost (interfere w)) h')
  settle-answer Lost e (accepts worker logged) w h =
      elim logged
        as (λ l. IsReady b Lost entries (settle e (answer e.job (accepts worker l) w)).db) [
          | true ↦ accepted
          | false ↦ accepted
        ]
    where
      w1 : World
      w1 = record w { db = act w.db (schedules e.job.id worker) }

      accepted : IsReady b Lost entries (on_db (mark_outbox_dispatched e.id) (interfere w1)).1.db
      accepted =
          let k = act-Keeps b Lost w.db (schedules e.job.id worker) in
          let k' = interfere-Keeps b Lost w1 in
          unfold mark_outbox_dispatched in
          on_mark Lost e to_dispatched (interfere w1) marks_dispatched
            (inl (
              k'.fresh e.job.id (omega (arith, k.grows, h.safe.bound)) (
                unfold act in
                update_rows-IsFresh b w.db e.job.id (to_scheduled worker w.db.clock) (λ r x. cc))))
            (Keeps-IsReady b Lost (e ∷ entries) w1.db _ k'
              (Keeps-IsReady b Lost (e ∷ entries) w.db w1.db k h))

  settle-IsReady :
      (Lost : Uuid → Type 0) (e : OutboxEntry) (w : World)
      → IsReady b Lost (e ∷ entries) w.db
      → IsReady b Lost entries (settle e (dispatch e.job w)).db
  unfolding dispatch
  settle-IsReady Lost e w h =
      settle-answer Lost e (next_reply (interfere w).replies) _
        (Keeps-IsReady b Lost (e ∷ entries) w.db (interfere w).db (interfere-Keeps b Lost w) h)

  abandon-IsReady :
      (Lost : Uuid → Type 0) (e : OutboxEntry) (reason : Message) (w : World)
      → exhausted e ≡ true
      → IsReady b Lost (e ∷ entries) w.db
      → IsReady b (LostWith e Lost) entries (abandon e reason w).db
  unfolding abandon mark_outbox_failed
  abandon-IsReady Lost e reason w x h =
      let given_up = LostWith e Lost in
      let w1 = (on_db (exec_command e.id (to_abandoned reason)) w).1 in
      let h1 =
        on_mark given_up e (to_abandoned reason) w
          (λ now. record { id = λ o. refl; job = λ o. refl }) (inr (inr (x, refl)))
          (lost_more Lost given_up e w.db (λ job l. inl l) h) in
      let h2 = Keeps-IsReady b given_up entries w1.db _ (interfere-Keeps b given_up w1) h1 in
      unfold on_db in
      Keeps-IsReady b given_up entries (interfere w1).db _
        (mark_finished-Keeps given_up e.job.id false reason (interfere w1).db) h2

  -- Whatever the branch, the entries to come stay ready, and a job is lost only if `e` gives it up.
  pub handle-IsReady :
      (Lost : Uuid → Type 0) (e : OutboxEntry) (w : World)
      → IsReady b Lost (e ∷ entries) w.db
      → IsReady b (LostWith e Lost) entries (handle e w).db
  unfolding handle
  handle-IsReady Lost e w h = elim (Bool-cases (is_pending e.job.status)) [
    | inr n ↦ simp n (
        unfold mark_outbox_dispatched in
        weaken Lost (LostWith e Lost) _ (λ job l. inl l)
          (on_mark Lost e to_dispatched w marks_dispatched
            (inl (h.rest.0.settled (λ p. absurd (not_pending e.job.status n p)))) h))
    | inl y ↦ elim (Bool-cases (leb max_execution_attempts e.job.attempts)) [
      | inl x ↦
          simp (y, x)
            (abandon-IsReady Lost e (gave_up e.job.attempts) w (unfold exhausted in ground arith) h)
      | inr x ↦ elim (Bool-cases (leb max_dispatch_attempts e.attempts)) [
        | inl z ↦
            simp (y, x, z)
              (abandon-IsReady Lost e (undispatchable e.attempts) w
                (unfold exhausted in ground arith) h)
        | inr z ↦
            simp (y, x, z)
              (weaken Lost (LostWith e Lost) _ (λ job l. inl l) (settle-IsReady Lost e w h))
      ]
    ]
  ]
