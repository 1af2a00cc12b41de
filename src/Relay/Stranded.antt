-- ===== src/Relay/Stranded.antt =====
-- `abandon` is two calls, of which the second one may fail.
use ironwork.Prelude.{ℕ, ◌≡◌, false, List, [], ◌∷◌, All, Any, Bool-cases, inl, inr, arith, ◌==◌}
use ironwork.Store.Rows.{
  Uuid, Status, OutboxStatus, Message, OutboxRow, OutboxEntry, Fault, served, refused, call,
}
use ironwork.Store.Jobs.{mark_finished, exec_job}
use ironwork.Store.Outbox.{
  update_commands, has_command, exec_command, to_abandoned, mark_outbox_failed,
}
use ironwork.Relay.{World, interfere, act_all, on_db, abandon}
use ironwork.Relay.Cover.{Covers}

no-Covers :
    (id job : Uuid) (reason : Message) (now : ℕ) (rows : List OutboxRow)
    → All (λ o. o.job_id ≡ job → o.id ≡ id) rows
    → ¬ Covers 0 job (update_commands id (to_abandoned reason now) rows)
unfolding update_commands
no-Covers id job reason now [] h c = c
no-Covers id job reason now (o ∷ rows) h (inl c) = elim (Bool-cases (o.id == id)) [
  | inl y ↦ let s : OutboxStatus.failed ≡ OutboxStatus.pending = simp y at c.1 in cc
  | inr n ↦ let j : o.job_id ≡ job = simp n at c.0 in ground (arith, h.0 j)
]
no-Covers id job reason now (o ∷ rows) h (inr c) = no-Covers id job reason now rows h.1 c

no-Covers_absent :
    (id job : Uuid) (rows : List OutboxRow)
    → has_command id rows ≡ false
    → All (λ o. o.job_id ≡ job → o.id ≡ id) rows
    → ¬ Covers 0 job rows
unfolding has_command
no-Covers_absent id job [] n h c = c
no-Covers_absent id job (o ∷ rows) n h (inl c) = ground (arith, h.0 c.0)
no-Covers_absent id job (o ∷ rows) n h (inr c) = no-Covers_absent id job rows (ground arith) h.1 c

-- If the database takes `MarkOutboxFailed` and refuses `MarkFinished`, with nobody else acting, then a
-- pending job all of whose commands have the id of the abandoned entry is left pending with no
-- pending command, whatever the reason.
pub abandon_strands :
    (e : OutboxEntry) (reason : Message) (w : World) (fs : List Fault)
    → Any (λ r. (r.id ≡ e.job.id) × (r.status ≡ Status.pending)) w.db.jobs
    → All (λ o. o.job_id ≡ e.job.id → o.id ≡ e.id) w.db.outbox
    → let db =
        (abandon e reason
          (record w { db = record w.db { faults = served ∷ refused ∷ fs }; others = [] })).db in
      Any (λ r. (r.id ≡ e.job.id) × (r.status ≡ Status.pending)) db.jobs
      × ¬ Covers 0 e.job.id db.outbox
unfolding abandon on_db interfere act_all mark_outbox_failed mark_finished exec_command exec_job
    call
abandon_strands e reason w fs p only = elim (Bool-cases (has_command e.id w.db.outbox)) [
  | inl y ↦ simp y (p, no-Covers e.id e.job.id reason w.db.clock w.db.outbox only)
  | inr n ↦ simp n (p, no-Covers_absent e.id e.job.id w.db.outbox n only)
]
