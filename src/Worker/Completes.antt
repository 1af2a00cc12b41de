-- ===== src/Worker/Completes.antt =====
-- What a worker does with a job that it has accepted.
use ironwork.Prelude.{
  ℕ, ◌+◌, ◌-◌, ◌≡◌, refl, ap, ◌∙◌, true, ◌==◌, some, Option, List, [], ◌∷◌, Bool-cases, inl, inr,
  if◌then◌else◌,
}
use ironwork.Store.Rows.{Uuid, Payload, Status, succeeded, Message, JobRow, call}
use ironwork.Store.Jobs.{
  update_rows, has_row, to_running, to_finished, null_if_empty, mark_running, mark_finished,
  exec_job,
}
use ironwork.Worker.{
  Body, Worker, accepted, finished, proceeds, execute, is_empty, advance, advance_at, move, run_all,
}

module _ (id : Uuid) where
  update_rows-update_rows :
      (f g : JobRow → JobRow) (rows : List JobRow)
      → ((r : JobRow) → (g r).id ≡ r.id)
      → update_rows id f (update_rows id g rows) ≡ update_rows id (λ r. f (g r)) rows
  unfolding update_rows
  update_rows-update_rows f g [] h = refl
  update_rows-update_rows f g (r ∷ rows) h = elim (Bool-cases (r.id == id)) [
    | inl y ↦
        let e : (g r).id == id ≡ true = ap (λ i. i == id) (h r) ∙ y in
        rw (y, e) (ap (◌∷◌ (f (g r))) (update_rows-update_rows f g rows h))
    | inr n ↦ rw (n, n) (ap (◌∷◌ r) (update_rows-update_rows f g rows h))
  ]

  has_row-update_rows :
      (g : JobRow → JobRow) (rows : List JobRow)
      → ((r : JobRow) → (g r).id ≡ r.id)
      → has_row id (update_rows id g rows) ≡ has_row id rows
  unfolding update_rows has_row
  has_row-update_rows g [] h = refl
  has_row-update_rows g (r ∷ rows) h = elim (Bool-cases (r.id == id)) [
    | inl y ↦ let e : (g r).id == id ≡ true = ap (λ i. i == id) (h r) ∙ y in rw (y, e) refl
    | inr n ↦ rw (n, n) (has_row-update_rows g rows h)
  ]

-- The row of a job that has run once more and ended at this time, with this error or none.
unfoldable pub completed : ℕ → Message → JobRow → JobRow
completed now message r = record r {
  status = if is_empty message then succeeded else Status.failed;
  attempts = r.attempts + 1;
  error = null_if_empty message;
  started_at = some now;
  finished_at = some now;
  updated_at = now;
}

-- A worker that goes on with a job it has accepted, while the database serves its calls, records the
-- run: the job has started and ended, with one more attempt, succeeded or failed as `execute` says and
-- with its error; the outcome is reported once, and the slot is given back.
pub run_all-completed :
    (decode : Payload → Option Body) (w : Worker) (id : Uuid) (payload : Payload)
    → has_row id w.db.jobs ≡ true
    → w.db.faults ≡ []
    → let message = (execute decode payload).1 in
      let w' =
        run_all decode
          (record w { calls = accepted id payload ∷ w.calls })
          (proceeds 0 ∷ proceeds 0 ∷ proceeds 0 ∷ proceeds 0 ∷ []) in
      (w'.db.jobs ≡ update_rows id (completed w.db.clock message) w.db.jobs)
      × (w'.db.outbox ≡ w.db.outbox)
      × (w'.reports ≡ (id, is_empty message) ∷ w.reports)
      × (w'.calls ≡ finished ∷ w.calls)
      × (w'.inflight_n ≡ w.inflight_n - 1)
unfolding run_all move advance_at advance mark_running mark_finished exec_job call completed
run_all-completed decode w id payload h f =
    let kept : has_row id (update_rows id (to_running w.db.clock) w.db.jobs) ≡ true =
      has_row-update_rows id (to_running w.db.clock) w.db.jobs (λ r. refl) ∙ h in
    rw (f, h, kept)
      (
        update_rows-update_rows id
            (to_finished (is_empty (execute decode payload).1) (execute decode payload).1
              w.db.clock)
            (to_running w.db.clock) w.db.jobs (λ r. refl),
        refl,
        refl,
        refl,
        refl,
      )
