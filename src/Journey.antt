-- ===== src/Journey.antt =====
-- A job's way through the services when nothing fails and nobody else acts: internal/schedulersvc
-- takes it, internal/outbox offers it to a worker, and internal/workersvc runs it.
use ironwork.Prelude.{
  ℕ, suc, ◌≡◌, ◌≢◌, refl, ap, ◌∙◌, String, true, false, ◌==◌, Option, some, List, [], ◌∷◌, ◌++◌,
  All, Bool-cases, inl, inr, arith, if◌then◌else◌, take,
}
use ironwork.Store.Rows.{
  Uuid, Payload, Status, succeeded, Message, JobRow, OutboxRow, OutboxEntry, Job, Db, ok, call,
  scan_job, or_no_message, empty, gave_up, undispatchable, invalid_payload, negative_duration,
  requested_failure, not_dispatched,
}
use ironwork.Store.Jobs.{
  find_job, update_rows, insert_job, new_row, to_scheduled, null_if_empty, has_row,
}
use ironwork.Store.Outbox.{
  pending_rows, join_jobs, join_all, claim_outbox, insert_both, enqueue_outbox,
  create_job_with_outbox, new_command, older, update_commands, to_dispatched,
  mark_outbox_dispatched, exec_command, has_command, is_pending,
}
use ironwork.Relay.{
  World, accepts, drain, interfere, act_all, on_db, handle_all, handle, settle, dispatch, answer,
  act,
}
use ironwork.Scheduler.{submit_job}
use ironwork.Gateway.Submission.{IsName}
use ironwork.Sort.{sort, place}
use ironwork.Worker.{Body, Worker, execute, is_empty, run_all, accepted, proceeds}
use ironwork.Worker.Completes.{completed, run_all-completed}

-- A database whose calls are all served.
abbrev pub serving_db : List JobRow → List OutboxRow → Uuid → ℕ → Db
serving_db jobs outbox next_id clock = record {
  jobs = jobs;
  outbox = outbox;
  next_id = next_id;
  clock = clock;
  faults = [];
}

-- Nobody else acts, and the first offer is accepted by a worker and logged.
abbrev pub quiet_world : Db → String → List (Uuid × String) → World
quiet_world db worker placements = record {
  db = db;
  others = [];
  replies = accepts worker true ∷ [];
  offered = [];
  placements = placements;
}

module _ (jobs : List JobRow) (outbox : List OutboxRow) (next_id : Uuid) (clock : ℕ)
    (worker : String) (placements : List (Uuid × String)) (name : String) (payload : Payload) where
  abbrev old_db : Db
  old_db = serving_db jobs outbox next_id clock

  abbrev row : JobRow
  row = new_row old_db name payload

  abbrev command : OutboxRow
  command = new_command (serving_db (row ∷ jobs) outbox (suc next_id) clock) next_id

  abbrev submitted_db : Db
  submitted_db = serving_db (row ∷ jobs) (command ∷ outbox) (suc (suc next_id)) clock

  after_submit :
      (wakes : ℕ)
      → IsName name
      → (submit_job true name payload wakes (quiet_world old_db worker placements)).1
        ≡ quiet_world submitted_db worker placements
  unfolding submit_job on_db interfere act_all create_job_with_outbox call insert_both insert_job
      enqueue_outbox
  after_submit wakes n = rw n refl

  absent_join :
      (rows : List JobRow) → All (λ (r : JobRow). r.id ≢ next_id) rows → join_jobs command rows ≡ []
  unfolding join_jobs
  absent_join [] h = refl
  absent_join (r ∷ rows) h =
      let ne : r.id == next_id ≡ false = ground (arith, h.0) in rw ne (absent_join rows h.1)

  abbrev entry : OutboxEntry
  entry = record { id = suc next_id; attempts = 0; job = scan_job row }

  claimed :
      pending_rows outbox ≡ []
      → All (λ (r : JobRow). r.id ≢ next_id) jobs
      → take 50 (join_all (sort older (pending_rows (command ∷ outbox))) (row ∷ jobs)) ≡ entry ∷ []
  unfolding pending_rows join_all join_jobs sort place
  claimed p h =
      let same : next_id == next_id ≡ true = ground arith in rw (p, same, absent_join jobs h) refl

  abbrev drained_db : Db
  drained_db =
      serving_db (update_rows next_id (to_scheduled worker clock) (row ∷ jobs))
        (update_commands (suc next_id) (to_dispatched clock) (command ∷ outbox)) (suc (suc next_id))
        clock

  after_drain :
      pending_rows outbox ≡ []
      → All (λ (r : JobRow). r.id ≢ next_id) jobs
      → ((drain (quiet_world submitted_db worker placements)).db ≡ drained_db)
        × ((drain (quiet_world submitted_db worker placements)).placements
            ≡ placements ++ (next_id, worker) ∷ [])
  unfolding drain on_db interfere act_all claim_outbox call handle_all handle settle dispatch answer
      act mark_outbox_dispatched exec_command has_command
  after_drain p h =
      let same : suc next_id == suc next_id ≡ true = ground arith in
      rw (claimed p h, same) (refl, refl)

  -- The job once it has run, with this error or none.
  abbrev pub done_job : Message → Job
  done_job message = record {
    id = next_id;
    name = name;
    payload = payload;
    status = if is_empty message then succeeded else Status.failed;
    assigned_worker = worker;
    attempts = 1;
    error = message;
    created_at = clock;
    updated_at = clock;
    started_at = some clock;
    finished_at = some clock;
  }

  error_kept : (message : Message) → or_no_message (null_if_empty message) ≡ message
  error_kept empty = refl
  error_kept (gave_up n) = refl
  error_kept (undispatchable n) = refl
  error_kept invalid_payload = refl
  error_kept negative_duration = refl
  error_kept requested_failure = refl
  error_kept not_dispatched = refl

  found_done :
      (message : Message)
      → find_job next_id (update_rows next_id (completed clock message) drained_db.jobs)
        ≡ ok (done_job message)
  unfolding find_job update_rows completed
  found_done message =
      let same : next_id == next_id ≡ true = ground arith in simp (same, error_kept message) refl

  dispatched_rows :
      (id : Uuid) (rows : List OutboxRow)
      → pending_rows rows ≡ []
      → pending_rows (update_commands id (to_dispatched clock) rows) ≡ []
  unfolding pending_rows update_commands
  dispatched_rows id [] p = refl
  dispatched_rows id (o ∷ rows) p = elim (Bool-cases (is_pending o.status)) [
    | inl y ↦ absurd (cc (simp y at p))
    | inr x ↦
        let rest = dispatched_rows id rows (simp x at p) in
        elim (Bool-cases (o.id == id)) [ inl y ↦ rw y rest | inr z ↦ rw (z, x) rest ]
  ]

  pending_done : pending_rows outbox ≡ [] → pending_rows drained_db.outbox ≡ []
  unfolding pending_rows update_commands
  pending_done p =
      let same : suc next_id == suc next_id ≡ true = ground arith in
      rw same (dispatched_rows (suc next_id) outbox p)

  drained_has : has_row next_id drained_db.jobs ≡ true
  unfolding has_row update_rows
  drained_has = let same : next_id == next_id ≡ true = ground arith in simp same refl

  -- A job that a scheduler has taken, while no other command is pending, is offered by the next drain
  -- to a worker; if the worker takes it, the placement is logged, and when the worker has gone on with
  -- it, the database has the job with its outcome as `execute` says and one attempt, no command is
  -- pending, and the outcome is reported once. Nobody else acts meanwhile and the database serves
  -- every call; the new job's id is the database's next one, and no job has it.
  pub job_completes :
      (decode : Payload → Option Body) (v : Worker) (wakes : ℕ)
      → IsName name
      → pending_rows outbox ≡ []
      → All (λ (r : JobRow). r.id ≢ next_id) jobs
      → let message = (execute decode payload).1 in
        let w =
          drain (submit_job true name payload wakes (quiet_world old_db worker placements)).1 in
        let v' =
          run_all decode
            (record v { db = w.db; calls = accepted next_id payload ∷ v.calls })
            (proceeds 0 ∷ proceeds 0 ∷ proceeds 0 ∷ proceeds 0 ∷ []) in
        (find_job next_id v'.db.jobs ≡ ok (done_job message))
        × (pending_rows v'.db.outbox ≡ [])
        × (w.placements ≡ placements ++ (next_id, worker) ∷ [])
        × (v'.reports ≡ (next_id, is_empty message) ∷ v.reports)
  job_completes decode v wakes n p h =
      let d = after_drain p h in
      let c =
        run_all-completed decode (record v { db = drained_db }) next_id payload drained_has refl in
      rw (after_submit wakes n, d.0)
        (
          ap (find_job next_id) c.0 ∙ found_done (execute decode payload).1,
          ap pending_rows c.1 ∙ pending_done p,
          d.1,
          c.2,
        )
