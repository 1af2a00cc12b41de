-- ===== src/Process/History.antt =====
-- The rows of `jobs` over the life of a scheduler.
use ironwork.Prelude.{
  ℕ, zero, suc, String, Bool, true, false, not, ◌||◌, List, [], ◌∷◌, ltb, leb, ◌==◌, Bool-cases,
  inl, inr, if◌then◌else◌,
}
use ironwork.Store.Rows.{Payload, Job, JobRow, OutboxEntry, Message, Db, Result, ok, err}
use ironwork.Store.Outbox.{mark_outbox_dispatched, mark_outbox_failed, record_outbox_failure}
use ironwork.Store.History.{
  Grown, grown, scheduled-Grown, running-Grown, finished-Grown, insert_both-Grown, reclaim-Grown,
  IsGrowing, create_job_with_outbox-IsGrowing, reclaim_jobs-IsGrowing, claim_outbox-IsGrowing,
  exec_command-IsGrowing, mark_finished-IsGrowing,
}
use ironwork.Relay.{
  World, Action, submits, schedules, runs, finishes, reclaims, ticks, act, act_all, interfere,
  on_db, next_actions, next_reply, Reply, accepts, rejects, answer, dispatch, settle, abandon,
  handle, handle_all, drain, drain_batch, Signal, ticked, woken, turn, round, is_pending,
  max_execution_attempts, max_dispatch_attempts,
}
use ironwork.Reaper as Reaper
use ironwork.Reaper.{Reaper, sweep_loop, sweep, reclaimed_from}
use ironwork.Scheduler.{submit_job, submit_reply, byte_length, max_name_length}
use ironwork.Process as Process
use ironwork.Process.{Scheduler, Event, registers, beats, relays, reaps, step, run}

module _ (base : List JobRow) where
  act-Grown : (db : Db) (a : Action) → Grown base db.jobs → Grown base (act db a).jobs
  unfolding act
  act-Grown db (submits name payload) h = insert_both-Grown base name payload db h
  act-Grown db (schedules id worker) h = scheduled-Grown base id worker db.clock db.jobs h
  act-Grown db (runs id) h = running-Grown base id db.clock db.jobs h
  act-Grown db (finishes id succeeded message) h =
      finished-Grown base id succeeded message db.clock db.jobs h
  act-Grown db (reclaims worker) h = reclaim-Grown base worker db h
  act-Grown db (ticks n) h = h

  act_all-Grown :
      (actions : List Action) (db : Db) → Grown base db.jobs → Grown base (act_all db actions).jobs
  unfolding act_all
  act_all-Grown [] db h = h
  act_all-Grown (a ∷ actions) db h = act_all-Grown actions (act db a) (act-Grown db a h)

  -- The table of a world.
  abbrev Grows : World → Type 0
  Grows w = Grown base w.db.jobs

  interfere-Grows : (w : World) → Grows w → Grows (interfere w)
  unfolding interfere
  interfere-Grows w h = act_all-Grown (next_actions w.others) w.db h

  on_db-Grows {ℓ} :
      {A : Type ℓ} (op : Db → Result A × Db) (w : World)
      → IsGrowing base op
      → Grows w
      → Grows (on_db op w).1
  unfolding on_db
  on_db-Grows op w g h = g _ (interfere-Grows w h)

  dispatch-Grows : (job : Job) (w : World) → Grows w → Grows (dispatch job w).1
  unfolding dispatch answer
  dispatch-Grows job w h = answered (next_reply (interfere w).replies) _ (interfere-Grows w h)
    where
      answered : (r : Reply) (w : World) → Grows w → Grows (answer job r w).1
      answered (accepts worker logged) w h =
          interfere-Grows _ (act-Grown w.db (schedules job.id worker) h)
      answered rejects w h = interfere-Grows w h

  abandon-Grows :
      (e : OutboxEntry) (reason : Message) (w : World) → Grows w → Grows (abandon e reason w)
  unfolding abandon mark_outbox_failed
  abandon-Grows e reason w h =
      on_db-Grows _ _ (mark_finished-IsGrowing base e.job.id false reason)
        (on_db-Grows _ w (exec_command-IsGrowing base e.id _) h)

  settle-Grows : (e : OutboxEntry) (q : Reply × World) → Grows q.1 → Grows (settle e q)
  unfolding settle mark_outbox_dispatched record_outbox_failure
  settle-Grows e (rejects, w) h = on_db-Grows _ w (exec_command-IsGrowing base e.id _) h
  settle-Grows e (accepts worker true, w) h = on_db-Grows _ w (exec_command-IsGrowing base e.id _) h
  settle-Grows e (accepts worker false, w) h =
      on_db-Grows _ w (exec_command-IsGrowing base e.id _) h

  -- Either branch of a test.
  if-Grows : (b : Bool) (v w : World) → Grows v → Grows w → Grows (if b then v else w)
  if-Grows true v w h k = h
  if-Grows false v w h k = k

  handle-Grows : (e : OutboxEntry) (w : World) → Grows w → Grows (handle e w)
  unfolding handle mark_outbox_dispatched
  handle-Grows e w h =
      if-Grows (not (is_pending e.job.status)) _ _
        (on_db-Grows _ w (exec_command-IsGrowing base e.id _) h)
        (if-Grows (leb max_execution_attempts e.job.attempts) _ _ (abandon-Grows e _ w h) (
          if-Grows (leb max_dispatch_attempts e.attempts) _ _ (abandon-Grows e _ w h)
            (settle-Grows e _ (dispatch-Grows e.job w h))))

  handle_all-Grows :
      (entries : List OutboxEntry) (w : World) → Grows w → Grows (handle_all entries w)
  unfolding handle_all
  handle_all-Grows [] w h = h
  handle_all-Grows (e ∷ entries) w h = handle_all-Grows entries (handle e w) (handle-Grows e w h)

  drain-Grows : (w : World) → Grows w → Grows (drain w)
  unfolding drain
  drain-Grows w h =
      handle_all-Grows _ _ (on_db-Grows _ w (claim_outbox-IsGrowing base drain_batch) h)

  turn-Grows :
      (signal : Signal) (leads : Bool) (pending : ℕ) (w : World)
      → Grows w
      → Grows (turn signal leads (pending, w)).1
  unfolding turn round
  turn-Grows woken leads zero w h = h
  turn-Grows woken leads (suc pending) w h = if-Grows leads _ _ (drain-Grows w h) h
  turn-Grows ticked leads pending w h = if-Grows leads _ _ (drain-Grows w h) h

  submit_job-Grows :
      (leads : Bool) (name : String) (payload : Payload) (wakes : ℕ) (w : World)
      → Grows w
      → Grows (submit_job leads name payload wakes w).1
  unfolding submit_job
  submit_job-Grows false name payload wakes w h = h
  submit_job-Grows true name payload wakes w h =
      elim (Bool-cases (byte_length name == 0 || ltb max_name_length (byte_length name))) [
        | inl y ↦ rw y h
        | inr n ↦
            rw n
              (replied _ (on_db-Grows _ w (create_job_with_outbox-IsGrowing base name payload) h))
      ]
    where
      replied : (q : Result Job × World) → Grows q.1 → Grows (submit_reply q wakes).1
      replied (ok job, w) h = h
      replied (err e, w) h = h

  sweep_loop-Grows :
      (names : List String) (r : Reaper) → Grows r.world → Grows (sweep_loop names r).world
  unfolding sweep_loop
  sweep_loop-Grows [] r h = h
  sweep_loop-Grows (n ∷ names) r h =
      sweep_loop-Grows names _ (one _ (on_db-Grows _ r.world (reclaim_jobs-IsGrowing base n) h))
    where
      one : (q : Result (List Job) × World) → Grows q.1 → Grows (reclaimed_from n q.0 q.1 r).world
      one (ok jobs, w) h = h
      one (err e, w) h = h

  step-Grows : (e : Event) (p : Scheduler) → Grows p.world → Grows (step e p).world
  unfolding step Reaper.tick sweep
  step-Grows (Process.submits leads name payload) p h =
      submit_job-Grows leads name payload p.wakes p.world h
  step-Grows (registers now worker capacity) p h = h
  step-Grows (beats now worker capacity inflight) p h = h
  step-Grows (relays signal leads) p h = turn-Grows signal leads p.wakes p.world h
  step-Grows (reaps true now) p h = sweep_loop-Grows _ _ h
  step-Grows (reaps false now) p h = h

  run-Grows : (events : List Event) (p : Scheduler) → Grows p.world → Grows (run events p).world
  unfolding run
  run-Grows [] p h = h
  run-Grows (e ∷ events) p h = run-Grows events (step e p) (step-Grows e p h)

-- Over any events of a scheduler, whatever the other processes do and the database refuses, no job is
-- lost and none changes its id, its name, its payload or its time of creation, nor does its count of
-- attempts fall; the jobs stay in their order, with the submitted ones among them.
pub run-Grown :
    (events : List Event) (p : Scheduler) → Grown p.world.db.jobs (run events p).world.db.jobs
run-Grown events p = run-Grows p.world.db.jobs events p (grown p.world.db.jobs)
