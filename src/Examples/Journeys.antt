-- ===== src/Examples/Journeys.antt =====
-- Inputs for the theorems on a job's way through the services.
use ironwork.Prelude.{
  ◌≡◌, refl, Bool, true, Option, none, some, [], ◌∷◌, arith, ◌+◌, ℤ, pos, List, ℕ, false,
}
use ironwork.Store.Rows.{Payload, JobRow, Status, ok}
use ironwork.Store.Jobs.{find_job}
use ironwork.Store.Outbox.{pending_rows}
use ironwork.Relay.{World, drain, interfere, act_all}
use ironwork.Scheduler.{submit_job}
use ironwork.Scheduler.Submit.{IsEnqueued}
use ironwork.Scheduler.Wire.{WireJob}
use ironwork.Worker.{Body, Worker, new, execute, is_empty, run_all, accepted, proceeds}
use ironwork.Gateway.Render.{render_job}
use ironwork.Gateway.Jobs.{handle_create_job}
use ironwork.Gateway.Submission.{router_submit, handle_create_job-stored}
use ironwork.Journey.{quiet_world, serving_db, done_job, job_completes}
use ironwork.Statesvc
use ironwork.Statesvc.Wellformed.{shard_at, IsServer, report-IsServer, new-IsServer}
use ironwork.Statesvc.Cluster.{worker, table_of}
use ironwork.Statereport.{report_all, report}
use ironwork.Statereport.Counted.{arrived, report_all-counted}
use ironwork.Dict.{lookup}
use ironwork.Statesvc.{Server, gossip_peer, report_job_event, report_ok}
use ironwork.Crdtview.{replica_view}
use ironwork.Crdtview.Exchanged.{exchange_shown, total_at, shown_table, answer_of}

abbrev no_json : Payload → Option Body
no_json bytes = none

abbrev any_json : Payload → Bool
any_json bytes = true

abbrev other_row : JobRow
other_row = record {
  id = 1;
  name = "other";
  payload = [];
  status = Status.succeeded;
  assigned_worker_id = some "w2";
  attempts = 1;
  error = none;
  created_at = 3;
  updated_at = 4;
  started_at = some 3;
  finished_at = some 4;
}

abbrev world : World
world = quiet_world (serving_db (other_row ∷ []) [] 2 9) "w1" []

abbrev worker_at : Worker
worker_at = new "w1" 4 (serving_db [] [] 0 9)

job_completes_example :
    let message = (execute no_json []).1 in
    let w = drain (submit_job true "job" [] 0 world).1 in
    let v =
      run_all no_json
        (record worker_at { db = w.db; calls = accepted 2 [] ∷ [] })
        (proceeds 0 ∷ proceeds 0 ∷ proceeds 0 ∷ proceeds 0 ∷ []) in
    (find_job 2 v.db.jobs ≡ ok (done_job (other_row ∷ []) [] 2 9 "w1" [] "job" [] message))
    × (pending_rows v.db.outbox ≡ [])
    × (w.placements ≡ (2, "w1") ∷ [])
    × (v.reports ≡ (2, is_empty message) ∷ [])
job_completes_example =
    job_completes (other_row ∷ []) [] 2 9 "w1" [] "job" [] no_json worker_at 0 refl
      (unfold pending_rows in refl) ((λ e. omega (arith, e)), tt)

handle_create_job-stored_example :
    let r =
      handle_create_job any_json (router_submit 3 1) (some ("job", [])) (2, (world, λ j. 0)) in
    (job : WireJob) × (r.0 ≡ (201, some (render_job any_json job)))
    × (r.1.0 ≡ 1)
    × IsEnqueued job.id r.1.1.0.db
handle_create_job-stored_example =
    handle_create_job-stored any_json 3 2 1 "job" [] world (λ j. 0) (omega arith) (omega arith) refl
      (unfold interfere act_all in refl)

abbrev events : List (Option ℤ × (ℕ × Bool))
events = (some (pos 7), (1, true)) ∷ (none, (2, true)) ∷ (some (pos 9), (3, false)) ∷ []

report_all-counted_example :
    shard_at "w1" "r1" (table_of worker (report_all (λ job. "id") "w1" events (Statesvc.new "r1")))
    ≡ shard_at "w1" "r1" (table_of worker (Statesvc.new "r1"))
      + arrived (λ job. "id") "w1" worker "w1" events
unfolding lookup
report_all-counted_example =
    report_all-counted (λ job. "id") "w1" worker "w1" events (Statesvc.new "r1")
      (refl, (λ job. refl)) (omega arith)

abbrev counting : Server
counting = report_all (λ job. "id") "w1" events (Statesvc.new "r1")

counting-IsServer : IsServer counting
unfolding report_all report
counting-IsServer = report-IsServer (pos 9) _ _ (report-IsServer (pos 7) _ _ (new-IsServer "r1"))

exchange_shown_example :
    total_at "w1" (
      shown_table worker
        (replica_view "r1" (answer_of (gossip_peer counting (Statesvc.new "r2")).0)))
    ≡ total_at "w1" (
        shown_table worker
          (replica_view "r2" (answer_of (gossip_peer counting (Statesvc.new "r2")).1)))
unfolding report_all report report_job_event report_ok
exchange_shown_example =
    exchange_shown worker "w1" counting (Statesvc.new "r2") "r1" "r2" counting-IsServer
      (new-IsServer "r2") refl refl
