-- ===== src/Examples/Requests.antt =====
-- Inputs for the theorems on the requests that the gateway serves.
use ironwork.Prelude.{
  ◌++◌, ◌⊎◌, ◌≡◌, refl, inl, inr, String, Bool, true, false, Option, none, some, List, [], ◌∷◌, All,
  length, str_eq, if◌then◌else◌, ◌≤◌, pos, map,
}
use ironwork.Dict.{lookup}
use ironwork.Store.Rows.{Payload, Job, JobRow, Status, empty, served, next_fault}
use ironwork.Store.Jobs.{find_job}
use ironwork.Relay.{World, interfere, act_all}
use ironwork.Scheduler.{get_job_by, list_jobs_by}
use ironwork.Gateway.Jobs.{handle_get_job, handle_list_jobs, given, filter_of}
use ironwork.Gateway.Requests.{
  Descending, IsRowOf, IsListed, handle_get_job-shown, shown, shown_job, handle_list_jobs-shown,
}
use ironwork.Statesvc
use ironwork.Statesvc.Cluster.Rounds.{Call, Replicas, ticks}
use ironwork.Crdtview.{set_gossip}
use ironwork.Gateway.{handle_set_gossip}
use ironwork.Gateway.Partition.{call_switch, partition_stops}

abbrev any_json : Payload → Bool
any_json bytes = true

abbrev stored : Job
stored = record {
  id = 1;
  name = "n";
  payload = [];
  status = Status.pending;
  assigned_worker = "";
  attempts = 0;
  error = empty;
  created_at = 3;
  updated_at = 3;
  started_at = none;
  finished_at = none;
}

abbrev stored_row : JobRow
stored_row = record {
  id = 1;
  name = "n";
  payload = [];
  status = Status.pending;
  assigned_worker_id = none;
  attempts = 0;
  error = none;
  created_at = 3;
  updated_at = 3;
  started_at = none;
  finished_at = none;
}

abbrev world : World
world = record {
  db = record { jobs = stored_row ∷ []; outbox = []; next_id = 2; clock = 9; faults = [] };
  others = [];
  replies = [];
  offered = [];
  placements = [];
}

world-served : next_fault (interfere world).db.faults ≡ served
world-served = unfold interfere act_all in refl

handle_get_job-shown_example :
    (handle_get_job any_json (λ i. get_job_by (some i)) (some 1) world).0
    ≡ shown any_json (find_job 1 (interfere world).db.jobs)
handle_get_job-shown_example = handle_get_job-shown any_json 1 world world-served

shown-stored :
    shown any_json (find_job 1 (interfere world).db.jobs) ≡ (200, some (shown_job any_json stored))
shown-stored = unfold interfere act_all find_job in refl

handle_list_jobs-shown_example :
    (jobs rest : List Job) × ((handle_list_jobs any_json list_jobs_by "pending"
        (given (pos 7))
        world).0
      ≡ (200, some (map (shown_job any_json) jobs)))
    × Descending (jobs ++ rest)
    × All (IsRowOf Status.pending (interfere world).db.jobs) (jobs ++ rest)
    × All (IsListed Status.pending (jobs ++ rest)) (interfere world).db.jobs
    × ((length jobs ≡ 7) ⊎ (rest ≡ []))
    × (length jobs ≤ 7)
    × (7 ≤ 200)
handle_list_jobs-shown_example =
    handle_list_jobs-shown any_json "pending" Status.pending (given (pos 7)) 7 world
      (unfold filter_of lookup in refl) refl world-served

abbrev check : String → Option String
check addr = if str_eq addr "down:1" then some "refused" else none

abbrev replicas : List String
replicas = "r1" ∷ "r2" ∷ []

abbrev switched : List String × (List Call × Replicas)
switched = set_gossip call_switch false replicas ([], Statesvc.new)

partition_stops_example : ticks replicas (("r1", []) ∷ ("r2", []) ∷ []) switched.1.1 ≡ switched.1.1
partition_stops_example =
    partition_stops replicas replicas [] Statesvc.new (("r1", []) ∷ ("r2", []) ∷ [])
      (unfold handle_set_gossip set_gossip in refl) (inl refl, (inr (inl refl), tt))
