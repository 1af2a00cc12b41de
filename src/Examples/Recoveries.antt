-- ===== src/Examples/Recoveries.antt =====
-- Inputs for the theorems on what a drain offers, and on a replica that restarts.
use ironwork.Prelude.{
  ℕ, ◌≤◌, ◌≡◌, refl, inl, inr, ℤ, pos, Bool, true, Option, none, some, List, [], ◌∷◌, ◌++◌, Any,
  arith, length,
}
use ironwork.Dict.{lookup, insert, copy}
use ironwork.Sort.{sort, place}
use ironwork.Store.Rows.{Uuid, Status, OutboxStatus, JobRow, OutboxRow, served, refused, call}
use ironwork.Store.Jobs.{update_rows}
use ironwork.Store.Outbox.{
  claim_outbox, pending_rows, join_jobs, join_all, mark_outbox_dispatched, exec_command,
  has_command, update_commands, reclaim, reclaimed, reclaim_rows, enqueue_all, enqueue_outbox,
}
use ironwork.Relay.{
  World, accepts, runs, on_db, interfere, act_all, act, drain, drain_batch, handle_all, handle,
  settle, dispatch, answer, entries_of,
}
use ironwork.Relay.Offers.{offers, count, drain-offers}
use ironwork.Recovery.Returned.{IsReturned}
use ironwork.Recovery.Offered.{claims, IsCommandOf, drain_offers_twice}
use ironwork.Crdt.Counter as Counter
use ironwork.Statesvc as Statesvc
use ironwork.Statesvc.{Server, gossip_peer, report_job_event}
use ironwork.Statesvc.Wellformed.{IsServer, shard_at, new-IsServer, report-IsServer}
use ironwork.Statesvc.Gossip.{gossip_peer-IsServer}
use ironwork.Statesvc.Cluster.{worker, table_of}
use ironwork.Statereport.{report, report_all}
use ironwork.Statereport.Counted.{arrived}
use ironwork.Statereport.Restart.{restart_forgets}

abbrev waiting : JobRow
waiting = record {
  id = 0;
  name = "job";
  payload = [];
  status = Status.pending;
  assigned_worker_id = none;
  attempts = 0;
  error = none;
  created_at = 5;
  updated_at = 5;
  started_at = none;
  finished_at = none;
}

abbrev command : OutboxRow
command = record {
  id = 1;
  job_id = 0;
  status = OutboxStatus.pending;
  attempts = 0;
  last_error = none;
  created_at = 5;
  dispatched_at = none;
}

-- The claim is served, and the mark that the command is dispatched is refused.
abbrev unmarked : World
unmarked = record {
  db = record {
    jobs = waiting ∷ [];
    outbox = command ∷ [];
    next_id = 2;
    clock = 9;
    faults = served ∷ refused ∷ [];
  };
  others = [] ∷ (runs 0 ∷ []) ∷ [];
  replies = accepts "w1" true ∷ [];
  offered = [];
  placements = [];
}

drain-offers_example :
    (drain unmarked).offered
    ≡ offers (entries_of (on_db (claim_outbox drain_batch) unmarked).0) ++ []
drain-offers_example = drain-offers unmarked

-- The same scheduler when "w1" has crashed and its job has been taken back.
abbrev taken_back : World
taken_back = record {
  db = (reclaim "w1" (drain unmarked).db).1;
  others = [];
  replies = accepts "w2" true ∷ accepts "w3" true ∷ [];
  offered = [];
  placements = [];
}

twice_facts :
    (taken_back.db.faults ≡ [])
    × (length (claims taken_back.db) ≤ drain_batch)
    × Any (IsReturned 0) taken_back.db.jobs
    × Any (IsCommandOf 0 (λ c. c ≡ 1)) taken_back.db.outbox
    × Any (IsCommandOf 0 (λ c. c ≡ 2)) taken_back.db.outbox
unfolding drain on_db interfere act_all act claim_outbox call handle_all handle settle dispatch
    answer mark_outbox_dispatched exec_command has_command update_commands update_rows reclaim
    reclaimed reclaim_rows enqueue_all enqueue_outbox pending_rows join_jobs join_all sort place
twice_facts = (
  refl,
  omega arith,
  inl (refl, refl, refl, omega arith),
  inr (inl ((refl, refl, omega arith), refl)),
  inl ((refl, refl, omega arith), refl),
)

drain_offers_twice_example :
    (new : List Uuid) × ((drain taken_back).offered ≡ new ++ []) × (2 ≤ count 0 new)
drain_offers_twice_example =
    drain_offers_twice taken_back (record { alone = refl; served = twice_facts.0 }) twice_facts.1 0
      1 2 (λ e. omega (arith, e)) twice_facts.2 twice_facts.3 twice_facts.4

abbrev two_events : List (Option ℤ × (ℕ × Bool))
two_events = (some (pos 7), (1, true)) ∷ (some (pos 9), (2, true)) ∷ []

abbrev first_life : Server
first_life = report_all (λ job. "id") "w1" two_events (Statesvc.new "r1")

-- A peer that has the reports of the first life of "r1".
abbrev peer : Server
peer = (gossip_peer (Statesvc.new "r2") first_life).0

first_life-IsServer : IsServer first_life
unfolding report_all report
first_life-IsServer = report-IsServer (pos 9) _ _ (report-IsServer (pos 7) _ _ (new-IsServer "r1"))

peer-IsServer : IsServer peer
peer-IsServer =
    (gossip_peer-IsServer (Statesvc.new "r2") first_life (new-IsServer "r2") first_life-IsServer).0

peer_facts :
    (peer.gossip_on ≡ true)
    × (arrived (λ job. "id") "w1" worker "w1" ((some (pos 20), (3, true)) ∷ [])
        ≤ shard_at "w1" "r1" (table_of worker peer))
unfolding gossip_peer Statesvc.sync_state Statesvc.take_answer Statesvc.merge_locked
    Statesvc.snapshot_locked Statesvc.merge_counters Statesvc.merge_counter
    Statesvc.counters_to_proto report_all report report_job_event Statesvc.report_ok Statesvc.inc_at
    arrived Counter.inc Counter.merge Counter.merge_shard Counter.clone insert lookup copy
peer_facts = (refl, omega arith)

restart_forgets_example :
    shard_at "w1" "r1" (
      table_of worker
        (gossip_peer
          (report_all (λ job. "id") "w1" ((some (pos 20), (3, true)) ∷ []) (Statesvc.new "r1"))
          peer).0)
    ≡ shard_at "w1" "r1" (table_of worker peer)
restart_forgets_example =
    restart_forgets (λ job. "id") "w1" worker "r1" "w1" "r1" ((some (pos 20), (3, true)) ∷ []) peer
      (refl, (λ job. refl)) (omega arith) peer-IsServer peer_facts.0 peer_facts.1
