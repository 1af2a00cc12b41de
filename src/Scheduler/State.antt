-- ===== src/Scheduler/State.antt =====
-- internal/schedulersvc/state.go: what a scheduler reports of the cluster. The view of the Raft group
-- is that of the scheduler's Raft node.
use ironwork.Prelude.{ℕ, ◌-◌, ◌%◌, ◌^◌, String, Bool, List, map}
use ironwork.Registry.{Registry, WorkerState}
use ironwork.Registry
use ironwork.Fsm.{Placement}
use ironwork.Raftnode.{Info}

-- The message `RaftStatus`.
pub record RaftStatus : Type 0 where
  pub state : String
  pub leader_id : String
  pub term : ℕ
  pub last_log_index : ℕ
  pub applied_index : ℕ
  pub peers : List String
  pub recent_placements : List Placement

pub record WorkerStatus : Type 0 where
  pub instance_name : String
  pub alive : Bool
  pub since_heartbeat : ℕ  -- in nanoseconds
  pub capacity : ℕ
  pub inflight : ℕ

pub record ClusterState : Type 0 where
  pub reporting_node : String
  pub as_of : ℕ
  pub raft : RaftStatus
  pub workers : List WorkerStatus

-- The clock is read again for each worker; the readings are one time here.
abbrev worker_status : ℕ → WorkerState → WorkerStatus
worker_status now w = record {
  instance_name = w.instance_name;
  alive = w.alive;
  since_heartbeat = now - w.last_seen;
  capacity = w.capacity % 2 ^ 32;
  inflight = w.inflight % 2 ^ 32;
}

abbrev raft_status_of : Info → RaftStatus
raft_status_of info = record {
  state = info.state;
  leader_id = info.leader_id;
  term = info.term;
  last_log_index = info.last_log_index;
  applied_index = info.applied_index;
  peers = info.peers;
  recent_placements = info.recent_placements;
}

-- GetClusterState, of what the node's `Info` answers
unfoldable pub get_cluster_state : String → Info → ℕ → Registry → ClusterState
get_cluster_state instance_name info now reg = record {
  reporting_node = instance_name;
  as_of = now;
  raft = raft_status_of info;
  workers = map (worker_status now) (Registry.snapshot now reg);
}
