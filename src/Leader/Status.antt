-- ===== src/Leader/Status.antt =====
-- internal/leaderclient/leaderclient.go: every scheduler's view of the cluster, side by side. Each
-- call writes the slot of its own member, so that their order does not matter; `none` is a member
-- that does not answer.
use ironwork.Prelude.{ℕ, String, Bool, true, false, Option, none, some, List, [], ◌∷◌}
use ironwork.Fsm.{Placement}
use ironwork.Scheduler.State.{ClusterState, WorkerStatus}

pub record NodeStatus : Type 0 where
  pub name : String
  pub reachable : Bool
  pub state : String
  pub leader_id : String
  pub term : ℕ
  pub last_log_index : ℕ
  pub applied_index : ℕ
  pub placements : List Placement
  pub workers : List WorkerStatus

abbrev node_status : String → Option ClusterState → NodeStatus
node_status name none = record {
  name = name;
  reachable = false;
  state = "";
  leader_id = "";
  term = 0;
  last_log_index = 0;
  applied_index = 0;
  placements = [];
  workers = [];
}
node_status name (some st) = record {
  name = name;
  reachable = true;
  state = st.raft.state;
  leader_id = st.raft.leader_id;
  term = st.raft.term;
  last_log_index = st.raft.last_log_index;
  applied_index = st.raft.applied_index;
  placements = st.raft.recent_placements;
  workers = st.workers;
}

-- (*Router).RaftStatus
unfoldable pub raft_status : (String → Option ClusterState) → List String → List NodeStatus
raft_status ask [] = []
raft_status ask (name ∷ members) = node_status name (ask name) ∷ raft_status ask members
