-- ===== src/Gateway.antt =====
-- internal/gatewayhttp/gatewayhttp.go: the REST surface. What the scheduler's JobService answers is a
-- parameter; a response is its HTTP status and, unless it is an error's, its body.
pub mod Render
pub mod Jobs
pub mod Health
pub mod Requests
pub mod Reads
pub mod Partition
pub mod Submission
pub mod Majority
use ironwork.Prelude.{
  ℕ, ◌+◌, ◌/◌, String, Bool, true, false, ◌&&◌, ◌||◌, not, Option, none, some, List, [], ◌∷◌,
  length, ltb, str_eq, ℤ, pos, negsuc, ltb_ℤ, map, if◌then◌else◌,
}
use ironwork.Dict.{lookup, insert}
use ironwork.Rpc.{Code, invalid_argument, not_found, Result, ok, err}
use ironwork.Observer.{ServingStatus, is_serving}
use ironwork.Scheduler.Wire.{WireJob}
use ironwork.Scheduler.State.{WorkerStatus}
use ironwork.Leader.Status.{NodeStatus}
use ironwork.Store.Outbox.{OutboxStats}
use ironwork.Crdtview.{View}

abbrev pub default_limit : ℕ
default_limit = 50

abbrev pub max_limit : ℕ
max_limit = 200

-- writeRPCError
abbrev pub error_status : Code → ℕ
error_status invalid_argument = 400
error_status not_found = 404
error_status _ = 502

-- The response of a handler: its status and its body.
abbrev pub Response : Type 0 → Type 0
Response A = ℕ × Option A

abbrev pub respond : {A : Type 0} → ℕ → Result A → Response A
respond code (ok a) = (code, some a)
respond code (err e) = (error_status e, none)

abbrev pub or_zero : Option ℕ → ℕ
or_zero none = 0
or_zero (some n) = n

-- `votes[n.LeaderID]++`, for each reachable node that names a leader
unfoldable pub votes : List (String × ℕ) → List NodeStatus → List (String × ℕ)
votes tally [] = tally
votes tally (n ∷ nodes) =
    votes
      (if n.reachable && not (str_eq n.leader_id "")
        then insert n.leader_id (or_zero (lookup n.leader_id tally) + 1) tally
        else tally)
      nodes

unfoldable pub elected : ℕ → String → List (String × ℕ) → String
elected total leader [] = leader
elected total leader ((id, count) ∷ tally) =
    elected total (if ltb (total / 2) count then id else leader) tally

-- The leader that handleRaft reports.
unfoldable pub majority_leader : List NodeStatus → String
majority_leader nodes = elected (length nodes) "" (votes [] nodes)

-- handleWorkers
pub record NodeWorkers : Type 0 where
  pub name : String
  pub reachable : Bool
  pub workers : List WorkerStatus

abbrev node_workers : NodeStatus → NodeWorkers
node_workers n = record { name = n.name; reachable = n.reachable; workers = n.workers }

unfoldable handle_workers : List NodeStatus → List NodeWorkers
handle_workers nodes = map node_workers nodes

-- handleRaft
unfoldable handle_raft : List NodeStatus → Response (String × List NodeStatus)
handle_raft nodes = (200, some (majority_leader nodes, nodes))

-- handleCRDTState, of what `Fetch` answers
abbrev handle_crdt_state : View → Response View
handle_crdt_state view = (200, some view)

-- handleOutbox
unfoldable pub handle_outbox : Result OutboxStats → Response OutboxStats
handle_outbox r = respond 200 r

-- handleSetGossip, of the names of the replicas that fail
unfoldable pub handle_set_gossip : Bool → List String → Response Bool
handle_set_gossip enabled [] = (200, some enabled)
handle_set_gossip enabled (name ∷ failed) = (502, none)
