-- ===== src/Raftnode.antt =====
-- internal/raftnode/raftnode.go: a member of the schedulers' Raft group. The Raft library
-- (hashicorp/raft) is a parameter, with a state of its own.
pub mod Numbers
pub mod Recorded
pub mod Bootstrap
use ironwork.Prelude.{
  ℕ, String, Bool, true, false, Option, none, some, List, [], ◌∷◌, map, lt_str, if◌then◌else◌,
}
use ironwork.Dict.{lookup}
use ironwork.Sort.{sort}
use ironwork.Fsm.{Placement, FsmState, Json, init, apply, apply_all, placements}
use ironwork.Raftnode.Numbers.{parse_uint}

pub data RaftState : Type 0 where
  follower candidate leader shutdown : RaftState

-- `RaftState.String`
abbrev state_name : RaftState → String
state_name follower = "Follower"
state_name candidate = "Candidate"
state_name leader = "Leader"
state_name shutdown = "Shutdown"

abbrev pub is_leader_state : RaftState → Bool
is_leader_state leader = true
is_leader_state _ = false

-- How a call of `Apply` ends, with the entries that the library has handed to the state machine by
-- then: in an error, or, when the state machine has taken the entry of the call, after `before` and
-- before `after`.
pub data Applied (Bytes : Type 0) : Type 0 where
  failed : List Bytes → Applied Bytes
  taken : List Bytes → List Bytes → Applied Bytes

-- How `BootstrapCluster` ends; the group may have a configuration already.
pub data Bootstrapped : Type 0 where
  bootstrapped cant_bootstrap bootstrap_failed : Bootstrapped

-- A server of a configuration: its id and its address.
abbrev pub Servers : Type 0
Servers = List (String × String)

-- What the source calls of the Raft library.
pub record Raft (Bytes R : Type 0) : Type 0 where
  pub state : R → RaftState
  pub leader_with_id : R → String
  pub stats : R → List (String × String)
  pub get_configuration : R → Option Servers
  pub apply_entry : Bytes → R → Applied Bytes × R
  pub bootstrap_cluster : Servers → R → Bootstrapped × R
  pub leadership_transfer : R → Bool × R
  pub stop : R → Bool × R

pub record Node (R : Type 0) : Type 0 where
  pub raft : R
  pub fsm : FsmState
  pub id : String

pub record Info : Type 0 where
  pub state : String
  pub leader_id : String
  pub term : ℕ
  pub last_log_index : ℕ
  pub applied_index : ℕ
  pub peers : List String
  pub placement_count : ℕ
  pub recent_placements : List Placement

abbrev stat_of : Option String → ℕ
stat_of none = 0
stat_of (some v) = parse_uint v

-- `statUint`; the value of a missing key is "", which is no number
abbrev stat_uint : List (String × String) → String → ℕ
stat_uint stats key = stat_of (lookup key stats)

abbrev id_of : String × String → String
id_of (name, addr) = name

abbrev peers_of : Option Servers → List String
peers_of none = []
peers_of (some servers) = sort lt_str (map id_of servers)

-- The order of `sort.Slice` in New.
abbrev pub by_id : String × String → String × String → Bool
by_id a b = lt_str a.0 b.0

unfoldable pub servers_of : List (String × String) → Servers
servers_of peers = sort by_id peers

module _ {Bytes R : Type 0} (lib : Raft Bytes R) where
  -- newWithBackends, of the state in which the library starts
  abbrev new_with_backends : String → R → Node R
  new_with_backends id r = record { raft = r; fsm = init; id = id }

  abbrev started : Node R → Bootstrapped × R → Option (Node R)
  started node (bootstrap_failed, r) = none
  started node (_, r) = some (record node { raft = r })

  abbrev opened : String → List (String × String) → Option (Bool × R) → Option (Node R)
  opened name peers none = none
  opened name peers (some (has_state, r)) =
      let node = new_with_backends name r in
      if has_state then some node else started node (lib.bootstrap_cluster (servers_of peers) r)

  abbrev configured :
      String → List (String × String) → Option (Bool × R) → Option String → Option (Node R)
  configured name peers backends none = none
  configured name peers backends (some advertise) = opened name peers backends

  -- New, of the name of the member, its peers, and the library's start on the member's TLS, disk and
  -- network: whether the disk holds a state, and the state of the library; `none` is an error
  unfoldable pub new : String → List (String × String) → Option (Bool × R) → Option (Node R)
  new name peers backends = configured name peers backends (lookup name peers)

  -- IsLeader
  abbrev pub is_leader : Node R → Bool
  is_leader n = is_leader_state (lib.state n.raft)

  -- LeaderID
  abbrev pub leader_id : Node R → String
  leader_id n = lib.leader_with_id n.raft

  -- Info
  unfoldable pub info : Node R → Info
  info n =
      let stats = lib.stats n.raft in
      let (count, recent) = placements n.fsm in
      record {
        state = state_name (lib.state n.raft);
        leader_id = leader_id n;
        term = stat_uint stats "term";
        last_log_index = stat_uint stats "last_log_index";
        applied_index = stat_uint stats "applied_index";
        peers = peers_of (lib.get_configuration n.raft);
        placement_count = count;
        recent_placements = recent;
      }

  -- Shutdown; an error is logged
  unfoldable pub shut_down : Node R → Node R
  shut_down n =
      let n' = if is_leader n then record n { raft = (lib.leadership_transfer n.raft).1 } else n in
      record n' { raft = (lib.stop n'.raft).1 }

  module _ (json : Json Bytes) where
    -- Whether the entry decoded, and the state machine once the library has handed it the entries.
    abbrev responded : FsmState → Bytes → Applied Bytes → Bool × FsmState
    responded s entry (failed given) = (false, apply_all json s given)
    responded s entry (taken before after) =
        let (decodes, s') = apply json (apply_all json s before) entry in
        (decodes, apply_all json s' after)

    abbrev pub apply_encoded : Option Bytes → Node R → Bool × Node R
    apply_encoded none n = (false, n)
    apply_encoded (some entry) n =
        let (applied, r) = lib.apply_entry entry n.raft in
        let (success, s) = responded n.fsm entry applied in
        (success, record n { raft = r; fsm = s })

    -- ApplyPlacement at the time `now`: whether it succeeds, and the node after it
    unfoldable pub apply_placement : ℕ → String → String → Node R → Bool × Node R
    apply_placement now job_id worker n =
        apply_encoded (json.encode (record { job_id = job_id; worker = worker; at = now })) n
