-- ===== src/Crdtview.antt =====
-- internal/crdtview/crdtview.go: the replicas side by side, and whether they have converged.
-- `proto.Equal` is a parameter. What a replica answers is its state and whether it gossips, or an error.
pub mod Clients
pub mod Converged
pub mod Exchanged
use ironwork.Prelude.{
  ℕ, ◌+◌, ◌%◌, ◌^◌, ℤ, String, Bool, true, false, not, ◌||◌, Option, none, some, List, [], ◌∷◌,
  ltb_ℤ, if◌then◌else◌,
}
use ironwork.Dict.{insert}
use ironwork.Crdt.Counter.{GCounter}
use ironwork.Crdt.Lww.{LwwEntry}
use ironwork.Statesvc.{CrdtState}
use ironwork.Sort.{sort}

pub record CounterView : Type 0 where
  pub total : ℕ
  pub shards : GCounter

pub record RecentView : Type 0 where
  pub job_id : String
  pub entry : LwwEntry

pub record ReplicaView : Type 0 where
  pub name : String
  pub reachable : Bool
  pub gossip_enabled : Bool
  pub by_status : List (String × CounterView)
  pub by_worker : List (String × CounterView)
  pub recent : List RecentView

pub record View : Type 0 where
  pub converged : Bool
  pub replicas : List ReplicaView

unfoldable pub sum_loop : ℕ → GCounter → ℕ
sum_loop total [] = total
sum_loop total ((replica, v) ∷ shards) = sum_loop ((total + v) % 2 ^ 64) shards

unfoldable pub counters_loop :
    List (String × CounterView) → List (String × GCounter) → List (String × CounterView)
counters_loop out [] = out
counters_loop out ((key, shards) ∷ src) =
    counters_loop (insert key (record { total = sum_loop 0 shards; shards = shards }) out) src

-- countersToView
abbrev pub counters_to_view : List (String × GCounter) → List (String × CounterView)
counters_to_view src = counters_loop [] src

unfoldable pub recent_views : List (String × LwwEntry) → List RecentView
recent_views [] = []
recent_views ((id, e) ∷ src) = record { job_id = id; entry = e } ∷ recent_views src

abbrev pub newer : RecentView → RecentView → Bool
newer a b = ltb_ℤ b.entry.ts_unix_ms a.entry.ts_unix_ms

-- recentToView
abbrev recent_to_view : List (String × LwwEntry) → List RecentView
recent_to_view src = sort newer (recent_views src)

-- A replica's answer to GetCRDTState; `none` is an error.
abbrev pub Answer : Type 0
Answer = Option (CrdtState × Bool)

abbrev pub replica_view : String → Answer → ReplicaView
replica_view name none = record {
  name = name;
  reachable = false;
  gossip_enabled = false;
  by_status = [];
  by_worker = [];
  recent = [];
}
replica_view name (some (st, gossips)) = record {
  name = name;
  reachable = true;
  gossip_enabled = gossips;
  by_status = counters_to_view st.by_status;
  by_worker = counters_to_view st.by_worker;
  recent = recent_to_view st.recent;
}

abbrev state_of : Answer → Option CrdtState
state_of none = none
state_of (some (st, gossips)) = some st

unfoldable pub replica_views : List (String × Answer) → List ReplicaView
replica_views [] = []
replica_views ((name, a) ∷ members) = replica_view name a ∷ replica_views members

unfoldable pub states_of : List (String × Answer) → List (Option CrdtState)
states_of [] = []
states_of ((name, a) ∷ members) = state_of a ∷ states_of members

module _ (equal : CrdtState → CrdtState → Bool) where
  -- The loop after its first turn, `first` being `states[0]`.
  unfoldable pub agree : CrdtState → List (Option CrdtState) → Bool
  agree first [] = true
  agree first (none ∷ states) = false
  agree first (some st ∷ states) =
      let rest = agree first states in if not (equal first st) then false else rest

  unfoldable pub converged : List (Option CrdtState) → Bool
  converged [] = true
  converged (none ∷ states) = false
  converged (some first ∷ states) = agree first states

  -- (*Client).Fetch
  unfoldable pub fetch : List (String × Answer) → View
  fetch members = record {
    converged = converged (states_of members);
    replicas = replica_views members;
  }

-- (*Client).SetGossip: every replica is called, and the names of those that fail are joined.
unfoldable pub set_gossip :
    {S : Type 0} → (Bool → String → S → Bool × S) → Bool → List String → S → List String × S
set_gossip call enabled [] s = ([], s)
set_gossip call enabled (name ∷ members) s =
    let (served, s') = call enabled name s in
    let (failed, s'') = set_gossip call enabled members s' in
    (if served then failed else name ∷ failed, s'')
