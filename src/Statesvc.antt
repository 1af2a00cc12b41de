-- ===== src/Statesvc.antt =====
-- internal/statesvc/statesvc.go: one statemanager replica. Each handler holds the mutex for its
-- whole run, so it is one step on the state.
pub mod Clients
pub mod Wellformed
pub mod Gossip
pub mod Cluster
use ironwork.Prelude.{
  String, ℤ, Bool, true, false, Option, none, some, List, [], ◌∷◌, str_eq, lt_str, not, ◌||◌, ◌&&◌,
  if◌then◌else◌, ℕ,
}
use ironwork.Rpc.{Result, ok, err, invalid_argument, unavailable}
use ironwork.Sort.{sort}
use ironwork.Dict.{lookup, insert, copy}
use ironwork.Crdt.Counter
use ironwork.Crdt.Counter.{GCounter}
use ironwork.Crdt.Lww
use ironwork.Crdt.Lww.{LwwEntry, LwwMap, Entries}

abbrev pub outcome_succeeded : String
outcome_succeeded = "succeeded"

abbrev pub outcome_failed : String
outcome_failed = "failed"

abbrev pub Counters : Type 0
Counters = List (String × GCounter)

pub record Server : Type 0 where
  pub replica : String
  pub gossip_on : Bool
  pub by_status : Counters
  pub by_worker : Counters
  pub recent : LwwMap

-- The message `CRDTState`.
pub record CrdtState : Type 0 where
  pub by_status : Counters
  pub by_worker : Counters
  pub recent : Entries

pub record ReportRequest : Type 0 where
  pub job_id : String
  pub worker : String
  pub outcome : String

-- New, with recentLimit = 50
abbrev pub new : String → Server
new replica = record {
  replica = replica;
  gossip_on = true;
  by_status = [];
  by_worker = [];
  recent = Lww.new 50;
}

abbrev pub or_new : Option GCounter → GCounter
or_new none = Counter.new
or_new (some c) = c

-- `counterLocked`: the counter at a key, a new one where the key is missing. The source stores a new
-- one at once; here whoever changes the counter stores it.
abbrev pub counter_at : Counters → String → GCounter
counter_at m key = or_new (lookup key m)

-- `s.counterLocked(m, key).Inc(s.replica)`
unfoldable pub inc_at : Counters → String → String → Counters
inc_at m key replica = insert key (Counter.inc replica (counter_at m key)) m

-- The checks of `ReportJobEvent`.
unfoldable pub report_ok : ReportRequest → Bool
report_ok req =
    not (str_eq req.job_id "" || str_eq req.worker "")
    && not (not (str_eq req.outcome outcome_succeeded) && not (str_eq req.outcome outcome_failed))

-- (*Server).ReportJobEvent, at the time `now` in milliseconds
unfoldable pub report_job_event : ℤ → Server → ReportRequest → Result (Unit {0}) × Server
report_job_event now s req =
    if report_ok req
    then (
      ok tt,
      record s {
        by_status = inc_at s.by_status req.outcome s.replica;
        by_worker = inc_at s.by_worker req.worker s.replica;
        recent = Lww.set s.recent req.job_id (record {
          status = req.outcome;
          worker = req.worker;
          ts_unix_ms = now;
          replica = s.replica;
        });
      },
    )
    else (err invalid_argument, s)

-- One round of the loop of `mergeCounters`.
unfoldable pub merge_counter : Counters → String → GCounter → Counters
merge_counter dst key remote = insert key (Counter.merge (counter_at dst key) remote) dst

unfoldable pub merge_counters : Counters → Counters → Counters
merge_counters dst [] = dst
merge_counters dst ((key, remote) ∷ src) = merge_counters (merge_counter dst key remote) src

-- `mergeLocked`; `none` is a nil message
unfoldable pub merge_locked : Server → Option CrdtState → Server
merge_locked s none = s
merge_locked s (some state) = record s {
  by_status = merge_counters s.by_status state.by_status;
  by_worker = merge_counters s.by_worker state.by_worker;
  recent = Lww.merge s.recent (copy state.recent);
}

counters_loop : Counters → Counters → Counters
counters_loop out [] = out
counters_loop out ((key, c) ∷ m) = counters_loop (insert key (Counter.clone c) out) m

-- countersToProto
unfoldable pub counters_to_proto : Counters → Counters
unfolding counters_loop
counters_to_proto m = counters_loop [] m

-- `snapshotLocked`; the loop over `Entries()` copies once more
unfoldable pub snapshot_locked : Server → CrdtState
snapshot_locked s = record {
  by_status = counters_to_proto s.by_status;
  by_worker = counters_to_proto s.by_worker;
  recent = copy (Lww.entries_of s.recent);
}

-- (*Server).SyncState
unfoldable pub sync_state : Server → Option CrdtState → Result CrdtState × Server
sync_state s state =
    if not s.gossip_on
    then (err unavailable, s)
    else (let s' = merge_locked s state in (ok (snapshot_locked s'), s'))

-- (*Server).GetCRDTState: the state, whether gossip is on, and the replica's name
unfoldable pub get_crdt_state : Server → CrdtState × Bool × String
get_crdt_state s = (snapshot_locked s, s.gossip_on, s.replica)

-- (*Server).GetClusterState at the time `now`: the reporting node, and the time
unfoldable get_cluster_state : ℕ → Server → String × ℕ
get_cluster_state now s = (s.replica, now)

-- (*Server).SetGossip
unfoldable pub set_gossip : Server → Bool → Bool × Server
set_gossip s enabled = (enabled, record s { gossip_on = enabled })

-- What `RunGossip` does with a peer's answer.
unfoldable pub take_answer : Server → Result CrdtState → Server
take_answer s (ok state) = merge_locked s (some state)
take_answer s (err code) = s

-- A call of `SyncState` by `RunGossip` on a peer that answers: the two replicas after it.
abbrev pub exchange : Server → Server → Server × Server
exchange s peer =
    let (answer, peer') = sync_state peer (some (snapshot_locked s)) in
    (take_answer s answer, peer')

-- A tick of `RunGossip` with one peer: a replica whose gossip is off starts no exchange.
unfoldable pub gossip_peer : Server → Server → Server × Server
gossip_peer s peer = if not s.gossip_on then (s, peer) else exchange s peer

-- The peers of a replica, which it visits in this order: all but itself.
unfoldable pub others_than : String → List String → List String
others_than replica [] = []
others_than replica (name ∷ names) =
    let rest = others_than replica names in if str_eq name replica then rest else name ∷ rest

unfoldable pub peer_names : String → List String → List String
peer_names replica names = sort lt_str (others_than replica names)
