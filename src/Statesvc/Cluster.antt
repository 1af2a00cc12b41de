-- ===== src/Statesvc/Cluster.antt =====
-- The statemanager replicas together, over a network that may lose, delay, reorder and repeat
-- messages, and what was reported to each.
pub mod Honest
pub mod Counts
pub mod Rounds
use Prim.Native.Nat.{max}
use ironwork.Prelude.{
  ℕ, suc, ◌+◌, ◌%◌, ◌^◌, ◌≤◌, ◌<◌, String, ℤ, ◌≡◌, refl, sym, ◌∙◌, ap, Option, none, some, true,
  false, List, [], ◌∷◌, Bool, Bool-cases, inl, inr, All, Any, length, subst, arith, str_eq, eq_iff,
  ◌&&◌, if◌then◌else◌,
}
use ironwork.Rpc.{Result, ok, err}
use ironwork.Crdt.Counter.{u64}
use ironwork.Crdt.Lww
use ironwork.Statesvc.{
  Server, Counters, CrdtState, ReportRequest, new, counter_at, report_ok, report_job_event,
  merge_locked, snapshot_locked, sync_state, take_answer, set_gossip,
}
use ironwork.Statesvc.Wellformed.{
  IsCounters, IsServer, shard_at, new-IsServer, report-IsServer, merge_locked-IsServer,
  shard_at-inc_at, shard_at-merge_counters,
}
use ironwork.Statesvc.Gossip.{IsState, snapshot-IsState, shard_at-counters_to_proto}

-- The two tables of a replica, and the field of a report that each is keyed by.
pub data Table : Type 0 where
  status worker : Table

abbrev pub table_of : Table → Server → Counters
table_of status s = s.by_status
table_of worker s = s.by_worker

abbrev pub sent_table : Table → CrdtState → Counters
sent_table status m = m.by_status
sent_table worker m = m.by_worker

abbrev pub key_of : Table → ReportRequest → String
key_of status req = req.outcome
key_of worker req = req.worker

-- Who reported what, newest first.
abbrev pub Log : Type 0
Log = List (String × ReportRequest)

-- The accepted reports at a replica with a key.
unfoldable pub reports : Table → String → String → Log → ℕ
reports t i key [] = 0
reports t i key ((j, req) ∷ log) =
    (if report_ok req && (str_eq (key_of t req) key && str_eq j i) then 1 else 0)
    + reports t i key log

pub record Cluster : Type 0 where
  pub at : String → Server
  pub net : List CrdtState
  pub log : Log

abbrev pub put : Cluster → String → Server → Cluster
put c i s = record c { at = λ k. if str_eq i k then s else c.at k }

abbrev pub init : Cluster
init = record { at = new; net = []; log = [] }

-- Answers of `SyncState` go to the network too.
abbrev pub send_answer : Result CrdtState → List CrdtState → List CrdtState
send_answer (ok m) net = m ∷ net
send_answer (err code) net = net

abbrev pub In : CrdtState → List CrdtState → Type 0
In m net = Any (λ x. m ≡ x) net

pub data Step (c : Cluster) : Cluster → Type 0 where
  report :
      (i : String) (now : ℤ) (req : ReportRequest)
      → Step c (record (put c i (report_job_event now (c.at i) req).1) { log = (i, req) ∷ c.log })
  push : (i : String) → Step c (record c { net = snapshot_locked (c.at i) ∷ c.net })
  sync :
      (i : String) (m : CrdtState)
      → In m c.net
      → Step c (record (put c i (sync_state (c.at i) (some m)).1) {
        net = send_answer (sync_state (c.at i) (some m)).0 c.net;
      })
  answer :
      (i : String) (m : CrdtState) → In m c.net → Step c (put c i (take_answer (c.at i) (ok m)))
  toggle : (i : String) (b : Bool) → Step c (put c i (set_gossip (c.at i) b).1)

pub data Reach : Cluster → Type 0 where
  start : Reach init
  next : {c d : Cluster} → Reach c → Step c d → Reach d

-- What a replica or a message may count.
pub record IsHonest (log : Log) (i : String) (s : Server) : Type 0 where
  pub named : s.replica ≡ i
  pub server : IsServer s
  pub own : (t : Table) (key : String) → shard_at key i (table_of t s) ≡ reports t i key log
  pub le : (t : Table) (key r : String) → shard_at key r (table_of t s) ≤ reports t r key log

pub record IsHonestState (log : Log) (m : CrdtState) : Type 0 where
  pub state : IsState m
  pub le : (t : Table) (key r : String) → shard_at key r (sent_table t m) ≤ reports t r key log

pub record Inv (c : Cluster) : Type 0 where
  pub replicas : (i : String) → IsHonest c.log i (c.at i)
  pub messages : All (IsHonestState c.log) c.net
