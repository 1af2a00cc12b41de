-- ===== src/Statesvc/Cluster/Honest.antt =====
-- The parts of the cluster's invariant: each operation of a replica keeps its counts within what was
-- reported.
use Prim.Native.Nat.{max}
use ironwork.Prelude.{
  ◌+◌, ◌^◌, ◌≤◌, ◌<◌, String, ℤ, ◌≡◌, refl, sym, ◌∙◌, some, false, List, [], ◌∷◌, Bool, inl, inr,
  All, length, subst, arith, str_eq, eq_iff, ◌&&◌, if◌then◌else◌,
}
use ironwork.Crdt.Counter.{u64}
use ironwork.Statesvc.{
  Server, CrdtState, ReportRequest, report_ok, report_job_event, merge_locked, snapshot_locked,
}
use ironwork.Statesvc.Wellformed.{
  IsServer, shard_at, report-IsServer, merge_locked-IsServer, shard_at-inc_at,
  shard_at-merge_counters,
}
use ironwork.Statesvc.Gossip.{IsState, snapshot-IsState, shard_at-counters_to_proto}
use ironwork.Statesvc.Cluster.{
  Table, status, worker, table_of, sent_table, key_of, Log, reports, In, IsHonest, IsHonestState,
}

reports-le-length : (t : Table) (i key : String) (log : Log) → reports t i key log ≤ length log
unfolding reports
reports-le-length t i key [] = omega arith
reports-le-length t i key ((j, req) ∷ log) = ground (arith, reports-le-length t i key log)

pub shard_at-report :
    (t : Table) (now : ℤ) (s : Server) (req : ReportRequest) (key q : String)
    → shard_at key q (table_of t (report_job_event now s req).1) ≡ (
        if report_ok req && (str_eq (key_of t req) key && str_eq s.replica q)
        then u64 (shard_at key q (table_of t s) + 1)
        else shard_at key q (table_of t s))
unfolding report_job_event
shard_at-report status now s req key q = ground (
  arith,
  shard_at-inc_at s.by_status req.outcome s.replica key q,
  eq_iff req.outcome key,
  eq_iff s.replica q,
)
shard_at-report worker now s req key q = ground (
  arith,
  shard_at-inc_at s.by_worker req.worker s.replica key q,
  eq_iff req.worker key,
  eq_iff s.replica q,
)

shard_at-merge :
    (t : Table) (s : Server) (m : CrdtState) (key q : String)
    → IsState m
    → shard_at key q (table_of t (merge_locked s (some m)))
      ≡ max (shard_at key q (table_of t s)) (shard_at key q (sent_table t m))
unfolding merge_locked
shard_at-merge status s m key q h =
    shard_at-merge_counters s.by_status m.by_status key q h.by_status
shard_at-merge worker s m key q h =
    shard_at-merge_counters s.by_worker m.by_worker key q h.by_worker

pub shard_at-snapshot :
    (t : Table) (s : Server) (key q : String)
    → IsServer s
    → shard_at key q (sent_table t (snapshot_locked s)) ≡ shard_at key q (table_of t s)
unfolding snapshot_locked
shard_at-snapshot status s key q h = shard_at-counters_to_proto s.by_status key q h.by_status
shard_at-snapshot worker s key q h = shard_at-counters_to_proto s.by_worker key q h.by_worker

pub replica-report :
    (now : ℤ) (s : Server) (req : ReportRequest)
    → (report_job_event now s req).1.replica ≡ s.replica
unfolding report_job_event
replica-report now s req = ground arith

replica-merge : (s : Server) (m : CrdtState) → (merge_locked s (some m)).replica ≡ s.replica
unfolding merge_locked
replica-merge s m = refl

-- More reports, of any replica, leave what a replica or a message counts within bounds.
reports_mono :
    (t : Table) (i key j : String) (req : ReportRequest) (log : Log)
    → reports t i key log ≤ reports t i key ((j, req) ∷ log)
unfolding reports
reports_mono t i key j req log = omega arith

pub IsHonestState-mono :
    (j : String) (req : ReportRequest) (log : Log) (m : CrdtState)
    → IsHonestState log m
    → IsHonestState ((j, req) ∷ log) m
IsHonestState-mono j req log m h = record {
  state = h.state;
  le = λ t key r. omega (arith, h.le t key r, reports_mono t r key j req log);
}

pub IsHonest-other :
    (j i : String) (req : ReportRequest) (log : Log) (s : Server)
    → str_eq j i ≡ false
    → IsHonest log i s
    → IsHonest ((j, req) ∷ log) i s
unfolding reports
IsHonest-other j i req log s n h = record {
  named = h.named;
  server = h.server;
  own = λ t key. ground (arith, h.own t key);
  le = λ t key r. omega (arith, h.le t key r, reports_mono t r key j req log);
}

pub IsHonest-report :
    (i : String) (now : ℤ) (req : ReportRequest) (log : Log) (s : Server)
    → length log + 1 < 2 ^ 64
    → IsHonest log i s
    → IsHonest ((i, req) ∷ log) i (report_job_event now s req).1
unfolding reports
IsHonest-report i now req log s small h = record {
  named = replica-report now s req ∙ h.named;
  server = report-IsServer now s req h.server;
  own = λ t key. ground (
    arith,
    shard_at-report t now s req key i,
    h.own t key,
    reports-le-length t i key log,
    eq_iff i i,
  );
  le = λ t key r.
      ground
        (arith, shard_at-report t now s req key r, h.le t key r, reports-le-length t r key log);
}

pub IsHonest-merge :
    (i : String) (log : Log) (s : Server) (m : CrdtState)
    → IsHonest log i s
    → IsHonestState log m
    → IsHonest log i (merge_locked s (some m))
IsHonest-merge i log s m h g = record {
  named = replica-merge s m ∙ h.named;
  server = merge_locked-IsServer s (some m) h.server;
  own = λ t key. omega (arith, shard_at-merge t s m key i g.state, h.own t key, g.le t key i);
  le = λ t key r. omega (arith, shard_at-merge t s m key r g.state, h.le t key r, g.le t key r);
}

pub IsHonestState-snapshot :
    (i : String) (log : Log) (s : Server) → IsHonest log i s → IsHonestState log (snapshot_locked s)
IsHonestState-snapshot i log s h = record {
  state = snapshot-IsState s h.server;
  le = λ t key r. omega (arith, shard_at-snapshot t s key r h.server, h.le t key r);
}

pub IsHonest-toggle :
    (i : String) (log : Log) (s : Server) (b : Bool)
    → IsHonest log i s
    → IsHonest log i (record s { gossip_on = b })
IsHonest-toggle i log s b h = record {
  named = h.named;
  server = record {
    by_status = h.server.by_status;
    by_worker = h.server.by_worker;
    recent = h.server.recent;
    bounded = h.server.bounded;
  };
  own = elim [ status ↦ h.own status | worker ↦ h.own worker ];
  le = elim [ status ↦ h.le status | worker ↦ h.le worker ];
}

pub All-In :
    (P : CrdtState → Type 0) (m : CrdtState) (net : List CrdtState) → All P net → In m net → P m
All-In P m [] h a = elim a [ ]
All-In P m (x ∷ net) h (inl e) = subst P (sym e) h.0
All-In P m (x ∷ net) h (inr a) = All-In P m net h.1 a

pub All-mono :
    (P Q : CrdtState → Type 0) (net : List CrdtState)
    → ((m : CrdtState) → P m → Q m)
    → All P net
    → All Q net
All-mono P Q [] f h = tt
All-mono P Q (m ∷ net) f h = (f m h.0, All-mono P Q net f h.1)
