-- ===== src/Statesvc/Cluster/Counts.antt =====
-- What every reachable cluster counts.
use ironwork.Prelude.{
  ◌^◌, ◌≤◌, ◌<◌, String, ◌≡◌, refl, some, true, false, List, ◌∷◌, Bool-cases, inl, inr, All, length,
  subst, arith, str_eq, eq_iff,
}
use ironwork.Dict.{lookup}
use ironwork.Statesvc.{
  Server, CrdtState, report_job_event, merge_locked, sync_state, take_answer, set_gossip,
  gossip_peer,
}
use ironwork.Statesvc.Wellformed.{shard_at, new-IsServer}
use ironwork.Statesvc.Gossip.{gossip_peer-shards}
use ironwork.Statesvc.Cluster.{
  Table, status, worker, table_of, Log, reports, Cluster, put, init, send_answer, Step, report,
  push, sync, answer, toggle, Reach, start, next, IsHonest, IsHonestState, Inv,
}
use ironwork.Statesvc.Cluster.Honest.{
  IsHonestState-mono, IsHonest-other, IsHonest-report, IsHonest-merge, IsHonestState-snapshot,
  IsHonest-toggle, All-In, All-mono,
}

put-IsHonest :
    (c : Cluster) (log : Log) (i : String) (s : Server)
    → IsHonest log i s
    → ((k : String) → str_eq i k ≡ false → IsHonest log k (c.at k))
    → (k : String) → IsHonest log k ((put c i s).at k)
put-IsHonest c log i s h others k = elim (Bool-cases (str_eq i k)) [
  | inl e ↦ rw e (subst (λ n. IsHonest log n s) ((eq_iff i k).0 e) h)
  | inr n ↦ rw n (others k n)
]

sync-IsHonest :
    (log : Log) (i : String) (s : Server) (m : CrdtState) (net : List CrdtState)
    → IsHonest log i s
    → IsHonestState log m
    → All (IsHonestState log) net
    → IsHonest log i (sync_state s (some m)).1
      × All (IsHonestState log) (send_answer (sync_state s (some m)).0 net)
unfolding sync_state
sync-IsHonest log i s m net h g rest = elim (Bool-cases s.gossip_on) [
  | inl on ↦ simp on (
    IsHonest-merge i log s m h g,
    (IsHonestState-snapshot i log (merge_locked s (some m)) (IsHonest-merge i log s m h g), rest),
  )
  | inr off ↦ simp off (h, rest)
]

Step-Inv : {c d : Cluster} → Step c d → length d.log < 2 ^ 64 → Inv c → Inv d
unfolding take_answer set_gossip
Step-Inv {c} (report i now req) small v = record {
  replicas =
      put-IsHonest c ((i, req) ∷ c.log) i (report_job_event now (c.at i) req).1
        (IsHonest-report i now req c.log (c.at i) (omega arith) (v.replicas i))
        (λ k n. IsHonest-other i k req c.log (c.at k) n (v.replicas k));
  messages = All-mono _ _ c.net (λ m. IsHonestState-mono i req c.log m) v.messages;
}
Step-Inv {c} (push i) small v = record {
  replicas = v.replicas;
  messages = (IsHonestState-snapshot i c.log (c.at i) (v.replicas i), v.messages);
}
Step-Inv {c} (sync i m a) small v =
    let (s, net) =
      sync-IsHonest c.log i (c.at i) m c.net (v.replicas i) (All-In _ m c.net v.messages a)
        v.messages in
    record {
      replicas = put-IsHonest c c.log i (sync_state (c.at i) (some m)).1 s (λ k _. v.replicas k);
      messages = net;
    }
Step-Inv {c} (answer i m a) small v = record {
  replicas =
      put-IsHonest c c.log i (merge_locked (c.at i) (some m))
        (IsHonest-merge i c.log (c.at i) m (v.replicas i) (All-In _ m c.net v.messages a))
        (λ k _. v.replicas k);
  messages = v.messages;
}
Step-Inv {c} (toggle i b) small v = record {
  replicas =
      put-IsHonest c c.log i (record (c.at i) { gossip_on = b })
        (IsHonest-toggle i c.log (c.at i) b (v.replicas i)) (λ k _. v.replicas k);
  messages = v.messages;
}

init-Inv : Inv init
unfolding reports lookup
init-Inv = record {
  replicas = λ i. record {
    named = refl;
    server = new-IsServer i;
    own = elim [ status ↦ λ key. refl | worker ↦ λ key. refl ];
    le = elim [ status ↦ λ key r. omega arith | worker ↦ λ key r. omega arith ];
  };
  messages = tt;
}

length-log : {c d : Cluster} → Step c d → length c.log ≤ length d.log
length-log (report i now req) = omega arith
length-log (push i) = omega arith
length-log (sync i m a) = omega arith
length-log (answer i m a) = omega arith
length-log (toggle i b) = omega arith

Reach-Inv : {c : Cluster} → Reach c → length c.log < 2 ^ 64 → Inv c
Reach-Inv start small = init-Inv
Reach-Inv (next r st) small = Step-Inv st small (Reach-Inv r (omega (arith, length-log st)))

-- In every reachable cluster with fewer than 2^64 reports, a replica's own shard is the number of
-- reports that it accepted, and no replica's copy of it is larger.
pub own_shard_exact :
    (c : Cluster) (t : Table) (i j key : String)
    → Reach c
    → length c.log < 2 ^ 64
    → (shard_at key i (table_of t (c.at i)) ≡ reports t i key c.log)
      × (shard_at key i (table_of t (c.at j)) ≤ reports t i key c.log)
own_shard_exact c t i j key r small =
    let v = Reach-Inv r small in ((v.replicas i).own t key, (v.replicas j).le t key i)

-- After an exchange of two replicas that take part, each counts all that the other accepted.
pub exchange_delivers :
    (c : Cluster) (t : Table) (i j key : String)
    → Reach c
    → length c.log < 2 ^ 64
    → (c.at i).gossip_on ≡ true
    → (c.at j).gossip_on ≡ true
    → (shard_at key j (table_of t (gossip_peer (c.at i) (c.at j)).0) ≡ reports t j key c.log)
      × (shard_at key i (table_of t (gossip_peer (c.at i) (c.at j)).1) ≡ reports t i key c.log)
exchange_delivers c status i j key r small on on' =
    let v = Reach-Inv r small in
    let at_j =
      gossip_peer-shards (c.at i) (c.at j) key j (v.replicas i).server (v.replicas j).server on
        on' in
    let at_i =
      gossip_peer-shards (c.at i) (c.at j) key i (v.replicas i).server (v.replicas j).server on
        on' in
    omega (
      arith,
      at_i,
      at_j,
      (v.replicas i).own status key,
      (v.replicas j).own status key,
      (v.replicas i).le status key j,
      (v.replicas j).le status key i,
    )
exchange_delivers c worker i j key r small on on' =
    let v = Reach-Inv r small in
    let at_j =
      gossip_peer-shards (c.at i) (c.at j) key j (v.replicas i).server (v.replicas j).server on
        on' in
    let at_i =
      gossip_peer-shards (c.at i) (c.at j) key i (v.replicas i).server (v.replicas j).server on
        on' in
    omega (
      arith,
      at_i,
      at_j,
      (v.replicas i).own worker key,
      (v.replicas j).own worker key,
      (v.replicas i).le worker key j,
      (v.replicas j).le worker key i,
    )
