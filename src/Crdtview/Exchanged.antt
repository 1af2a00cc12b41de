-- ===== src/Crdtview/Exchanged.antt =====
-- What the dashboard shows of two replicas that have exchanged their states.
use ironwork.Prelude.{
  ℕ, ◌≡◌, refl, sym, ap, ◌∙◌, String, true, Option, none, some, Bool-cases, inl, inr, List, [], ◌∷◌,
  str_eq, eq_iff, subst,
}
use ironwork.Dict.{lookup, insert, lookup-insert, IsMap}
use ironwork.Crdt.Counter.{GCounter, value}
use ironwork.Crdt.Counter as Counter
use ironwork.Crdt.Counter.Value.{value_of_shards}
use ironwork.Statesvc.{
  Server, CrdtState, Counters, counter_at, snapshot_locked, get_crdt_state, gossip_peer, or_new,
}
use ironwork.Statesvc.Wellformed.{IsCounters, IsServer, counter_at-IsMap, shard_at}
use ironwork.Statesvc.Gossip.{IsState, snapshot-IsState, gossip_peer-shards, gossip_peer-IsServer}
use ironwork.Statesvc.Cluster.{Table, status, worker, sent_table, table_of}
use ironwork.Statesvc.Cluster.Honest.{shard_at-snapshot}
use ironwork.Crdtview.{
  CounterView, ReplicaView, Answer, sum_loop, counters_loop, counters_to_view, replica_view,
}

-- What a replica answers to GetCRDTState.
abbrev pub answer_of : Server → Answer
answer_of s = let (state, gossips, name) = get_crdt_state s in some (state, gossips)

abbrev total_or_zero : Option CounterView → ℕ
total_or_zero none = 0
total_or_zero (some v) = v.total

-- The total that a table of the dashboard shows for a key, 0 where it shows none.
abbrev pub total_at : String → List (String × CounterView) → ℕ
total_at key view = total_or_zero (lookup key view)

-- A table of the dashboard.
abbrev pub shown_table : Table → ReplicaView → List (String × CounterView)
shown_table status v = v.by_status
shown_table worker v = v.by_worker

sum_loop-same : (c : GCounter) (total : ℕ) → sum_loop total c ≡ Counter.sum_loop total c
unfolding sum_loop Counter.sum_loop
sum_loop-same [] total = refl
sum_loop-same ((replica, v) ∷ c) total = sum_loop-same c _

abbrev shown_or : Option CounterView → Option GCounter → Option CounterView
shown_or old none = old
shown_or old (some c) = some (record { total = sum_loop 0 c; shards = c })

lookup-counters_loop :
    (key : String) (out : List (String × CounterView)) (src : Counters)
    → IsMap src
    → lookup key (counters_loop out src) ≡ shown_or (lookup key out) (lookup key src)
unfolding counters_loop lookup
lookup-counters_loop key out [] h = refl
lookup-counters_loop key out ((k, c) ∷ src) h =
    let v : CounterView = record { total = sum_loop 0 c; shards = c } in
    lookup-counters_loop key (insert k v out) src h.1 ∙ elim (Bool-cases (str_eq k key)) [
      | inl y ↦
          let gone : lookup key src ≡ none =
            subst (λ j. lookup j src ≡ none) ((eq_iff k key).0 y) h.0 in
          rw (lookup-insert k key v out, y, gone) refl
      | inr n ↦ rw (lookup-insert k key v out, n) refl
    ]

total_at-value :
    (key : String) (m : Counters)
    → IsMap m
    → total_at key (counters_to_view m) ≡ value (counter_at m key)
unfolding value lookup
total_at-value key m h = ap total_or_zero (lookup-counters_loop key [] m h) ∙ shown (lookup key m)
  where
    shown : (o : Option GCounter) → total_or_zero (shown_or none o) ≡ Counter.sum_loop 0 (or_new o)
    shown none = refl
    shown (some c) = sum_loop-same c 0

shown-value :
    (t : Table) (key name : String) (s : Server)
    → IsServer s
    → total_at key (shown_table t (replica_view name (answer_of s)))
      ≡ value (counter_at (sent_table t (snapshot_locked s)) key)
unfolding get_crdt_state
shown-value status key name s h =
    total_at-value key (snapshot_locked s).by_status (snapshot-IsState s h).by_status.is_map
shown-value worker key name s h =
    total_at-value key (snapshot_locked s).by_worker (snapshot-IsState s h).by_worker.is_map

sent_table-IsCounters : (t : Table) (m : CrdtState) → IsState m → IsCounters (sent_table t m)
sent_table-IsCounters status m h = h.by_status
sent_table-IsCounters worker m h = h.by_worker

exchanged-shards :
    (t : Table) (key q : String) (s peer : Server)
    → IsServer s
    → IsServer peer
    → s.gossip_on ≡ true
    → peer.gossip_on ≡ true
    → shard_at key q (table_of t (gossip_peer s peer).0)
      ≡ shard_at key q (table_of t (gossip_peer s peer).1)
exchanged-shards status key q s peer hs hp on on' =
    let e = gossip_peer-shards s peer key q hs hp on on' in e.0 ∙ sym e.1
exchanged-shards worker key q s peer hs hp on on' =
    let e = gossip_peer-shards s peer key q hs hp on on' in e.2 ∙ sym e.3

-- After an exchange of two replicas that take part and keep the invariant, the dashboard shows the
-- same totals for both, of every outcome and every worker.
pub exchange_shown :
    (t : Table) (key : String) (s peer : Server) (name other : String)
    → IsServer s
    → IsServer peer
    → s.gossip_on ≡ true
    → peer.gossip_on ≡ true
    → total_at key (shown_table t (replica_view name (answer_of (gossip_peer s peer).0)))
      ≡ total_at key (shown_table t (replica_view other (answer_of (gossip_peer s peer).1)))
exchange_shown t key s peer name other hs hp on on' =
    let (a, b) = gossip_peer-IsServer s peer hs hp in
    let (u, v) = gossip_peer s peer in
    let same =
      value_of_shards (counter_at (sent_table t (snapshot_locked u)) key)
        (counter_at (sent_table t (snapshot_locked v)) key)
        (counter_at-IsMap _ key (sent_table-IsCounters t _ (snapshot-IsState u a)))
        (counter_at-IsMap _ key (sent_table-IsCounters t _ (snapshot-IsState v b)))
        (λ q.
          shard_at-snapshot t u key q a
          ∙ exchanged-shards t key q s peer hs hp on on'
          ∙ sym (shard_at-snapshot t v key q b)) in
    shown-value t key name u a ∙ same ∙ sym (shown-value t key other v b)
