-- ===== src/Statesvc/Gossip.antt =====
-- One push-pull exchange between two replicas.
use Prim.Native.Nat.{max}
use ironwork.Prelude.{
  String, ◌≡◌, refl, sym, ◌∙◌, none, some, true, false, [], ◌∷◌, Bool-cases, inl, inr, ◌⊎◌, arith,
  eq_iff,
}
use ironwork.Dict.{
  lookup, insert, copy, IsMap, lookup-insert, insert-IsMap, insert-All, lookup-copy, copy-IsMap,
}
use ironwork.Crdt.Counter
use ironwork.Crdt.Counter.{GCounter, shard, value}
use ironwork.Crdt.Counter.Value.{value_of_shards}
use ironwork.Crdt.Lww
use ironwork.Statesvc.{
  Server, Counters, CrdtState, counter_at, merge_locked, counters_loop, counters_to_proto,
  snapshot_locked, sync_state, take_answer, gossip_peer,
}
use ironwork.Statesvc.Wellformed.{
  IsCounters, IsServer, shard_at, counter_at-IsMap, shard_at-merge_counters, merge_locked-IsServer,
}

shard-clone : (q : String) (c : GCounter) → IsMap c → shard q (Counter.clone c) ≡ shard q c
unfolding Counter.clone
shard-clone q c h = rw (lookup-copy q c h)

shard_at-counters_loop :
    (out m : Counters) (j q : String)
    → IsCounters m
    → shard_at j q (counters_loop out m)
      ≡ elim (lookup j m) [ none ↦ shard_at j q out | some c ↦ shard q c ]
unfolding counters_loop lookup
shard_at-counters_loop out [] j q h = refl
shard_at-counters_loop out ((key, c) ∷ m) j q h =
    shard_at-counters_loop (insert key (Counter.clone c) out) m j q
      (record { is_map = h.is_map.1; all_maps = h.all_maps.1 })
    ∙ ground (
      arith,
      lookup-insert key j (Counter.clone c) out,
      eq_iff key j,
      h.is_map.0,
      shard-clone q c h.all_maps.0,
    )

pub shard_at-counters_to_proto :
    (m : Counters) (j q : String)
    → IsCounters m
    → shard_at j q (counters_to_proto m) ≡ shard_at j q m
unfolding counters_to_proto lookup
shard_at-counters_to_proto m j q h = shard_at-counters_loop [] m j q h ∙ ground arith

counters_loop-IsCounters :
    (out m : Counters) → IsCounters out → IsCounters m → IsCounters (counters_loop out m)
unfolding counters_loop Counter.clone
counters_loop-IsCounters out [] o h = o
counters_loop-IsCounters out ((key, c) ∷ m) o h =
    counters_loop-IsCounters (insert key (copy c) out) m
      (record {
        is_map = insert-IsMap key (copy c) out o.is_map;
        all_maps = insert-All (λ p. IsMap p.1) key (copy c) out (copy-IsMap c) o.all_maps;
      })
      (record { is_map = h.is_map.1; all_maps = h.all_maps.1 })

counters_to_proto-IsCounters : (m : Counters) → IsCounters m → IsCounters (counters_to_proto m)
unfolding counters_to_proto
counters_to_proto-IsCounters m h =
    counters_loop-IsCounters [] m (record { is_map = tt; all_maps = tt }) h

-- A snapshot is a well-formed message.
pub record IsState (state : CrdtState) : Type 0 where
  pub by_status : IsCounters state.by_status
  pub by_worker : IsCounters state.by_worker
  pub recent : IsMap state.recent

pub snapshot-IsState : (s : Server) → IsServer s → IsState (snapshot_locked s)
unfolding snapshot_locked
snapshot-IsState s h = record {
  by_status = counters_to_proto-IsCounters s.by_status h.by_status;
  by_worker = counters_to_proto-IsCounters s.by_worker h.by_worker;
  recent = copy-IsMap (Lww.entries_of s.recent);
}

-- The two replicas after an exchange in which both take part.
gossip_peer_on :
    (s peer : Server)
    → s.gossip_on ≡ true
    → peer.gossip_on ≡ true
    → gossip_peer s peer ≡ (
      merge_locked s (some (snapshot_locked (merge_locked peer (some (snapshot_locked s))))),
      merge_locked peer (some (snapshot_locked s)),
    )
unfolding gossip_peer sync_state take_answer
gossip_peer_on s peer p q = rw (p, q)

-- A replica whose gossip is off answers no exchange and starts none: both replicas stay as they are.
pub partition_isolates :
    (s peer : Server)
    → ((s.gossip_on ≡ false) ⊎ (peer.gossip_on ≡ false))
    → gossip_peer s peer ≡ (s, peer)
unfolding gossip_peer sync_state take_answer
partition_isolates s peer h = ground arith

-- Merging another replica's snapshot takes the larger of the two shards, in both tables.
merge_snapshot-shards :
    (s t : Server) (key q : String)
    → IsServer t
    → (shard_at key q (merge_locked s (some (snapshot_locked t))).by_status
        ≡ max (shard_at key q s.by_status) (shard_at key q t.by_status))
      × (shard_at key q (merge_locked s (some (snapshot_locked t))).by_worker
          ≡ max (shard_at key q s.by_worker) (shard_at key q t.by_worker))
unfolding merge_locked snapshot_locked
merge_snapshot-shards s t key q h = (
  rw (← shard_at-counters_to_proto t.by_status key q h.by_status) (
      shard_at-merge_counters s.by_status (counters_to_proto t.by_status) key q
        (counters_to_proto-IsCounters t.by_status h.by_status)),
  rw (← shard_at-counters_to_proto t.by_worker key q h.by_worker) (
      shard_at-merge_counters s.by_worker (counters_to_proto t.by_worker) key q
        (counters_to_proto-IsCounters t.by_worker h.by_worker)),
)

-- An exchange leaves both replicas with the larger of their two shards, in both tables.
pub gossip_peer-shards :
    (s peer : Server) (key q : String)
    → IsServer s
    → IsServer peer
    → s.gossip_on ≡ true
    → peer.gossip_on ≡ true
    → (shard_at key q (gossip_peer s peer).0.by_status
        ≡ max (shard_at key q s.by_status) (shard_at key q peer.by_status))
      × (shard_at key q (gossip_peer s peer).1.by_status
          ≡ max (shard_at key q s.by_status) (shard_at key q peer.by_status))
      × (shard_at key q (gossip_peer s peer).0.by_worker
          ≡ max (shard_at key q s.by_worker) (shard_at key q peer.by_worker))
      × (shard_at key q (gossip_peer s peer).1.by_worker
          ≡ max (shard_at key q s.by_worker) (shard_at key q peer.by_worker))
gossip_peer-shards s peer key q hs hp on on' =
    let peer' = merge_locked peer (some (snapshot_locked s)) in
    let pushed = merge_snapshot-shards peer s key q hs in
    let pulled =
      merge_snapshot-shards s peer' key q
        (merge_locked-IsServer peer (some (snapshot_locked s)) hp) in
    rw (gossip_peer_on s peer on on') (omega (arith, pushed, pulled))

-- An exchange keeps the invariant of both replicas.
pub gossip_peer-IsServer :
    (s peer : Server)
    → IsServer s
    → IsServer peer
    → IsServer (gossip_peer s peer).0 × IsServer (gossip_peer s peer).1
gossip_peer-IsServer s peer hs hp = elim (Bool-cases s.gossip_on) [
  | inr off ↦ rw (partition_isolates s peer (inl off)) (hs, hp)
  | inl on ↦ elim (Bool-cases peer.gossip_on) [
    | inr off ↦ rw (partition_isolates s peer (inr off)) (hs, hp)
    | inl on' ↦
        rw (gossip_peer_on s peer on on')
          (merge_locked-IsServer s _ hs, merge_locked-IsServer peer _ hp)
  ]
]

-- After an exchange both replicas report the same count for every outcome and every worker.
pub gossip_peer_converges :
    (s peer : Server) (key : String)
    → IsServer s
    → IsServer peer
    → s.gossip_on ≡ true
    → peer.gossip_on ≡ true
    → (value (counter_at (gossip_peer s peer).0.by_status key)
        ≡ value (counter_at (gossip_peer s peer).1.by_status key))
      × (value (counter_at (gossip_peer s peer).0.by_worker key)
          ≡ value (counter_at (gossip_peer s peer).1.by_worker key))
gossip_peer_converges s peer key hs hp on on' =
    let (hs', hp') = gossip_peer-IsServer s peer hs hp in
    (
      value_of_shards _ _ (counter_at-IsMap _ key hs'.by_status)
          (counter_at-IsMap _ key hp'.by_status)
          (λ q. let e = gossip_peer-shards s peer key q hs hp on on' in e.0 ∙ sym e.1),
      value_of_shards _ _ (counter_at-IsMap _ key hs'.by_worker)
          (counter_at-IsMap _ key hp'.by_worker)
          (λ q. let e = gossip_peer-shards s peer key q hs hp on on' in e.2 ∙ sym e.3),
    )
