-- ===== src/Statesvc/Wellformed.antt =====
-- The tables of a replica as maps of maps.
use Prim.Native.Nat.{max}
use ironwork.Prelude.{
  ℕ, ◌+◌, ◌≤◌, String, ◌≡◌, ◌∙◌, Option, none, some, [], ◌∷◌, ℤ, Bool-cases, Option-cases, inl, inr,
  All, length, arith, str_eq, eq_iff, ◌&&◌, if◌then◌else◌,
}
use ironwork.Dict.{
  lookup, insert, copy, IsMap, lookup-insert, insert-IsMap, lookup-All, insert-All, copy-IsMap,
}
use ironwork.Crdt.Counter
use ironwork.Crdt.Counter.{GCounter, u64, shard}
use ironwork.Crdt.Counter.Laws.{shard-inc, shard-merge, merge-IsMap, inc-IsMap}
use ironwork.Crdt.Lww
use ironwork.Crdt.Lww.Window.{merge-IsWindow, set-IsWindow}
use ironwork.Statesvc.{
  Server, Counters, CrdtState, ReportRequest, new, counter_at, inc_at, report_ok, report_job_event,
  merge_counter, merge_counters, merge_locked,
}

-- The shard of a replica in the counter at a key.
abbrev pub shard_at : String → String → Counters → ℕ
shard_at key replica m = shard replica (counter_at m key)

pub record IsCounters (m : Counters) : Type 0 where
  pub is_map : IsMap m
  pub all_maps : All (λ p. IsMap p.1) m

pub counter_at-IsMap : (m : Counters) (key : String) → IsCounters m → IsMap (counter_at m key)
counter_at-IsMap m key h = elim (Option-cases (lookup key m)) [
  | inl n ↦ rw n tt
  | inr (c, e) ↦ rw e (lookup-All (λ p. IsMap p.1) key c m h.all_maps e)
]

insert-IsCounters :
    (key : String) (c : GCounter) (m : Counters)
    → IsMap c
    → IsCounters m
    → IsCounters (insert key c m)
insert-IsCounters key c m hc h = record {
  is_map = insert-IsMap key c m h.is_map;
  all_maps = insert-All (λ p. IsMap p.1) key c m hc h.all_maps;
}

inc_at-IsCounters :
    (m : Counters) (key replica : String) → IsCounters m → IsCounters (inc_at m key replica)
unfolding inc_at
inc_at-IsCounters m key replica h =
    insert-IsCounters key (Counter.inc replica (counter_at m key)) m
      (inc-IsMap replica (counter_at m key) (counter_at-IsMap m key h)) h

pub shard_at-inc_at :
    (m : Counters) (key replica j q : String)
    → shard_at j q (inc_at m key replica) ≡ (
        if str_eq key j && str_eq replica q
        then u64 (shard_at key replica m + 1)
        else shard_at j q m)
unfolding inc_at
shard_at-inc_at m key replica j q = ground (
  arith,
  lookup-insert key j (Counter.inc replica (counter_at m key)) m,
  shard-inc replica q (counter_at m key),
  eq_iff key j,
  eq_iff replica q,
)

merge_counter-IsCounters :
    (dst : Counters) (key : String) (remote : GCounter)
    → IsCounters dst
    → IsCounters (merge_counter dst key remote)
unfolding merge_counter
merge_counter-IsCounters dst key remote h =
    insert-IsCounters key (Counter.merge (counter_at dst key) remote) dst
      (merge-IsMap (counter_at dst key) remote (counter_at-IsMap dst key h)) h

merge_counters-IsCounters :
    (dst src : Counters) → IsCounters dst → IsCounters (merge_counters dst src)
unfolding merge_counters
merge_counters-IsCounters dst [] h = h
merge_counters-IsCounters dst ((key, remote) ∷ src) h =
    merge_counters-IsCounters (merge_counter dst key remote) src
      (merge_counter-IsCounters dst key remote h)

shard_at-merge_counter :
    (dst : Counters) (key : String) (remote : GCounter) (j q : String)
    → IsMap remote
    → shard_at j q (merge_counter dst key remote)
      ≡ (if str_eq key j then max (shard_at j q dst) (shard q remote) else shard_at j q dst)
unfolding merge_counter
shard_at-merge_counter dst key remote j q h = ground (
  arith,
  lookup-insert key j (Counter.merge (counter_at dst key) remote) dst,
  shard-merge q (counter_at dst key) remote h,
  eq_iff key j,
)

-- Every shard of a merge of tables is the larger of the two.
pub shard_at-merge_counters :
    (dst src : Counters) (j q : String)
    → IsCounters src
    → shard_at j q (merge_counters dst src) ≡ max (shard_at j q dst) (shard_at j q src)
unfolding merge_counters lookup
shard_at-merge_counters dst [] j q h = omega arith
shard_at-merge_counters dst ((key, remote) ∷ src) j q h =
    shard_at-merge_counters (merge_counter dst key remote) src j q
      (record { is_map = h.is_map.1; all_maps = h.all_maps.1 })
    ∙ ground
        (arith, shard_at-merge_counter dst key remote j q h.all_maps.0, eq_iff key j, h.is_map.0)

-- What holds of a replica between two calls.
pub record IsServer (s : Server) : Type 0 where
  pub by_status : IsCounters s.by_status
  pub by_worker : IsCounters s.by_worker
  pub recent : IsMap s.recent.entries
  pub bounded : length s.recent.entries ≤ s.recent.limit

-- A new replica satisfies the invariant.
pub new-IsServer : (replica : String) → IsServer (new replica)
new-IsServer replica = record {
  by_status = record { is_map = tt; all_maps = tt };
  by_worker = record { is_map = tt; all_maps = tt };
  recent = tt;
  bounded = omega arith;
}

limit-set : (m : Lww.LwwMap) (k : String) (e : Lww.LwwEntry) → (Lww.set m k e).limit ≡ m.limit
unfolding Lww.set Lww.prune
limit-set m k e = ground arith

-- A report, accepted or refused, keeps the invariant.
pub report-IsServer :
    (now : ℤ) (s : Server) (req : ReportRequest)
    → IsServer s
    → IsServer (report_job_event now s req).1
unfolding report_job_event
report-IsServer now s req h = elim (Bool-cases (report_ok req)) [
  | inr no' ↦ rw no' h
  | inl yes' ↦ rw yes' (
      let e : Lww.LwwEntry = record {
        status = req.outcome;
        worker = req.worker;
        ts_unix_ms = now;
        replica = s.replica;
      } in
      let w = set-IsWindow s.recent req.job_id e h.recent h.bounded in
      record {
        by_status = inc_at-IsCounters s.by_status req.outcome s.replica h.by_status;
        by_worker = inc_at-IsCounters s.by_worker req.worker s.replica h.by_worker;
        recent = w.is_map;
        bounded = rw limit-set w.bounded;
      })
]

-- Merging any message keeps the invariant.
pub merge_locked-IsServer :
    (s : Server) (state : Option CrdtState) → IsServer s → IsServer (merge_locked s state)
unfolding merge_locked Lww.merge Lww.prune
merge_locked-IsServer s none h = h
merge_locked-IsServer s (some state) h =
    let w = merge-IsWindow s.recent (copy state.recent) h.recent (copy-IsMap state.recent) in
    record {
      by_status = merge_counters-IsCounters s.by_status state.by_status h.by_status;
      by_worker = merge_counters-IsCounters s.by_worker state.by_worker h.by_worker;
      recent = w.is_map;
      bounded = w.bounded;
    }
