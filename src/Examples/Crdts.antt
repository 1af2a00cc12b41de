-- ===== src/Examples/Crdts.antt =====
-- Inputs for the theorems on the CRDTs, the statemanager replicas and the placement log.
use ironwork.Prelude.{
  true, Bool-cases, subst, eq_iff, ℕ, ◌≤◌, ◌≡◌, refl, inl, inr, String, pos, false, Option, none,
  some, List, [], ◌∷◌, ◌++◌, str_eq, arith, length, ltb,
}
use ironwork.Dict.{lookup, insert}
use ironwork.Crdt.Counter
use ironwork.Crdt.Counter.{GCounter, u64, shard, value}
use ironwork.Crdt.Counter.Laws.{merge_semilattice}
use ironwork.Crdt.Lww
use ironwork.Crdt.Lww.{LwwEntry, LwwMap, Entries, merge_loop, merge_entry, prune_loop}
use ironwork.Crdt.Lww.Merge.{StampsAgree}
use ironwork.Crdt.Lww.Window.{merge_converges}
use ironwork.Statesvc
use ironwork.Statesvc.{Server, ReportRequest, report_job_event, report_ok, gossip_peer, counter_at}
use ironwork.Statesvc.Wellformed.{shard_at}
use ironwork.Statesvc.Cluster.{
  Cluster, Reach, start, next, report, put, init, reports, table_of, status,
}
use ironwork.Statesvc.Cluster.Counts.{own_shard_exact, exchange_delivers}
use ironwork.Fsm.{
  Placement, FsmState, Json, init as fresh, apply_all, snapshot, SnapshotSink, persist,
}
use ironwork.Fsm.History.{snapshot_replay, started_from}
use ironwork.Statesvc.Cluster.Rounds.{ticks_exact, ticks, dropped}
use ironwork.Crdt.Lww.Prune.{prune_loop_ends}

abbrev left : GCounter
left = ("a", 2) ∷ ("b", 1) ∷ []

abbrev right : GCounter
right = ("b", 5) ∷ []

merge_semilattice_example :
    (shard "b" (Counter.merge left right) ≡ shard "b" (Counter.merge right left))
    × (shard "b" (Counter.merge (Counter.merge left right) left)
        ≡ shard "b" (Counter.merge left (Counter.merge right left)))
    × (shard "b" (Counter.merge left left) ≡ shard "b" left)
unfolding lookup
merge_semilattice_example =
    merge_semilattice left right left (refl, (refl, tt)) (refl, tt) (refl, (refl, tt)) "b"

abbrev entry : ℕ → String → LwwEntry
entry ts replica = record {
  status = "failed";
  worker = "w";
  ts_unix_ms = pos ts;
  replica = replica;
}

abbrev window : LwwMap
window = record { entries = ("x", entry 3 "a") ∷ ("y", entry 4 "a") ∷ []; limit = 2 }

abbrev others : Entries
others = ("z", entry 5 "b") ∷ []

abbrev one : Server
one = Statesvc.new "r1"

abbrev two : Server
two = Statesvc.new "r2"

abbrev request : ReportRequest
request = record { job_id = "j"; worker = "w"; outcome = "failed" }

abbrev busy : Server
busy = (report_job_event (pos 7) one request).1

abbrev pub reported : Cluster
reported = record (put init "r1" (report_job_event (pos 7) one request).1) {
  log = ("r1", request) ∷ [];
}

abbrev pub reported-Reach : Reach reported
reported-Reach = next start (report "r1" (pos 7) request)

own_shard_exact_example :
    (shard_at "failed" "r1" (table_of status (reported.at "r1"))
      ≡ reports status "r1" "failed" reported.log)
    × (shard_at "failed" "r1" (table_of status (reported.at "r2"))
        ≤ reports status "r1" "failed" reported.log)
own_shard_exact_example =
    own_shard_exact reported status "r1" "r2" "failed" reported-Reach (omega arith)

exchange_delivers_example :
    (shard_at "failed" "r2" (table_of status (gossip_peer (reported.at "r1") (reported.at "r2")).0)
      ≡ reports status "r2" "failed" reported.log)
    × (shard_at "failed" "r1"
          (table_of status (gossip_peer (reported.at "r1") (reported.at "r2")).1)
        ≡ reports status "r1" "failed" reported.log)
unfolding report_job_event report_ok
exchange_delivers_example =
    exchange_delivers reported status "r1" "r2" "failed" reported-Reach (omega arith) refl refl

agree_none : (o : Option LwwEntry) → StampsAgree o none
agree_none none = tt
agree_none (some e) = tt

merge_converges_example :
    lookup "x" (Lww.merge (record window { limit = 9 }) others).entries
    ≡ lookup "x" (Lww.merge (record { entries = others; limit = 9 }) window.entries).entries
unfolding lookup merge_loop merge_entry insert
merge_converges_example =
    merge_converges (record window { limit = 9 }) (record { entries = others; limit = 9 })
      (refl, (refl, tt)) (refl, tt) (omega arith) (omega arith) agree "x"
  where
    agree : (k : String) → StampsAgree (lookup k window.entries) (lookup k others)
    agree k = elim (Bool-cases (str_eq "z" k)) [
      | inl y ↦
          subst (λ j. StampsAgree (lookup j window.entries) (lookup j others)) ((eq_iff "z" k).0 y)
            tt
      | inr n ↦ simp n (agree_none (lookup k window.entries))
    ]

-- A log whose entries and snapshots are kept as they are, some entries damaged.
pub data Blob : Type 0 where
  placed : Placement → Blob
  state : FsmState → Blob
  damaged : Blob

abbrev pub placement_of : Blob → Option Placement
placement_of (placed p) = some p
placement_of _ = none

abbrev pub state_in : Blob → Option FsmState
state_in (state s) = some s
state_in _ = none

pub unplaced : (p : Placement) (b : Blob) → some (placed p) ≡ some b → placement_of b ≡ some p
unplaced p b e = cc e

pub decoded_state : (s : FsmState) (b : Blob) → some (state s) ≡ some b → state_in b ≡ some s
decoded_state s b e = cc e

abbrev pub blobs : Json Blob
blobs = record {
  encode = λ p. some (placed p);
  decode = placement_of;
  decode_of-encode = λ p bytes e. unplaced p bytes e;
  encode_state = λ s. some (state s);
  decode_state = state_in;
  decode-encode = λ s bytes e. decoded_state s bytes e;
}

abbrev log : List Blob
log = placed (record { job_id = "j"; worker = "w1"; at = 5 }) ∷ damaged ∷ []

-- A store that keeps a snapshot once it is written.
abbrev sinks : SnapshotSink Blob (Option Blob)
sinks = record {
  created = none;
  write = λ bytes sink. (true, some bytes);
  cancel = λ sink. none;
  close = λ sink. (true, sink);
  kept = λ sink. sink;
  kept-close = λ bytes w c. refl;
  kept-cancel = λ bytes n. refl;
}

snapshot_replay_example :
    apply_all blobs
      (started_from blobs fresh
        (sinks.kept (persist sinks (state (apply_all blobs fresh log)) sinks.created).1))
      log
    ≡ apply_all blobs fresh (log ++ log)
snapshot_replay_example =
    snapshot_replay blobs sinks fresh log log (state (apply_all blobs fresh log))
      (unfold snapshot in refl) (unfold persist in refl)

ticks_exact_example :
    (shard_at "failed" "r1" (
        table_of status
          (ticks ("r1" ∷ "r2" ∷ []) (("r1", dropped ∷ []) ∷ ("r2", []) ∷ []) reported.at "r1"))
      ≡ reports status "r1" "failed" reported.log)
    × (shard_at "failed" "r1" (
          table_of status
            (ticks ("r1" ∷ "r2" ∷ []) (("r1", dropped ∷ []) ∷ ("r2", []) ∷ []) reported.at "r2"))
        ≤ reports status "r1" "failed" reported.log)
ticks_exact_example =
    ticks_exact reported ("r1" ∷ "r2" ∷ []) (("r1", dropped ∷ []) ∷ ("r2", []) ∷ []) status "r1"
      "r2" "failed" reported-Reach (omega arith)

prune_loop_ends_example :
    (prune_loop 2 1 window.entries ≡ prune_loop 3 1 window.entries)
    × (ltb 1 (length (prune_loop 2 1 window.entries)) ≡ false)
unfolding lookup
prune_loop_ends_example = prune_loop_ends 2 1 window.entries (refl, (refl, tt)) (omega arith)
