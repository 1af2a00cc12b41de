-- ===== src/Fsm.antt =====
-- internal/raftnode/fsm.go: the state machine that replays placement decisions. The JSON encoding of
-- entries and of snapshots (encoding/json) and the sink of a snapshot (hashicorp/raft) are parameters;
-- a restore replaces the state only if the snapshot decodes.
pub mod History
use ironwork.Prelude.{
  ℕ, ◌+◌, ◌-◌, ◌%◌, ◌^◌, ◌≡◌, String, Bool, true, false, Option, none, some, List, [], ◌∷◌, ◌++◌,
  ltb, length, drop, if◌then◌else◌,
}

abbrev pub max_recent_placements : ℕ
max_recent_placements = 16

pub record Placement : Type 0 where
  pub job_id : String
  pub worker : String
  pub at : ℕ

pub record FsmState : Type 0 where
  pub count : ℕ  -- uint64
  pub recent : List Placement

abbrev pub init : FsmState
init = record { count = 0; recent = [] }

-- `Recent[len(Recent)-maxRecentPlacements:]`, where it is longer
unfoldable pub cut : List Placement → List Placement
cut recent =
    if ltb max_recent_placements (length recent)
    then drop (length recent - max_recent_placements) recent
    else recent

unfoldable pub add : FsmState → Placement → FsmState
add s p = record { count = (s.count + 1) % 2 ^ 64; recent = cut (s.recent ++ p ∷ []) }

-- encoding/json, of the two types that the state machine and its node read and write, over a type of
-- byte strings. An encoding may fail: of a time whose year has more than four digits.
pub record Json (Bytes : Type 0) : Type 0 where
  pub encode : Placement → Option Bytes
  pub decode : Bytes → Option Placement
  pub decode_of-encode :
      (p : Placement) (bytes : Bytes) → encode p ≡ some bytes → decode bytes ≡ some p
  pub encode_state : FsmState → Option Bytes
  pub decode_state : Bytes → Option FsmState
  pub decode-encode :
      (s : FsmState) (bytes : Bytes) → encode_state s ≡ some bytes → decode_state bytes ≡ some s

unfoldable pub add_decoded : FsmState → Option Placement → Bool × FsmState
add_decoded s none = (false, s)
add_decoded s (some p) = (true, add s p)

unfoldable pub take_decoded : FsmState → Option FsmState → Bool × FsmState
take_decoded s none = (false, s)
take_decoded s (some t) = (true, t)

module _ {Bytes : Type 0} (json : Json Bytes) where
  -- `Apply`: whether the entry decodes, and the state after it
  unfoldable pub apply : FsmState → Bytes → Bool × FsmState
  apply s entry = add_decoded s (json.decode entry)

  unfoldable pub apply_all : FsmState → List Bytes → FsmState
  apply_all s [] = s
  apply_all s (entry ∷ log) = apply_all (apply s entry).1 log

  -- Snapshot; `none` is an error
  unfoldable pub snapshot : FsmState → Option Bytes
  snapshot s = json.encode_state s

  -- `Restore`: whether the snapshot decodes, and the state after it
  unfoldable pub restore : FsmState → Bytes → Bool × FsmState
  restore s bytes = take_decoded s (json.decode_state bytes)

-- raft.SnapshotSink of hashicorp/raft: a write may fail, and so may a close, which makes what was
-- written a snapshot of the store, `kept`; a cancelled one is not kept.
pub record SnapshotSink (Bytes : Type 0) (Sink : Type 0) : Type 0 where
  pub created : Sink
  pub write : Bytes → Sink → Bool × Sink
  pub cancel : Sink → Sink
  pub close : Sink → Bool × Sink
  pub kept : Sink → Option Bytes
  pub kept-close :
      (bytes : Bytes)
      → (write bytes created).0 ≡ true
      → (close (write bytes created).1).0 ≡ true
      → kept (close (write bytes created).1).1 ≡ some bytes
  pub kept-cancel :
      (bytes : Bytes)
      → (write bytes created).0 ≡ false
      → kept (cancel (write bytes created).1) ≡ none

-- (fsmSnapshot).Persist: whether it returns nil, and the sink after it
unfoldable pub persist :
    {Bytes Sink : Type 0} → SnapshotSink Bytes Sink → Bytes → Sink → Bool × Sink
persist lib bytes sink =
    let (written, sink') = lib.write bytes sink in
    if written then lib.close sink' else (false, lib.cancel sink')

-- Placements
abbrev pub placements : FsmState → ℕ × List Placement
placements s = (s.count, s.recent)
