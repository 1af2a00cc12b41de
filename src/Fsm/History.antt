-- ===== src/Fsm/History.antt =====
-- The state that a log of placements leads to, and the snapshots of it.
use ironwork.Prelude.{
  ℕ, ◌+◌, ◌-◌, ◌%◌, ◌^◌, ◌≡◌, refl, sym, ap, ◌∙◌, Option, none, some, Option-cases, inl, inr, false,
  true, Bool-cases, List, [], ◌∷◌, ◌++◌, ltb, length, length-append, length-drop, drop, drop-append,
  drop-drop, arith,
}
use mathlib.Core.List.{append_assoc, append-nil}
use ironwork.Fsm.{
  Placement, FsmState, Json, init, cut, add, add_decoded, take_decoded, apply, apply_all, snapshot,
  restore, SnapshotSink, persist, max_recent_placements,
}

-- The last `n` elements.
unfoldable pub newest : ℕ → List Placement → List Placement
newest n l = drop (length l - n) l

cut-newest : (l : List Placement) → cut l ≡ newest max_recent_placements l
unfolding cut newest
cut-newest l = elim (Bool-cases (ltb max_recent_placements (length l))) [
  | inl y ↦ simp y
  | inr n ↦ simp n (ap (λ k. drop k l) (zero_of n))
]
  where
    zero_of : ltb 16 (length l) ≡ false → 0 ≡ length l - 16
    zero_of n = ground arith

newest-append :
    (h : List Placement) (p : Placement)
    → newest 16 (newest 16 h ++ p ∷ []) ≡ newest 16 (h ++ p ∷ [])
unfolding newest
newest-append h p =
    ap (λ l. drop (length (drop n h ++ p ∷ []) - 16) l)
      (sym (drop-append n h (p ∷ []) (omega arith)))
    ∙ drop-drop (length (drop n h ++ p ∷ []) - 16) n (h ++ p ∷ [])
    ∙ ap (λ k. drop k (h ++ p ∷ [])) counts
  where
    n : ℕ
    n = length h - 16

    counts : n + (length (drop n h ++ p ∷ []) - 16) ≡ length (h ++ p ∷ []) - 16
    counts =
        omega (arith, length-append (drop n h) (p ∷ []), length-append h (p ∷ []), length-drop n h)

-- The state after the placements `h`.
pub record Replays (h : List Placement) (s : FsmState) : Type 0 where
  pub count : s.count ≡ length h % 2 ^ 64
  pub recent : s.recent ≡ newest max_recent_placements h

add-Replays :
    (h : List Placement) (s : FsmState) (p : Placement)
    → Replays h s
    → Replays (h ++ p ∷ []) (add s p)
unfolding add
add-Replays h s p r = record {
  count = omega (arith, r.count, length-append h (p ∷ []));
  recent =
      ap (λ l. cut (l ++ p ∷ [])) r.recent ∙ cut-newest (newest 16 h ++ p ∷ []) ∙ newest-append h p;
}

unfoldable pub cons_decoded : Option Placement → List Placement → List Placement
cons_decoded none rest = rest
cons_decoded (some p) rest = p ∷ rest

module _ {Bytes : Type 0} (json : Json Bytes) where
  -- The entries of a log that decode.
  unfoldable pub decoded : List Bytes → List Placement
  decoded [] = []
  decoded (entry ∷ log) = cons_decoded (json.decode entry) (decoded log)

  apply_all-Replays :
      (h : List Placement) (s : FsmState) (log : List Bytes)
      → Replays h s
      → Replays (h ++ decoded log) (apply_all json s log)
  unfolding apply_all apply decoded add_decoded cons_decoded
  apply_all-Replays h s [] r = rw append-nil r
  apply_all-Replays h s (entry ∷ log) r = elim (Option-cases (json.decode entry)) [
    | inl n ↦ simp n (apply_all-Replays h s log r)
    | inr (p, e) ↦ simp e (
        rw (← append_assoc h (p ∷ []) (decoded log))
          (apply_all-Replays (h ++ p ∷ []) (add s p) log (add-Replays h s p r)))
  ]

  -- After any log, the count is the number of entries that decode, modulo 2^64, and the recent
  -- placements are the last sixteen of them, in order.
  pub replay : (log : List Bytes) → Replays (decoded log) (apply_all json init log)
  unfolding newest
  replay log = apply_all-Replays [] init log (record { count = refl; recent = refl })

  apply_all-append :
      (s : FsmState) (l m : List Bytes)
      → apply_all json s (l ++ m) ≡ apply_all json (apply_all json s l) m
  unfolding apply_all
  apply_all-append s [] m = refl
  apply_all-append s (entry ∷ l) m = apply_all-append (apply json s entry).1 l m

  -- What a member holds that starts from the newest snapshot kept, if there is one.
  unfoldable pub started_from : FsmState → Option Bytes → FsmState
  started_from old none = old
  started_from old (some bytes) = (restore json old bytes).1

  started_from-snapshot :
      (old s : FsmState) (taken : Bytes)
      → snapshot json s ≡ some taken
      → started_from old (some taken) ≡ s
  unfolding started_from restore snapshot take_decoded
  started_from-snapshot old s taken e =
      ap (λ d. (take_decoded old d).1) (json.decode-encode s taken e)

  -- If a member takes and persists a snapshot without an error, one that starts from it, whatever its
  -- own state, and applies the rest of the log reaches the state of one that has applied the whole log.
  pub snapshot_replay :
      {Sink : Type 0} (lib : SnapshotSink Bytes Sink) (old : FsmState) (l m : List Bytes)
      (taken : Bytes)
      → snapshot json (apply_all json init l) ≡ some taken
      → (persist lib taken lib.created).0 ≡ true
      → apply_all json (started_from old (lib.kept (persist lib taken lib.created).1)) m
        ≡ apply_all json init (l ++ m)
  unfolding persist
  snapshot_replay lib old l m taken e h = elim (Bool-cases (lib.write taken lib.created).0) [
    | inl y ↦
        rw
          (
            y,
            lib.kept-close taken y (simp y at h),
            started_from-snapshot old (apply_all json init l) taken e,
            ← apply_all-append init l m,
          )
          refl
    | inr n ↦ absurd (cc (simp n at h))
  ]
