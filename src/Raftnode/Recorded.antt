-- ===== src/Raftnode/Recorded.antt =====
-- What a successful `ApplyPlacement` leaves in the state machine.
use ironwork.Prelude.{
  ℕ, ◌+◌, ◌<◌, ◌≤◌, ◌≡◌, refl, ap, ◌∙◌, String, true, some, Option-cases, Bool-cases, inl, inr,
  List, [], ◌∷◌, ◌++◌, ltb, length, length-append, drop, Any, arith, ◌-◌, drop-append, subst, sym,
}
use mathlib.Core.List.{append_assoc}
use ironwork.Fsm.{
  Placement, FsmState, Json, cut, add, add_decoded, apply, apply_all, max_recent_placements,
}
use ironwork.Raftnode.{Raft, Node, taken, info, apply_placement}

-- The placement is among the recent ones, and at most `n` stand after it.
record IsRecent (p : Placement) (n : ℕ) (recent : List Placement) : Type 0 where
  older : List Placement
  newer : List Placement
  at : recent ≡ older ++ p ∷ newer
  few : length newer ≤ n

cut-IsRecent :
    (p : Placement) (n : ℕ) (recent : List Placement)
    → n < max_recent_placements
    → IsRecent p n recent
    → IsRecent p n (cut recent)
unfolding cut
cut-IsRecent p n recent lt h = elim (Bool-cases (ltb 16 (length recent))) [
  | inl y ↦ rw y (
      let k = length recent - 16 in
      let le : k ≤ length h.older =
        omega (arith, ap length h.at, length-append h.older (p ∷ h.newer), h.few, lt) in
      record {
        older = drop k h.older;
        newer = h.newer;
        at = ap (drop k) h.at ∙ drop-append k h.older (p ∷ h.newer) le;
        few = h.few;
      })
  | inr x ↦ rw x h
]

add-IsRecent :
    (p q : Placement) (n : ℕ) (s : FsmState)
    → n + 1 < max_recent_placements
    → IsRecent p n s.recent
    → IsRecent p (n + 1) (add s q).recent
unfolding add
add-IsRecent p q n s lt h = cut-IsRecent p (n + 1) (s.recent ++ q ∷ []) lt (record {
  older = h.older;
  newer = h.newer ++ q ∷ [];
  at = ap (λ l. l ++ q ∷ []) h.at ∙ append_assoc h.older (p ∷ h.newer) (q ∷ []);
  few = omega (arith, h.few, length-append h.newer (q ∷ []));
})

added-IsRecent : (p : Placement) (s : FsmState) → IsRecent p 0 (add s p).recent
unfolding add
added-IsRecent p s =
    cut-IsRecent p 0 (s.recent ++ p ∷ []) (omega arith)
      (record { older = s.recent; newer = []; at = refl; few = omega arith })

IsRecent-Any :
    (p : Placement) (n : ℕ) (recent : List Placement)
    → IsRecent p n recent
    → Any (λ q. p ≡ q) recent
IsRecent-Any p n recent h = subst (Any (λ q. p ≡ q)) (sym h.at) (go h.older)
  where
    go : (older : List Placement) → Any (λ q. p ≡ q) (older ++ p ∷ h.newer)
    go [] = inl refl
    go (q ∷ older) = inr (go older)

module _ {Bytes : Type 0} (json : Json Bytes) where
  apply_all-IsRecent :
      (p : Placement) (n : ℕ) (s : FsmState) (log : List Bytes)
      → n + length log < max_recent_placements
      → IsRecent p n s.recent
      → IsRecent p 15 (apply_all json s log).recent
  unfolding apply_all apply add_decoded
  apply_all-IsRecent p n s [] lt h = record {
    older = h.older;
    newer = h.newer;
    at = h.at;
    few = omega (arith, h.few, lt);
  }
  apply_all-IsRecent p n s (entry ∷ log) lt h = elim (Option-cases (json.decode entry)) [
    | inl x ↦ simp x (apply_all-IsRecent p n s log (omega (arith, lt)) h)
    | inr (q, e) ↦ simp e (
        apply_all-IsRecent p (n + 1) (add s q) log (omega (arith, lt))
          (add-IsRecent p q n s (omega (arith, lt)) h))
  ]

-- When the library has handed a placement's entry to the state machine, `ApplyPlacement` succeeds,
-- and the node reports the placement among the recent ones, so long as the library has handed over
-- fewer than sixteen entries since.
pub apply_placement-info :
    {Bytes R : Type 0} (lib : Raft Bytes R) (json : Json Bytes) (now : ℕ) (job_id worker : String)
    (n : Node R) (entry : Bytes) (before after : List Bytes)
    → json.encode (record { job_id = job_id; worker = worker; at = now }) ≡ some entry
    → (lib.apply_entry entry n.raft).0 ≡ taken before after
    → length after < max_recent_placements
    → ((apply_placement lib json now job_id worker n).0 ≡ true)
      × Any
          (λ p. record { job_id = job_id; worker = worker; at = now } ≡ p)
          (info lib (apply_placement lib json now job_id worker n).1).recent_placements
unfolding apply_placement info apply add_decoded
apply_placement-info lib json now job_id worker n entry before after e t lt =
    let p : Placement = record { job_id = job_id; worker = worker; at = now } in
    let d = json.decode_of-encode p entry e in
    rw (e, t, d)
      (
        refl,
        IsRecent-Any p 15 _ (
            apply_all-IsRecent json p 0 (add (apply_all json n.fsm before) p) after
              (omega (arith, lt)) (added-IsRecent p (apply_all json n.fsm before))),
      )
