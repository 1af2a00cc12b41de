-- ===== src/Worker/Drained.antt =====
-- A worker that stops: its server takes no more calls, and `Drain` waits for the jobs it has accepted.
use ironwork.Prelude.{
  ℕ, zero, suc, ◌+◌, ◌-◌, ◌≤◌, ◌<◌, ◌≡◌, refl, true, Bool, Bool-cases, inl, inr, Option, List, [],
  ◌∷◌, All, ◌==◌, length, arith, String, if◌then◌else◌,
}
use ironwork.Store.Rows.{Uuid, Payload, Db, Result, ok, err}
use ironwork.Worker.{
  Body, Phase, arrived, trying, loaded, reserved, giving_back, rejected, accepted, executing,
  reporting, releasing, finished, Worker, new, advance, advance_at, Move, arrives, proceeds, others,
  move, run_all, undone, waiting, drain, running_phase, finished_phase,
}
use ironwork.Worker.Slots.{held, held_by, Counts, move-Counts, run_all-Counts, new-Counts}

-- The handler has returned: what is left of the call is the goroutine that it started, if any.
abbrev pub Returned : Phase → Type 0
Returned (arrived job payload) = ⊥
Returned (trying job payload) = ⊥
Returned (loaded job payload cur) = ⊥
Returned (reserved job payload) = ⊥
Returned (giving_back code) = ⊥
Returned _ = Unit

abbrev pub IsInside : Move → Type 0
IsInside (arrives job payload) = ⊥
IsInside _ = Unit

-- How many actions of the call at position `i` are among the moves.
unfoldable pub turns : ℕ → List Move → ℕ
turns i [] = 0
turns i (proceeds j ∷ moves) = (if j == i then 1 else 0) + turns i moves
turns i (m ∷ moves) = turns i moves

-- The actions until a goroutine ends, at most.
abbrev left : Phase → ℕ
left (accepted job payload) = 4
left (executing job payload) = 3
left (reporting job succeeded) = 2
left releasing = 1
left _ = 0

unfoldable left_at : ℕ → List Phase → ℕ
left_at i [] = 0
left_at zero (p ∷ calls) = left p
left_at (suc i) (p ∷ calls) = left_at i calls

-- After the first action of a goroutine, `q`, in place of `p`.
abbrev Nearer : Phase → Phase → Type 0
Nearer p q = Returned q × (left q ≤ left p - 1)

running_phase-Nearer :
    (job : Uuid) (payload : Payload) (r : Result (Unit {0}))
    → Nearer (accepted job payload) (running_phase job payload r)
running_phase-Nearer job payload (ok u) = (tt, omega arith)
running_phase-Nearer job payload (err e) = (tt, omega arith)

finished_phase-Nearer :
    (job : Uuid) (payload : Payload) (b : Bool) (r : Result (Unit {0}))
    → Nearer (executing job payload) (finished_phase job b r)
finished_phase-Nearer job payload b (ok u) = (tt, omega arith)
finished_phase-Nearer job payload b (err e) = (tt, omega arith)

left_bounds : (p : Phase) → (undone p ≤ left p) × (left p ≤ 4)
left_bounds (arrived job payload) = (omega arith, omega arith)
left_bounds (trying job payload) = (omega arith, omega arith)
left_bounds (loaded job payload cur) = (omega arith, omega arith)
left_bounds (reserved job payload) = (omega arith, omega arith)
left_bounds (giving_back code) = (omega arith, omega arith)
left_bounds (rejected code) = (omega arith, omega arith)
left_bounds (accepted job payload) = (omega arith, omega arith)
left_bounds (executing job payload) = (omega arith, omega arith)
left_bounds (reporting job succeeded) = (omega arith, omega arith)
left_bounds releasing = (omega arith, omega arith)
left_bounds finished = (omega arith, omega arith)

waiting_zero :
    (calls : List Phase) → All Returned calls → ((i : ℕ) → left_at i calls ≤ 0) → waiting calls ≡ 0
unfolding waiting left_at
waiting_zero [] r h = refl
waiting_zero (p ∷ calls) r h =
    let rest = waiting_zero calls r.1 (λ i. h (suc i)) in
    omega (arith, (left_bounds p).0, h 0, rest)

-- A goroutine holds its slot until it ends.
held-undone : (p : Phase) → Returned p → held p ≡ undone p
held-undone (arrived job payload) r = elim r [ ]
held-undone (trying job payload) r = elim r [ ]
held-undone (loaded job payload cur) r = elim r [ ]
held-undone (reserved job payload) r = elim r [ ]
held-undone (giving_back code) r = elim r [ ]
held-undone (rejected code) r = refl
held-undone (accepted job payload) r = refl
held-undone (executing job payload) r = refl
held-undone (reporting job succeeded) r = refl
held-undone releasing r = refl
held-undone finished r = refl

held_by-waiting : (calls : List Phase) → All Returned calls → held_by calls ≡ waiting calls
unfolding waiting held_by
held_by-waiting [] r = refl
held_by-waiting (p ∷ calls) r =
    let rest = held_by-waiting calls r.1 in omega (arith, held-undone p r.0, rest)

module _ (decode : Payload → Option Body) where
  advance-Nearer : (p : Phase) (w : Worker) → Returned p → Nearer p (advance decode p w).0
  unfolding advance
  advance-Nearer (arrived job payload) w r = elim r [ ]
  advance-Nearer (trying job payload) w r = elim r [ ]
  advance-Nearer (loaded job payload cur) w r = elim r [ ]
  advance-Nearer (reserved job payload) w r = elim r [ ]
  advance-Nearer (giving_back code) w r = elim r [ ]
  advance-Nearer (rejected code) w r = (tt, omega arith)
  advance-Nearer (accepted job payload) w r = running_phase-Nearer job payload _
  advance-Nearer (executing job payload) w r = finished_phase-Nearer job payload _ _
  advance-Nearer (reporting job succeeded) w r = (tt, omega arith)
  advance-Nearer releasing w r = (tt, omega arith)
  advance-Nearer finished w r = (tt, omega arith)

  advance_at-Returned :
      (i : ℕ) (calls : List Phase) (w : Worker)
      → All Returned calls
      → All Returned (advance_at decode i calls w).0
  unfolding advance_at
  advance_at-Returned i [] w r = tt
  advance_at-Returned zero (p ∷ calls) w r = ((advance-Nearer p w r.0).0, r.1)
  advance_at-Returned (suc i) (p ∷ calls) w r = (r.0, advance_at-Returned i calls w r.1)

  left_at-advance_at :
      (i j : ℕ) (calls : List Phase) (w : Worker)
      → All Returned calls
      → left_at i (advance_at decode j calls w).0 ≤ left_at i calls - (if j == i then 1 else 0)
  unfolding advance_at left_at
  left_at-advance_at i j [] w r = omega arith
  left_at-advance_at zero zero (p ∷ calls) w r = (advance-Nearer p w r.0).1
  left_at-advance_at zero (suc j) (p ∷ calls) w r = ground arith
  left_at-advance_at (suc i) zero (p ∷ calls) w r = ground arith
  left_at-advance_at (suc i) (suc j) (p ∷ calls) w r =
      let t = left_at-advance_at i j calls w r.1 in ground (arith, t)

  move-Returned :
      (w : Worker) (m : Move)
      → IsInside m
      → All Returned w.calls
      → All Returned (move decode w m).calls
  unfolding move
  move-Returned w (arrives job payload) h r = elim h [ ]
  move-Returned w (proceeds i) h r = advance_at-Returned i w.calls w r
  move-Returned w (others a) h r = r

  left_at-move :
      (i : ℕ) (w : Worker) (m : Move) (moves : List Move)
      → IsInside m
      → All Returned w.calls
      → left_at i w.calls ≤ turns i (m ∷ moves)
      → left_at i (move decode w m).calls ≤ turns i moves
  unfolding move turns
  left_at-move i w (arrives job payload) moves h r b = elim h [ ]
  left_at-move i w (proceeds j) moves h r b =
      let t = left_at-advance_at i j w.calls w r in omega (arith, t, b)
  left_at-move i w (others a) moves h r b = b

  -- What `Drain` finds, from a worker whose calls have all returned.
  drain_quiet :
      (c : ℕ) (moves : List Move) (w : Worker)
      → All IsInside moves
      → All Returned w.calls
      → Counts c 0 w.calls w
      → ((i : ℕ) → left_at i w.calls ≤ turns i moves)
      → ((drain decode moves w).0 ≡ true) × ((drain decode moves w).1.inflight_n ≡ 0)
  unfolding drain turns
  drain_quiet c [] w h r n b =
      let z = waiting_zero w.calls r b in
      let e = held_by-waiting w.calls r in (simp z refl, omega (arith, z, e, n.exact))
  drain_quiet c (m ∷ moves) w h r n b = elim (Bool-cases (waiting w.calls == 0)) [
    | inl y ↦ let e = held_by-waiting w.calls r in simp y (refl, ground (arith, y, e, n.exact))
    | inr x ↦ simp x (
        drain_quiet c moves (move decode w m) h.1 (move-Returned w m h.0 r)
          (move-Counts decode c w m n) (λ i. left_at-move i w m moves h.0 r (b i)))
  ]

-- At most four actions are left of a goroutine.
left_at-four :
    (calls : List Phase) (i : ℕ) (n : ℕ) → (i < length calls → 4 ≤ n) → left_at i calls ≤ n
unfolding left_at
left_at-four [] i n h = omega arith
left_at-four (p ∷ calls) zero n h = let k = h (omega arith) in omega (arith, (left_bounds p).1, k)
left_at-four (p ∷ calls) (suc i) n h = left_at-four calls i n (λ k. h (omega (arith, k)))

-- After any history of a worker, once all its handlers have returned and no call arrives any more: if
-- each of its jobs gets four actions before the timeout, in any order, with whatever the database
-- answers and other processes do, `Drain` ends with every job ended and no slot taken.
pub drain_ends :
    (decode : Payload → Option Body) (name : String) (capacity : ℕ) (db : Db)
    (history moves : List Move)
    → All Returned (run_all decode (new name capacity db) history).calls
    → All IsInside moves
    → ((i : ℕ)
        → i < length (run_all decode (new name capacity db) history).calls
        → 4 ≤ turns i moves)
    → let (ended, w) = drain decode moves (run_all decode (new name capacity db) history) in
      (ended ≡ true) × (w.inflight_n ≡ 0)
drain_ends decode name capacity db history moves r h b =
    let w : Worker = run_all decode (new name capacity db) history in
    drain_quiet decode _ moves w h r
      (run_all-Counts decode _ (new name capacity db) history (new-Counts name capacity db))
      (λ i. left_at-four w.calls i (turns i moves) (b i))
