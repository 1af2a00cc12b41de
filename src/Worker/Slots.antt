-- ===== src/Worker/Slots.antt =====
-- The slots of a worker under every interleaving of its calls.
use ironwork.Prelude.{
  ◌||◌, ◌^◌, ◌∙◌, ◌-◌, ℕ, zero, suc, Bool, ◌+◌, ◌≤◌, ◌<◌, ◌≡◌, refl, Bool-cases, inl, inr, List, [],
  ◌∷◌, All, arith, String, Option, some, none, leb, ◌==◌,
}
use ironwork.Rpc.{resource_exhausted}
use ironwork.Store.Rows.{Payload, Db, Result, ok, err, Error, Uuid}
use ironwork.Worker.{
  Body, Phase, arrived, trying, loaded, reserved, giving_back, rejected, accepted, executing,
  reporting, releasing, finished, Worker, new, scheduled_phase, running_phase, finished_phase,
  advance, advance_at, Move, arrives, proceeds, others, move, run_all,
}

-- The slots that a call holds.
abbrev pub held : Phase → ℕ
held (reserved job payload) = 1
held (giving_back code) = 1
held (accepted job payload) = 1
held (executing job payload) = 1
held (reporting job succeeded) = 1
held releasing = 1
held _ = 0

unfoldable pub held_by : List Phase → ℕ
held_by [] = 0
held_by (p ∷ calls) = held p + held_by calls

-- A call that is about to swap has seen a free slot.
abbrev HasRoom : ℕ → Phase → Type 0
HasRoom capacity (loaded job payload cur) = cur < capacity
HasRoom capacity _ = Unit

-- The counter is the number of slots that the calls hold, `k` of them elsewhere.
pub record Counts (capacity k : ℕ) (calls : List Phase) (w : Worker) : Type 0 where
  pub exact : w.inflight_n ≡ k + held_by calls
  bound : w.inflight_n ≤ capacity
  same : w.capacity ≡ capacity
  room : All (HasRoom capacity) calls

record Slot (capacity k : ℕ) (p : Phase) (w : Worker) : Type 0 where
  exact : w.inflight_n ≡ k + held p
  bound : w.inflight_n ≤ capacity
  same : w.capacity ≡ capacity
  room : HasRoom capacity p

-- The call holds its slot, and is not about to swap.
abbrev Holds : ℕ → Phase → Type 0
Holds c p = (held p ≡ 1) × HasRoom c p

scheduled_phase-Holds :
    (c : ℕ) (job : Uuid) (payload : Payload) (r : Result (Unit {0}))
    → Holds c (scheduled_phase job payload r)
scheduled_phase-Holds c job payload (ok u) = (refl, tt)
scheduled_phase-Holds c job payload (err Error.not_found) = (refl, tt)
scheduled_phase-Holds c job payload (err Error.call_failed) = (refl, tt)

running_phase-Holds :
    (c : ℕ) (job : Uuid) (payload : Payload) (r : Result (Unit {0}))
    → Holds c (running_phase job payload r)
running_phase-Holds c job payload (ok u) = (refl, tt)
running_phase-Holds c job payload (err e) = (refl, tt)

finished_phase-Holds :
    (c : ℕ) (job : Uuid) (b : Bool) (r : Result (Unit {0})) → Holds c (finished_phase job b r)
finished_phase-Holds c job b (ok u) = (refl, tt)
finished_phase-Holds c job b (err e) = (refl, tt)

module _ (c : ℕ) where
  -- An action that leaves the counter alone.
  keeps :
      (k : ℕ) (p p' : Phase) (w w' : Worker)
      → (held p' ≡ held p) × HasRoom c p'
      → w'.inflight_n ≡ w.inflight_n
      → w'.capacity ≡ w.capacity
      → Slot c k p w
      → Slot c k p' w'
  keeps k p p' w w' q n m h = record {
    exact = omega (arith, h.exact, q.0, n);
    bound = omega (arith, h.bound, n);
    same = m ∙ h.same;
    room = q.1;
  }

  -- An action that gives a slot back.
  releases :
      (k : ℕ) (p p' : Phase) (w : Worker)
      → held p ≡ 1
      → (held p' ≡ 0) × HasRoom c p'
      → Slot c k p w
      → Slot c k p' (record w { inflight_n = w.inflight_n - 1 })
  releases k p p' w e q h = record {
    exact = omega (arith, h.exact, e, q.0);
    bound = omega (arith, h.bound);
    same = h.same;
    room = q.1;
  }

module _ (decode : Payload → Option Body) (c : ℕ) where
  advance-Slot :
      (k : ℕ) (p : Phase) (w : Worker)
      → Slot c k p w
      → Slot c k (advance decode p w).0 (advance decode p w).1
  unfolding advance
  advance-Slot k (arrived none payload) w h = keeps c k _ _ w w (refl, tt) refl refl h
  advance-Slot k (arrived (some job) payload) w h = keeps c k _ _ w w (refl, tt) refl refl h
  advance-Slot k (trying job payload) w h =
      elim (Bool-cases (leb (2 ^ 31) w.capacity || leb w.capacity w.inflight_n)) [
        | inl y ↦ simp y (keeps c k _ (rejected resource_exhausted) w w (refl, tt) refl refl h)
        | inr n ↦ simp n (
            keeps c k _ (loaded job payload w.inflight_n) w w (refl, ground (arith, h.same)) refl
              refl h)
      ]
  advance-Slot k (loaded job payload cur) w h = elim (Bool-cases (w.inflight_n == cur)) [
    | inl y ↦ simp y (record {
      exact = ground (arith, h.exact);
      bound = ground (arith, h.room);
      same = h.same;
      room = tt;
    })
    | inr n ↦ simp n (keeps c k _ (trying job payload) w w (refl, tt) refl refl h)
  ]
  advance-Slot k (reserved job payload) w h =
      keeps c k _ _ w _ (scheduled_phase-Holds c job payload _) refl refl h
  advance-Slot k (giving_back code) w h = releases c k _ _ w refl (refl, tt) h
  advance-Slot k (rejected code) w h = h
  advance-Slot k (accepted job payload) w h =
      keeps c k _ _ w _ (running_phase-Holds c job payload _) refl refl h
  advance-Slot k (executing job payload) w h =
      keeps c k _ _ w _ (finished_phase-Holds c job _ _) refl refl h
  advance-Slot k (reporting job succeeded) w h = keeps c k _ _ w _ (refl, tt) refl refl h
  advance-Slot k releasing w h = releases c k _ _ w refl (refl, tt) h
  advance-Slot k finished w h = h

  advance_at-Counts :
      (k i : ℕ) (calls : List Phase) (w : Worker)
      → Counts c k calls w
      → Counts c k (advance_at decode i calls w).0 (advance_at decode i calls w).1
  unfolding advance_at held_by
  advance_at-Counts k i [] w h = h
  advance_at-Counts k zero (p ∷ calls) w h =
      let s : Slot c (k + held_by calls) p w = record {
        exact = omega (arith, h.exact);
        bound = h.bound;
        same = h.same;
        room = h.room.0;
      } in
      let t = advance-Slot (k + held_by calls) p w s in
      record {
        exact = omega (arith, t.exact);
        bound = t.bound;
        same = t.same;
        room = (t.room, h.room.1);
      }
  advance_at-Counts k (suc i) (p ∷ calls) w h =
      let s : Counts c (k + held p) calls w = record {
        exact = omega (arith, h.exact);
        bound = h.bound;
        same = h.same;
        room = h.room.1;
      } in
      let t = advance_at-Counts (k + held p) i calls w s in
      record {
        exact = omega (arith, t.exact);
        bound = t.bound;
        same = t.same;
        room = (h.room.0, t.room);
      }

  pub move-Counts :
      (w : Worker) (m : Move)
      → Counts c 0 w.calls w
      → Counts c 0 (move decode w m).calls (move decode w m)
  unfolding move held_by
  move-Counts w (arrives job payload) h = record {
    exact = omega (arith, h.exact);
    bound = h.bound;
    same = h.same;
    room = (tt, h.room);
  }
  move-Counts w (proceeds i) h =
      let t = advance_at-Counts 0 i w.calls w h in
      record { exact = t.exact; bound = t.bound; same = t.same; room = t.room }
  move-Counts w (others a) h = record {
    exact = h.exact;
    bound = h.bound;
    same = h.same;
    room = h.room;
  }

  pub run_all-Counts :
      (w : Worker) (moves : List Move)
      → Counts c 0 w.calls w
      → Counts c 0 (run_all decode w moves).calls (run_all decode w moves)
  unfolding run_all
  run_all-Counts w [] h = h
  run_all-Counts w (m ∷ moves) h = run_all-Counts (move decode w m) moves (move-Counts w m h)

pub new-Counts :
    (name : String) (capacity : ℕ) (db : Db)
    → Counts (new name capacity db).capacity 0 [] (new name capacity db)
unfolding held_by
new-Counts name capacity db = record { exact = refl; bound = omega arith; same = refl; room = tt }

-- However the calls of a worker interleave, and whatever the database answers, the counter of jobs in
-- flight is the number of slots that its calls hold, and never above the worker's capacity, which is
-- at least 1, if an int32 keeps the configured one.
pub slots_exact :
    (decode : Payload → Option Body) (name : String) (capacity : ℕ) (db : Db) (moves : List Move)
    → capacity < 2 ^ 31
    → let w = run_all decode (new name capacity db) moves in
      (w.inflight_n ≡ held_by w.calls) × (w.inflight_n ≤ w.capacity) × (1 ≤ w.capacity)
slots_exact decode name capacity db moves small =
    let w : Worker = new name capacity db in
    let t = run_all-Counts decode w.capacity w moves (new-Counts name capacity db) in
    let one : 1 ≤ w.capacity = ground arith in
    (omega (arith, t.exact), omega (arith, t.bound, t.same), omega (arith, t.same, one))
