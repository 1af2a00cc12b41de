-- ===== src/Process/Wakes.antt =====
-- The relay's wakes.
use ironwork.Prelude.{
  ℕ, zero, suc, ◌-◌, ◌<◌, ◌≡◌, String, Bool, true, false, ◌||◌, inl, inr, List, [], ◌∷◌, All, ltb,
  ◌==◌, Bool-cases, arith, if◌then◌else◌,
}
use ironwork.Rpc.{ok as replied}
use ironwork.Store.Rows.{Payload, Job, Result, ok, err}
use ironwork.Store.Outbox.{create_job_with_outbox}
use ironwork.Relay.{World, woken, turn, round, drain, on_db, wake}
use ironwork.Reaper as Reaper
use ironwork.Reaper.{sweep}
use ironwork.Scheduler.{submit_job, submit_reply, byte_length, max_name_length}
use ironwork.Scheduler.Wire.{WireJob}
use ironwork.Process.{Scheduler, Event, submits, registers, beats, relays, reaps, step, run}

-- The event is no turn of the relay.
abbrev pub IsOther : Event → Type 0
IsOther (relays signal leads) = ⊥
IsOther _ = Unit

wake-pos : (n : ℕ) → 0 < wake n
unfolding wake
wake-pos zero = omega arith
wake-pos (suc n) = omega arith

reply-wakes : (q : Result Job × World) (wakes : ℕ) → 0 < wakes → 0 < (submit_reply q wakes).0.1
reply-wakes (ok job, w) wakes h = wake-pos wakes
reply-wakes (err e, w) wakes h = h

submit_job-wakes :
    (leads : Bool) (name : String) (payload : Payload) (wakes : ℕ) (w : World)
    → 0 < wakes
    → 0 < (submit_job leads name payload wakes w).0.1
unfolding submit_job
submit_job-wakes false name payload wakes w h = h
submit_job-wakes true name payload wakes w h =
    elim (Bool-cases (byte_length name == 0 || ltb max_name_length (byte_length name))) [
      | inl y ↦ simp y h
      | inr n ↦ simp n (reply-wakes (on_db (create_job_with_outbox name payload) w) wakes h)
    ]

step-wakes : (e : Event) (p : Scheduler) → IsOther e → 0 < p.wakes → 0 < (step e p).wakes
unfolding step Reaper.tick sweep
step-wakes (submits leads name payload) p o h =
    submit_job-wakes leads name payload p.wakes p.world h
step-wakes (registers now worker capacity) p o h = h
step-wakes (beats now worker capacity inflight) p o h = h
step-wakes (relays signal leads) p o h = absurd o
step-wakes (reaps false now) p o h = h
step-wakes (reaps true now) p o h = pos _ p.wakes h
  where
    pos : (b : Bool) (n : ℕ) → 0 < n → 0 < (if b then wake n else n)
    pos true n le = wake-pos n
    pos false n le = le

run-wakes :
    (events : List Event) (p : Scheduler)
    → All IsOther events
    → 0 < p.wakes
    → 0 < (run events p).wakes
unfolding run
run-wakes [] p o h = h
run-wakes (e ∷ events) p o h = run-wakes events (step e p) o.1 (step-wakes e p o.0 h)

-- A submission that is answered with a job has woken the relay.
submit_job-wakes_up :
    (leads : Bool) (name : String) (payload : Payload) (wakes : ℕ) (w : World) (job : WireJob)
    → (submit_job leads name payload wakes w).0.0 ≡ replied job
    → 0 < (submit_job leads name payload wakes w).0.1
unfolding submit_job
submit_job-wakes_up false name payload wakes w job e = absurd (cc e)
submit_job-wakes_up true name payload wakes w job e =
    elim (Bool-cases (byte_length name == 0 || ltb max_name_length (byte_length name))) [
      | inl y ↦ absurd (cc (simp y at e))
      | inr n ↦ simp n (answered (on_db (create_job_with_outbox name payload) w) (simp n at e))
    ]
  where
    answered :
        (q : Result Job × World)
        → (submit_reply q wakes).0.0 ≡ replied job
        → 0 < (submit_reply q wakes).0.1
    answered (ok j, v) e = wake-pos wakes
    answered (err x, v) e = absurd (cc e)

-- The wake of a submission that was answered with a job is still there, whatever calls and sweeps come
-- before the relay's next turn: that turn takes it, and drains the outbox if the scheduler leads then.
pub wake_drains :
    (leads : Bool) (name : String) (payload : Payload) (p : Scheduler) (job : WireJob)
    (events : List Event)
    → (submit_job leads name payload p.wakes p.world).0.0 ≡ replied job
    → All IsOther events
    → let q = run events (step (submits leads name payload) p) in
      (0 < q.wakes)
      × (step (relays woken true) q ≡ record q { wakes = q.wakes - 1; world = drain q.world })
unfolding step turn round
wake_drains leads name payload p job events e o =
    let q : Scheduler = run events (step (submits leads name payload) p) in
    let h : 0 < q.wakes =
      run-wakes events (step (submits leads name payload) p) o
        (submit_job-wakes_up leads name payload p.wakes p.world job e) in
    (h, taken q h)
  where
    taken :
        (q : Scheduler)
        → 0 < q.wakes
        → step (relays woken true) q ≡ record q { wakes = q.wakes - 1; world = drain q.world }
    taken q h = ground arith
