-- ===== src/Reaper.antt =====
-- internal/reaper/reaper.go: the leader's sweep over the workers that are presumed dead. A sweep
-- reads the registry once; heartbeats that arrive during a sweep are not modelled.
pub mod Sweep
use ironwork.Prelude.{ℕ, String, Bool, true, false, ◌||◌, not, List, [], ◌∷◌, if◌then◌else◌}
use ironwork.Store.Rows.{Job, Result, ok, err}
use ironwork.Store.Outbox.{reclaim_jobs}
use ironwork.Registry.{Registry, dead, forget}
use ironwork.Relay.{World, on_db, wake}

pub record Reaper : Type 0 where
  pub world : World
  pub reg : Registry
  pub reenqueued : Bool

abbrev pub is_nil : List Job → Bool
is_nil [] = true
is_nil (j ∷ jobs) = false

-- What the loop does once `ReclaimJobs` has returned.
abbrev pub reclaimed_from : String → Result (List Job) → World → Reaper → Reaper
reclaimed_from name (err e) w r = record r { world = w }
reclaimed_from name (ok jobs) w r = record {
  world = w;
  reg = forget r.reg name;
  reenqueued = r.reenqueued || not (is_nil jobs);
}

unfoldable pub sweep_loop : List String → Reaper → Reaper
sweep_loop [] r = r
sweep_loop (name ∷ names) r =
    let (jobs, w) = on_db (reclaim_jobs name) r.world in
    sweep_loop names (reclaimed_from name jobs w r)

-- (*Reaper).sweep: the reaper after it, and the pending wakes of the relay
unfoldable pub sweep : ℕ → World → Registry → ℕ → Reaper × ℕ
sweep now w reg wakes =
    let r = sweep_loop (dead now reg) (record { world = w; reg = reg; reenqueued = false }) in
    (r, if r.reenqueued then wake wakes else wakes)

-- A tick of `Run`.
unfoldable pub tick : Bool → ℕ → World → Registry → ℕ → Reaper × ℕ
tick leads now w reg wakes =
    if leads
    then sweep now w reg wakes
    else (record { world = w; reg = reg; reenqueued = false }, wakes)
