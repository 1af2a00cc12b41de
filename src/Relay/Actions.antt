-- ===== src/Relay/Actions.antt =====
-- What the other processes do to the tables that the relay relies on.
use ironwork.Prelude.{ℕ, Bool, true, false, ◌≢◌, refl, List, [], ◌∷◌, arith}
use ironwork.Store.Rows.{Uuid, Status, JobRow, Db, Message}
use ironwork.Store.Jobs.{to_scheduled, to_running, to_finished}
use ironwork.Relay.{
  Action, submits, schedules, runs, finishes, reclaims, ticks, World, act, act_all, next_actions,
  interfere,
}
use ironwork.Relay.Cover.{Keeps, Covered, IsFresh, Owns}
use ironwork.Relay.Updates.{Keeps-refl, Keeps-trans, update_rows-Keeps}
use ironwork.Relay.Reclaim.{insert_both-Keeps, reclaim-Keeps}

pub finished_not_pending :
    (s : Bool) (m : Message) (now : ℕ) (r : JobRow)
    → (to_finished s m now r).status ≢ Status.pending
finished_not_pending true m now r e = cc
finished_not_pending false m now r e = cc

module _ (b : ℕ) (Lost : Uuid → Type 0) where
  pub act-Keeps : (db : Db) (a : Action) → Keeps b Lost db (act db a)
  unfolding act
  act-Keeps db (submits name payload) = insert_both-Keeps b Lost db name payload
  act-Keeps db (schedules id worker) =
      update_rows-Keeps b Lost db id (to_scheduled worker db.clock) (λ r. refl) (λ r e. cc)
  act-Keeps db (runs id) =
      update_rows-Keeps b Lost db id (to_running db.clock) (λ r. refl) (λ r e. cc)
  act-Keeps db (finishes id s m) =
      update_rows-Keeps b Lost db id (to_finished s m db.clock) (λ r. refl)
        (finished_not_pending s m db.clock)
  act-Keeps db (reclaims worker) = reclaim-Keeps b Lost db worker
  act-Keeps db (ticks n) =
      unfold Covered IsFresh Owns in
      record {
        grows = omega arith;
        safe = λ h. record {
          covered = h.covered;
          bound = h.bound;
          tables = record { jobs = h.tables.jobs; outbox = h.tables.outbox };
        };
        fresh = λ job n h. h;
        owns = λ c job n l h. h;
      }

  pub act_all-Keeps : (db : Db) (actions : List Action) → Keeps b Lost db (act_all db actions)
  unfolding act_all
  act_all-Keeps db [] = Keeps-refl b Lost db
  act_all-Keeps db (a ∷ actions) =
      Keeps-trans b Lost db (act db a) _ (act-Keeps db a) (act_all-Keeps (act db a) actions)

  pub interfere-Keeps : (w : World) → Keeps b Lost w.db (interfere w).db
  unfolding interfere
  interfere-Keeps w = act_all-Keeps w.db (next_actions w.others)
