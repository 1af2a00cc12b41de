-- ===== src/Recovery/Served.antt =====
-- Calls of a database that serves them, where nobody else acts.
use ironwork.Prelude.{◌≡◌, refl, ℕ, String, List, []}
use ironwork.Store.Rows.{Uuid, JobRow, OutboxRow, Db, Fault, Result, call}
use ironwork.Relay.{World, Action, Reply, on_db, interfere, act_all}

-- Nobody else acts, and the database serves every call.
pub record IsQuiet (w : World) : Type 0 where
  pub alone : w.others ≡ []
  pub served : w.db.faults ≡ []

module _ {ℓ} {A : Type ℓ} (work : Db → Result A × Db) where
  on_db_parts :
      (jobs : List JobRow) (outbox : List OutboxRow) (next_id : Uuid) (clock : ℕ)
      (replies : List Reply) (offered : List Uuid) (placements : List (Uuid × String))
      (faults : List Fault) (others : List (List Action))
      → faults ≡ []
      → others ≡ []
      → let db : Db = record {
        jobs = jobs;
        outbox = outbox;
        next_id = next_id;
        clock = clock;
        faults = faults;
      } in
        let w : World = record {
          db = db;
          others = others;
          replies = replies;
          offered = offered;
          placements = placements;
        } in
        on_db (call work) w ≡ ((work db).0, record w { db = (work db).1 })
  unfolding on_db interfere act_all call
  on_db_parts jobs outbox next_id clock replies offered placements faults others f o =
      rw (f, o) refl

  -- A call has the result and the effect of its work.
  pub on_db-served :
      (w : World)
      → IsQuiet w
      → on_db (call work) w ≡ ((work w.db).0, record w { db = (work w.db).1 })
  on_db-served w q =
      on_db_parts w.db.jobs w.db.outbox w.db.next_id w.db.clock w.replies w.offered w.placements
        w.db.faults w.others q.served q.alone
