-- ===== src/Relay/Ready.antt =====
-- The state between two entries of a batch.
use ironwork.Prelude.{ℕ, List, All, All-imp, arith}
use ironwork.Store.Rows.{
  Uuid, OutboxEntry, Db, Result, Fault, err, call_failed, run_under, served, refused, unacked,
  next_fault, later_faults, call,
}
use ironwork.Relay.Cover.{Covered, IsFresh, Owns, IsTracked, IsSafe, Keeps}

-- The state between two entries: a safe database, and what is known of the entries to come.
pub record IsReady (b : ℕ) (Lost : Uuid → Type 0) (entries : List OutboxEntry) (db : Db)
    : Type 0 where
  pub safe : IsSafe b Lost db
  pub rest : All (IsTracked b db) entries

pub Keeps-IsReady :
    (b : ℕ) (Lost : Uuid → Type 0) (entries : List OutboxEntry) (db db' : Db)
    → Keeps b Lost db db'
    → IsReady b Lost entries db
    → IsReady b Lost entries db'
Keeps-IsReady b Lost entries db db' k h = record {
  safe = k.safe h.safe;
  rest =
      All-imp (IsTracked b db) (IsTracked b db') entries
        (λ e t. record {
          old = t.old;
          owns = k.owns e.id e.job.id h.safe.bound t.old t.owns;
          settled = λ n. k.fresh e.job.id h.safe.bound (t.settled n);
        })
        h.rest;
}

pub faults-Keeps :
    (b : ℕ) (Lost : Uuid → Type 0) (db : Db) (fs : List Fault)
    → Keeps b Lost db (record db { faults = fs })
unfolding Covered IsFresh Owns
faults-Keeps b Lost db fs = record {
  grows = omega arith;
  safe = λ h. record {
    covered = h.covered;
    bound = h.bound;
    tables = record { jobs = h.tables.jobs; outbox = h.tables.outbox };
  };
  fresh = λ job n h. h;
  owns = λ c job n l h. h;
}

-- What holds of the database before a call and after its work holds after the call, whatever the
-- fault.
pub call-cases {ℓ} :
    {A : Type ℓ} (P : Db → Type 0) (work : Db → Result A × Db) (db : Db)
    → P (record db { faults = later_faults db.faults })
    → P (work (record db { faults = later_faults db.faults })).1
    → P (call work db).1
unfolding call
call-cases P work db before after = go (next_fault db.faults)
  where
    go :
        (f : Fault)
        → P
            (run_under f
              (record db { faults = later_faults db.faults })
              (work (record db { faults = later_faults db.faults })).0
              (work (record db { faults = later_faults db.faults })).1).1
    go served = after
    go refused = before
    go unacked = after

-- The same with the result: a call that fails may have done its work.
pub call_result-cases {ℓ} :
    {A : Type ℓ} (P : Result A → Db → Type 0) (work : Db → Result A × Db) (db : Db)
    → P (err call_failed) (record db { faults = later_faults db.faults })
    → P
        (work (record db { faults = later_faults db.faults })).0
        (work (record db { faults = later_faults db.faults })).1
    → P (err call_failed) (work (record db { faults = later_faults db.faults })).1
    → P (call work db).0 (call work db).1
unfolding call
call_result-cases P work db before after lost = go (next_fault db.faults)
  where
    db' : Db
    db' = record db { faults = later_faults db.faults }

    go :
        (f : Fault)
        → P
            (run_under f db' (work db').0 (work db').1).0
            (run_under f db' (work db').0 (work db').1).1
    go served = after
    go refused = before
    go unacked = lost
