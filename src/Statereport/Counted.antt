-- ===== src/Statereport/Counted.antt =====
-- A replica counts the reports of a worker that reach it.
use ironwork.Prelude.{
  ℕ, ◌+◌, ◌≤◌, ◌<◌, ◌^◌, ◌≡◌, refl, sym, ◌∙◌, ap, length, String, ℤ, Bool, true, false, Option,
  none, some, List, [], ◌∷◌, str_eq, eq_iff, arith, if◌then◌else◌,
}
use ironwork.Store.Rows.{Uuid}
use ironwork.Statesvc.{Server, report_ok}
use ironwork.Statesvc.Wellformed.{shard_at}
use ironwork.Statesvc.Cluster.{Table, table_of, key_of}
use ironwork.Statesvc.Cluster.Honest.{shard_at-report, replica-report}
use ironwork.Statereport.{request_of, report, report_all}

module _ (uuid_text : Uuid → String) (worker : String) where
  -- Under what a replica is to count a job: its outcome, or the worker.
  abbrev pub key_for : Table → Bool → String
  key_for Table.status true = "succeeded"
  key_for Table.status false = "failed"
  key_for Table.worker succeeded = worker

  key_of-request_of :
      (t : Table) (event : Uuid × Bool)
      → key_of t (request_of uuid_text worker event) ≡ key_for t event.1
  key_of-request_of Table.status (job, true) = refl
  key_of-request_of Table.status (job, false) = refl
  key_of-request_of Table.worker (job, succeeded) = refl

  abbrev counted : Table → String → Option ℤ → Uuid × Bool → ℕ
  counted t key none event = 0
  counted t key (some now) event = if str_eq (key_for t event.1) key then 1 else 0

  -- The reports that arrive, with this key in this table.
  unfoldable pub arrived : Table → String → List (Option ℤ × (Uuid × Bool)) → ℕ
  arrived t key [] = 0
  arrived t key ((arrival, event) ∷ events) = counted t key arrival event + arrived t key events

  -- The replica takes the ids that the worker sends.
  abbrev pub IsSendable : Type 0
  IsSendable = (str_eq worker "" ≡ false) × ((job : Uuid) → str_eq (uuid_text job) "" ≡ false)

  request_ok :
      (event : Uuid × Bool) → IsSendable → report_ok (request_of uuid_text worker event) ≡ true
  unfolding report_ok
  request_ok (job, true) h = rw (h.1 job, h.0) refl
  request_ok (job, false) h = rw (h.1 job, h.0) refl

  report-replica :
      (a : Option ℤ) (event : Uuid × Bool) (s : Server)
      → (report uuid_text worker a event s).replica ≡ s.replica
  unfolding report
  report-replica none event s = refl
  report-replica (some now) event s = replica-report now s (request_of uuid_text worker event)

  shard_at-one :
      (t : Table) (key : String) (a : Option ℤ) (event : Uuid × Bool) (s : Server)
      → IsSendable
      → shard_at key s.replica (table_of t s) + 1 < 2 ^ 64
      → shard_at key s.replica (table_of t (report uuid_text worker a event s))
        ≡ shard_at key s.replica (table_of t s) + counted t key a event
  unfolding report
  shard_at-one t key none event s h lt = omega arith
  shard_at-one t key (some now) event s h lt =
      shard_at-report t now s (request_of uuid_text worker event) key s.replica
      ∙ ground
          (arith, key_of-request_of t event, request_ok event h, eq_iff s.replica s.replica, lt)

  -- A replica's own shard grows by the reports of a worker that reach it, by outcome and by worker;
  -- none is refused. The worker has a name, every job's id is some text, and the counts fit 64 bits.
  pub report_all-counted :
      (t : Table) (key : String) (events : List (Option ℤ × (Uuid × Bool))) (s : Server)
      → IsSendable
      → shard_at key s.replica (table_of t s) + length events < 2 ^ 64
      → shard_at key s.replica (table_of t (report_all uuid_text worker events s))
        ≡ shard_at key s.replica (table_of t s) + arrived t key events
  unfolding report_all arrived
  report_all-counted t key [] s h lt = omega arith
  report_all-counted t key ((a, event) ∷ events) s h lt =
      let s' = report uuid_text worker a event s in
      let same = report-replica a event s in
      let one = shard_at-one t key a event s h (omega (arith, lt)) in
      let moved : shard_at key s'.replica (table_of t s')
          ≡ shard_at key s.replica (table_of t s) + counted t key a event =
        ap (λ i. shard_at key i (table_of t s')) same ∙ one in
      let rest = report_all-counted t key events s' h (omega (arith, moved, lt, few a event)) in
      ap (λ i. shard_at key i (table_of t (report_all uuid_text worker events s'))) (sym same)
      ∙ rest
      ∙ omega (arith, moved)
    where
      few : (a : Option ℤ) (event : Uuid × Bool) → counted t key a event ≤ 1
      few none event = omega arith
      few (some now) event = ground arith
