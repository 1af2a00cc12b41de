-- ===== src/Recovery/Offered.antt =====
-- What a drain offers to the workers while the batch holds every command.
use ironwork.Prelude.{
  ℕ, zero, ◌≢◌, suc, ◌≤◌, ◌≡◌, refl, ap, ◌∙◌, true, List, [], ◌∷◌, ◌++◌, Any, Any-imp, inl, inr,
  Bool-cases, arith, length, take, ◌==◌,
}
use ironwork.Sort.{sort, sort-Any}
use ironwork.Store.Rows.{Uuid, JobRow, OutboxRow, OutboxEntry, Db}
use ironwork.Store.Outbox.{pending_rows, join_jobs, join_all, older, is_pending, claim_outbox}
use ironwork.Relay.{World, on_db, entries_of, drain, drain_batch}
use ironwork.Relay.Handle.{exhausted}
use ironwork.Relay.Offers.{offers, IsOffer, drain-offers, count, count-offers, count-offers_two}
use ironwork.Recovery.Served.{IsQuiet, on_db-served}
use ironwork.Recovery.Returned.{IsReturned, IsCommand, Waits}

-- A pending command for the job, with the property, which may be offered once more.
abbrev pub IsCommandOf : Uuid → (Uuid → Type 0) → OutboxRow → Type 0
IsCommandOf id Q o = IsCommand id o × Q o.id

-- The commands that a drain finds, the oldest first.
abbrev pub claims : Db → List OutboxEntry
claims db = join_all (sort older (pending_rows db.outbox)) db.jobs

module _ (id : Uuid) (Q : Uuid → Type 0) where
  pending_rows-Any :
      (rows : List OutboxRow)
      → Any (IsCommandOf id Q) rows
      → Any (IsCommandOf id Q) (pending_rows rows)
  unfolding pending_rows
  pending_rows-Any [] h = h
  pending_rows-Any (o ∷ rows) (inl (h, x)) = simp h.1 (inl ((h.0, refl, h.2), x))
  pending_rows-Any (o ∷ rows) (inr h) = elim (Bool-cases (is_pending o.status)) [
    | inl y ↦ simp y (inr (pending_rows-Any rows h))
    | inr n ↦ simp n (pending_rows-Any rows h)
  ]

module _ {A : Type 0} (P : A → Type 0) where
  append-Any : (l m : List A) → Any P l → Any P (l ++ m)
  append-Any [] m h = elim h [ ]
  append-Any (a ∷ l) m (inl h) = inl h
  append-Any (a ∷ l) m (inr h) = inr (append-Any l m h)

  Any-append : (l m : List A) → Any P m → Any P (l ++ m)
  Any-append [] m h = h
  Any-append (a ∷ l) m h = inr (Any-append l m h)

module _ {A : Type 0} where
  take_all : (n : ℕ) (l : List A) → length l ≤ n → take n l ≡ l
  take_all zero [] h = refl
  take_all zero (a ∷ l) h = absurd (omega arith)
  take_all (suc n) [] h = refl
  take_all (suc n) (a ∷ l) h = ap (λ (m : List A). a ∷ m) (take_all n l (omega arith))

module _ (id : Uuid) (Q : Uuid → Type 0) where
  join_jobs-IsOffer :
      (o : OutboxRow) (rows : List JobRow)
      → IsCommandOf id Q o
      → Any (IsReturned id) rows
      → Any (IsOffer id Q) (join_jobs o rows)
  unfolding join_jobs exhausted
  join_jobs-IsOffer o [] c h = h
  join_jobs-IsOffer o (r ∷ rows) c (inl (i, s, f, a)) =
      let same : r.id == o.job_id ≡ true = ground (arith, i, c.0.0) in
      rw same (inl (i, rw s (ground (arith, a, c.0.2)), c.1))
  join_jobs-IsOffer o (r ∷ rows) c (inr h) = elim (Bool-cases (r.id == o.job_id)) [
    | inl y ↦ simp y (inr (join_jobs-IsOffer o rows c h))
    | inr n ↦ simp n (join_jobs-IsOffer o rows c h)
  ]

  join_all-IsOffer :
      (jobs : List JobRow) (rows : List OutboxRow)
      → Any (IsReturned id) jobs
      → Any (IsCommandOf id Q) rows
      → Any (IsOffer id Q) (join_all rows jobs)
  unfolding join_all
  join_all-IsOffer jobs [] j h = elim h [ ]
  join_all-IsOffer jobs (o ∷ rows) j (inl c) =
      append-Any (IsOffer id Q) (join_jobs o jobs) (join_all rows jobs)
        (join_jobs-IsOffer o jobs c j)
  join_all-IsOffer jobs (o ∷ rows) j (inr h) =
      Any-append (IsOffer id Q) (join_jobs o jobs) (join_all rows jobs)
        (join_all-IsOffer jobs rows j h)

  -- A drain finds an entry for a job that is pending and has a pending command.
  pub claims-IsOffer :
      (db : Db)
      → Any (IsReturned id) db.jobs
      → Any (IsCommandOf id Q) db.outbox
      → Any (IsOffer id Q) (claims db)
  claims-IsOffer db r c =
      join_all-IsOffer db.jobs _ r (sort-Any _ older _ (pending_rows-Any id Q db.outbox c))

module _ (w : World) (q : IsQuiet w) (le : length (claims w.db) ≤ drain_batch) where
  claimed : entries_of (on_db (claim_outbox drain_batch) w).0 ≡ claims w.db
  unfolding claim_outbox
  claimed = rw (on_db-served _ w q) (take_all drain_batch (claims w.db) le)

  -- A drain of a batch that holds every command.
  pub drain-claims : (drain w).offered ≡ offers (claims w.db) ++ w.offered
  drain-claims = drain-offers w ∙ ap (λ (l : List OutboxEntry). offers l ++ w.offered) claimed

  -- A waiting job is among those that the next drain offers to the workers.
  pub drain-offered :
      (id : Uuid)
      → Waits id w.db
      → (new : List Uuid) × ((drain w).offered ≡ new ++ w.offered) × (1 ≤ count id new)
  drain-offered id h = (
    offers (claims w.db),
    drain-claims,
    count-offers id (λ c. Unit) (claims w.db)
        (claims-IsOffer id (λ c. Unit) w.db h.returned
          (Any-imp _ _ w.db.outbox (λ o c. (c, tt)) h.command)),
  )

  -- If a pending job that is assigned to nobody has two pending commands, and has been started less than
  -- three times, a drain offers it to the workers twice, whatever becomes of the first offer; nobody
  -- else acts and the database serves every call, each command has been offered less than thirty times,
  -- and no more commands are pending than a drain claims.
  pub drain_offers_twice :
      (id a b : Uuid)
      → a ≢ b
      → Any (IsReturned id) w.db.jobs
      → Any (IsCommandOf id (λ c. c ≡ a)) w.db.outbox
      → Any (IsCommandOf id (λ c. c ≡ b)) w.db.outbox
      → (new : List Uuid) × ((drain w).offered ≡ new ++ w.offered) × (2 ≤ count id new)
  drain_offers_twice id a b ne r h k = (
    offers (claims w.db),
    drain-claims,
    count-offers_two id a b (claims w.db) ne (claims-IsOffer id (λ c. c ≡ a) w.db r h)
        (claims-IsOffer id (λ c. c ≡ b) w.db r k),
  )
