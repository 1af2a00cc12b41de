-- ===== src/Relay/Offers.antt =====
-- What a drain offers to the workers.
use ironwork.Prelude.{
  ℕ, ◌+◌, ◌≤◌, ◌≡◌, ◌≢◌, refl, ap, ◌∙◌, Bool, true, not, ◌&&◌, List, [], ◌∷◌, ◌++◌, Any, inl, inr,
  Bool-cases, arith, ◌==◌, if◌then◌else◌,
}
use mathlib.Core.List.{append_assoc}
use ironwork.Store.Rows.{Uuid, OutboxEntry}
use ironwork.Store.Outbox.{claim_outbox}
use ironwork.Relay.{World, on_db, is_pending, handle, handle_all, entries_of, drain, drain_batch}
use ironwork.Relay.Handle.{exhausted}
use ironwork.Relay.Drain.{offered_of_on_db, offered-handle}

-- The entry shows a pending job, and both budgets have room.
abbrev pub is_offer : OutboxEntry → Bool
is_offer e = is_pending e.job.status && not (exhausted e)

-- The jobs of the entries that are offered, the newest offer first.
abbrev pub offers : List OutboxEntry → List Uuid
offers [] = []
offers (e ∷ entries) = offers entries ++ (if is_offer e then e.job.id ∷ [] else [])

handle_all-offers :
    (entries : List OutboxEntry) (w : World)
    → (handle_all entries w).offered ≡ offers entries ++ w.offered
unfolding handle_all
handle_all-offers [] w = refl
handle_all-offers (e ∷ entries) w =
    handle_all-offers entries (handle e w)
    ∙ ap (λ (l : List Uuid). offers entries ++ l) (offered-handle e w)
    ∙ elim (Bool-cases (is_offer e)) [
      | inl y ↦ rw (y, append_assoc) refl
      | inr n ↦ rw (n, append_assoc) refl
    ]

-- A drain offers, in the order of the claimed entries, the job of each that shows it pending and
-- within both budgets, once for each such entry and no other job, whatever the other processes do
-- meanwhile, the workers answer and the database refuses.
pub drain-offers :
    (w : World)
    → (drain w).offered ≡ offers (entries_of (on_db (claim_outbox drain_batch) w).0) ++ w.offered
unfolding drain
drain-offers w =
    handle_all-offers _ (on_db (claim_outbox drain_batch) w).1
    ∙ ap (λ (l : List Uuid). offers (entries_of (on_db (claim_outbox drain_batch) w).0) ++ l)
        (offered_of_on_db (claim_outbox drain_batch) w)

-- How often the job stands in the list.
abbrev pub count : Uuid → List Uuid → ℕ
count id [] = 0
count id (j ∷ l) = (if j == id then 1 else 0) + count id l

count-append : (id : Uuid) (l m : List Uuid) → count id (l ++ m) ≡ count id l + count id m
count-append id [] m = omega arith
count-append id (j ∷ l) m = omega (arith, count-append id l m)

-- An entry of the job, of a command with the property, that is offered.
abbrev pub IsOffer : Uuid → (Uuid → Type 0) → OutboxEntry → Type 0
IsOffer id Q e = (e.job.id ≡ id) × (is_offer e ≡ true) × Q e.id

module _ (id : Uuid) where
  pub count-offers :
      (Q : Uuid → Type 0) (entries : List OutboxEntry)
      → Any (IsOffer id Q) entries
      → 1 ≤ count id (offers entries)
  count-offers Q [] h = elim h [ ]
  count-offers Q (e ∷ entries) h =
      let c = count-append id (offers entries) (if is_offer e then e.job.id ∷ [] else []) in
      elim h [
        | inl q ↦ ground (arith, c, q.0, q.1)
        | inr q ↦ omega (arith, c, count-offers Q entries q)
      ]

  -- Two entries of one job, of different commands, are two offers.
  pub count-offers_two :
      (a b : Uuid) (entries : List OutboxEntry)
      → a ≢ b
      → Any (IsOffer id (λ c. c ≡ a)) entries
      → Any (IsOffer id (λ c. c ≡ b)) entries
      → 2 ≤ count id (offers entries)
  count-offers_two a b [] ne h k = elim h [ ]
  count-offers_two a b (e ∷ entries) ne h k =
      let c = count-append id (offers entries) (if is_offer e then e.job.id ∷ [] else []) in
      elim h [
        | inl q ↦ elim k [
          | inl r ↦ absurd (ground (arith, q.2, r.2, ne))
          | inr r ↦ ground (arith, c, q.0, q.1, count-offers (λ d. d ≡ b) entries r)
        ]
        | inr q ↦ elim k [
          | inl r ↦ ground (arith, c, r.0, r.1, count-offers (λ d. d ≡ a) entries q)
          | inr r ↦ omega (arith, c, count-offers_two a b entries ne q r)
        ]
      ]
