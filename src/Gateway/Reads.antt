-- ===== src/Gateway/Reads.antt =====
-- Reads on their way from the gateway through the router to some scheduler, and to the database.
use ironwork.Prelude.{
  ℕ, zero, suc, ◌+◌, ◌%◌, ◌<◌, ◌≡◌, refl, sym, ap, ◌∙◌, List, Bool, true, false, Option, none, some,
  Bool-cases, inl, inr, arith, if◌then◌else◌,
}
use ironwork.Rpc.{Code, Result, ok, err, unavailable}
use ironwork.Store.Rows as Store
use ironwork.Store.Rows.{Uuid}
use ironwork.Store.Outbox.{OutboxStats}
use ironwork.Relay.{World}
use ironwork.Leader.{
  Routed, Pass, served, refused, Cluster, heard, after_pass, pass, rounds, route, retryable,
  result_of,
}
use ironwork.Leader.Finds.{offset}
use ironwork.Scheduler.{get_job_by, list_jobs_by, get_outbox_stats}
use ironwork.Scheduler.Wire.{WireJob, JobStatus}
use ironwork.Gateway.Jobs.{page_size}

abbrev pub through : {A : Type 0} → (Routed A × ℕ) × World → Result A × (ℕ × World)
through ((r, cached), w) = (result_of r, (cached, w))

module _ {A : Type 0} (up : ℕ → Bool) (call : World → Result A × World) where
  -- A call at a member, which fails where the member cannot be reached.
  abbrev pub read_at : ℕ → World → Result A × World
  read_at j w = if up j then call w else (err unavailable, w)

  abbrev pub readers : Cluster World A
  readers = record { ask = read_at; is_done = λ w. false }

  -- A read through the router, with the member that it has cached.
  unfoldable pub read : ℕ → ℕ × World → Result A × (ℕ × World)
  read members (cached, w) = through (route readers cached members w)

module _ (up : ℕ → Bool) (members : ℕ) where
  -- (*Router).GetJob
  abbrev pub router_get : Uuid → ℕ × World → Result WireJob × (ℕ × World)
  router_get id = read up (get_job_by (some id)) members

  -- (*Router).ListJobs
  abbrev pub router_list : JobStatus → ℕ → ℕ × World → Result (List WireJob) × (ℕ × World)
  router_list filter page_size = read up (list_jobs_by filter page_size) members

  -- (*Router).GetOutboxStats
  abbrev pub router_stats : ℕ × World → Result OutboxStats × (ℕ × World)
  router_stats = read up get_outbox_stats members

-- No answer of the call sends the router on.
abbrev IsFinal : {A : Type 0} → Result A → Type 0
IsFinal (ok a) = Unit
IsFinal (err e) = retryable e ≡ false

-- How a pass ends at the member that answers.
abbrev ended : {A : Type 0} → ℕ → Result A × World → Pass A × World
ended k (ok a, w) = (served k a, w)
ended k (err e, w) = (refused e, w)

heard-final :
    {A : Type 0} (c : Cluster World A) (start members k : ℕ) (last : Option Code) (r : Result A)
    (s : World) (rest : Option Code → Pass A × World)
    → IsFinal r
    → heard c start members k last r s rest ≡ ended k (r, s)
heard-final c start members k last (ok a) s rest f = refl
heard-final c start members k last (err e) s rest f = rw f refl

module _ {A : Type 0} (up : ℕ → Bool) (call : World → Result A × World) (start members : ℕ)
    (w : World) (final : IsFinal (call w).0) where
  pass-here :
      (n i : ℕ) (last : Option Code)
      → up ((start + i) % members) ≡ true
      → pass (readers up call) start members (suc n) i last w
        ≡ ended ((start + i) % members) (call w)
  unfolding pass
  pass-here n i last y = rw y (
      heard-final (readers up call) start members ((start + i) % members) last (call w).0 (call w).1
        _ final)

  pass-past :
      (n i : ℕ) (last : Option Code)
      → up ((start + i) % members) ≡ false
      → pass (readers up call) start members (suc n) i last w
        ≡ pass (readers up call) start members n (suc i) (some unavailable) w
  unfolding pass
  pass-past n i last y = rw y refl

  pass-first :
      (n i d : ℕ) (last : Option Code)
      → d < n
      → up ((start + (i + d)) % members) ≡ true
      → (k : ℕ) × (pass (readers up call) start members n i last w ≡ ended k (call w))
  pass-first zero i d last lt y = absurd (omega arith)
  pass-first (suc n) i zero last lt y =
      let e : i + 0 ≡ i = omega arith in
      (_, pass-here n i last (ap (λ k. up ((start + k) % members)) (sym e) ∙ y))
  pass-first (suc n) i (suc d) last lt y = elim (Bool-cases (up ((start + i) % members))) [
    | inl z ↦ (_, pass-here n i last z)
    | inr z ↦
        let (k, p) =
          pass-first n (suc i) d (some unavailable) (omega arith)
            (ap (λ k. up ((start + k) % members)) (omega arith) ∙ y) in
        (k, pass-past n i last z ∙ p)
  ]

  -- A read has the answer and the effect of one call, if some member can be reached.
  pub read-exact :
      (l : ℕ)
      → start < members
      → l < members
      → up l ≡ true
      → ((read up call members (start, w)).0 ≡ (call w).0)
        × ((read up call members (start, w)).1.1 ≡ (call w).1)
  unfolding read rounds
  read-exact l hs hl y =
      let (d, lt, at) = offset (readers up call) start members l hs hl in
      let (k, p) = pass-first members 0 d none lt (ap up at ∙ y) in rw p (ending k (call w))
    where
      ending :
          (k : ℕ) (q : Result A × World)
          → let r = through (
              after_pass
                (readers up call)
                start
                members
                2
                start
                (ended k q)
                (λ last s. rounds (readers up call) start members 1 last s)) in
            (r.0 ≡ q.0) × (r.1.1 ≡ q.1)
      ending k (ok a, v) = (refl, refl)
      ending k (err e, v) = (refl, refl)
