-- ===== src/Gateway/Submission.antt =====
-- A submission on its way from the gateway through the router to the scheduler that leads, and into
-- the database.
use ironwork.Prelude.{
  ℕ, ◌<◌, ◌≡◌, refl, ap, fun_ext, subst, String, Bool, true, false, ◌||◌, some, ltb, ◌==◌,
  Bool-cases, inl, inr, arith, if◌then◌else◌,
}
use ironwork.Rpc.{Result, ok, err, failed_precondition}
use ironwork.Store.Rows.{Payload, next_fault, served, call}
use ironwork.Store.Outbox.{create_job_with_outbox}
use ironwork.Relay.{World, interfere, on_db}
use ironwork.Leader.{Routed, result_of, Cluster, route}
use ironwork.Leader.Exact.{SendsOn, route-exact}
use ironwork.Scheduler.{submit_job, byte_length, max_name_length}
use ironwork.Scheduler.Submit.{IsEnqueued, IsKept, submit_job-IsKept}
use ironwork.Scheduler.Wire.{WireJob}
use ironwork.Gateway.Render.{render_job}
use ironwork.Gateway.Jobs.{handle_create_job}

-- The schedulers: the world that they share, and the pending wakes of each one's relay.
abbrev pub Schedulers : Type 0
Schedulers = World × (ℕ → ℕ)

abbrev pub set_wakes : (ℕ → ℕ) → ℕ → ℕ → ℕ → ℕ
set_wakes wakes j n k = if j == k then n else wakes k

abbrev pub answered : ℕ → (ℕ → ℕ) → (Result WireJob × ℕ) × World → Result WireJob × Schedulers
answered j wakes ((r, n), w) = (r, (w, set_wakes wakes j n))

-- A call of `SubmitJob` at a member, of which `leader` leads.
abbrev pub submit_at : ℕ → String × Payload → ℕ → Schedulers → Result WireJob × Schedulers
submit_at leader (name, payload) j (w, wakes) =
    answered j wakes (submit_job (j == leader) name payload (wakes j) w)

abbrev pub members_of : ℕ → String × Payload → Cluster Schedulers WireJob
members_of leader body = record { ask = submit_at leader body; is_done = λ s. false }

abbrev through : (Routed WireJob × ℕ) × Schedulers → Result WireJob × (ℕ × Schedulers)
through ((r, cached), s) = (result_of r, (cached, s))

-- (*Router).SubmitJob, with the member that it has cached.
unfoldable pub router_submit :
    ℕ → ℕ → String × Payload → ℕ × Schedulers → Result WireJob × (ℕ × Schedulers)
router_submit members leader body (cached, s) =
    through (route (members_of leader body) cached members s)

set_wakes-same : (wakes : ℕ → ℕ) (j k : ℕ) → set_wakes wakes j (wakes j) k ≡ wakes k
set_wakes-same wakes j k = elim (Bool-cases (j == k)) [
  | inl y ↦ let e : j ≡ k = ground arith in rw y (ap wakes e)
  | inr n ↦ rw n refl
]

follower-SendsOn : (leader : ℕ) (body : String × Payload) → SendsOn (members_of leader body) leader
unfolding submit_job
follower-SendsOn leader (name, payload) j ne (w, wakes) =
    let e : j == leader ≡ false = ground arith in
    let same : set_wakes wakes j (wakes j) ≡ wakes = fun_ext (λ k. set_wakes-same wakes j k) in
    (failed_precondition, rw e (ap (λ x. (err failed_precondition, (w, x))) same), refl)

-- A name of a length that the scheduler takes.
abbrev pub IsName : String → Type 0
IsName name = (byte_length name == 0 || ltb max_name_length (byte_length name)) ≡ false

submitted :
    (leads : Bool) (wakes : ℕ) (name : String) (payload : Payload) (w : World)
    → leads ≡ true
    → IsName name
    → next_fault (interfere w).db.faults ≡ served
    → (job : WireJob) × ((submit_job leads name payload wakes w).0.0 ≡ ok job)
unfolding submit_job on_db create_job_with_outbox call
submitted leads wakes name payload w l n h = rw (l, n, h) (_, refl)

-- While one of the schedulers leads and the database serves the call, `POST /jobs` with a name of a
-- legal length answers 201 with a job, whichever member the router has cached; the leader is the
-- cached one afterwards, and the database has the job, pending, with a pending dispatch command.
pub handle_create_job-stored :
    (valid : Payload → Bool) (members cached leader : ℕ) (name : String) (payload : Payload)
    (w : World) (wakes : ℕ → ℕ)
    → cached < members
    → leader < members
    → IsName name
    → next_fault (interfere w).db.faults ≡ served
    → let body : String × Payload = (name, payload) in
      let r =
        handle_create_job valid (router_submit members leader) (some body) (cached, (w, wakes)) in
      (job : WireJob) × (r.0 ≡ (201, some (render_job valid job)))
      × (r.1.0 ≡ leader)
      × IsEnqueued job.id r.1.1.0.db
unfolding handle_create_job router_submit
handle_create_job-stored valid members cached leader name payload w wakes hc hl n h =
    let body : String × Payload = (name, payload) in
    let (job, e) = submitted (leader == leader) (wakes leader) name payload w (ground arith) n h in
    let after = submit_at leader body leader (w, wakes) in
    let path =
      route-exact (members_of leader body) cached members leader (follower-SendsOn leader body) job
        (w, wakes) after.1 (ap (λ r. (r, after.1)) e) hc hl in
    let kept = submit_job-IsKept (leader == leader) name payload (wakes leader) w in
    rw path (job, refl, refl, subst (λ r. IsKept r after.1.0.db) e kept)
