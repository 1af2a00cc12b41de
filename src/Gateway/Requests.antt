-- ===== src/Gateway/Requests.antt =====
-- What a request of the REST surface shows of the database, through the scheduler that serves it.
use ironwork.Prelude.{
  zero, drop, ◌++◌, ◌≢◌, ◌⊎◌, Any, inl, inr, ℕ, ◌%◌, ◌^◌, ◌≤◌, ◌≡◌, refl, ap, String, Bool, none,
  some, List, [], ◌∷◌, map, All, All-imp, length, take, if◌then◌else◌, arith, pos, negsuc,
  length-take, suc,
}
use ironwork.Sort.{sort, sort-All, sort-Any, sort-IsSorted, IsSorted, IsWeakOrder}
use ironwork.Store.Rows.{
  Uuid, Payload, Status, Status-discrete, Job, JobRow, not_found, call_failed, Result, ok, err,
  call, served, next_fault, scan_job,
}
use ironwork.Store.Jobs.{find_job, get_job, list_jobs, select_status, newer}
use ironwork.Relay.{World, interfere, on_db}
use ironwork.Scheduler.{get_job_by, list_jobs_by, limit_of, max_limit, get_reply}
use ironwork.Scheduler.Wire.{job_to_proto, status_to_proto, status_from_proto}
use ironwork.Gateway.{Response, respond}
use ironwork.Gateway.Render.{JobJson, render_job}
use ironwork.Gateway.Jobs.{
  Limit, absent, malformed, given, page_size, filter_of, handle_get_job, handle_list_jobs,
  render_one,
}
use mathlib.Core.Logic.{ite}
use mathlib.Core.Path.{ap₂}

from-to : (s : Status) → status_from_proto (status_to_proto s) ≡ some s
from-to Status.pending = refl
from-to Status.scheduled = refl
from-to Status.running = refl
from-to Status.succeeded = refl
from-to Status.failed = refl

-- A job of the database as it is shown.
unfoldable pub shown_job : (Payload → Bool) → Job → JobJson
shown_job valid j = record {
  id = j.id;
  name = j.name;
  status = some j.status;
  assigned_worker = j.assigned_worker;
  attempts = j.attempts % 2 ^ 32;
  error = j.error;
  created_at = j.created_at;
  updated_at = j.updated_at;
  started_at = j.started_at;
  finished_at = j.finished_at;
  payload = if valid j.payload then some j.payload else none;
}

render-job_to_proto :
    (valid : Payload → Bool) (j : Job) → render_job valid (job_to_proto j) ≡ shown_job valid j
unfolding render_job job_to_proto shown_job
render-job_to_proto valid j = rw (from-to j.status) refl

abbrev pub shown : (Payload → Bool) → Result Job → Response JobJson
shown valid (ok j) = (200, some (shown_job valid j))
shown valid (err not_found) = (404, none)
shown valid (err call_failed) = (502, none)

-- When the database serves the call, `GET /jobs/{id}` shows the job of that id as the database holds
-- it, or answers 404 where it holds none.
pub handle_get_job-shown :
    (valid : Payload → Bool) (id : Uuid) (w : World)
    → next_fault (interfere w).db.faults ≡ served
    → (handle_get_job valid (λ i. get_job_by (some i)) (some id) w).0
      ≡ shown valid (find_job id (interfere w).db.jobs)
unfolding handle_get_job get_job_by on_db get_job call
handle_get_job-shown valid id w h = rw h (reply (find_job id (interfere w).db.jobs))
  where
    reply : (r : Result Job) → respond 200 (render_one valid (get_reply r)) ≡ shown valid r
    reply (ok j) = ap (λ x. (200, some x)) (render-job_to_proto valid j)
    reply (err not_found) = refl
    reply (err call_failed) = refl

-- The job is that of a row with this status.
abbrev pub IsRowOf : Status → List JobRow → Job → Type 0
IsRowOf s rows j = Any (λ r. (j ≡ scan_job r) × (r.status ≡ s)) rows

-- The row has another status, or its job is among these.
abbrev pub IsListed : Status → List Job → JobRow → Type 0
IsListed s jobs r = (r.status ≢ s) ⊎ Any (λ j. scan_job r ≡ j) jobs

-- From the newest on.
abbrev pub Descending : List Job → Type 0
Descending [] = Unit
Descending (j ∷ jobs) = All (λ (k : Job). k.created_at ≤ j.created_at) jobs × Descending jobs

select_status-IsRowOf :
    (s : Status) (rows : List JobRow) → All (IsRowOf s rows) (select_status (some s) rows)
unfolding select_status
select_status-IsRowOf s [] = tt
select_status-IsRowOf s (r ∷ rows) =
    either (Status-discrete r.status s)
      (All-imp _ _ (select_status (some s) rows) (λ j a. inr a) (select_status-IsRowOf s rows))
  where
    rest : List Job
    rest = select_status (some s) rows

    either :
        (d : Dec (r.status ≡ s))
        → All (IsRowOf s (r ∷ rows)) rest
        → All (IsRowOf s (r ∷ rows)) (ite d (scan_job r ∷ rest) rest)
    either (yes e) h = (inl (refl, e), h)
    either (no n) h = h

select_status-IsListed :
    (s : Status) (rows : List JobRow) → All (IsListed s (select_status (some s) rows)) rows
unfolding select_status
select_status-IsListed s [] = tt
select_status-IsListed s (r ∷ rows) =
    either (Status-discrete r.status s) (select_status-IsListed s rows)
  where
    rest : List Job
    rest = select_status (some s) rows

    wider : (q : JobRow) → IsListed s rest q → IsListed s (scan_job r ∷ rest) q
    wider q (inl n) = inl n
    wider q (inr a) = inr (inr a)

    either :
        (d : Dec (r.status ≡ s))
        → All (IsListed s rest) rows
        → IsListed s (ite d (scan_job r ∷ rest) rest) r
          × All (IsListed s (ite d (scan_job r ∷ rest) rest)) rows
    either (yes e) h = (inr (inl refl), All-imp _ _ rows wider h)
    either (no n) h = (inl n, h)

newer-IsWeakOrder : IsWeakOrder newer
newer-IsWeakOrder = record { asym = λ a b p. ground arith; co_trans = λ a b c p q. ground arith }

IsSorted-Descending : (jobs : List Job) → IsSorted newer jobs → Descending jobs
IsSorted-Descending [] h = tt
IsSorted-Descending (j ∷ jobs) h =
    (All-imp _ _ jobs (λ k p. ground arith) h.0, IsSorted-Descending jobs h.1)

take-drop : (n : ℕ) (l : List Job) → take n l ++ drop n l ≡ l
take-drop zero l = refl
take-drop (suc n) [] = refl
take-drop (suc n) (j ∷ l) = ap (◌∷◌ j) (take-drop n l)

take_full : (n : ℕ) (l : List Job) → (length (take n l) ≡ n) ⊎ (drop n l ≡ [])
take_full zero l = inl refl
take_full (suc n) [] = inr refl
take_full (suc n) (j ∷ l) = elim (take_full n l) [ inl e ↦ inl (ap suc e) | inr e ↦ inr e ]

bounded-IsPage :
    (limit : Limit) (n : ℕ)
    → page_size limit ≡ some n
    → (limit_of n ≡ n) × (1 ≤ n) × (n ≤ max_limit)
bounded-IsPage absent n e = ground (arith, e)
bounded-IsPage malformed n e = ground (arith, e)
bounded-IsPage (given (negsuc k)) n e = ground (arith, e)
bounded-IsPage (given (pos k)) n e = ground (arith, e)

map-shown :
    (valid : Payload → Bool) (jobs : List Job)
    → map (render_job valid) (map job_to_proto jobs) ≡ map (shown_job valid) jobs
map-shown valid [] = refl
map-shown valid (j ∷ jobs) = ap₂ (◌∷◌) (render-job_to_proto valid j) (map-shown valid jobs)

-- When the database serves the call, `GET /jobs` of a status and of a limit that is no bad text
-- answers with the newest jobs of that status, from the newest on: as many as the limit, which is two
-- hundred at most, or all; those that are left out are no newer.
pub handle_list_jobs-shown :
    (valid : Payload → Bool) (text : String) (s : Status) (limit : Limit) (n : ℕ) (w : World)
    → filter_of text ≡ some (status_to_proto s)
    → page_size limit ≡ some n
    → next_fault (interfere w).db.faults ≡ served
    → (jobs rest : List Job) × ((handle_list_jobs valid list_jobs_by text limit w).0
        ≡ (200, some (map (shown_job valid) jobs)))
      × Descending (jobs ++ rest)
      × All (IsRowOf s (interfere w).db.jobs) (jobs ++ rest)
      × All (IsListed s (jobs ++ rest)) (interfere w).db.jobs
      × ((length jobs ≡ n) ⊎ (rest ≡ []))
      × (length jobs ≤ n)
      × (n ≤ 200)
unfolding handle_list_jobs list_jobs_by on_db list_jobs call
handle_list_jobs-shown valid text s limit n w f p h =
    let page = bounded-IsPage limit n p in
    let rows = (interfere w).db.jobs in
    let found = select_status (some s) rows in
    let all = sort newer found in
    rw (f, p, from-to s, page.0, h)
      (
        take n all,
        drop n all,
        ap (λ l. (200, some l)) (map-shown valid (take n all)),
        rw (take-drop n all) (IsSorted-Descending all (sort-IsSorted newer-IsWeakOrder found)),
        rw (take-drop n all) (sort-All _ newer found (select_status-IsRowOf s rows)),
        rw (take-drop n all) (All-imp _ _ rows sorted (select_status-IsListed s rows)),
        take_full n all,
        omega (arith, length-take n all),
        page.2,
      )
  where
    sorted :
        (r : JobRow)
        → IsListed s (select_status (some s) (interfere w).db.jobs) r
        → IsListed s (sort newer (select_status (some s) (interfere w).db.jobs)) r
    sorted r (inl d) = inl d
    sorted r (inr a) = inr (sort-Any _ newer _ a)
