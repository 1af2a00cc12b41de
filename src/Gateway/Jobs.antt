-- ===== src/Gateway/Jobs.antt =====
-- internal/gatewayhttp/gatewayhttp.go: the handlers of /jobs.
use ironwork.Prelude.{
  ℕ, Bool, ◌||◌, Option, none, some, List, [], ◌∷◌, String, str_eq, ltb, ℤ, pos, negsuc, map,
  if◌then◌else◌,
}
use ironwork.Dict.{lookup}
use ironwork.Rpc.{Result, ok, err}
use ironwork.Store.Rows.{Uuid, Payload, Status}
use ironwork.Scheduler.Wire.{WireJob, JobStatus, status_to_proto}
use ironwork.Gateway.{default_limit, max_limit, Response, respond}
use ironwork.Gateway.Render.{JobJson, render_job}

-- The query parameter `limit`: missing, no integer, or an integer.
pub data Limit : Type 0 where
  absent malformed : Limit
  given : ℤ → Limit

abbrev pub bounded : ℤ → ℕ
bounded (negsuc n) = default_limit
bounded (pos n) = if ltb n 1 || ltb max_limit n then default_limit else n

-- The page size of a request, or `none` for a response 400.
abbrev pub page_size : Limit → Option ℕ
page_size absent = some default_limit
page_size malformed = none
page_size (given n) = some (bounded n)

-- The query parameter `status`, where it is not empty, is the text of a status or another text.
abbrev pub status_texts : List (String × Status)
status_texts =
    ("pending", Status.pending)
    ∷ ("scheduled", Status.scheduled)
    ∷ ("running", Status.running)
    ∷ ("succeeded", Status.succeeded)
    ∷ ("failed", Status.failed)
    ∷ []

abbrev valid_status : Option Status → Option JobStatus
valid_status none = none
valid_status (some s) = some (status_to_proto s)

-- The filter of a request, which `StatusToProto` maps, or `none` for a response 400.
unfoldable pub filter_of : String → Option JobStatus
filter_of text =
    if str_eq text "" then some JobStatus.unspecified else valid_status (lookup text status_texts)

module _ (valid : Payload → Bool) where
  abbrev pub render_all : Result (List WireJob) → Result (List JobJson)
  render_all (ok jobs) = ok (map (render_job valid) jobs)
  render_all (err e) = err e

  abbrev pub render_one : Result WireJob → Result JobJson
  render_one (ok job) = ok (render_job valid job)
  render_one (err e) = err e

  -- handleCreateJob; `none` is a body that does not decode
  unfoldable pub handle_create_job :
      {S Body : Type 0} → (Body → S → Result WireJob × S) → Option Body → S → Response JobJson × S
  handle_create_job submit none s = ((400, none), s)
  handle_create_job submit (some body) s =
      let (r, s') = submit body s in (respond 201 (render_one r), s')

  -- handleGetJob; `none` is an id that is no UUID
  unfoldable pub handle_get_job :
      {S : Type 0} → (Uuid → S → Result WireJob × S) → Option Uuid → S → Response JobJson × S
  handle_get_job get none s = ((400, none), s)
  handle_get_job get (some id) s = let (r, s') = get id s in (respond 200 (render_one r), s')

  abbrev pub list_page :
      {S : Type 0}
      → (JobStatus → ℕ → S → Result (List WireJob) × S)
      → JobStatus
      → Option ℕ
      → S
      → Response (List JobJson) × S
  list_page call filter none s = ((400, none), s)
  list_page call filter (some size) s =
      let (r, s') = call filter size s in (respond 200 (render_all r), s')

  abbrev pub list_filtered :
      {S : Type 0}
      → (JobStatus → ℕ → S → Result (List WireJob) × S)
      → Option JobStatus
      → Limit
      → S
      → Response (List JobJson) × S
  list_filtered call none limit s = ((400, none), s)
  list_filtered call (some filter) limit s = list_page call filter (page_size limit) s

  -- handleListJobs, of the query's `status` and `limit`
  unfoldable pub handle_list_jobs :
      {S : Type 0}
      → (JobStatus → ℕ → S → Result (List WireJob) × S)
      → String
      → Limit
      → S
      → Response (List JobJson) × S
  handle_list_jobs call status limit s = list_filtered call (filter_of status) limit s
