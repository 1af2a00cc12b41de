-- ===== src/Statereport.antt =====
-- internal/statereport/statereport.go: a worker's reports of finished jobs to its statemanager replica.
-- A report may be lost; the error is logged. How a job's id is written is a parameter.
pub mod Clients
pub mod Counted
pub mod Restart
use ironwork.Prelude.{
  String, ℤ, Bool, true, false, Option, none, some, List, [], ◌∷◌, if◌then◌else◌,
}
use ironwork.Store.Rows.{Uuid}
use ironwork.Statesvc.{Server, ReportRequest, report_job_event, outcome_succeeded, outcome_failed}

abbrev pub outcome_of : Bool → String
outcome_of succeeded = if succeeded then outcome_succeeded else outcome_failed

module _ (uuid_text : Uuid → String) (worker : String) where
  abbrev pub request_of : Uuid × Bool → ReportRequest
  request_of (job, succeeded) = record {
    job_id = uuid_text job;
    worker = worker;
    outcome = outcome_of succeeded;
  }

  -- (*Client).ReportJobEvent, handled by the replica at a time in milliseconds, or lost
  unfoldable pub report : Option ℤ → Uuid × Bool → Server → Server
  report none event s = s
  report (some now) event s = (report_job_event now s (request_of event)).1

  -- The reports of a worker, in the order in which they reach the replica.
  unfoldable pub report_all : List (Option ℤ × (Uuid × Bool)) → Server → Server
  report_all [] s = s
  report_all ((arrival, event) ∷ events) s = report_all events (report arrival event s)
