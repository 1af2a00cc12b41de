-- ===== src/Examples.antt =====
-- Concrete inputs at which the theorems' hypotheses hold.
mod Processes
mod Crdts
mod Edges
mod Jobs
mod Journeys
mod Recoveries
mod Requests
mod Services
