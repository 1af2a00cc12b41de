-- ===== src/Store.antt =====
-- internal/store: the tables `jobs` and `outbox` of Postgres, and the statements that store.go and
-- outbox.go run on them. Each method is one statement or one transaction, so it is one step.
pub mod Rows
pub mod Jobs
pub mod Outbox
pub mod History
