-- ===== src/Examples.antt =====
-- Concrete runs: each theorem of the development at values that exercise the code.
mod Values
mod Turns
mod Ledger
mod Policies
mod Recovery
mod Tasks
mod Projections
mod Compensations
mod Gates
mod TaskLogs
mod Admissions
mod Retries
mod Activities
mod Quotas
mod Migrations
mod Outboxes
mod Actors
mod Resolvers
