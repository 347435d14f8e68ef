-- ===== src/Tests.antt =====
-- Concrete runs that show that the hypotheses of the results can be met.
mod Fixtures
mod Messages
mod Operations
mod Specs
mod Listing
mod Auth
mod Migrations
mod Shop
mod Api
mod Tables
mod Workflows
mod Reports
mod Writes
mod WorkflowSpecs
mod Documents
mod Cli
mod Reconciler
