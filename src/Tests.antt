-- ===== src/Tests.antt =====
-- Runs of the model on concrete inputs.
mod Data
mod Parsing
mod Addresses
mod Rows
mod Dispatching
mod Scheduling
mod Configuration
mod Fetching
mod Webhooks
mod Operations
