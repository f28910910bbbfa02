-- ===== src/Tests.antt =====
-- The theorems at concrete inputs, and runs of the definitions.
mod Samples
mod Query
mod Filters
mod Page
mod Watches
mod Session
mod Listing
mod Outcome
mod Degrees
mod Position
mod Backend
