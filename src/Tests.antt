-- ===== src/Tests.antt =====
-- The model on concrete inputs: fixtures, the repository's own test cases, and the examples of the
-- theorems.
mod Fixtures
mod Curves
mod Edits
mod Requests
mod Cards
mod Limits
mod Tasks
mod Nvidias
mod Reloads
mod Overdrives
mod Discoveries
mod Clients
mod Guis
mod Apps
