-- ===== src/Tests.antt =====
-- The theorems at concrete inputs.
mod Documents
mod Matrices
mod Clients
mod Responses
mod Events
mod Visitors
mod Packages
