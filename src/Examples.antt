-- ===== src/Examples.antt =====
-- Concrete requests and nodes, on which the theorems are applied.
mod Protocol
mod Plane
mod Brokers
mod Wire
mod Node
mod Enrolments
mod Starts
mod Sessions
mod Releases
