-- ===== src/Tests.antt =====
-- Applications of the theorems to concrete objects, for each part of the program.
pub mod Fixtures
mod Availability
mod Locks
mod Agents
mod Controller
mod Handlers
mod Deployments
mod Cloud
mod Cluster
mod Systems
mod Resources
