-- ===== src/Examples.antt =====
-- The theorems at concrete inputs.
mod Contract
mod Session
mod Stream
mod Launch
mod Proposal
mod Delivery
mod Journal
mod Hook
mod Kubernetes
mod Auth
mod Inspection
mod Inventory
mod Identity
mod Api
