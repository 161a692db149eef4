-- ===== src/Scenarios.antt =====
-- Concrete runs of the components, at which the theorems are applied.
mod FirstMatch
mod Raw
mod Cloud
mod Serving
mod Running
mod Sample
mod Queueing
mod Processing
mod Requests
mod Isolation
mod Starting
mod Resilience
mod Access
mod Workflow
mod Creation
