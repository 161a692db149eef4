-- ===== src/Remediation.antt =====
-- The remediation of findings: the simulated actions of packages/shared/src/remediation/engine.ts, and
-- the plans, approvals and executions of apps/api/src/services/remediation-service.ts.
pub mod Engine
pub mod Service
pub mod Plans
pub mod Approvals
pub mod Actions
pub mod Execute
pub mod History
