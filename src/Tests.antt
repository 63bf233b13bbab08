-- ===== src/Tests.antt =====
-- Runs of the model at concrete inputs, and the theorems at those inputs.
mod Machine
mod Proposals
mod Approvals
mod Operator
mod Catalog
mod Cutover
mod Audit
mod Operations
