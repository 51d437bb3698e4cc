-- ===== src/Operator.antt =====
-- The states of jobs and runs in the operator, and its functions on texts: api/v1/run_types.go and
-- internal/controller/run_controller.go.
pub mod State
pub mod Texts
pub mod Paths
pub mod Status
pub mod Suspension
pub mod Cluster
