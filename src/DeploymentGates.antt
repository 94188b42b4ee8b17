-- ===== src/DeploymentGates.antt =====
-- eve_q/deployment_gates.py: the tiers, the tests for a promotion, the risk governor with its
-- circuit breaker, and the store that records decisions.
pub mod Decimal
pub mod Tiers
pub mod Metrics
pub mod Graduation
pub mod Risk
pub mod Store
