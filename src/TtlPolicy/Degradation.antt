-- ===== src/TtlPolicy/Degradation.antt =====
-- On the results of `evaluate_ttl_state` of eve_q/ttl_policy.py.
mod Policy
mod Inversion
pub mod Escalation
pub mod Bounds
