-- ===== src/RiskManagement.antt =====
-- eve_q/risk_management.py: in Limits the limits and thresholds of `RiskLevelManager`, in Positions
-- its checks and records, and in Kelly the `KellyCriterionOptimizer`. Sums, products and quotients
-- by 100 are exact, as Python's decimals are while they fit 28 digits. The other quotients are an
-- argument, which gives `none` where Python's division raises. A violation is a value that carries
-- the numbers of its message.
pub mod Limits
pub mod Positions
pub mod Tracking
pub mod Exposure
pub mod Placement
pub mod Session
pub mod Kelly
