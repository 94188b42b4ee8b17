-- ===== src/GateDescent.antt =====
-- eve_q/gate_descent.py: the validation of a proposal to go from Gate 0 to Gate 1, and the draft of
-- one. Times are in microseconds; `datetime.fromisoformat`, `str` and `int` of a text are
-- arguments.
pub mod Findings
pub mod Validate
pub mod Draft
pub mod Sound
