-- ===== src/FlashLiquidity.antt =====
-- eve_q/flash_liquidity.py: candidates of flash liquidity, the request to the Rust verifier, and the
-- run of the verifier. Floats are binary fractions, so that the tests for finite numbers hold by
-- their type, except for the numbers that the verifier returns. The process, the JSON encoder and
-- decoder, and `str`, `str.strip` and `float` of a value are arguments.
pub mod Candidate
pub mod Request
pub mod Verification
pub mod Answer
