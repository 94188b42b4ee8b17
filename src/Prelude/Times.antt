-- ===== src/Prelude/Times.antt =====
-- The answer of `datetime.fromisoformat`, which eve_q/ttl_lattice.py and eve_q/gate_descent.py read.
-- Times are in microseconds.
use codex_trading_engine.Prelude.Int.{ℤ}

-- It raises, or gives a time without or with an offset.
pub data IsoTime : Type 0 where
  malformed naive : IsoTime
  aware : ℤ → IsoTime
