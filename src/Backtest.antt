-- ===== src/Backtest.antt =====
-- backtest: the gate before live trading.
pub mod Gate
pub mod Live
