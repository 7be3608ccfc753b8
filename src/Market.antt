-- ===== src/Market.antt =====
-- core/data and core/regime: from ticks to candles, the limits on calls of the exchange's API, and
-- the regime of the market.
pub mod Candles
pub mod Limits
pub mod Regimes
