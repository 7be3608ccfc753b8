-- ===== src/Strategies.antt =====
-- core/strategies: the indicators, the strategies and what `_build_strategies` of
-- core/execution/orchestrator.py makes of the settings.
pub mod Verdict
pub mod Frame
pub mod Indicators
pub mod Bands
pub mod Entry
pub mod Breakouts
pub mod Momentum
pub mod Reversion
pub mod Levels
pub mod Chains
pub mod Sound
pub mod Build
pub mod Built
pub mod Ratchet
