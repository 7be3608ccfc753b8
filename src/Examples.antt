-- ===== src/Examples.antt =====
-- Runs of the modelled code on concrete inputs, in the decimal format of `Numbers`.
mod Data
mod RiskRuns
mod BrokerRuns
mod MarketRuns
mod GateRuns
mod ConfigRuns
mod AgentRuns
mod CandleRuns
mod CycleRuns
mod Series
mod StrategyRuns
mod QueueRuns
