-- ===== src/Agent.antt =====
-- core/execution/orchestrator.py and the rows of core/persistence/store.py that it reads back.
-- `State` holds the data, `Signals` the way from a signal to an order, `Days` the baselines of a
-- trading day and restarts, `Halts` the circuits, `Close` the square-off.
pub mod State
pub mod Signals
pub mod Decisions
pub mod Halted
pub mod Commands
pub mod Outcomes
pub mod Settled
pub mod Commanded
pub mod Idle
pub mod Filtered
pub mod Days
pub mod Halts
pub mod Close
pub mod Lifecycle
pub mod Ticks
pub mod Framed
pub mod Kept
pub mod Renewed
pub mod Cycles
pub mod Watched
pub mod Cycled
pub mod Histories
pub mod Guarded
pub mod Circuits
pub mod Restart
pub mod Squared
