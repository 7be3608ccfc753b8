-- ===== src/Broker.antt =====
-- core/broker: the charges of a trade and the paper broker. `Charges` and `State` hold the data,
-- `Positions` the bookkeeping of one position, `Orders` and `Prices` the public operations.
pub mod Charges
pub mod State
pub mod Positions
pub mod Orders
pub mod Prices
pub mod Snapshot
pub mod Invariant
pub mod Calls
pub mod Branches
pub mod Kept
pub mod Reach
pub mod Stops
pub mod Totals
pub mod Equity
pub mod Covers
pub mod Refusals
