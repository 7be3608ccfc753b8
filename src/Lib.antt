-- ===== src/Lib.antt =====
-- An agent that trades Indian equities on paper or live (core/, backtest/): its core logic, modelled
-- and proved.
--
-- A tick becomes candles, strategies turn candles into signals, a signal is sized and passes the
-- guardrails, and the broker fills the order and watches stops and targets.
--
-- * `Types` and `Config` are core/types.py and core/config.py: the data classes with their fields.
-- * `Risk` is core/risk: `Risk.Sizing.position_size` is sizing.py, `Risk.Guardrails` the class
--   `Guardrails` of guardrails.py, one function for each `_check_` method, and `check` the loop over
--   them. `Risk.Clock.parse_time` is `_parse_t`.
-- * `Broker` is core/broker/charges.py and core/broker/paper.py: `PaperBroker` is the record of the
--   object's fields, and each method a function from the state to its result and the state after it,
--   also when it raises (`Outcome`). `place_order` is split in `place_buy` and `place_sell`,
--   `update_market_prices` in `update_price`, `mark_long` and `mark_short`. `Broker.Calls` makes
--   orders, cancellations, prices and partial exits the steps of a state machine; `snapshot_state` and
--   `restore_state` write and read the dictionary `Snapshot`, a field at a time.
-- * `Market.Candles` is core/data/aggregator.py (`CandleAggregator`), `Market.Limits`
--   core/data/nse_rate_limiter.py: `rate_limit` is `nse_rate_limit`, `nse_retry` the decorator of that
--   name and `CircuitBreaker` the class `_CircuitBreaker`. The loop of `nse_retry` is recursion on the
--   retries that are left, so it ends.
--   `Market.Regimes.classify` is the method of core/regime/classifier.py, with its indicators as
--   arguments, and `Config.Merge.deep_merge` is `_deep_merge` of core/config.py.
-- * `Strategies` is core/strategies: `Indicators` and `Bands` are indicators.py, `Breakouts`,
--   `Momentum` and `Reversion` the `evaluate` of each strategy, and `Build` the strategies that
--   `_build_strategies` makes of the settings. A strategy that returns early has no verdict
--   (`Verdict`), and `skip_if` is such a return. What pandas computes of a series is the parameter
--   `Pandas` of `Frame`; a rationale keeps its text without the numbers.
-- * `Queue` is core/command_queue.py: the file is a list of lines. The digest of a signature is a
--   parameter, and so are the lines that an iteration over the file yields, since the file is rewritten
--   meanwhile when a signature is bad.
-- * `Backtest.Gate` is backtest/gate.py, with the record of backtest/metrics.py.
-- * `Agent` is core/execution/orchestrator.py, with the rows of core/persistence/store.py: the record
--   `Orchestrator` has the fields that its modelled methods use, and `Store` the tables. `Signals` is
--   `_handle_signal`, which calls `position_size`, `check` and `place_order` in that order;
--   `Decisions` is `_on_candle_close`, `Ticks` is `_on_tick`, `Commands` is `_process_command_queue`
--   with the commands of the queue, `Days` the baselines of a day and the part of `__init__` that
--   restores them, `Halts` the circuits, and `Close` the square-off. `Lifecycle` puts them together as
--   `tick_lifecycle` does, with the snapshot of core/runtime_snapshot.py and the loop of `cmd_run` in
--   cli.py. `Ticks.System` is the agent with its aggregator, and `run_events` its history: cycles of
--   the main loop and ticks of the feed, one whole call after the other. Times, dates, ids and what a
--   call reads from the network are arguments (`Pulse`, `Surroundings`, `Desk`).
-- * `Numbers` stands for `float`: its operations are a parameter (`Float`), so that a definition says
--   which operations run and in which order, and a theorem holds for IEEE arithmetic if it does not
--   ask for more. A theorem on amounts takes `IsExact`, the laws of exact sums, differences and
--   comparisons, which hold as long as no operation rounds; `Micro`, decimals of six places, meets
--   them, and the runs under `Examples` use it.
-- * `Prelude` has integers over the native numbers, dictionaries in insertion order and results with
--   the exceptions that the code raises.
--
-- Python's `int` is ℤ, without bounds. A `datetime` is a count of microseconds since a midnight.
-- Loops over a list or a dictionary are recursion on it. Logging and the text of messages, beyond
-- the template and its numbers, are not modelled, nor is NaN outside the series of the strategies,
-- where `Pandas` tells it (`is_na`). Exceptions that a callback raises are swallowed by the code, so a
-- callback of the broker is a notice that its state keeps. Two threads call the agent; an interleaving
-- within one call is not modelled.
--
-- Not modelled are the HTTP API, the dashboard, the rest of the command line and the MCP server (api/,
-- dashboard/, cli.py, mcp_server/), which call the parts above, the broker of Angel One, the feeds and
-- services that are I/O (most of core/data, core/llm, core/notifications), the backtest engine and the
-- reports of core/analytics, and pandas and SQLite.
pub mod Agent
pub mod Backtest
pub mod Broker
pub mod Config
pub mod Examples
pub mod Market
pub mod Numbers
pub mod Prelude
pub mod Queue
pub mod Risk
pub mod Strategies
pub mod Types
