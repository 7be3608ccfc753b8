-- ===== src/Agent/Days.antt =====
-- The baselines of a trading day and the recovery after a restart, in core/execution/orchestrator.py
-- with the statements of core/persistence/store.py. `td` is `_ist_trade_date()` at the call.
use pypoc.Prelude.{
  Bool, not, ◌||◌, String, Option, none, some, if◌then◌else◌, ◌==◌, string_eq, [], false, true,
}
use pypoc.Prelude.Dict.{lookup, insert}
use pypoc.Prelude.Result.{Result, ok, raises, database_error, Attempt}
use pypoc.Numbers.{Float, zero_f, max_f}
use pypoc.Broker.State.{Snapshot, snapshot_state, PaperBroker}
use pypoc.Broker.Positions.{equity}
use pypoc.Broker.Snapshot.{restore_state}
use pypoc.Risk.Guardrails.{text}
use pypoc.Types.{unknown}
use pypoc.Agent.State.{Store, DailyRow, Orchestrator, execute}

abbrev is_given : {A : Type 0} → Option A → Bool
is_given none = false
is_given (some x) = true

module _ {F : Type 0} where
  unfoldable pub save_daily_state : String → F → F → Store F → Attempt (Store F) (Unit {0})
  save_daily_state td start peak = execute λ s. record s {
    daily_state =
        insert td (record { starting_equity_today = start; peak_equity = peak }) s.daily_state;
  }

  unfoldable pub load_daily_state : String → Store F → Result (Option (DailyRow F))
  load_daily_state td s = if s.up then ok (lookup td s.daily_state) else raises database_error

  unfoldable pub save_broker_state : String → Snapshot F → Store F → Attempt (Store F) (Unit {0})
  save_broker_state td snapshot = execute λ s. record s { broker_state = some (td, snapshot) }

  -- `not state`, of a dictionary
  abbrev pub holds_nothing : Snapshot F → Bool
  holds_nothing s =
      not (is_given s.cash || is_given s.realized_pnl || is_given s.longs || is_given s.shorts)

  -- Only a state of the same date counts.
  unfoldable pub load_broker_state : String → Store F → Result (Option (Snapshot F))
  load_broker_state td s =
      if s.up
      then ok (elim s.broker_state [
        | none ↦ none
        | some row ↦ if row.0 == td then some row.1 else none
      ])
      else raises database_error

  -- `_persist_daily_state` and `_persist_broker_state` never raise.
  unfoldable pub persist_daily_state : String → Orchestrator F → Orchestrator F
  persist_daily_state td a = record a {
    store = (save_daily_state td a.starting_equity_today a.peak_equity a.store).1;
  }

  unfoldable pub persist_broker_state : String → Orchestrator F → Orchestrator F
  persist_broker_state td a = record a {
    store = (save_broker_state td (snapshot_state a.broker) a.store).1;
  }

module _ {F : Type 0} ⦃f : Float F⦄ where
  -- The baselines, from the row of the day or from the current equity.
  unfoldable pub baseline : Result (Option (DailyRow F)) → F → DailyRow F
  baseline (ok (some row)) current = record {
    starting_equity_today = row.starting_equity_today;
    peak_equity = max_f row.peak_equity current;
  }
  baseline _ current = record { starting_equity_today = current; peak_equity = current }

  unfoldable pub restore_or_init_daily_state : String → F → Orchestrator F → Orchestrator F
  restore_or_init_daily_state td current a =
      let row = baseline (load_daily_state td a.store) current in
      persist_daily_state td (record a {
        starting_equity_today = row.starting_equity_today;
        peak_equity = row.peak_equity;
        current_trade_date = td;
      })

  unfoldable pub maybe_rollover_trade_date : String → F → Orchestrator F → Orchestrator F
  maybe_rollover_trade_date td current a =
      if td == a.current_trade_date
      then a
      else persist_daily_state td
          (record a { starting_equity_today = current; current_trade_date = td })

  -- A new high-water mark, in `tick_lifecycle`
  unfoldable pub raise_peak : String → F → Orchestrator F → Orchestrator F
  raise_peak td current a =
      if f.lt a.peak_equity current
      then persist_daily_state td (record a { peak_equity = current })
      else a

  -- What the restoring raises is caught; what it has written stays.
  unfoldable pub restore_broker_state_if_same_day : String → Orchestrator F → Orchestrator F
  restore_broker_state_if_same_day td a = elim (load_broker_state td a.store) [
    | raises e ↦ a
    | ok none ↦ a
    | ok (some snapshot) ↦
        if holds_nothing snapshot
        then a
        else record a { broker = (restore_state snapshot a.broker).1 }
  ]

  -- The callbacks that `__init__` sets on the broker.
  abbrev pub wired : PaperBroker F → PaperBroker F
  wired b = record b { on_exit = true; on_state_change = true }

  -- `__init__`, as far as it decides on baselines, halts and positions: first the baselines, by the
  -- equity of the broker that it was given, then the positions, and the callbacks. `never` is the
  -- float infinity, the age of a tick that has not come.
  unfoldable pub restart : F → String → Orchestrator F → Orchestrator F
  restart never td a =
      let started = restore_or_init_daily_state td (equity a.broker) a in
      let restored = restore_broker_state_if_same_day td (record started {
        current_regime = unknown;
        adv_by_symbol = [];
        last_tick_age_seconds = never;
        last_exit_by_symbol = [];
        spread_pct_by_symbol = [];
        nifty_ltp = zero_f;
        nifty_change_pct_15m = zero_f;
        vix = zero_f;
        vix_change_pct_15m = zero_f;
        halted = false;
        halt_reason = text "";
        drawdown_warning = false;
        daily_loss_warning = false;
        last_vix_fetch = zero_f;
        last_config_reload = zero_f;
      }) in
      record restored { broker = wired restored.broker }
