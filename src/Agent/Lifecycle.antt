-- ===== src/Agent/Lifecycle.antt =====
-- `tick_lifecycle` of core/execution/orchestrator.py, its snapshot of core/runtime_snapshot.py, and
-- the loop of `cmd_run` in cli.py that calls it. What a cycle reads from outside is a `Pulse`.
use pypoc.Prelude.{
  ℕ, String, Bool, Option, none, some, List, [], ◌∷◌, map, length, if◌then◌else◌, string_eq,
}
use pypoc.Prelude.Int.{ℤ, pos}
use pypoc.Prelude.Dict.{insert}
use pypoc.Prelude.Result.{Result, ok, raises, Attempt, and_then}
use pypoc.Numbers.{Float}
use pypoc.Types.{DateTime, Regime, Position, unrealized_pnl}
use pypoc.Config.{RiskCfg}
use pypoc.Risk.Guardrails.{Reason}
use pypoc.Broker.Positions.{equity}
use pypoc.Broker.Prices.{get_positions}
use pypoc.Queue.{QueueFile, Host}
use pypoc.Agent.State.{Orchestrator, EquityRow, Store, execute}
use pypoc.Agent.Signals.{with_store}
use pypoc.Agent.Days.{maybe_rollover_trade_date, raise_peak}
use pypoc.Agent.Halts.{check_global_halts}
use pypoc.Agent.Close.{maybe_squareoff_eod}
use pypoc.Agent.Commands.{Desk, with_risk, process_command_queue}

-- What a snapshot says of the process and of the settings.
pub record Facts : Type 0 where
  pub ts : String
  pub pid : ℤ
  pub mode : String
  pub feed_connected : Bool
  pub regime_rationale : String
  pub universe_size : ℕ
  pub strategies_enabled : List String

pub record PositionDump (F : Type 0) : Type 0 where
  pub symbol : String
  pub qty : ℤ
  pub avg_price : F
  pub last_price : F
  pub stop_loss : F
  pub target : Option F
  pub unrealized_pnl : F
  pub strategy : String
  pub opened_at : DateTime

pub record RuntimeSnapshot (F : Type 0) : Type 0 where
  pub facts : Facts
  pub last_tick_age_seconds : F
  pub halted : Bool
  pub halt_reason : Reason F
  pub cash : F
  pub equity : F
  pub realized_pnl : F
  pub starting_equity_today : F
  pub peak_equity : F
  pub open_positions : List (PositionDump F)
  pub current_regime : Regime
  pub nifty_ltp : F
  pub vix : F
  pub drawdown_warning : Bool
  pub daily_loss_warning : Bool

-- What one cycle reads.
pub record Pulse (F : Type 0) : Type 0 where
  pub desk : Desk F
  pub signer : Host F
  -- `feed.last_tick_age_seconds()`
  pub tick_age : F
  pub trade_date : String
  -- `time.time()` at the test and after the fetch, and `get_vix()`
  pub vix_asked : F
  pub vix_fetched : F
  pub fresh_vix : Option F
  -- the same for the settings, and `reload_settings(config_path).risk`
  pub config_asked : F
  pub config_read : F
  pub settings : Result (RiskCfg F)
  -- the time of the row of the equity
  pub utc : String
  -- `now_ist()` of the square-off
  pub now : DateTime
  pub facts : Facts
  -- whether the snapshot can be written
  pub writes : Bool

-- The agent, its queue file and its snapshot file.
pub record Session (F : Type 0) : Type 0 where
  pub agent : Orchestrator F
  pub queue : QueueFile F
  pub snapshot : Option (RuntimeSnapshot F)

module _ {F : Type 0} where
  unfoldable pub record_equity : String → EquityRow F → Store F → Attempt (Store F) (Unit {0})
  record_equity utc row =
      execute λ s. record s { equity_snapshots = insert utc row s.equity_snapshots }

module _ {F : Type 0} ⦃f : Float F⦄ where
  -- More than a minute has passed.
  abbrev pub is_due : F → F → Bool
  is_due time last = f.lt (f.of_int (pos 60)) (f.sub time last)

  unfoldable pub refresh_vix : Pulse F → Orchestrator F → Orchestrator F
  refresh_vix p a =
      if is_due p.vix_asked a.last_vix_fetch
      then record a {
        vix = elim p.fresh_vix [ none ↦ a.vix | some v ↦ v ];
        last_vix_fetch = p.vix_fetched;
      }
      else a

  -- The settings that are read again. New guardrails are made of the settings that they share.
  abbrev pub adopted : Result (RiskCfg F) → Orchestrator F → Orchestrator F
  adopted (raises e) a = a
  adopted (ok new) a =
      with_risk
        (record a.guardrails.r {
          per_trade_risk_pct = new.per_trade_risk_pct;
          max_open_positions = new.max_open_positions;
          daily_loss_circuit_pct = new.daily_loss_circuit_pct;
          drawdown_circuit_pct = new.drawdown_circuit_pct;
        })
        a

  unfoldable pub reload_risk : Pulse F → Orchestrator F → Orchestrator F
  reload_risk p a =
      if is_due p.config_asked a.last_config_reload
      then record (adopted p.settings a) { last_config_reload = p.config_read }
      else a

  -- What precedes the row of the equity, by the equity after the commands.
  unfoldable pub renewed : Pulse F → F → Orchestrator F → Orchestrator F
  renewed p current a =
      let aged = record a { last_tick_age_seconds = p.tick_age } in
      let dated = maybe_rollover_trade_date p.trade_date current aged in
      reload_risk p (refresh_vix p (raise_peak p.trade_date current dated))

  abbrev pub equity_row : F → Orchestrator F → EquityRow F
  equity_row current a = record {
    cash = a.broker.cash;
    equity = current;
    realized_pnl = a.broker.realized_pnl;
    open_positions = length (get_positions a.broker);
  }

  abbrev pub dump : Position F → PositionDump F
  dump p = record {
    symbol = p.symbol;
    qty = p.qty;
    avg_price = p.avg_price;
    last_price = p.last_price;
    stop_loss = p.stop_loss;
    target = p.target;
    unrealized_pnl = unrealized_pnl p;
    strategy = p.strategy;
    opened_at = p.opened_at;
  }

  unfoldable pub runtime_snapshot : Facts → F → Orchestrator F → RuntimeSnapshot F
  runtime_snapshot facts current a = record {
    facts = facts;
    last_tick_age_seconds = a.last_tick_age_seconds;
    halted = a.halted;
    halt_reason = a.halt_reason;
    cash = a.broker.cash;
    equity = current;
    realized_pnl = a.broker.realized_pnl;
    starting_equity_today = a.starting_equity_today;
    peak_equity = a.peak_equity;
    open_positions = map dump (get_positions a.broker);
    current_regime = a.current_regime;
    nifty_ltp = a.nifty_ltp;
    vix = a.vix;
    drawdown_warning = a.drawdown_warning;
    daily_loss_warning = a.daily_loss_warning;
  }

  -- A file that cannot be written keeps what it has.
  unfoldable pub publish_snapshot : Pulse F → F → Session F → Session F
  publish_snapshot p current s =
      if p.writes
      then record s { snapshot = some (runtime_snapshot p.facts current s.agent) }
      else s

  -- The row of the equity and the square-off, which may raise.
  unfoldable pub settle : Pulse F → F → Orchestrator F → Attempt (Orchestrator F) (Unit {0})
  settle p current a =
      and_then (with_store a (record_equity p.utc (equity_row current a) a.store))
        (maybe_squareoff_eod p.now)

  -- What follows the square-off, if it has not raised: the circuits and the snapshot.
  unfoldable pub finish :
      Pulse F → F → Session F → Attempt (Orchestrator F) (Unit {0}) → Attempt (Session F) (Unit {0})
  finish p current s (raises e, a) = (raises e, record s { agent = a })
  finish p current s (ok _, a) =
      (ok tt, publish_snapshot p current (record s { agent = check_global_halts a }))

  -- What follows the commands.
  unfoldable pub housekeep : Pulse F → Session F → Attempt (Session F) (Unit {0})
  housekeep p s =
      let current = equity s.agent.broker in
      finish p current s (settle p current (renewed p current s.agent))

  -- The session after the commands.
  abbrev pub commanded : Pulse F → Session F → Session F
  commanded p s =
      let q = process_command_queue p.desk p.signer (s.agent, s.queue) in
      record s { agent = q.0; queue = q.1 }

  unfoldable pub tick_lifecycle : Pulse F → Session F → Attempt (Session F) (Unit {0})
  tick_lifecycle p s = housekeep p (commanded p s)

  -- The loop of `cmd_run`: it ends once the agent is halted, and nothing catches what a cycle raises.
  unfoldable pub run_cycles : List (Pulse F) → Session F → Attempt (Session F) (Unit {0})
  run_cycles [] s = (ok tt, s)
  run_cycles (p ∷ ps) s =
      if s.agent.halted then (ok tt, s) else and_then (tick_lifecycle p s) (run_cycles ps)
