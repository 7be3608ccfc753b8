-- ===== src/Examples/Data.antt =====
-- Settings, signals and brokers that the runs share. Amounts are whole rupees unless they say
-- otherwise; the settings are those of config/settings.yaml with a leverage of one.
use pypoc.Prelude.{ℕ, ◌*◌, String, true, false, Option, none, some, [], ◌∷◌}
use pypoc.Prelude.Int.{pos}
use pypoc.Prelude.Dict.{Dict}
use pypoc.Numbers.{Micro, micro_float, million}
use pypoc.Types.{Side, buy, market, trend, Signal, Position}
use pypoc.Config.{RiskCfg, MarketCfg, ExecutionCfg}
use pypoc.Risk.Guardrails.{Guardrails, MarketContext, PortfolioState, text}
use pypoc.Broker.State.{PaperBroker}
use pypoc.Broker.Orders.{Request}

abbrev pub rupees : ℕ → Micro
rupees n = pos (n * million)

-- hundredths
abbrev pub cents : ℕ → Micro
cents n = pos (n * 10_000)

-- 10:00 on the first day
abbrev pub ten_oclock : ℕ
ten_oclock = 36_000_000_000

abbrev pub market_cfg : MarketCfg
market_cfg = record {
  trading_start = "09:15";
  trading_end = "15:30";
  no_new_entries_after = "14:45";
  intraday_squareoff_at = "15:15";
}

abbrev pub risk_cfg : RiskCfg Micro
risk_cfg = record {
  per_trade_risk_pct = rupees 1;
  max_position_pct = rupees 20;
  max_open_positions = rupees 5;
  daily_loss_circuit_pct = rupees 3;
  drawdown_circuit_pct = rupees 10;
  liquidity_max_pct_of_adv = rupees 2;
  max_spread_pct = cents 50;
  black_swan_nifty_move_pct = rupees 2;
  black_swan_vix_jump_pct = rupees 15;
  stale_tick_seconds = rupees 30;
}

abbrev pub execution_cfg : ExecutionCfg Micro
execution_cfg = record {
  slippage_bps = rupees 5;
  brokerage_per_order_inr = rupees 20;
  stt_pct = pos 25_000;
  exchange_txn_pct = pos 3_450;
  gst_pct = rupees 18;
  signal_cooldown_minutes = pos 15;
  intraday_leverage = rupees 1;
  stamp_duty_pct = pos 3_000;
}

abbrev pub guardrails : Guardrails Micro
guardrails = record { r = risk_cfg; m = market_cfg; e = execution_cfg; live_mode = false }

abbrev pub signal : Signal Micro
signal = record {
  symbol = "TCS";
  side = buy;
  strategy = "trend_follow";
  regime = trend;
  entry_price = rupees 100;
  stop_loss = rupees 98;
  target = rupees 104;
  confidence = cents 70;
  rationale = "breakout";
  ts = ten_oclock;
}

abbrev pub position : String → ℕ → ℕ → ℕ → Option Micro → Position Micro
position symbol shares price stop target = record {
  symbol = symbol;
  qty = pos shares;
  avg_price = rupees price;
  stop_loss = rupees stop;
  target = target;
  strategy = "trend_follow";
  opened_at = ten_oclock;
  last_price = rupees price;
}

abbrev pub context : MarketContext Micro
context = record {
  now = ten_oclock;
  nifty_ltp = rupees 24_000;
  nifty_change_pct_15m = cents 10;
  vix = rupees 14;
  vix_change_pct_15m = cents 20;
  last_tick_age_seconds = rupees 1;
  avg_daily_volumes = ("TCS", pos 100_000) ∷ [];
  spread_pct_by_symbol = ("TCS", cents 5) ∷ [];
}

abbrev pub portfolio : PortfolioState Micro
portfolio = record {
  equity = rupees 100_000;
  starting_equity_today = rupees 100_000;
  peak_equity = rupees 101_000;
  open_positions = position "INFY" 5 50 48 none ∷ [];
  realized_pnl_today = pos 0;
  last_exit_by_symbol = [];
  halted = false;
  halt_reason = text "";
}

abbrev pub broker : Dict String (Position Micro) → Dict String (Position Micro) → PaperBroker Micro
broker longs shorts = record {
  cash = rupees 100_000;
  exec = execution_cfg;
  positions = longs;
  short_positions = shorts;
  orders = [];
  latest_prices = ("TCS", rupees 100) ∷ ("INFY", rupees 50) ∷ [];
  trade_log = [];
  realized_pnl = pos 0;
  sim_time = none;
  on_exit = false;
  on_state_change = true;
  notices = [];
  utc = ten_oclock;
}

abbrev pub request : Side → ℕ → Request Micro
request side shares = record {
  id = "a1";
  symbol = "TCS";
  side = side;
  qty = pos shares;
  order_type = market;
  stop_loss = rupees 98;
  target = some (rupees 104);
  limit_price = none;
  strategy = "trend_follow";
}
