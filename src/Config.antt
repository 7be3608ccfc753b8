-- ===== src/Config.antt =====
-- core/config.py: the sections of the settings that the modelled code reads.
pub mod Merge
use pypoc.Prelude.{String}
use pypoc.Prelude.Int.{ℤ}

pub record MarketCfg : Type 0 where
  pub trading_start : String
  pub trading_end : String
  pub no_new_entries_after : String
  pub intraday_squareoff_at : String

pub record RiskCfg (F : Type 0) : Type 0 where
  pub per_trade_risk_pct : F
  pub max_position_pct : F
  -- a whole number, but a command may set it to any
  pub max_open_positions : F
  pub daily_loss_circuit_pct : F
  pub drawdown_circuit_pct : F
  pub liquidity_max_pct_of_adv : F
  pub max_spread_pct : F
  pub black_swan_nifty_move_pct : F
  pub black_swan_vix_jump_pct : F
  pub stale_tick_seconds : F

pub record RegimeCfg (F : Type 0) : Type 0 where
  pub adx_period : ℤ
  pub adx_trend_threshold : F
  pub bb_width_range_threshold : F
  pub vix_volatile_threshold : F

pub record ExecutionCfg (F : Type 0) : Type 0 where
  pub slippage_bps : F
  pub brokerage_per_order_inr : F
  pub stt_pct : F
  pub exchange_txn_pct : F
  pub gst_pct : F
  pub signal_cooldown_minutes : ℤ
  pub intraday_leverage : F
  pub stamp_duty_pct : F

pub record BacktestGateCfg (F : Type 0) : Type 0 where
  pub min_sharpe : F
  pub max_drawdown_pct : F
  pub min_win_rate : F
  pub min_profit_factor : F
  pub min_trades : ℤ
  pub walk_forward_years : ℤ
