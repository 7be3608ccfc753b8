-- ===== src/Risk/Guardrails/SafeOrder.antt =====
-- What an order must meet to be placed, stated without the rules of core/risk/guardrails.py.
use pypoc.Prelude.{
  ℕ, ◌≤◌, ◌<◌, ◌≡◌, ◌≢◌, ◌⊎◌, true, false, Option, none, some, any, length, ◌==◌, string_eq,
}
use pypoc.Prelude.Int.{ℤ, pos, ◌-ℤ◌, ◌*ℤ◌, ◌≤ℤ◌, ◌<ℤ◌}
use pypoc.Prelude.Dict.{lookup}
use pypoc.Prelude.Result.{ok}
use pypoc.Numbers.{Float, zero_f, abs_f, percent}
use pypoc.Types.{microseconds_per_minute, Signal, buy, sell, risk_per_share}
use pypoc.Risk.Clock.{parse_time, time_of_day}
use pypoc.Risk.Guardrails.{
  Guardrails, PortfolioState, MarketContext, fudged, change_pct, drawdown_pct,
}

module _ {F : Type 0} ⦃f : Float F⦄ (g : Guardrails F) (s : Signal F) (q : ℤ) (p : PortfolioState F)
    (m : MarketContext F) where
  -- The stop stands on the losing side of the entry.
  abbrev pub StopIsSet : Type 0
  StopIsSet =
      (f.le s.stop_loss zero_f ≡ false)
      × (s.side ≡ buy → f.le s.entry_price s.stop_loss ≡ false)
      × (s.side ≡ sell → f.le s.stop_loss s.entry_price ≡ false)

  -- From the start of trading up to, and without, the cutoff for new entries.
  abbrev pub InWindow : Type 0
  InWindow =
      (start : ℕ) × (cutoff : ℕ) × (parse_time g.m.trading_start ≡ ok start)
      × (parse_time g.m.no_new_entries_after ≡ ok cutoff)
      × (start ≤ time_of_day m.now)
      × (time_of_day m.now < cutoff)

  abbrev pub IsCalm : Type 0
  IsCalm =
      (f.lt g.r.black_swan_nifty_move_pct (abs_f m.nifty_change_pct_15m) ≡ false)
      × (f.lt g.r.black_swan_vix_jump_pct m.vix_change_pct_15m ≡ false)

  -- A symbol that is held already needs no further place.
  abbrev pub HasPlace : Type 0
  HasPlace =
      (any (λ o. o.symbol == s.symbol) p.open_positions ≡ true)
      ⊎ (f.le g.r.max_open_positions (f.of_int (pos (length p.open_positions))) ≡ false)

  -- Missing volumes or spreads are let through outside live mode only.
  abbrev pub LiquidAt : Option ℤ → Type 0
  LiquidAt none = g.live_mode ≡ false
  LiquidAt (some adv) =
      ((adv ≡ pos 0) × (g.live_mode ≡ false))
      ⊎ ((adv ≢ pos 0)
          × (q ≤ℤ f.trunc (f.mul (f.of_int adv) (percent g.r.liquidity_max_pct_of_adv))))

  abbrev pub NarrowAt : Option F → Type 0
  NarrowAt none = g.live_mode ≡ false
  NarrowAt (some spread) = f.lt g.r.max_spread_pct spread ≡ false

  abbrev pub CooledAt : Option ℕ → Type 0
  CooledAt none = Unit
  CooledAt (some last) =
      pos microseconds_per_minute *ℤ g.e.signal_cooldown_minutes ≤ℤ pos m.now -ℤ pos last

  -- An order that may be placed.
  pub record IsSafe : Type 0 where
    pub running : p.halted ≡ false
    pub some_qty : pos 0 <ℤ q
    pub stop_set : StopIsSet
    pub in_window : InWindow
    pub fresh : f.lt g.r.stale_tick_seconds m.last_tick_age_seconds ≡ false
    pub calm : IsCalm
    pub has_place : HasPlace
    pub risk_bound :
        f.lt
          (fudged (f.mul p.equity (percent g.r.per_trade_risk_pct)))
          (f.mul (f.of_int q) (risk_per_share s))
        ≡ false
    pub size_bound :
        f.lt
          (fudged (f.mul p.equity (percent g.r.max_position_pct)))
          (f.mul (f.of_int q) s.entry_price)
        ≡ false
    pub liquid : LiquidAt (lookup s.symbol m.avg_daily_volumes)
    pub narrow : NarrowAt (lookup s.symbol m.spread_pct_by_symbol)
    pub day_loss :
        (f.le p.starting_equity_today zero_f ≡ true)
        ⊎ (f.lt (change_pct p.starting_equity_today p.equity) (f.neg g.r.daily_loss_circuit_pct)
            ≡ false)
    pub drawdown :
        (f.le p.peak_equity zero_f ≡ true)
        ⊎ (f.lt g.r.drawdown_circuit_pct (drawdown_pct p.peak_equity p.equity) ≡ false)
    pub cooled : CooledAt (lookup s.symbol p.last_exit_by_symbol)
