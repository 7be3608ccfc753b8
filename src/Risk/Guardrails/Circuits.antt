-- ===== src/Risk/Guardrails/Circuits.antt =====
-- The rules of core/risk/guardrails.py that watch the market and the account.
use pypoc.Prelude.{[], ◌∷◌, if◌then◌else◌, string_eq}
use pypoc.Prelude.Int.{pos}
use pypoc.Numbers.{Float, zero_f, abs_f}
use pypoc.Risk.Guardrails.Context.{template, Rule, allowed, rejected}

module _ {F : Type 0} ⦃f : Float F⦄ where
  unfoldable pub check_stale_data : Rule F
  check_stale_data g s q p m =
      if f.lt g.r.stale_tick_seconds m.last_tick_age_seconds
      then rejected "stale_data" (template "no tick for {}s" (m.last_tick_age_seconds ∷ []))
      else allowed

  unfoldable pub check_black_swan : Rule F
  check_black_swan g s q p m =
      if f.lt g.r.black_swan_nifty_move_pct (abs_f m.nifty_change_pct_15m)
      then rejected "black_swan_nifty"
          (template "nifty moved {}% in 15m" (m.nifty_change_pct_15m ∷ []))
      else if f.lt g.r.black_swan_vix_jump_pct m.vix_change_pct_15m
      then rejected "black_swan_vix" (template "vix jumped {}% in 15m" (m.vix_change_pct_15m ∷ []))
      else allowed

  -- Gain or loss over a baseline, in percent of it.
  abbrev pub change_pct : F → F → F
  change_pct from to = f.mul (f.div (f.sub to from) from) (f.of_int (pos 100))

  abbrev pub drawdown_pct : F → F → F
  drawdown_pct peak equity = f.mul (f.div (f.sub peak equity) peak) (f.of_int (pos 100))

  unfoldable pub check_daily_loss_circuit : Rule F
  check_daily_loss_circuit g s q p m =
      let day_pnl_pct = change_pct p.starting_equity_today p.equity in
      if f.le p.starting_equity_today zero_f
      then allowed
      else if f.lt day_pnl_pct (f.neg g.r.daily_loss_circuit_pct)
      then rejected "daily_loss_circuit"
          (template "day P&L {}% < -{}%" (day_pnl_pct ∷ g.r.daily_loss_circuit_pct ∷ []))
      else allowed

  unfoldable pub check_drawdown_circuit : Rule F
  check_drawdown_circuit g s q p m =
      let dd_pct = drawdown_pct p.peak_equity p.equity in
      if f.le p.peak_equity zero_f
      then allowed
      else if f.lt g.r.drawdown_circuit_pct dd_pct
      then rejected "drawdown_circuit"
          (template "drawdown {}% > {}%" (dd_pct ∷ g.r.drawdown_circuit_pct ∷ []))
      else allowed
