-- ===== src/Risk/Guardrails/Safe.antt =====
-- The rules of core/risk/guardrails.py decide whether an order is safe.
use pypoc.Prelude.{◌≡◌, refl, ◌⊎◌, inl, inr, ◌↔◌, true, false, List, [], ◌∷◌, All, arith, string_eq}
use pypoc.Prelude.Int.{ℤ, pos, ◌<ℤ◌}
use pypoc.Prelude.Dict.{lookup}
use pypoc.Prelude.Result.{Result-cases}
use pypoc.Numbers.{Float, zero_f, percent}
use pypoc.Types.{Signal, Position, risk_per_share}
use pypoc.Risk.Clock.{parse_time}
use pypoc.Risk.Guardrails.{
  Guardrails, PortfolioState, MarketContext, fudged, change_pct, drawdown_pct, stacked,
  check_global_halt, check_qty_positive, check_stop_loss_required, check_market_window,
  check_stale_data, check_black_swan, check_max_open_positions, check_per_trade_risk,
  check_max_position_size, check_liquidity, check_spread, check_daily_loss_circuit,
  check_drawdown_circuit, check_signal_cooldown, check_duplicate_position, check, rules,
}
use pypoc.Risk.Guardrails.Loop.{Allows, check-All}
use pypoc.Risk.Guardrails.SafeOrder.{
  InWindow, IsCalm, HasPlace, StopIsSet, LiquidAt, NarrowAt, CooledAt, IsSafe,
}

module _ {F : Type 0} ⦃f : Float F⦄ (g : Guardrails F) (s : Signal F) (q : ℤ) (p : PortfolioState F)
    (m : MarketContext F) where
  halt_iff : Allows (check_global_halt g s q p m) ↔ (p.halted ≡ false)
  unfolding check_global_halt
  halt_iff = ground arith

  qty_iff : Allows (check_qty_positive g s q p m) ↔ (pos 0 <ℤ q)
  unfolding check_qty_positive
  qty_iff = ground arith

  stop_iff : Allows (check_stop_loss_required g s q p m) ↔ StopIsSet g s q p m
  unfolding check_stop_loss_required
  stop_iff = ground arith

  window_to : Allows (check_market_window g s q p m) → InWindow g s q p m
  unfolding check_market_window
  window_to h = elim (Result-cases (parse_time g.m.trading_start)) [
    | inl (start, e) ↦ elim (Result-cases (parse_time g.m.no_new_entries_after)) [
      | inl (cutoff, e') ↦ (start, cutoff, e, e', ground arith, ground arith)
      | inr (x, e') ↦ absurd (ground arith)
    ]
    | inr (x, e) ↦ absurd (ground arith)
  ]

  window_from : InWindow g s q p m → Allows (check_market_window g s q p m)
  unfolding check_market_window
  window_from w = ground arith

  stale_iff :
      Allows (check_stale_data g s q p m)
      ↔ (f.lt g.r.stale_tick_seconds m.last_tick_age_seconds ≡ false)
  unfolding check_stale_data
  stale_iff = ground arith

  calm_iff : Allows (check_black_swan g s q p m) ↔ IsCalm g s q p m
  unfolding check_black_swan
  calm_iff = ground arith

  place_iff : Allows (check_max_open_positions g s q p m) ↔ HasPlace g s q p m
  unfolding check_max_open_positions
  place_iff = ground arith

  liquid_at :
      Allows (check_liquidity g s q p m) ↔ LiquidAt g s q p m (lookup s.symbol m.avg_daily_volumes)
  unfolding check_liquidity
  liquid_at = ground arith

  narrow_at :
      Allows (check_spread g s q p m) ↔ NarrowAt g s q p m (lookup s.symbol m.spread_pct_by_symbol)
  unfolding check_spread
  narrow_at = ground arith

  cooled_at :
      Allows (check_signal_cooldown g s q p m)
      ↔ CooledAt g s q p m (lookup s.symbol p.last_exit_by_symbol)
  unfolding check_signal_cooldown
  cooled_at = ground arith

  stacked-Allows : (os : List (Position F)) → Allows (stacked s os)
  unfolding stacked
  stacked-Allows [] = refl
  stacked-Allows (o ∷ os) = ground (arith, stacked-Allows os)

  -- The rule on duplicate positions allows every order, whatever positions are open.
  check_duplicate_position-Allows : Allows (check_duplicate_position g s q p m)
  unfolding check_duplicate_position
  check_duplicate_position-Allows = stacked-Allows p.open_positions

  risk_iff : Allows (check_per_trade_risk g s q p m) ↔ (
      f.lt
        (fudged (f.mul p.equity (percent g.r.per_trade_risk_pct)))
        (f.mul (f.of_int q) (risk_per_share s))
      ≡ false)
  unfolding check_per_trade_risk
  risk_iff = ground arith

  size_iff : Allows (check_max_position_size g s q p m) ↔ (
      f.lt
        (fudged (f.mul p.equity (percent g.r.max_position_pct)))
        (f.mul (f.of_int q) s.entry_price)
      ≡ false)
  unfolding check_max_position_size
  size_iff = ground arith

  loss_iff : Allows (check_daily_loss_circuit g s q p m) ↔ (
      (f.le p.starting_equity_today zero_f ≡ true)
      ⊎ (f.lt (change_pct p.starting_equity_today p.equity) (f.neg g.r.daily_loss_circuit_pct)
          ≡ false))
  unfolding check_daily_loss_circuit
  loss_iff = ground arith

  drawdown_iff : Allows (check_drawdown_circuit g s q p m) ↔ (
      (f.le p.peak_equity zero_f ≡ true)
      ⊎ (f.lt g.r.drawdown_circuit_pct (drawdown_pct p.peak_equity p.equity) ≡ false))
  unfolding check_drawdown_circuit
  drawdown_iff = ground arith

  rules-IsSafe : All (λ rule. Allows (rule g s q p m)) rules → IsSafe g s q p m
  rules-IsSafe
        (
          halt,
          (
            qty,
            (
              stop,
              (
                window,
                (
                  stale,
                  (
                    swan,
                    (place, (risk, (size, (liquid, (spread, (loss, (draw, (cool, (dup, _))))))))),
                  ),
                ),
              ),
            ),
          ),
        ) =
      record {
        running = halt_iff.0 halt;
        some_qty = qty_iff.0 qty;
        stop_set = stop_iff.0 stop;
        in_window = window_to window;
        fresh = stale_iff.0 stale;
        calm = calm_iff.0 swan;
        has_place = place_iff.0 place;
        risk_bound = risk_iff.0 risk;
        size_bound = size_iff.0 size;
        liquid = liquid_at.0 liquid;
        narrow = narrow_at.0 spread;
        day_loss = loss_iff.0 loss;
        drawdown = drawdown_iff.0 draw;
        cooled = cooled_at.0 cool;
      }

  IsSafe-rules : IsSafe g s q p m → All (λ rule. Allows (rule g s q p m)) rules
  IsSafe-rules safe = (
    halt_iff.1 safe.running,
    (
      qty_iff.1 safe.some_qty,
      (
        stop_iff.1 safe.stop_set,
        (
          window_from safe.in_window,
          (
            stale_iff.1 safe.fresh,
            (
              calm_iff.1 safe.calm,
              (
                place_iff.1 safe.has_place,
                (
                  risk_iff.1 safe.risk_bound,
                  (
                    size_iff.1 safe.size_bound,
                    (
                      liquid_at.1 safe.liquid,
                      (
                        narrow_at.1 safe.narrow,
                        (
                          loss_iff.1 safe.day_loss,
                          (
                            drawdown_iff.1 safe.drawdown,
                            (cooled_at.1 safe.cooled, (check_duplicate_position-Allows, tt)),
                          ),
                        ),
                      ),
                    ),
                  ),
                ),
              ),
            ),
          ),
        ),
      ),
    ),
  )

  -- The guardrails allow an order exactly when it is safe: the agent runs, the quantity is
  -- positive, the stop is set on the losing side, the time is in the window, the data is fresh, the
  -- market is calm, there is a place for the symbol, risk and size are within their limits, volume
  -- and spread suffice, neither circuit is hit, and the symbol has cooled down.
  pub check-IsSafe : Allows (check g s q p m) ↔ IsSafe g s q p m
  check-IsSafe = (
    λ a. rules-IsSafe ((check-All g s q p m).0 a),
    λ safe. (check-All g s q p m).1 (IsSafe-rules safe),
  )
