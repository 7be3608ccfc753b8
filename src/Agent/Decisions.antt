-- ===== src/Agent/Decisions.antt =====
-- `_on_candle_close` and `_nifty_market_filter` of core/execution/orchestrator.py. What pandas
-- computes of the daily closes, what the feeds return, the strategies, the calendar of blackout days
-- and the ids of new orders are arguments.
use pypoc.Prelude.Int.{pos}
use pypoc.Prelude.{
  ℕ, String, Bool, true, false, not, ◌&&◌, ◌||◌, Option, none, some, List, [], ◌∷◌, ltb, length,
  if◌then◌else◌, ◌==◌, string_eq, suc,
}
use pypoc.Prelude.Result.{Result, ok, raises, Attempt, and_then}
use pypoc.Numbers.{Float, zero_f, or_else}
use pypoc.Types.{DateTime, Regime, trend, range, volatile, unknown, Candle, Signal, is_buy}
use pypoc.Config.{RegimeCfg}
use pypoc.Market.Regimes.{classify}
use pypoc.Agent.State.{Orchestrator}
use pypoc.Agent.Signals.{handle_signal}

-- The daily closes of the index: how many there are, the last of them, their averages over 50 days
-- (the last and the fifth from the end) and over 200 days, if there are so many.
pub record DailyCloses (F : Type 0) : Type 0 where
  pub days : ℕ
  pub last_close : F
  pub dma50 : F
  pub dma50_before : F
  pub dma200 : Option F

-- A strategy: `supports`, and `evaluate` on the candles of a symbol.
pub record Strategy (F : Type 0) : Type 0 where
  pub supports : Regime → Bool
  pub evaluate : String → List (Candle F) → Regime → Result (Option (Signal F))

-- What a candle close reads from outside the agent. `reading` is the number of daily rows with the
-- two indicators on them, if there are any.
pub record Surroundings (F : Type 0) : Type 0 where
  pub now : DateTime
  pub regime_cfg : RegimeCfg F
  pub reading : Option (ℕ × F × F)
  pub closes : Option (DailyCloses F)
  pub pcr : Option F
  pub sentiment : Option String
  pub blackout : Bool
  pub history : List (Candle F)
  pub ids : ℕ → String

abbrev pub is_bearish : Option String → Bool
is_bearish none = false
is_bearish (some s) = s == "BEARISH"

-- `blocked`
abbrev pub is_blocked : Regime → Bool × (Bool × Bool) → Bool
is_blocked trend (allow_trend, (allow_range, allow_any)) = not allow_any || not allow_trend
is_blocked range (allow_trend, (allow_range, allow_any)) = not allow_any || not allow_range
is_blocked volatile (allow_trend, (allow_range, allow_any)) = not allow_any || not allow_range
is_blocked unknown (allow_trend, (allow_range, allow_any)) = not allow_any

module _ {F : Type 0} ⦃f : Float F⦄ where
  abbrev pub is_below : Option F → F → Bool
  is_below none limit = false
  is_below (some x) limit = f.lt x limit

  abbrev pub is_above_200 : DailyCloses F → Bool
  is_above_200 c = elim c.dma200 [ none ↦ true | some d ↦ f.lt d c.last_close ]

  -- The three permissions: for buys in a trend, for buys in a range, and for buys at all.
  unfoldable pub nifty_market_filter :
      Option (DailyCloses F) → Option F → F → Option String → Bool × (Bool × Bool)
  nifty_market_filter none pcr vix sentiment = (true, (true, true))
  nifty_market_filter (some c) pcr vix sentiment =
      let rising = f.lt c.dma50_before c.dma50 in
      let trending = is_above_200 c && (f.lt c.dma50 c.last_close && rising) in
      let quiet =
        not (is_below pcr (f.ratio 7 10))
        && (not (f.lt zero_f vix && f.le (f.of_int (pos 18)) vix) && not (is_bearish sentiment)) in
      if ltb c.days 55
      then (true, (true, true))
      else (trending && quiet, (is_above_200 c && rising, is_above_200 c))

  -- What follows a signal of a strategy.
  unfoldable pub take_signal :
      Surroundings F
      → Bool × (Bool × Bool)
      → ℕ
      → Signal F
      → Orchestrator F
      → Attempt (Orchestrator F) (Unit {0})
  take_signal w permissions n s a =
      if is_buy s.side && (is_blocked a.current_regime permissions || w.blackout)
      then (ok tt, a)
      else handle_signal (w.ids n) w.now s a

  -- One strategy of the loop.
  unfoldable pub consult :
      Surroundings F
      → Bool × (Bool × Bool)
      → String
      → ℕ
      → Strategy F
      → Orchestrator F
      → Attempt (Orchestrator F) (Unit {0})
  consult w permissions symbol n strat a =
      if not (strat.supports a.current_regime)
      then (ok tt, a)
      else elim (strat.evaluate symbol w.history a.current_regime) [
        | raises e ↦ (raises e, a)
        | ok none ↦ (ok tt, a)
        | ok (some s) ↦ take_signal w permissions n s a
      ]

  unfoldable pub consult_all :
      Surroundings F
      → Bool × (Bool × Bool)
      → String
      → ℕ
      → List (Strategy F)
      → Orchestrator F
      → Attempt (Orchestrator F) (Unit {0})
  consult_all w permissions symbol n [] a = (ok tt, a)
  consult_all w permissions symbol n (strat ∷ strats) a =
      and_then (consult w permissions symbol n strat a)
        (consult_all w permissions symbol (suc n) strats)

  -- The regime that is classified anew on a close, by the VIX or fifteen.
  abbrev pub reclassified : Surroundings F → Orchestrator F → Orchestrator F
  reclassified w a = elim w.reading [
    | none ↦ a
    | some (days, adx, bb_width) ↦ record a {
      current_regime =
          (classify w.regime_cfg days adx bb_width (or_else a.vix (f.of_int (pos 15)))).regime;
    }
  ]

  unfoldable pub on_candle_close :
      Surroundings F
      → List (Strategy F)
      → Candle F
      → Orchestrator F
      → Attempt (Orchestrator F) (Unit {0})
  on_candle_close w strats candle a =
      let seen = reclassified w a in
      if not (candle.interval == "5m")
      then (ok tt, a)
      else if ltb (length w.history) 30
      then (ok tt, seen)
      else consult_all w (nifty_market_filter w.closes w.pcr seen.vix w.sentiment) candle.symbol 0
          strats seen
