-- ===== src/Agent/Filtered.antt =====
-- The market filter on buys (core/execution/orchestrator.py).
use pypoc.Agent.State.{Orchestrator}
use pypoc.Types.{Regime, Signal, is_buy}
use pypoc.Agent.Decisions.{nifty_market_filter, take_signal, DailyCloses, is_blocked, Surroundings}
use pypoc.Numbers.{Float}
use pypoc.Prelude.Result.{ok}
use pypoc.Types.{Regime, trend, range, volatile, unknown}
use pypoc.Prelude.{ℕ, ◌≡◌, refl, true, false, some, ltb, Option, String}

is_blocked-none : (r : Regime) → is_blocked r (false, (false, false)) ≡ true
is_blocked-none trend = refl
is_blocked-none range = refl
is_blocked-none volatile = refl
is_blocked-none unknown = refl

module _ {F : Type 0} ⦃f : Float F⦄ where
  nifty_market_filter-allows_none :
      (c : DailyCloses F) (d : F) (pcr : Option F) (vix : F) (sentiment : Option String)
      → c.dma200 ≡ some d
      → f.lt d c.last_close ≡ false
      → ltb c.days 55 ≡ false
      → nifty_market_filter (some c) pcr vix sentiment ≡ (false, (false, false))
  unfolding nifty_market_filter
  nifty_market_filter-allows_none c d pcr vix sentiment known below enough =
      rw (nifty_market_filter, enough, known, below) refl

  -- With 55 days or more and the last close not above the average of 200 days, a buy signal of a
  -- strategy changes nothing in any regime: it is not even recorded.
  pub take_signal-filtered :
      (w : Surroundings F) (c : DailyCloses F) (d vix : F) (n : ℕ) (s : Signal F)
      (a : Orchestrator F)
      → c.dma200 ≡ some d
      → f.lt d c.last_close ≡ false
      → ltb c.days 55 ≡ false
      → is_buy s.side ≡ true
      → take_signal w (nifty_market_filter (some c) w.pcr vix w.sentiment) n s a ≡ (ok tt, a)
  unfolding take_signal
  take_signal-filtered w c d vix n s a known below enough buys =
      rw
        (
          nifty_market_filter-allows_none c d w.pcr vix w.sentiment known below enough,
          take_signal,
          buys,
          is_blocked-none a.current_regime,
        )
        refl
