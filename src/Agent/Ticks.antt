-- ===== src/Agent/Ticks.antt =====
-- `_on_tick` of core/execution/orchestrator.py, and the agent as a whole: its main loop and the
-- thread of its feed take turns, a call at a time.
use pypoc.Prelude.{List, [], ◌∷◌, length, drop, map, ◌&&◌, if◌then◌else◌, string_eq}
use pypoc.Prelude.Int.{pos}
use pypoc.Prelude.Dict.{insert}
use pypoc.Prelude.Result.{ok, raises, Attempt}
use pypoc.Numbers.{Float, zero_f}
use pypoc.Types.{Tick, Candle}
use pypoc.Market.Candles.{CandleAggregator, ingest, history_of}
use pypoc.Broker.Prices.{update_market_prices}
use pypoc.Agent.State.{Orchestrator}
use pypoc.Agent.Decisions.{Surroundings, Strategy, on_candle_close}
use pypoc.Agent.Lifecycle.{Pulse, Session, tick_lifecycle}

-- The agent is the only listener of its aggregator.
pub record System (F : Type 0) : Type 0 where
  pub session : Session F
  pub aggregator : CandleAggregator F

-- A cycle of the main loop, or a tick of the feed.
pub data Event (F : Type 0) : Type 0 where
  cycled : Pulse F → Event F
  ticked : Surroundings F → Tick F → Event F

module _ {F : Type 0} ⦃f : Float F⦄ where
  -- The spread of a tick whose prices are all positive.
  unfoldable pub with_spread : Tick F → Orchestrator F → Orchestrator F
  with_spread tick a =
      if f.lt zero_f tick.bid && (f.lt zero_f tick.ask && f.lt zero_f tick.ltp)
      then record a {
        spread_pct_by_symbol =
            insert tick.symbol
              (f.mul (f.div (f.sub tick.ask tick.bid) tick.ltp) (f.of_int (pos 100)))
              a.spread_pct_by_symbol;
      }
      else a

  -- The price and the spread of a tick.
  unfoldable pub take_price : Tick F → Orchestrator F → Attempt (Orchestrator F) (Unit {0})
  take_price tick a =
      let m = update_market_prices ((tick.symbol, tick.ltp) ∷ []) a.broker in
      let priced = record a { broker = m.1 } in
      elim m.0 [ raises e ↦ (raises e, priced) | ok _ ↦ (ok tt, with_spread tick priced) ]

module _ {F : Type 0} ⦃f : Float F⦄ (strats : List (Strategy F)) where
  -- The aggregator catches what its listener raises.
  unfoldable pub on_candles : Surroundings F → List (Candle F) → Orchestrator F → Orchestrator F
  on_candles w [] a = a
  on_candles w (c ∷ cs) a = on_candles w cs (on_candle_close w strats c a).1

  -- The candles that a tick closes come first, then its price.
  unfoldable pub on_tick :
      Surroundings F
      → Tick F
      → Orchestrator F × CandleAggregator F
      → Attempt (Orchestrator F × CandleAggregator F) (Unit {0})
  on_tick w tick (a, g) =
      let m = ingest tick g in
      let closed = map (λ h. h.1) (drop (length g.heard) m.1.heard) in
      let seen = record w { history = history_of (tick.symbol, "5m") m.1 } in
      let told = on_candles seen closed a in
      elim m.0 [
        | raises e ↦ (raises e, (told, m.1))
        | ok _ ↦ let t = take_price tick told in (t.0, (t.1, m.1))
      ]

  -- The agent after an event, whether its call returns or raises.
  unfoldable pub step : System F → Event F → System F
  step s (cycled p) = record s { session = (tick_lifecycle p s.session).1 }
  step s (ticked w tick) =
      let m = on_tick w tick (s.session.agent, s.aggregator) in
      record { session = record s.session { agent = m.1.0 }; aggregator = m.1.1 }

  unfoldable pub run_events : System F → List (Event F) → System F
  run_events s [] = s
  run_events s (e ∷ es) = run_events (step s e) es
