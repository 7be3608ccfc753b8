-- ===== src/Agent/Histories.antt =====
-- The agent of core/execution/orchestrator.py over any history of cycles and ticks.
use pypoc.Prelude.{
  ◌≡◌, refl, inl, inr, Bool-cases, List, [], ◌∷◌, map, drop, length, sym, subst, String, ◌&&◌,
}
use pypoc.Prelude.Dict.{Dict}
use pypoc.Prelude.Result.{Result-cases, Attempt, ok, raises, and_then_cases}
use pypoc.Numbers.{Float, zero_f}
use pypoc.Types.{Tick, Candle, DateTime}
use pypoc.Config.{ExecutionCfg}
use pypoc.Market.Candles.{CandleAggregator, ingest, history_of}
use pypoc.Broker.State.{PaperBroker, new_broker}
use pypoc.Broker.Prices.{update_market_prices}
use pypoc.Broker.Positions.{equity}
use pypoc.Broker.Calls.{run}
use pypoc.Broker.Kept.{Kept, update_market_prices-keeps}
use pypoc.Broker.Invariant.{IsValid}
use pypoc.Broker.Reach.{IsValid-Kept, IsBooked, IsBooked-Kept, booked, run-new_broker-IsValid}
use pypoc.Agent.State.{Orchestrator}
use pypoc.Agent.Signals.{with_store}
use pypoc.Agent.Days.{wired}
use pypoc.Agent.Halts.{check_global_halts}
use pypoc.Agent.Circuits.{check_global_halts-frame}
use pypoc.Agent.Decisions.{Surroundings, Strategy, on_candle_close}
use pypoc.Agent.Kept.{process_command_queue-keeps, on_candle_close-keeps, maybe_squareoff_eod-keeps}
use pypoc.Agent.Renewed.{renewed-IsRenewed}
use pypoc.Agent.Watched.{publish_snapshot-agent}
use pypoc.Agent.Lifecycle.{
  Pulse, Session, tick_lifecycle, housekeep, finish, settle, renewed, commanded, record_equity,
  equity_row,
}
use pypoc.Agent.Ticks.{
  System, Event, cycled, ticked, on_candles, on_tick, take_price, with_spread, step, run_events,
}

module _ {F : Type 0} ⦃f : Float F⦄ (P : PaperBroker F → Type 0) (kept : Kept P) where
  settle-keeps :
      (p : Pulse F) (current : F) (a : Orchestrator F)
      → P a.broker
      → P (settle p current a).1.broker
  unfolding settle
  settle-keeps p current a v =
      and_then_cases (λ m. P m.1.broker)
        (with_store a (record_equity p.utc (equity_row current a) a.store)) _ (λ e. v)
        (maybe_squareoff_eod-keeps P kept p.now _ v)

  finish-keeps :
      (p : Pulse F) (current : F) (s : Session F) (m : Attempt (Orchestrator F) (Unit {0}))
      → P m.1.broker
      → P (finish p current s m).1.agent.broker
  unfolding finish
  finish-keeps p current s (raises e, a) v = v
  finish-keeps p current s (ok u, a) v =
      let final = record s { agent = check_global_halts a } in
      subst (λ b. P b.broker) (sym (publish_snapshot-agent p current final))
        (subst P (sym (check_global_halts-frame a).0) v)

  tick_lifecycle-keeps :
      (p : Pulse F) (s : Session F) → P s.agent.broker → P (tick_lifecycle p s).1.agent.broker
  unfolding tick_lifecycle housekeep
  tick_lifecycle-keeps p s v =
      let after = commanded p s in
      let current = equity after.agent.broker in
      finish-keeps p current after (settle p current (renewed p current after.agent)) (
        settle-keeps p current (renewed p current after.agent) (
          subst P (sym (renewed-IsRenewed after.agent p current).same_broker)
            (process_command_queue-keeps P kept p.desk p.signer s.agent s.queue v)))

  with_spread-broker : (tick : Tick F) (a : Orchestrator F) → (with_spread tick a).broker ≡ a.broker
  unfolding with_spread
  with_spread-broker tick a =
      elim (Bool-cases (f.lt zero_f tick.bid && (f.lt zero_f tick.ask && f.lt zero_f tick.ltp))) [
        | inl quoted ↦ rw (with_spread, quoted) refl
        | inr bare ↦ rw (with_spread, bare) refl
      ]

  take_price-keeps :
      (tick : Tick F) (a : Orchestrator F) → P a.broker → P (take_price tick a).1.broker
  unfolding take_price
  take_price-keeps tick a v =
      let prices : Dict String F = (tick.symbol, tick.ltp) ∷ [] in
      let priced = update_market_prices-keeps P kept prices a.broker v in
      elim (Result-cases (update_market_prices prices a.broker).0) [
        | inr (x, e) ↦ rw (take_price, e) priced
        | inl (u, e) ↦
            rw (take_price, e)
              (subst P
                (sym (
                  with_spread-broker tick
                    (record a { broker = (update_market_prices prices a.broker).1 })))
                priced)
      ]

  module _ (strats : List (Strategy F)) where
    on_candles-keeps :
        (w : Surroundings F) (cs : List (Candle F)) (a : Orchestrator F)
        → P a.broker
        → P (on_candles strats w cs a).broker
    unfolding on_candles
    on_candles-keeps w [] a v = v
    on_candles-keeps w (c ∷ cs) a v =
        on_candles-keeps w cs (on_candle_close w strats c a).1
          (on_candle_close-keeps P kept w strats c a v)

    on_tick-keeps :
        (w : Surroundings F) (tick : Tick F) (a : Orchestrator F) (g : CandleAggregator F)
        → P a.broker
        → P (on_tick strats w tick (a, g)).1.0.broker
    unfolding on_tick
    on_tick-keeps w tick a g v =
        let m = ingest tick g in
        let told =
          on_candles-keeps (record w { history = history_of (tick.symbol, "5m") m.1 })
            (map (λ h. h.1) (drop (length g.heard) m.1.heard)) a v in
        elim (Result-cases (ingest tick g).0) [
          | inr (x, e) ↦ rw (on_tick, e) told
          | inl (u, e) ↦ rw (on_tick, e) (take_price-keeps tick _ told)
        ]

    run_events-keeps :
        (es : List (Event F)) (s : System F)
        → P s.session.agent.broker
        → P (run_events strats s es).session.agent.broker
    unfolding run_events step
    run_events-keeps [] s v = v
    run_events-keeps (cycled p ∷ es) s v =
        run_events-keeps es (record s { session = (tick_lifecycle p s.session).1 })
          (tick_lifecycle-keeps p s.session v)
    run_events-keeps (ticked w tick ∷ es) s v =
        run_events-keeps es _ (on_tick-keeps w tick s.session.agent s.aggregator v)

-- An agent that starts with a new broker, through any history of cycles with any commands and of
-- ticks, with any strategies and whatever the calls raise: no symbol is both long and short, every
-- position has a positive quantity, and the realized profit is the sum of the recorded trades.
pub run_events-IsValid :
    {F : Type 0} ⦃f : Float F⦄ (strats : List (Strategy F)) (starting_cash : F)
    (cfg : ExecutionCfg F) (utc : DateTime) (es : List (Event F)) (s : System F)
    → s.session.agent.broker ≡ wired (new_broker starting_cash cfg utc)
    → let b = (run_events strats s es).session.agent.broker in
      IsValid b × (b.realized_pnl ≡ booked zero_f b.trade_log)
unfolding new_broker run
run_events-IsValid strats starting_cash cfg utc es s starts =
    let new = run-new_broker-IsValid starting_cash cfg utc [] tt in
    (
      run_events-keeps IsValid IsValid-Kept strats es s
          (subst IsValid (sym starts) (record { sides = new.sides })),
      (run_events-keeps (IsBooked zero_f) (IsBooked-Kept zero_f) strats es s
          (subst (IsBooked zero_f) (sym starts) (record { adds_up = refl }))).adds_up,
    )
