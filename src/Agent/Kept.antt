-- ===== src/Agent/Kept.antt =====
-- A property that the internals of the broker keep is kept by all that the agent does with it
-- (core/execution/orchestrator.py).
use pypoc.Prelude.{
  sym, subst, inl, inr, Bool-cases, String, ℕ, suc, Bool, List, [], ◌∷◌, none, some, ◌&&◌, ◌||◌,
  string_eq, Option-cases, ltb, length, ◌==◌,
}
use pypoc.Prelude.Result.{Result-cases, and_then_cases}
use pypoc.Numbers.{Float, or_else}
use pypoc.Types.{Signal, DateTime, Position, Candle, is_buy}
use pypoc.Risk.Clock.{parse_time, time_of_day}
use pypoc.Broker.State.{PaperBroker}
use pypoc.Broker.Kept.{Kept, place_order-keeps, auto_exit-keeps, then_do-keeps}
use pypoc.Broker.Prices.{auto_exit, get_positions}
use pypoc.Queue.{Command, QueueFile, Host, read_pending}
use pypoc.Agent.State.{Orchestrator}
use pypoc.Agent.Signals.{handle_signal}
use pypoc.Agent.Guarded.{handle_signal-IsSafe}
use pypoc.Agent.Close.{close_all, maybe_squareoff_eod}
use pypoc.Agent.Commanded.{run_command-IsPlaced}
use pypoc.Agent.Commands.{Desk, run_command, process_commands, process_command_queue}
use pypoc.Agent.Decisions.{
  on_candle_close, take_signal, consult, consult_all, Surroundings, Strategy, is_blocked,
  reclassified, nifty_market_filter,
}

module _ {F : Type 0} ⦃f : Float F⦄ (P : PaperBroker F → Type 0) (kept : Kept P) where
  handle_signal-keeps :
      (id : String) (now : DateTime) (s : Signal F) (a : Orchestrator F)
      → P a.broker
      → P (handle_signal id now s a).1.broker
  handle_signal-keeps id now s a v = elim (handle_signal-IsSafe id now s a) [
    | inl same ↦ subst P (sym same) v
    | inr (qty, sized, safe, placed) ↦
        subst P (sym placed) (place_order-keeps P kept _ a.broker v safe.some_qty)
  ]

  take_signal-keeps :
      (w : Surroundings F) (p : Bool × (Bool × Bool)) (n : ℕ) (s : Signal F) (a : Orchestrator F)
      → P a.broker
      → P (take_signal w p n s a).1.broker
  unfolding take_signal
  take_signal-keeps w p n s a v =
      elim (Bool-cases (is_buy s.side && (is_blocked a.current_regime p || w.blackout))) [
        | inl skipped ↦ rw (skipped, take_signal) v
        | inr taken ↦ rw (taken, take_signal) (handle_signal-keeps (w.ids n) w.now s a v)
      ]

  consult-keeps :
      (w : Surroundings F) (p : Bool × (Bool × Bool)) (symbol : String) (n : ℕ) (strat : Strategy F)
      (a : Orchestrator F)
      → P a.broker
      → P (consult w p symbol n strat a).1.broker
  unfolding consult
  consult-keeps w p symbol n strat a v = elim (Bool-cases (strat.supports a.current_regime)) [
    | inr unfit ↦ rw (unfit, consult) v
    | inl fits ↦ elim (Result-cases (strat.evaluate symbol w.history a.current_regime)) [
      | inr (x, e) ↦ rw (fits, consult, e) v
      | inl (none, e) ↦ rw (fits, consult, e) v
      | inl (some s, e) ↦ rw (fits, consult, e) (take_signal-keeps w p n s a v)
    ]
  ]

  consult_all-keeps :
      (w : Surroundings F) (p : Bool × (Bool × Bool)) (symbol : String) (n : ℕ)
      (strats : List (Strategy F)) (a : Orchestrator F)
      → P a.broker
      → P (consult_all w p symbol n strats a).1.broker
  unfolding consult_all
  consult_all-keeps w p symbol n [] a v = v
  consult_all-keeps w p symbol n (strat ∷ strats) a v =
      let consulted = consult-keeps w p symbol n strat a v in
      and_then_cases (λ m. P m.1.broker) (consult w p symbol n strat a) _ (λ e. consulted)
        (consult_all-keeps w p symbol (suc n) strats _ consulted)

  reclassified-keeps :
      (w : Surroundings F) (a : Orchestrator F) → P a.broker → P (reclassified w a).broker
  reclassified-keeps w a v = elim (Option-cases w.reading) [ inl e ↦ rw e v | inr (x, e) ↦ rw e v ]

  pub on_candle_close-keeps :
      (w : Surroundings F) (strats : List (Strategy F)) (candle : Candle F) (a : Orchestrator F)
      → P a.broker
      → P (on_candle_close w strats candle a).1.broker
  unfolding on_candle_close
  on_candle_close-keeps w strats candle a v = elim (Bool-cases (candle.interval == "5m")) [
    | inr other ↦ rw (on_candle_close, other) v
    | inl five ↦ elim (Bool-cases (ltb (length w.history) 30)) [
      | inl few ↦ rw (on_candle_close, five, few) (reclassified-keeps w a v)
      | inr enough ↦
          rw (on_candle_close, five, enough)
            (consult_all-keeps w
              (nifty_market_filter w.closes w.pcr (reclassified w a).vix w.sentiment) candle.symbol
              0 strats (reclassified w a) (reclassified-keeps w a v))
    ]
  ]

  run_command-keeps :
      (d : Desk F) (c : Command F) (a : Orchestrator F)
      → P a.broker
      → P (run_command d c a).1.broker
  run_command-keeps d c a v = elim (run_command-IsPlaced d c a) [
    | inl same ↦ subst P (sym same) v
    | inr (s, qty, manual, asked, (safe, placed)) ↦
        subst P (sym placed) (place_order-keeps P kept _ a.broker v safe.some_qty)
  ]

  process_commands-keeps :
      (d : Desk F) (cs : List (Command F)) (a : Orchestrator F) (file : QueueFile F)
      → P a.broker
      → P (process_commands d cs (a, file)).0.broker
  unfolding process_commands
  process_commands-keeps d [] a file v = v
  process_commands-keeps d (c ∷ cs) a file v =
      process_commands-keeps d cs (run_command d c a).1 _ (run_command-keeps d c a v)

  pub process_command_queue-keeps :
      (d : Desk F) (signer : Host F) (a : Orchestrator F) (file : QueueFile F)
      → P a.broker
      → P (process_command_queue d signer (a, file)).0.broker
  unfolding process_command_queue
  process_command_queue-keeps d signer a file =
      process_commands-keeps d (read_pending signer file).0 a (read_pending signer file).1

  close_all-keeps : (ps : List (Position F)) (b : PaperBroker F) → P b → P (close_all ps b).1
  unfolding close_all
  close_all-keeps [] b v = v
  close_all-keeps (p ∷ ps) b v =
      let price = or_else p.last_price p.avg_price in
      let exited = auto_exit-keeps P kept p price "eod_squareoff" b v in
      then_do-keeps P kept (auto_exit p price "eod_squareoff" b) (close_all ps) exited
        (λ _. close_all-keeps ps _ exited)

  pub maybe_squareoff_eod-keeps :
      (now : DateTime) (a : Orchestrator F) → P a.broker → P (maybe_squareoff_eod now a).1.broker
  unfolding maybe_squareoff_eod
  maybe_squareoff_eod-keeps now a v =
      elim (Result-cases (parse_time a.guardrails.m.intraday_squareoff_at)) [
        | inr (x, e) ↦ rw (maybe_squareoff_eod, e) v
        | inl (squareoff, e) ↦ elim (Bool-cases (ltb (time_of_day now) squareoff)) [
          | inl early ↦ rw (maybe_squareoff_eod, e, early) v
          | inr late ↦
              rw (maybe_squareoff_eod, e, late)
                (close_all-keeps (get_positions a.broker) a.broker v)
        ]
      ]
