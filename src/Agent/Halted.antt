-- ===== src/Agent/Halted.antt =====
-- A halted agent on candle closes (core/execution/orchestrator.py).
use pypoc.Agent.Guarded.{handle_signal-IsSafe}
use pypoc.Risk.Sizing.{position_size}
use pypoc.Risk.Guardrails.{GuardrailDecision, check}
use pypoc.Agent.State.{Orchestrator}
use pypoc.Types.{Signal, DateTime, is_buy, Candle}
use pypoc.Broker.Orders.{Request, place_order}
use pypoc.Agent.Decisions.{
  on_candle_close, take_signal, consult, consult_all, Surroundings, Strategy, is_blocked,
  reclassified, nifty_market_filter,
}
use pypoc.Broker.State.{PaperBroker}
use pypoc.Agent.Signals.{
  send_order, act_on, handle_signal, with_store, record_signal, signal_row, request_of,
  portfolio_of, market_ctx,
}
use pypoc.Numbers.{Float}
use pypoc.Prelude.{
  string_eq, String, ℕ, ◌≡◌, refl, inl, inr, true, Bool-cases, suc, ◌∷◌, [], ◌∙◌, ◌&&◌, ◌||◌, none,
  some, Bool, List, ◌==◌, Option-cases, ltb, length, arith,
}
use pypoc.Broker.Positions.{equity}
use pypoc.Prelude.Int.{ℤ}
use pypoc.Prelude.Result.{Result-cases, and_then_cases}

module _ {F : Type 0} ⦃f : Float F⦄ where
  pub send_order-halted :
      (r : Request F) (a : Orchestrator F) → (send_order r a).1.halted ≡ a.halted
  unfolding send_order
  send_order-halted r a = elim (Result-cases (place_order r a.broker).0) [
    | inl (o, e) ↦ rw (e, send_order) refl
    | inr (x, e) ↦ rw (e, send_order) refl
  ]

  act_on-halted :
      (id : String) (s : Signal F) (qty : ℤ) (d : GuardrailDecision F) (a : Orchestrator F)
      → (act_on id s qty d a).1.halted ≡ a.halted
  unfolding act_on
  act_on-halted id s qty d a =
      and_then_cases (λ m. m.1.halted ≡ a.halted)
        (with_store a (record_signal (signal_row s d) a.store)) _ (λ e. refl)
        (elim (Bool-cases d.allow) [
          | inl allowed ↦ rw allowed (send_order-halted (request_of id s qty) _)
          | inr rejected ↦ rw rejected refl
        ])

  handle_signal-halted :
      (id : String) (now : DateTime) (s : Signal F) (a : Orchestrator F)
      → (handle_signal id now s a).1.halted ≡ a.halted
  unfolding handle_signal
  handle_signal-halted id now s a =
      elim (Result-cases (
        position_size (equity a.broker) a.guardrails.r.per_trade_risk_pct s
          a.guardrails.r.max_position_pct)) [
            | inr (x, e) ↦ rw (e, handle_signal) refl
            | inl (qty, e) ↦
                elim (Result-cases (check a.guardrails s qty (portfolio_of a) (market_ctx now a))) [
                  | inr (x, e') ↦ rw (e, handle_signal, e') refl
                  | inl (d, e') ↦ rw (e, handle_signal, e') (act_on-halted id s qty d a)
                ]
          ]

  -- The agent is halted, and its broker is the one given.
  pub record IsIdle (b : PaperBroker F) (a : Orchestrator F) : Type 0 where
    pub same_broker : a.broker ≡ b
    pub is_halted : a.halted ≡ true

  module _ (b : PaperBroker F) where
    handle_signal-IsIdle :
        (id : String) (now : DateTime) (s : Signal F) (a : Orchestrator F)
        → IsIdle b a
        → IsIdle b (handle_signal id now s a).1
    handle_signal-IsIdle id now s a idle = elim (handle_signal-IsSafe id now s a) [
      | inl same ↦ record {
        same_broker = same ∙ idle.same_broker;
        is_halted = handle_signal-halted id now s a ∙ idle.is_halted;
      }
      | inr (qty, sized, safe, placed) ↦
          let running = safe.running in let halted = idle.is_halted in absurd (ground arith)
    ]

    take_signal-IsIdle :
        (w : Surroundings F) (p : Bool × (Bool × Bool)) (n : ℕ) (s : Signal F) (a : Orchestrator F)
        → IsIdle b a
        → IsIdle b (take_signal w p n s a).1
    unfolding take_signal
    take_signal-IsIdle w p n s a idle =
        elim (Bool-cases (is_buy s.side && (is_blocked a.current_regime p || w.blackout))) [
          | inl skipped ↦ rw (skipped, take_signal) idle
          | inr taken ↦ rw (taken, take_signal) (handle_signal-IsIdle (w.ids n) w.now s a idle)
        ]

    consult-IsIdle :
        (w : Surroundings F) (p : Bool × (Bool × Bool)) (symbol : String) (n : ℕ)
        (strat : Strategy F) (a : Orchestrator F)
        → IsIdle b a
        → IsIdle b (consult w p symbol n strat a).1
    unfolding consult
    consult-IsIdle w p symbol n strat a idle = elim (Bool-cases (strat.supports a.current_regime)) [
      | inr unfit ↦ rw (unfit, consult) idle
      | inl fits ↦ elim (Result-cases (strat.evaluate symbol w.history a.current_regime)) [
        | inr (x, e) ↦ rw (fits, consult, e) idle
        | inl (none, e) ↦ rw (fits, consult, e) idle
        | inl (some s, e) ↦ rw (fits, consult, e) (take_signal-IsIdle w p n s a idle)
      ]
    ]

    consult_all-IsIdle :
        (w : Surroundings F) (p : Bool × (Bool × Bool)) (symbol : String) (n : ℕ)
        (strats : List (Strategy F)) (a : Orchestrator F)
        → IsIdle b a
        → IsIdle b (consult_all w p symbol n strats a).1
    unfolding consult_all
    consult_all-IsIdle w p symbol n [] a idle = idle
    consult_all-IsIdle w p symbol n (strat ∷ strats) a idle =
        and_then_cases (λ m. IsIdle b m.1) (consult w p symbol n strat a) _
          (λ e. consult-IsIdle w p symbol n strat a idle)
          (consult_all-IsIdle w p symbol (suc n) strats _
            (consult-IsIdle w p symbol n strat a idle))

    reclassified-IsIdle :
        (w : Surroundings F) (a : Orchestrator F)
        → a.broker ≡ b
        → a.halted ≡ true
        → IsIdle b (reclassified w a)
    reclassified-IsIdle w a same halted = elim (Option-cases w.reading) [
      | inl e ↦ rw e (record { same_broker = same; is_halted = halted })
      | inr (x, e) ↦ rw e (record { same_broker = same; is_halted = halted })
    ]

  -- When the agent is halted, no candle close changes its broker, and the agent is halted afterwards,
  -- whatever the strategies answer, an exception included.
  pub on_candle_close-idle :
      (w : Surroundings F) (strats : List (Strategy F)) (candle : Candle F) (a : Orchestrator F)
      → a.halted ≡ true
      → ((on_candle_close w strats candle a).1.broker ≡ a.broker)
        × ((on_candle_close w strats candle a).1.halted ≡ true)
  unfolding on_candle_close
  on_candle_close-idle w strats candle a halted =
      let start : IsIdle a.broker (reclassified w a) =
        reclassified-IsIdle a.broker w a refl halted in
      elim (Bool-cases (candle.interval == "5m")) [
        | inr other ↦ rw (on_candle_close, other) (refl, halted)
        | inl five ↦ elim (Bool-cases (ltb (length w.history) 30)) [
          | inl few ↦ rw (on_candle_close, five, few) (start.same_broker, start.is_halted)
          | inr enough ↦
              let final =
                consult_all-IsIdle a.broker w
                  (nifty_market_filter w.closes w.pcr (reclassified w a).vix w.sentiment)
                  candle.symbol 0 strats (reclassified w a) start in
              rw (on_candle_close, five, enough) (final.same_broker, final.is_halted)
        ]
      ]
