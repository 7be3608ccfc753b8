-- ===== src/Agent/Signals.antt =====
-- `_handle_signal` of core/execution/orchestrator.py: a signal is sized, checked and recorded, and
-- an order is placed if the guardrails allow it.
use pypoc.Prelude.{String, none, some, [], ◌∷◌, ◌++◌, if◌then◌else◌, string_eq}
use pypoc.Prelude.Int.{ℤ}
use pypoc.Prelude.Result.{ok, raises, Attempt, and_then}
use pypoc.Numbers.{Float}
use pypoc.Types.{DateTime, Signal, market}
use pypoc.Risk.Sizing.{position_size}
use pypoc.Risk.Guardrails.{MarketContext, PortfolioState, GuardrailDecision, check}
use pypoc.Broker.Positions.{equity}
use pypoc.Broker.Orders.{Request, place_order}
use pypoc.Broker.Prices.{get_positions}
use pypoc.Agent.State.{Store, SignalRow, GuardrailRow, Orchestrator, execute}

module _ {F : Type 0} where
  unfoldable pub record_signal : SignalRow F → Store F → Attempt (Store F) (Unit {0})
  record_signal row = execute λ s. record s { signals = s.signals ++ (row ∷ []) }

  unfoldable pub record_guardrail : GuardrailRow F → Store F → Attempt (Store F) (Unit {0})
  record_guardrail row =
      execute λ s. record s { guardrail_events = s.guardrail_events ++ (row ∷ []) }

  -- The agent after a call of its store.
  abbrev pub with_store :
      Orchestrator F → Attempt (Store F) (Unit {0}) → Attempt (Orchestrator F) (Unit {0})
  with_store a m = (m.0, record a { store = m.1 })

  abbrev pub market_ctx : DateTime → Orchestrator F → MarketContext F
  market_ctx now a = record {
    now = now;
    nifty_ltp = a.nifty_ltp;
    nifty_change_pct_15m = a.nifty_change_pct_15m;
    vix = a.vix;
    vix_change_pct_15m = a.vix_change_pct_15m;
    last_tick_age_seconds = a.last_tick_age_seconds;
    avg_daily_volumes = a.adv_by_symbol;
    spread_pct_by_symbol = a.spread_pct_by_symbol;
  }

  -- The order of a signal, with the id that it draws.
  abbrev pub request_of : String → Signal F → ℤ → Request F
  request_of id s qty = record {
    id = id;
    symbol = s.symbol;
    side = s.side;
    qty = qty;
    order_type = market;
    stop_loss = s.stop_loss;
    target = some s.target;
    limit_price = none;
    strategy = s.strategy;
  }

  -- How a decision is recorded.
  abbrev pub signal_row : Signal F → GuardrailDecision F → SignalRow F
  signal_row s d = record {
    signal = s;
    accepted = d.allow;
    rejection_reason = if d.allow then none else some (d.rule, d.reason);
  }

module _ {F : Type 0} ⦃f : Float F⦄ where
  abbrev pub portfolio_of : Orchestrator F → PortfolioState F
  portfolio_of a = record {
    equity = equity a.broker;
    starting_equity_today = a.starting_equity_today;
    peak_equity = a.peak_equity;
    open_positions = get_positions a.broker;
    realized_pnl_today = a.broker.realized_pnl;
    last_exit_by_symbol = a.last_exit_by_symbol;
    halted = a.halted;
    halt_reason = a.halt_reason;
  }

  -- `self.broker.place_order`, whose order goes to the log only
  unfoldable pub send_order : Request F → Orchestrator F → Attempt (Orchestrator F) (Unit {0})
  send_order r a =
      let m = place_order r a.broker in
      let sent = record a { broker = m.1 } in
      elim m.0 [ ok _ ↦ (ok tt, sent) | raises e ↦ (raises e, sent) ]

  -- What follows the decision.
  unfoldable pub act_on :
      String
      → Signal F
      → ℤ
      → GuardrailDecision F
      → Orchestrator F
      → Attempt (Orchestrator F) (Unit {0})
  act_on id s qty d a = and_then (with_store a (record_signal (signal_row s d) a.store)) λ a'.
      if d.allow
      then send_order (request_of id s qty) a'
      else with_store a' (
          record_guardrail (record { rule = d.rule; symbol = s.symbol; detail = d.reason })
            a'.store)

  unfoldable pub handle_signal :
      String → DateTime → Signal F → Orchestrator F → Attempt (Orchestrator F) (Unit {0})
  handle_signal id now s a =
      elim (position_size (equity a.broker) a.guardrails.r.per_trade_risk_pct s
        a.guardrails.r.max_position_pct) [
          | raises e ↦ (raises e, a)
          | ok qty ↦ elim (check a.guardrails s qty (portfolio_of a) (market_ctx now a)) [
            | raises e ↦ (raises e, a)
            | ok d ↦ act_on id s qty d a
          ]
        ]
