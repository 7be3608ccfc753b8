-- ===== src/Agent/Commanded.antt =====
-- The command queue of core/execution/orchestrator.py and the guardrails.
use pypoc.Agent.Outcomes.{run_command_cases}
use pypoc.Queue.{Command}
use pypoc.Agent.Halts.{halt_agent, resume_agent}
use pypoc.Broker.Orders.{place_order}
use pypoc.Risk.Guardrails.SafeOrder.{IsSafe}
use pypoc.Risk.Guardrails.Safe.{check-IsSafe}
use pypoc.Broker.State.{PaperBroker}
use pypoc.Prelude.Int.{ℤ}
use pypoc.Agent.State.{Orchestrator}
use pypoc.Types.{Signal, Side}
use pypoc.Prelude.Json.{Fields, Json}
use pypoc.Numbers.{Float}
use pypoc.Agent.Guarded.{send_order-broker}
use pypoc.Prelude.{
  ◌≡◌, refl, ◌⊎◌, inl, inr, Bool-cases, string_eq, none, some, String, subst, sym, arith,
}
use pypoc.Prelude.Result.{Result-cases, ok}
use pypoc.Agent.Commands.{
  Desk, try_order, place_paper_order, asked_qty, asked_order, manual_signal, text_of, text_or,
  run_command, update_risk_param, reload_config, asked_risk,
}
use pypoc.Agent.Signals.{market_ctx, portfolio_of, request_of}
use pypoc.Risk.Guardrails.{check}

module _ {F : Type 0} ⦃f : Float F⦄ (d : Desk F) where
  -- The agent's broker after an order of that signal and quantity that is safe.
  abbrev pub IsPlaced : String → Signal F → ℤ → Orchestrator F → PaperBroker F → Type 0
  IsPlaced id s qty a b =
      IsSafe a.guardrails s qty (portfolio_of a) (market_ctx d.now a)
      × (b ≡ (place_order (request_of id s qty) a.broker).1)

  try_order-IsPlaced :
      (id : String) (s : Signal F) (qty : ℤ) (a : Orchestrator F)
      → ((try_order d id s qty a).1.broker ≡ a.broker)
        ⊎ IsPlaced id s qty a (try_order d id s qty a).1.broker
  unfolding try_order
  try_order-IsPlaced id s qty a =
      elim (Result-cases (check a.guardrails s qty (portfolio_of a) (market_ctx d.now a))) [
        | inr (x, e) ↦ rw (try_order, e) (inl refl)
        | inl (decision, e) ↦ elim (Bool-cases decision.allow) [
          | inr no_entry ↦ rw (try_order, e, no_entry) (inl refl)
          | inl allow ↦
              let safe =
                (check-IsSafe a.guardrails s qty (portfolio_of a) (market_ctx d.now a)).0
                  (rw e allow) in
              rw (try_order, e, allow) (inr (safe, send_order-broker (request_of id s qty) a))
        ]
      ]

  -- The signal that a command asks for by hand.
  abbrev pub IsManual : Fields F → Orchestrator F → Signal F → Type 0
  IsManual params a s =
      (side : Side) × (symbol : Json F) × (ltp : F) × (asked_order params a
        ≡ ok (side, symbol, some ltp))
      × (s ≡ manual_signal d (text_of d symbol) side ltp (text_or d "strategy" "manual" params) a)

  place_paper_order-tried :
      (id : String) (params : Fields F) (a : Orchestrator F) (side : Side) (symbol : Json F)
      (ltp : F) (qty : ℤ)
      → asked_order params a ≡ ok (side, symbol, some ltp)
      → asked_qty d params ≡ ok qty
      → place_paper_order d id params a
        ≡ try_order d
            (d.ids id)
            (manual_signal d (text_of d symbol) side ltp (text_or d "strategy" "manual" params) a)
            qty
            a
  unfolding place_paper_order
  place_paper_order-tried id params a side symbol ltp qty e e' = rw (place_paper_order, e, e') refl

  -- What an order by hand may do to the broker.
  abbrev pub ManualOrder : String → Fields F → Orchestrator F → PaperBroker F → Type 0
  ManualOrder id params a b =
      (s : Signal F) × (qty : ℤ) × IsManual params a s
      × (asked_qty d params ≡ ok qty)
      × IsPlaced (d.ids id) s qty a b

  pub place_paper_order-IsPlaced :
      (id : String) (params : Fields F) (a : Orchestrator F)
      → ((place_paper_order d id params a).1.broker ≡ a.broker)
        ⊎ ((s : Signal F) × (qty : ℤ) × IsManual params a s
            × (asked_qty d params ≡ ok qty)
            × IsPlaced (d.ids id) s qty a (place_paper_order d id params a).1.broker)
  unfolding place_paper_order
  place_paper_order-IsPlaced id params a = elim (Result-cases (asked_order params a)) [
    | inr (x, e) ↦ rw (place_paper_order, e) (inl refl)
    | inl ((side, symbol, none), e) ↦ rw (place_paper_order, e) (inl refl)
    | inl ((side, symbol, some ltp), e) ↦ elim (Result-cases (asked_qty d params)) [
      | inr (x, e') ↦ rw (place_paper_order, e, e') (inl refl)
      | inl (qty, e') ↦
          subst (λ m. (m.1.broker ≡ a.broker) ⊎ ManualOrder id params a m.1.broker)
            (sym (place_paper_order-tried id params a side symbol ltp qty e e'))
            (elim (try_order-IsPlaced (d.ids id) _ qty a) [
              | inl same ↦ inl same
              | inr placed ↦ inr (_, qty, (side, symbol, ltp, e, refl), e', placed)
            ])
    ]
  ]

  update_risk_param-broker :
      (params : Fields F) (a : Orchestrator F) → (update_risk_param d params a).1.broker ≡ a.broker
  unfolding update_risk_param
  update_risk_param-broker params a = elim (Result-cases (asked_risk d params a.guardrails.r)) [
    | inr (x, e) ↦ rw (update_risk_param, e) refl
    | inl (r, e) ↦ rw (update_risk_param, e) refl
  ]

  reload_config-broker : (a : Orchestrator F) → (reload_config d a).1.broker ≡ a.broker
  unfolding reload_config
  reload_config-broker a = elim (Result-cases d.reloaded) [
    | inr (x, e) ↦ rw (reload_config, e) refl
    | inl (r, e) ↦ rw (reload_config, e) refl
  ]

  resume_agent-broker : (a : Orchestrator F) → (resume_agent a).1.broker ≡ a.broker
  unfolding resume_agent
  resume_agent-broker a = ground arith

  -- A command leaves the broker as it was, or it asked for an order by hand at the last price of its
  -- symbol, that order of the quantity asked for is safe in the sense of the guardrails at that time,
  -- and the broker is the one after the order was placed.
  pub run_command-IsPlaced :
      (c : Command F) (a : Orchestrator F)
      → ((run_command d c a).1.broker ≡ a.broker)
        ⊎ ManualOrder c.id c.params a (run_command d c a).1.broker
  unfolding halt_agent
  run_command-IsPlaced c a =
      run_command_cases d (λ m. (m.1.broker ≡ a.broker) ⊎ ManualOrder c.id c.params a m.1.broker) c
        a (inl refl) (inl refl) (λ _. inl (resume_agent-broker a))
        (inl (update_risk_param-broker c.params a)) (place_paper_order-IsPlaced c.id c.params a)
        (inl (reload_config-broker a))
