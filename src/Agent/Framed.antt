-- ===== src/Agent/Framed.antt =====
-- What the commands of core/execution/orchestrator.py leave alone: the tables and the market hours.
use pypoc.Prelude.{
  ◌≡◌, refl, inl, inr, Bool-cases, string_eq, String, List, [], ◌∷◌, none, some, arith,
}
use pypoc.Prelude.Int.{ℤ}
use pypoc.Prelude.Json.{Fields}
use pypoc.Prelude.Result.{Result-cases}
use pypoc.Numbers.{Float}
use pypoc.Types.{Signal}
use pypoc.Config.{MarketCfg}
use pypoc.Broker.Orders.{Request, place_order}
use pypoc.Risk.Guardrails.{check}
use pypoc.Queue.{Command, QueueFile, Host, read_pending}
use pypoc.Agent.State.{Orchestrator, Store}
use pypoc.Agent.Signals.{portfolio_of, market_ctx, request_of, send_order}
use pypoc.Agent.Halts.{halt_agent, resume_agent}
use pypoc.Agent.Outcomes.{run_command_cases}
use pypoc.Agent.Commands.{
  Desk, try_order, place_paper_order, update_risk_param, reload_config, run_command, asked_order,
  asked_risk, asked_qty, process_commands, process_command_queue,
}

module _ {F : Type 0} ⦃f : Float F⦄ where
  -- The agent has the store and the market hours given.
  pub record IsFramed (s : Store F) (hours : MarketCfg) (a : Orchestrator F) : Type 0 where
    pub same_store : a.store ≡ s
    pub same_hours : a.guardrails.m ≡ hours

module _ {F : Type 0} ⦃f : Float F⦄ (d : Desk F) (s : Store F) (hours : MarketCfg) where
  send_order-IsFramed :
      (r : Request F) (a : Orchestrator F)
      → IsFramed s hours a
      → IsFramed s hours (send_order r a).1
  unfolding send_order
  send_order-IsFramed r a v = elim (Result-cases (place_order r a.broker).0) [
    | inl (o, e) ↦
        rw (e, send_order) (record { same_store = v.same_store; same_hours = v.same_hours })
    | inr (x, e) ↦
        rw (e, send_order) (record { same_store = v.same_store; same_hours = v.same_hours })
  ]

  try_order-IsFramed :
      (id : String) (g : Signal F) (qty : ℤ) (a : Orchestrator F)
      → IsFramed s hours a
      → IsFramed s hours (try_order d id g qty a).1
  unfolding try_order
  try_order-IsFramed id g qty a v =
      elim (Result-cases (check a.guardrails g qty (portfolio_of a) (market_ctx d.now a))) [
        | inr (x, e) ↦ rw (try_order, e) v
        | inl (decision, e) ↦ elim (Bool-cases decision.allow) [
          | inr no_entry ↦ rw (try_order, e, no_entry) v
          | inl allow ↦ rw (try_order, e, allow) (send_order-IsFramed (request_of id g qty) a v)
        ]
      ]

  place_paper_order-IsFramed :
      (id : String) (params : Fields F) (a : Orchestrator F)
      → IsFramed s hours a
      → IsFramed s hours (place_paper_order d id params a).1
  unfolding place_paper_order
  place_paper_order-IsFramed id params a v = elim (Result-cases (asked_order params a)) [
    | inr (x, e) ↦ rw (place_paper_order, e) v
    | inl ((side, symbol, none), e) ↦ rw (place_paper_order, e) v
    | inl ((side, symbol, some ltp), e) ↦ elim (Result-cases (asked_qty d params)) [
      | inr (x, e') ↦ rw (place_paper_order, e, e') v
      | inl (qty, e') ↦ rw (place_paper_order, e, e') (try_order-IsFramed _ _ qty a v)
    ]
  ]

  update_risk_param-IsFramed :
      (params : Fields F) (a : Orchestrator F)
      → IsFramed s hours a
      → IsFramed s hours (update_risk_param d params a).1
  unfolding update_risk_param
  update_risk_param-IsFramed params a v = elim (Result-cases (asked_risk d params a.guardrails.r)) [
    | inr (x, e) ↦ rw (update_risk_param, e) v
    | inl (r, e) ↦
        rw (update_risk_param, e) (record { same_store = v.same_store; same_hours = v.same_hours })
  ]

  reload_config-IsFramed :
      (a : Orchestrator F) → IsFramed s hours a → IsFramed s hours (reload_config d a).1
  unfolding reload_config
  reload_config-IsFramed a v = elim (Result-cases d.reloaded) [
    | inr (x, e) ↦ rw (reload_config, e) v
    | inl (r, e) ↦
        rw (reload_config, e) (record { same_store = v.same_store; same_hours = v.same_hours })
  ]

  resume_agent-IsFramed :
      (a : Orchestrator F) → IsFramed s hours a → IsFramed s hours (resume_agent a).1
  unfolding resume_agent
  resume_agent-IsFramed a v =
      let stored = v.same_store in
      let timed = v.same_hours in record { same_store = ground arith; same_hours = ground arith }

  run_command-IsFramed :
      (c : Command F) (a : Orchestrator F)
      → IsFramed s hours a
      → IsFramed s hours (run_command d c a).1
  unfolding halt_agent
  run_command-IsFramed c a v =
      run_command_cases d (λ m. IsFramed s hours m.1) c a v
        (record { same_store = v.same_store; same_hours = v.same_hours })
        (λ _. resume_agent-IsFramed a v) (update_risk_param-IsFramed c.params a v)
        (place_paper_order-IsFramed c.id c.params a v) (reload_config-IsFramed a v)

  process_commands-IsFramed :
      (cs : List (Command F)) (a : Orchestrator F) (file : QueueFile F)
      → IsFramed s hours a
      → IsFramed s hours (process_commands d cs (a, file)).0
  unfolding process_commands
  process_commands-IsFramed [] a file v = v
  process_commands-IsFramed (c ∷ cs) a file v =
      process_commands-IsFramed cs (run_command d c a).1 _ (run_command-IsFramed c a v)

-- The commands change neither the store nor the market hours.
pub process_command_queue-IsFramed :
    {F : Type 0} ⦃f : Float F⦄ (d : Desk F) (signer : Host F) (a : Orchestrator F)
    (file : QueueFile F)
    → IsFramed a.store a.guardrails.m (process_command_queue d signer (a, file)).0
unfolding process_command_queue
process_command_queue-IsFramed d signer a file =
    process_commands-IsFramed d a.store a.guardrails.m (read_pending signer file).0 a
      (read_pending signer file).1 (record { same_store = refl; same_hours = refl })
