-- ===== src/Agent/Idle.antt =====
-- A halted agent and its command queue (core/execution/orchestrator.py).
use pypoc.Agent.Outcomes.{run_command_cases}
use pypoc.Agent.Signals.{portfolio_of, market_ctx, request_of}
use pypoc.Risk.Guardrails.{check}
use pypoc.Prelude.Int.{ℤ}
use pypoc.Agent.Halts.{halt_agent}
use pypoc.Prelude.Result.{Result-cases}
use pypoc.Prelude.Json.{Fields}
use pypoc.Types.{Signal}
use pypoc.Agent.State.{Orchestrator}
use pypoc.Queue.{Host, Command, QueueFile, read_pending}
use pypoc.Broker.State.{PaperBroker}
use pypoc.Agent.Commands.{
  process_command_queue, Desk, try_order, place_paper_order, update_risk_param, reload_config,
  run_command, process_commands, asked_order, asked_risk, asked_qty,
}
use pypoc.Numbers.{Float}
use pypoc.Prelude.{
  ◌≡◌, refl, inl, inr, Bool-cases, string_eq, true, false, List, [], ◌∷◌, All, arith, ◌∙◌, ◌==◌,
  none, some, String,
}
use pypoc.Agent.Halted.{IsIdle, send_order-halted}
use pypoc.Agent.Commanded.{place_paper_order-IsPlaced}

module _ {F : Type 0} ⦃f : Float F⦄ (d : Desk F) (b : PaperBroker F) where
  try_order-halted :
      (id : String) (s : Signal F) (qty : ℤ) (a : Orchestrator F)
      → (try_order d id s qty a).1.halted ≡ a.halted
  unfolding try_order
  try_order-halted id s qty a =
      elim (Result-cases (check a.guardrails s qty (portfolio_of a) (market_ctx d.now a))) [
        | inr (x, e) ↦ rw (try_order, e) refl
        | inl (decision, e) ↦ elim (Bool-cases decision.allow) [
          | inr no_entry ↦ rw (try_order, e, no_entry) refl
          | inl allow ↦ rw (try_order, e, allow) (send_order-halted (request_of id s qty) a)
        ]
      ]

  place_paper_order-halted :
      (id : String) (params : Fields F) (a : Orchestrator F)
      → (place_paper_order d id params a).1.halted ≡ a.halted
  unfolding place_paper_order
  place_paper_order-halted id params a = elim (Result-cases (asked_order params a)) [
    | inr (x, e) ↦ rw (place_paper_order, e) refl
    | inl ((side, symbol, none), e) ↦ rw (place_paper_order, e) refl
    | inl ((side, symbol, some ltp), e) ↦ elim (Result-cases (asked_qty d params)) [
      | inr (x, e') ↦ rw (place_paper_order, e, e') refl
      | inl (qty, e') ↦ rw (place_paper_order, e, e') (try_order-halted _ _ qty a)
    ]
  ]

  place_paper_order-IsIdle :
      (id : String) (params : Fields F) (a : Orchestrator F)
      → IsIdle b a
      → IsIdle b (place_paper_order d id params a).1
  place_paper_order-IsIdle id params a idle = elim (place_paper_order-IsPlaced d id params a) [
    | inl same ↦ record {
      same_broker = same ∙ idle.same_broker;
      is_halted = place_paper_order-halted id params a ∙ idle.is_halted;
    }
    | inr (s, qty, manual, asked, (safe, placed)) ↦
        let running = safe.running in let halted = idle.is_halted in absurd (ground arith)
  ]

  update_risk_param-IsIdle :
      (params : Fields F) (a : Orchestrator F)
      → IsIdle b a
      → IsIdle b (update_risk_param d params a).1
  unfolding update_risk_param
  update_risk_param-IsIdle params a idle =
      elim (Result-cases (asked_risk d params a.guardrails.r)) [
        | inr (x, e) ↦ rw (update_risk_param, e) idle
        | inl (r, e) ↦
            rw (update_risk_param, e)
              (record { same_broker = idle.same_broker; is_halted = idle.is_halted })
      ]

  reload_config-IsIdle : (a : Orchestrator F) → IsIdle b a → IsIdle b (reload_config d a).1
  unfolding reload_config
  reload_config-IsIdle a idle = elim (Result-cases d.reloaded) [
    | inr (x, e) ↦ rw (reload_config, e) idle
    | inl (r, e) ↦
        rw (reload_config, e)
          (record { same_broker = idle.same_broker; is_halted = idle.is_halted })
  ]

  run_command-IsIdle :
      (c : Command F) (a : Orchestrator F)
      → (c.kind == "resume_agent") ≡ false
      → IsIdle b a
      → IsIdle b (run_command d c a).1
  unfolding halt_agent
  run_command-IsIdle c a other idle =
      run_command_cases d (λ m. IsIdle b m.1) c a idle
        (record { same_broker = idle.same_broker; is_halted = refl })
        (λ resumes. absurd (ground arith)) (update_risk_param-IsIdle c.params a idle)
        (place_paper_order-IsIdle c.id c.params a idle) (reload_config-IsIdle a idle)

  process_commands-IsIdle :
      (cs : List (Command F)) (a : Orchestrator F) (file : QueueFile F)
      → All (λ c. (c.kind == "resume_agent") ≡ false) cs
      → IsIdle b a
      → IsIdle b (process_commands d cs (a, file)).0
  unfolding process_commands
  process_commands-IsIdle [] a file others idle = idle
  process_commands-IsIdle (c ∷ cs) a file (other, others) idle =
      process_commands-IsIdle cs (run_command d c a).1 _ others (run_command-IsIdle c a other idle)

-- When the agent is halted and none of the commands that it reads is to resume it, the queue does
-- not change its broker, whatever the commands ask for, and it is halted afterwards.
pub process_command_queue-idle :
    {F : Type 0} ⦃f : Float F⦄ (d : Desk F) (s : Host F) (a : Orchestrator F) (file : QueueFile F)
    → All (λ c. (c.kind == "resume_agent") ≡ false) (read_pending s file).0
    → a.halted ≡ true
    → ((process_command_queue d s (a, file)).0.broker ≡ a.broker)
      × ((process_command_queue d s (a, file)).0.halted ≡ true)
unfolding process_command_queue
process_command_queue-idle d s a file others halted =
    let idle =
      process_commands-IsIdle d a.broker (read_pending s file).0 a (read_pending s file).1 others
        (record { same_broker = refl; is_halted = halted }) in
    (idle.same_broker, idle.is_halted)
