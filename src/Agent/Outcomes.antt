-- ===== src/Agent/Outcomes.antt =====
-- Every command that core/execution/orchestrator.py runs ends done or rejected.
use pypoc.Risk.Guardrails.{check}
use pypoc.Queue.{Command, is_allowed}
use pypoc.Prelude.Int.{ℤ}
use pypoc.Agent.State.{Orchestrator}
use pypoc.Prelude.Json.{Fields}
use pypoc.Types.{Signal}
use pypoc.Agent.Halts.{resume_agent, halt_agent}
use pypoc.Numbers.{Float}
use pypoc.Prelude.Result.{Attempt, Result-cases, ok}
use pypoc.Prelude.{
  ◌≡◌, refl, ◌⊎◌, inl, inr, Bool-cases, string_eq, String, if◌then◌else◌, ◌==◌, true, false, none,
  some, Bool, arith, not,
}
use pypoc.Agent.Commands.{
  Outcome, outcome_of, Desk, try_order, place_paper_order, update_risk_param, reload_config,
  run_command, asked_order, asked_risk, asked_qty, with_text, text_or,
}
use pypoc.Agent.Signals.{send_order, portfolio_of, market_ctx, request_of}

-- The two statuses that end a command.
abbrev pub Ends : String → Type 0
Ends status = (status ≡ "done") ⊎ (status ≡ "rejected")

-- The status of a result, an exception included.
abbrev pub EndsWell : {S : Type 0} → Attempt S Outcome → Type 0
EndsWell m = Ends (outcome_of m.0).0

module _ {F : Type 0} ⦃f : Float F⦄ (d : Desk F) where
  try_order-EndsWell :
      (id : String) (s : Signal F) (qty : ℤ) (a : Orchestrator F)
      → EndsWell (try_order d id s qty a)
  unfolding try_order
  try_order-EndsWell id s qty a =
      elim (Result-cases (check a.guardrails s qty (portfolio_of a) (market_ctx d.now a))) [
        | inr (x, e) ↦ rw (try_order, e) (inr refl)
        | inl (decision, e) ↦ elim (Bool-cases decision.allow) [
          | inr no_entry ↦ rw (try_order, e, no_entry) (inr refl)
          | inl allow ↦ elim (Result-cases (send_order (request_of id s qty) a).0) [
            | inl (u, e') ↦ rw (try_order, e, allow, e') (inl refl)
            | inr (x, e') ↦ rw (try_order, e, allow, e') (inr refl)
          ]
        ]
      ]

  place_paper_order-EndsWell :
      (id : String) (params : Fields F) (a : Orchestrator F)
      → EndsWell (place_paper_order d id params a)
  unfolding place_paper_order
  place_paper_order-EndsWell id params a = elim (Result-cases (asked_order params a)) [
    | inr (x, e) ↦ rw (place_paper_order, e) (inr refl)
    | inl ((side, symbol, none), e) ↦ rw (place_paper_order, e) (inr refl)
    | inl ((side, symbol, some ltp), e) ↦ elim (Result-cases (asked_qty d params)) [
      | inr (x, e') ↦ rw (place_paper_order, e, e') (inr refl)
      | inl (qty, e') ↦ rw (place_paper_order, e, e') (try_order-EndsWell _ _ qty a)
    ]
  ]

  update_risk_param-EndsWell :
      (params : Fields F) (a : Orchestrator F) → EndsWell (update_risk_param d params a)
  unfolding update_risk_param
  update_risk_param-EndsWell params a = elim (Result-cases (asked_risk d params a.guardrails.r)) [
    | inr (x, e) ↦ rw (update_risk_param, e) (inr refl)
    | inl (r, e) ↦ rw (update_risk_param, e) (inl refl)
  ]

  reload_config-Ends : (a : Orchestrator F) → Ends (reload_config d a).0.0
  unfolding reload_config
  reload_config-Ends a = elim (Result-cases d.reloaded) [
    | inr (x, e) ↦ rw (reload_config, e) (inr refl)
    | inl (r, e) ↦ rw (reload_config, e) (inl refl)
  ]

  resume_agent-EndsWell : (a : Orchestrator F) → EndsWell (resume_agent a)
  unfolding resume_agent
  resume_agent-EndsWell a = ground arith

  if_cases :
      {A : Type 0} (P : A → Type 0) (b : Bool) (m n : A)
      → (b ≡ true → P m)
      → P n
      → P (if b then m else n)
  if_cases P true m n hm hn = hm refl
  if_cases P false m n hm hn = hn

  -- What holds of each kind of command holds of a command.
  pub run_command_cases :
      (P : Attempt (Orchestrator F) Outcome → Type 0) (c : Command F) (a : Orchestrator F)
      → P (ok ("rejected", "unknown command type"), a)
      → P (with_text "halted" (halt_agent (text_or d "reason" "manual halt via MCP" c.params) a))
      → ((c.kind == "resume_agent") ≡ true → P (resume_agent a))
      → P (update_risk_param d c.params a)
      → P (place_paper_order d c.id c.params a)
      → P (ok (reload_config d a).0, (reload_config d a).1)
      → P (run_command d c a)
  unfolding run_command
  run_command_cases P c a refused halts resumes sets orders reloads =
      if_cases P (not (is_allowed c.kind)) _ _ (λ _. refused)
        (if_cases P (c.kind == "halt_agent") _ _ (λ _. halts)
          (if_cases P (c.kind == "resume_agent") _ _ resumes (
            if_cases P (c.kind == "update_risk_param") _ _ (λ _. sets)
              (if_cases P (c.kind == "place_paper_order") _ _ (λ _. orders)
                (if_cases P (c.kind == "reload_config") _ _ (λ _. reloads) refused)))))

  pub run_command-EndsWell : (c : Command F) (a : Orchestrator F) → EndsWell (run_command d c a)
  unfolding halt_agent
  run_command-EndsWell c a =
      run_command_cases EndsWell c a (inr refl) (inl refl) (λ _. resume_agent-EndsWell a)
        (update_risk_param-EndsWell c.params a) (place_paper_order-EndsWell c.id c.params a)
        (reload_config-Ends a)
