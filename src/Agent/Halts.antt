-- ===== src/Agent/Halts.antt =====
-- The circuits of core/execution/orchestrator.py, which halt the agent, and the commands that halt
-- and resume it.
use pypoc.Prelude.{zero, suc, ℕ, String, true, false, ◌&&◌, not, [], ◌∷◌, if◌then◌else◌, ℕ, suc}
use pypoc.Prelude.Int.{pos}
use pypoc.Prelude.Result.{Result, ok, raises, zero_division_error}
use pypoc.Numbers.{Float, zero_f}
use pypoc.Risk.Guardrails.{text, template, change_pct, drawdown_pct}
use pypoc.Broker.Positions.{equity}
use pypoc.Agent.State.{Orchestrator}

-- `s[:n]`
unfoldable pub take_chars : ℕ → String → String
take_chars zero t = ""
take_chars (suc n) String.[] = ""
take_chars (suc n) (String.◌∷◌ c t) = String.◌∷◌ c (take_chars n t)

module _ {F : Type 0} ⦃f : Float F⦄ where
  -- `pct / 2.0`
  abbrev pub half : F → F
  half pct = f.div pct (f.of_int (pos 2))

  abbrev pub day_pnl_pct : Orchestrator F → F
  day_pnl_pct a = change_pct a.starting_equity_today (equity a.broker)

  abbrev pub dd_pct : Orchestrator F → F
  dd_pct a = drawdown_pct a.peak_equity (equity a.broker)

  -- The daily loss: its warning, and its circuit.
  unfoldable pub check_day : Orchestrator F → Orchestrator F
  check_day a =
      let day = day_pnl_pct a in
      let circuit = a.guardrails.r.daily_loss_circuit_pct in
      let warned = record a {
        daily_loss_warning =
            if f.lt day (f.neg (half circuit)) && not a.daily_loss_warning
            then true
            else if f.le (f.neg (half circuit)) day
            then false
            else a.daily_loss_warning;
      } in
      if f.lt day (f.neg circuit)
      then record warned {
        halted = true;
        halt_reason = template "daily loss circuit hit ({day_pnl_pct}%)" (day ∷ []);
        daily_loss_warning = false;
      }
      else warned

  -- The drawdown: its warning, and its circuit.
  unfoldable pub check_drawdown : Orchestrator F → Orchestrator F
  check_drawdown a =
      let dd = dd_pct a in
      let circuit = a.guardrails.r.drawdown_circuit_pct in
      let warned = record a {
        drawdown_warning =
            if f.lt (half circuit) dd && not a.drawdown_warning
            then true
            else if f.le dd (half circuit)
            then false
            else a.drawdown_warning;
      } in
      if f.lt circuit dd
      then record warned {
        halted = true;
        halt_reason = template "drawdown circuit hit ({dd_pct}%)" (dd ∷ []);
        drawdown_warning = false;
      }
      else warned

  unfoldable pub check_global_halts : Orchestrator F → Orchestrator F
  check_global_halts a =
      if a.halted
      then a
      else let after = if f.lt zero_f a.starting_equity_today then check_day a else a in
        if f.lt zero_f a.peak_equity then check_drawdown after else after

  -- The command `halt_agent`, with the status that it leaves, and `resume_agent`, with its status and
  -- the text beside it.
  unfoldable pub halt_agent : String → Orchestrator F → String × Orchestrator F
  halt_agent reason a =
      ("done", record a { halted = true; halt_reason = text (take_chars 200 reason) })

  unfoldable pub resume_agent : Orchestrator F → Result (String × String) × Orchestrator F
  resume_agent a =
      if f.is_zero a.starting_equity_today
      then (raises zero_division_error, a)
      else if f.lt (day_pnl_pct a) (f.neg a.guardrails.r.daily_loss_circuit_pct)
      then (ok ("rejected", "daily loss circuit still active"), a)
      else (ok ("done", "resumed"), record a { halted = false; halt_reason = text "" })
