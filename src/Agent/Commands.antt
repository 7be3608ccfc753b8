-- ===== src/Agent/Commands.antt =====
-- `_process_command_queue` of core/execution/orchestrator.py. What Python makes of a JSON value as a
-- text or a number, the settings that are read again, the time and the ids of new orders are
-- arguments. A result keeps its text without what is put into it.
use pypoc.Prelude.Int.{ℤ, pos}
use pypoc.Prelude.{String, not, Option, none, some, List, [], ◌∷◌, if◌then◌else◌, ◌==◌, string_eq}
use pypoc.Prelude.Dict.{lookup}
use pypoc.Prelude.Json.{Json, Fields, flag, number, text, array, object, get}
use pypoc.Prelude.Result.{
  Result, ok, raises, or_raise, value_error, key_error, type_error, Attempt, ◌>>=◌,
}
use pypoc.Numbers.{Float, zero_f}
use pypoc.Types.{DateTime, Side, buy, sell, is_buy, Signal}
use pypoc.Config.{RiskCfg}
use pypoc.Risk.Guardrails.{check}
use pypoc.Queue.{Command, QueueFile, Host, is_allowed, update_status, read_pending}
use pypoc.Agent.State.{Orchestrator}
use pypoc.Agent.Signals.{portfolio_of, market_ctx, request_of, send_order}
use pypoc.Agent.Halts.{halt_agent, resume_agent}

pub record Desk (F : Type 0) : Type 0 where
  pub now : DateTime
  -- the id of the order of a command
  pub ids : String → String
  -- `str(value)`, and `float(text)` and `int(text)`
  pub str : Json F → String
  pub float_of : String → Result F
  pub int_of : String → Result ℤ
  -- `reload_settings(config_path).risk`, and `time.time()` after it
  pub reloaded : Result (RiskCfg F)
  pub reloaded_at : F

-- A status and the text beside it.
abbrev pub Outcome : Type 0
Outcome = String × String

-- A command that raises is rejected.
abbrev pub outcome_of : Result Outcome → Outcome
outcome_of (ok out) = out
outcome_of (raises e) = ("rejected", "error")

module _ {F : Type 0} where
  -- `params[key]`
  abbrev pub required : String → Fields F → Result (Json F)
  required key params = or_raise (get key params) key_error

  abbrev pub text_of : Desk F → Json F → String
  text_of d (text t) = t
  text_of d j = d.str j

  -- `params.get(key, default)`, as a text
  abbrev pub text_or : Desk F → String → String → Fields F → String
  text_or d key default params = elim (get key params) [ none ↦ default | some j ↦ text_of d j ]

  -- `_latest_prices.get(key)`: a list or a dictionary cannot be a key, and no other value but a text
  -- is one
  abbrev pub price_at : Json F → Orchestrator F → Result (Option F)
  price_at (text t) a = ok (lookup t a.broker.latest_prices)
  price_at (array js) a = raises type_error
  price_at (object d) a = raises type_error
  price_at _ a = ok none

  abbrev pub side_of : Json F → Side
  side_of (text t) = if t == "BUY" then buy else sell
  side_of _ = sell

  -- `setattr(self.s.risk, param, value)`: pydantic refuses a name that is no field
  unfoldable pub set_risk : String → F → RiskCfg F → Result (RiskCfg F)
  set_risk param v r =
      if param == "per_trade_risk_pct"
      then ok (record r { per_trade_risk_pct = v })
      else if param == "max_position_pct"
      then ok (record r { max_position_pct = v })
      else if param == "max_open_positions"
      then ok (record r { max_open_positions = v })
      else if param == "daily_loss_circuit_pct"
      then ok (record r { daily_loss_circuit_pct = v })
      else if param == "drawdown_circuit_pct"
      then ok (record r { drawdown_circuit_pct = v })
      else if param == "liquidity_max_pct_of_adv"
      then ok (record r { liquidity_max_pct_of_adv = v })
      else if param == "max_spread_pct"
      then ok (record r { max_spread_pct = v })
      else if param == "black_swan_nifty_move_pct"
      then ok (record r { black_swan_nifty_move_pct = v })
      else if param == "black_swan_vix_jump_pct"
      then ok (record r { black_swan_vix_jump_pct = v })
      else if param == "stale_tick_seconds"
      then ok (record r { stale_tick_seconds = v })
      else raises value_error

  -- The settings are shared with the guardrails.
  abbrev pub with_risk : RiskCfg F → Orchestrator F → Orchestrator F
  with_risk r a = record a { guardrails = record a.guardrails { r = r } }

  unfoldable pub reload_config : Desk F → Orchestrator F → Outcome × Orchestrator F
  reload_config d a = elim d.reloaded [
    | raises e ↦ (("rejected", "reload failed"), a)
    | ok new ↦ (
      ("done", "config reloaded"),
      record (with_risk
          (record a.guardrails.r {
            per_trade_risk_pct = new.per_trade_risk_pct;
            max_open_positions = new.max_open_positions;
            daily_loss_circuit_pct = new.daily_loss_circuit_pct;
            drawdown_circuit_pct = new.drawdown_circuit_pct;
          })
          a) { last_config_reload = d.reloaded_at },
    )
  ]

module _ {F : Type 0} ⦃f : Float F⦄ where
  -- `float(value)` and `int(value)`
  abbrev pub to_float : Desk F → Json F → Result F
  to_float d (number x) = ok x
  to_float d (text t) = d.float_of t
  to_float d (flag b) = ok (if b then f.of_int (pos 1) else zero_f)
  to_float d _ = raises type_error

  abbrev pub to_int : Desk F → Json F → Result ℤ
  to_int d (number x) = ok (f.trunc x)
  to_int d (text t) = d.int_of t
  to_int d (flag b) = ok (if b then pos 1 else pos 0)
  to_int d _ = raises type_error

  unfoldable pub asked_risk : Desk F → Fields F → RiskCfg F → Result (RiskCfg F)
  asked_risk d params r = do
    param ← required "param" params
    v ← required "value" params
    value ← to_float d v
    set_risk (text_of d param) value r

  unfoldable pub update_risk_param :
      Desk F → Fields F → Orchestrator F → Attempt (Orchestrator F) Outcome
  update_risk_param d params a = elim (asked_risk d params a.guardrails.r) [
    | raises e ↦ (raises e, a)
    | ok r ↦ (ok ("done", "set"), with_risk r a)
  ]

  -- The signal of an order by hand: the stop two percent and the target four percent away.
  abbrev pub manual_signal : Desk F → String → Side → F → String → Orchestrator F → Signal F
  manual_signal d symbol side ltp strategy a = record {
    symbol = symbol;
    side = side;
    strategy = strategy;
    regime = a.current_regime;
    entry_price = ltp;
    stop_loss = f.mul ltp (if is_buy side then f.ratio 98 100 else f.ratio 102 100);
    target = f.mul ltp (if is_buy side then f.ratio 104 100 else f.ratio 96 100);
    confidence = f.ratio 1 1;
    rationale = "manual MCP order";
    ts = d.now;
  }

  -- What follows once price and quantity are known.
  unfoldable pub try_order :
      Desk F → String → Signal F → ℤ → Orchestrator F → Attempt (Orchestrator F) Outcome
  try_order d id s qty a = elim (check a.guardrails s qty (portfolio_of a) (market_ctx d.now a)) [
    | raises e ↦ (raises e, a)
    | ok decision ↦
        if decision.allow
        then (let m = send_order (request_of id s qty) a in
            (elim m.0 [ ok _ ↦ ok ("done", "order") | raises e ↦ raises e ], m.1))
        else (ok ("rejected", "guardrail blocked"), a)
  ]

  -- The side, the symbol and its price, as the command asks.
  unfoldable pub asked_order : Fields F → Orchestrator F → Result (Side × Json F × Option F)
  asked_order params a = do
    side ← required "side" params
    symbol ← required "symbol" params
    ltp ← price_at symbol a
    ok (side_of side, symbol, ltp)

  unfoldable pub asked_qty : Desk F → Fields F → Result ℤ
  asked_qty d params = required "qty" params >>= to_int d

  unfoldable pub place_paper_order :
      Desk F → String → Fields F → Orchestrator F → Attempt (Orchestrator F) Outcome
  place_paper_order d id params a = elim (asked_order params a) [
    | raises e ↦ (raises e, a)
    | ok (side, symbol, none) ↦ (ok ("rejected", "no market price"), a)
    | ok (side, symbol, some ltp) ↦ elim (asked_qty d params) [
      | raises e ↦ (raises e, a)
      | ok qty ↦
          let strategy = text_or d "strategy" "manual" params in
          try_order d (d.ids id) (manual_signal d (text_of d symbol) side ltp strategy a) qty a
    ]
  ]

  abbrev pub with_text : String → String × Orchestrator F → Attempt (Orchestrator F) Outcome
  with_text result m = (ok (m.0, result), m.1)

  -- One command, by its type.
  unfoldable pub run_command :
      Desk F → Command F → Orchestrator F → Attempt (Orchestrator F) Outcome
  run_command d c a =
      if not (is_allowed c.kind)
      then (ok ("rejected", "unknown command type"), a)
      else if c.kind == "halt_agent"
      then with_text "halted" (halt_agent (text_or d "reason" "manual halt via MCP" c.params) a)
      else if c.kind == "resume_agent"
      then resume_agent a
      else if c.kind == "update_risk_param"
      then update_risk_param d c.params a
      else if c.kind == "place_paper_order"
      then place_paper_order d c.id c.params a
      else if c.kind == "reload_config"
      then (let m = reload_config d a in (ok m.0, m.1))
      else (ok ("rejected", "unknown command type"), a)

  unfoldable pub process_commands :
      Desk F → List (Command F) → Orchestrator F × QueueFile F → Orchestrator F × QueueFile F
  process_commands d [] (a, file) = (a, file)
  process_commands d (c ∷ cs) (a, file) =
      let m = run_command d c a in
      let out = outcome_of m.0 in
      process_commands d cs
        (m.1, update_status c.id out.0 out.1 (update_status c.id "processing" "" file))

  unfoldable pub process_command_queue :
      Desk F → Host F → Orchestrator F × QueueFile F → Orchestrator F × QueueFile F
  process_command_queue d s (a, file) =
      let p = read_pending s file in process_commands d p.0 (a, p.1)
