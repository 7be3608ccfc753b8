-- ===== src/Backtest/Gate.antt =====
-- backtest/gate.py. The clock, the file and the two formats that the code takes from the standard
-- library (JSON and ISO 8601) are arguments. A failure and a reason keep their text without the
-- numbers put into it.
use pypoc.Prelude.{
  ℕ, String, Bool, true, false, not, Option, none, some, List, [], ◌∷◌, ◌++◌, map, keep,
  if◌then◌else◌, ◌==◌, string_eq, ◌*◌,
}
use pypoc.Prelude.Int.{ℤ, pos, ◌-ℤ◌, leb_ℤ, ltb_ℤ}
use pypoc.Prelude.Json.{
  Json, Items, Fields, null, flag, number, text, array, object, no_items, item, no_fields, field,
  get, texts, text_or_null,
}
use pypoc.Prelude.Result.{Result, Exn, ok, raises, value_error, attribute_error, type_error}
use pypoc.Numbers.{Float}
use pypoc.Types.{microseconds_per_day}
use pypoc.Config.{BacktestGateCfg}

-- backtest/metrics.py
pub record BacktestMetrics (F : Type 0) : Type 0 where
  pub n_trades : ℤ
  pub win_rate_pct : F
  pub profit_factor : F
  pub avg_win : F
  pub avg_loss : F
  pub total_pnl : F
  pub sharpe : F
  pub sortino : F
  pub max_drawdown_pct : F
  pub cagr_pct : F
  pub expectancy : F
  pub starting_equity : F
  pub ending_equity : F
  pub period_days : ℤ

pub record GateThresholdCheck (F : Type 0) : Type 0 where
  pub name : String
  pub actual : F
  pub threshold : F
  pub pass : Bool
  pub direction : String

pub record GateResult (F : Type 0) : Type 0 where
  pub passed : Bool
  pub timestamp : String
  pub period_start : Option String
  pub period_end : Option String
  pub metrics : Json F
  pub checks : List (GateThresholdCheck F)
  pub failures : List String
  pub config : Json F

-- A datetime that `fromisoformat` reads, in microseconds since the epoch of its clock.
pub data Stamp : Type 0 where
  aware : ℤ → Stamp
  naive : ℤ → Stamp

-- What the code takes from the standard library: `isoformat` of an aware time, `fromisoformat` after
-- the replacement of "Z", `json.dumps` and `json.loads`.
pub record Formats (F : Type 0) : Type 0 where
  pub iso_format : ℤ → String
  pub from_iso : String → Result Stamp
  pub dumps : Json F → String
  pub loads : String → Result (Json F)

-- `len(failures) == 0`
abbrev pub is_empty : List String → Bool
is_empty [] = true
is_empty (x ∷ xs) = false

abbrev pub iso_or_none : {F : Type 0} → Formats F → Option ℤ → Option String
iso_or_none fmt none = none
iso_or_none fmt (some t) = some (fmt.iso_format t)

-- A document that is `null` reads as None.
abbrev pub unless_null : {F : Type 0} → Json F → Option (Json F)
unless_null null = none
unless_null j = some j

module _ {F : Type 0} ⦃f : Float F⦄ where
  -- `BacktestMetrics.to_dict`
  abbrev pub metrics_dict : BacktestMetrics F → Json F
  metrics_dict m = object (
      field "n_trades" (number (f.of_int m.n_trades)) (
        field "win_rate_pct" (number m.win_rate_pct) (
          field "profit_factor" (number m.profit_factor) (
            field "avg_win" (number m.avg_win) (
              field "avg_loss" (number m.avg_loss) (
                field "total_pnl" (number m.total_pnl) (
                  field "sharpe" (number m.sharpe) (
                    field "sortino" (number m.sortino) (
                      field "max_drawdown_pct" (number m.max_drawdown_pct) (
                        field "cagr_pct" (number m.cagr_pct) (
                          field "expectancy" (number m.expectancy) (
                            field "starting_equity" (number m.starting_equity) (
                              field "ending_equity" (number m.ending_equity) (
                                field "period_days" (number (f.of_int m.period_days))
                                  no_fields))))))))))))))

  -- `_ge` and `_le`; `ge_int` is `_ge` on two `int`
  abbrev pub ge : String → F → F → GateThresholdCheck F
  ge name actual threshold = record {
    name = name;
    actual = actual;
    threshold = threshold;
    pass = f.le threshold actual;
    direction = "ge";
  }

  abbrev pub ge_int : String → ℤ → ℤ → GateThresholdCheck F
  ge_int name actual threshold = record {
    name = name;
    actual = f.of_int actual;
    threshold = f.of_int threshold;
    pass = leb_ℤ threshold actual;
    direction = "ge";
  }

  abbrev pub le : String → F → F → GateThresholdCheck F
  le name actual threshold = record {
    name = name;
    actual = actual;
    threshold = threshold;
    pass = f.le actual threshold;
    direction = "le";
  }

  abbrev pub gate_checks : BacktestMetrics F → BacktestGateCfg F → List (GateThresholdCheck F)
  gate_checks m cfg =
      ge "sharpe" m.sharpe cfg.min_sharpe
      ∷ le "max_drawdown_pct" m.max_drawdown_pct cfg.max_drawdown_pct
      ∷ ge "win_rate_pct" m.win_rate_pct cfg.min_win_rate
      ∷ ge "profit_factor" m.profit_factor cfg.min_profit_factor
      ∷ ge_int "n_trades" m.n_trades cfg.min_trades
      ∷ []

  -- `walk_forward_years is not None and walk_forward_years < cfg.walk_forward_years`
  abbrev pub is_too_short : Option F → BacktestGateCfg F → Bool
  is_too_short none cfg = false
  is_too_short (some years) cfg = f.lt years (f.of_int cfg.walk_forward_years)

  abbrev pub gate_failures : BacktestMetrics F → BacktestGateCfg F → Option F → List String
  gate_failures m cfg years =
      let missed = map (λ c. c.name) (keep (λ c. not c.pass) (gate_checks m cfg)) in
      if is_too_short years cfg then missed ++ ("walk_forward_years_too_short" ∷ []) else missed

  unfoldable pub evaluate_gate :
      Formats F
      → ℤ
      → BacktestMetrics F
      → BacktestGateCfg F
      → Option ℤ
      → Option ℤ
      → Option F
      → GateResult F
  evaluate_gate fmt now m cfg period_start period_end years = record {
    passed = is_empty (gate_failures m cfg years);
    timestamp = fmt.iso_format now;
    period_start = iso_or_none fmt period_start;
    period_end = iso_or_none fmt period_end;
    metrics = metrics_dict m;
    checks = gate_checks m cfg;
    failures = gate_failures m cfg years;
    config = object (
        field "min_sharpe" (number cfg.min_sharpe) (
          field "max_drawdown_pct" (number cfg.max_drawdown_pct) (
            field "min_win_rate" (number cfg.min_win_rate) (
              field "min_profit_factor" (number cfg.min_profit_factor) (
                field "min_trades" (number (f.of_int cfg.min_trades)) (
                  field "walk_forward_years" (number (f.of_int cfg.walk_forward_years))
                    no_fields))))));
  }

  -- `asdict` of a check and of a list of them
  abbrev pub check_dict : GateThresholdCheck F → Json F
  check_dict c = object (
      field "name" (text c.name) (
        field "actual" (number c.actual) (
          field "threshold" (number c.threshold)
            (field "pass_" (flag c.pass) (field "direction" (text c.direction) no_fields)))))

  abbrev pub check_dicts : List (GateThresholdCheck F) → Items F
  check_dicts [] = no_items
  check_dicts (c ∷ cs) = item (check_dict c) (check_dicts cs)

  -- `GateResult.to_dict`
  unfoldable pub to_dict : GateResult F → Json F
  to_dict r = object (
      field "passed" (flag r.passed) (
        field "timestamp" (text r.timestamp) (
          field "period_start" (text_or_null r.period_start) (
            field "period_end" (text_or_null r.period_end) (
              field "metrics" r.metrics (
                field "checks" (array (check_dicts r.checks)) (
                  field "failures" (array (texts r.failures))
                    (field "config" r.config no_fields))))))))

  -- `write_gate_result`: the text that the file holds.
  unfoldable pub write_gate_result : Formats F → GateResult F → String
  write_gate_result fmt r = fmt.dumps (to_dict r)

  -- `read_gate_result`: no file, a file that cannot be read, or its text.
  unfoldable pub read_gate_result : Formats F → Option (Result String) → Option (Json F)
  read_gate_result fmt none = none
  read_gate_result fmt (some (raises e)) = none
  read_gate_result fmt (some (ok t)) = elim (fmt.loads t) [ raises e ↦ none | ok j ↦ unless_null j ]

  -- `bool(value)`
  abbrev pub truthy : Json F → Bool
  truthy null = false
  truthy (flag b) = b
  truthy (number x) = not (f.is_zero x)
  truthy (text t) = not (t == "")
  truthy (array no_items) = false
  truthy (array (item j js)) = true
  truthy (object no_fields) = false
  truthy (object (field k j d)) = true

  abbrev pub truthy_at : String → Fields F → Bool
  truthy_at key d = elim (get key d) [ none ↦ false | some j ↦ truthy j ]

abbrev pub gate_max_age_days : ℕ
gate_max_age_days = 30

-- The age test on a timestamp that was read: the difference of an aware and a naive time raises.
unfoldable pub age_verdict : ℤ → Stamp → Result (Bool × String)
age_verdict now (aware ts) =
    if ltb_ℤ (pos (30 * microseconds_per_day)) (now -ℤ ts)
    then ok (false, "gate result too old")
    else ok (true, "ok")
age_verdict now (naive ts) = raises type_error

-- `except ValueError`
abbrev pub not_parsed : Exn → Result (Bool × String)
not_parsed value_error = ok (false, "gate timestamp unparseable")
not_parsed e = raises e

module _ {F : Type 0} ⦃f : Float F⦄ where
  -- The test of a timestamp that is not empty: only `ValueError` is caught.
  unfoldable pub stamp_verdict : Formats F → ℤ → Json F → Result (Bool × String)
  stamp_verdict fmt now (text t) = elim (fmt.from_iso t) [
    | ok ts ↦ age_verdict now ts
    | raises e ↦ not_parsed e
  ]
  stamp_verdict fmt now _ = raises attribute_error

  unfoldable pub is_live_allowed : Formats F → ℤ → Option (Result String) → Result (Bool × String)
  is_live_allowed fmt now file = elim (read_gate_result fmt file) [
    | none ↦ ok (false, "no gate result")
    | some j ↦ elim j [
      | object d ↦
          if not (truthy_at "passed" d)
          then ok (false, "gate not passed")
          else elim (get "timestamp" d) [
            | none ↦ ok (true, "ok")
            | some ts ↦ if truthy ts then stamp_verdict fmt now ts else ok (true, "ok")
          ]
      | _ ↦ raises attribute_error
    ]
  ]
