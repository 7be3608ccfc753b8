-- ===== src/Backtest/Live.antt =====
-- When backtest/gate.py lets live trading start.
use pypoc.Prelude.{
  ◌≡◌, refl, ◌↔◌, String, Bool, true, false, Option, some, arith, inl, inr, Bool-cases, string_eq,
  ◌==◌, ◌==◌, ◌*◌, if◌then◌else◌, ◌∙◌,
}
use pypoc.Prelude.Int.{ℤ, pos, ◌-ℤ◌, ◌≤ℤ◌, leb_ℤ, ltb_ℤ}
use pypoc.Prelude.Result.{Result, ok}
use pypoc.Numbers.{Float}
use pypoc.Types.{microseconds_per_day}
use pypoc.Config.{BacktestGateCfg}
use pypoc.Backtest.Gate.{
  BacktestMetrics, GateResult, Formats, aware, evaluate_gate, is_too_short, to_dict,
  write_gate_result, read_gate_result, is_live_allowed, stamp_verdict, age_verdict,
}

-- The verdict on a gate result of some age.
abbrev verdict_at : Bool → ℤ → Result (Bool × String)
verdict_at true age =
    if ltb_ℤ (pos (30 * microseconds_per_day)) age
    then ok (false, "gate result too old")
    else ok (true, "ok")
verdict_at false age = ok (false, "gate not passed")

verdict_iff :
    (passed : Bool) (M : Type 0)
    → ((passed ≡ true) ↔ M)
    → (age : ℤ)
    → (allowed : Bool) × (why : String) × (verdict_at passed age ≡ ok (allowed, why))
      × ((allowed ≡ true) ↔ (M × (age ≤ℤ pos (30 * microseconds_per_day))))
verdict_iff true M meets age = elim (Bool-cases (ltb_ℤ (pos (30 * microseconds_per_day)) age)) [
  | inl old ↦ (
    false,
    "gate result too old",
    rw old refl,
    ((λ h. absurd (ground arith)), (λ h. let le = h.1 in absurd (ground arith))),
  )
  | inr fresh ↦ (true, "ok", rw fresh refl, ((λ h. (meets.0 refl, ground arith)), (λ h. refl)))
]
verdict_iff false M meets age = (
  false,
  "gate not passed",
  refl,
  ((λ h. absurd (ground arith)), (λ h. let e = meets.1 h.0 in absurd (ground arith))),
)

module _ {F : Type 0} ⦃f : Float F⦄ where
  -- Every threshold is met, and the walk-forward run, if its length is given, is long enough.
  abbrev pub MeetsGate : BacktestMetrics F → BacktestGateCfg F → Option F → Type 0
  MeetsGate m cfg years =
      (f.le cfg.min_sharpe m.sharpe ≡ true)
      × (f.le m.max_drawdown_pct cfg.max_drawdown_pct ≡ true)
      × (f.le cfg.min_win_rate m.win_rate_pct ≡ true)
      × (f.le cfg.min_profit_factor m.profit_factor ≡ true)
      × (leb_ℤ cfg.min_trades m.n_trades ≡ true)
      × (is_too_short years cfg ≡ false)

  -- The gate passes exactly if every metric meets its threshold and the walk-forward run was not too
  -- short.
  pub evaluate_gate-MeetsGate :
      (fmt : Formats F) (now : ℤ) (m : BacktestMetrics F) (cfg : BacktestGateCfg F)
      (period_start period_end : Option ℤ) (years : Option F)
      → ((evaluate_gate fmt now m cfg period_start period_end years).passed ≡ true)
        ↔ MeetsGate m cfg years
  unfolding evaluate_gate
  evaluate_gate-MeetsGate fmt now m cfg period_start period_end years = ground arith

  -- What the code relies on in the formats of the standard library, for a result of some time: the
  -- document that was dumped loads as what it was, and the time that was formatted is not empty and
  -- reads as that time, with its zone.
  pub record AreFaithful (fmt : Formats F) (r : GateResult F) (made : ℤ) : Type 0 where
    pub loads-dumps : fmt.loads (fmt.dumps (to_dict r)) ≡ ok (to_dict r)
    pub from_iso-format : fmt.from_iso (fmt.iso_format made) ≡ ok (aware made)
    pub format_some : (fmt.iso_format made == "") ≡ false

  read-write :
      (fmt : Formats F) (r : GateResult F) (made : ℤ)
      → AreFaithful fmt r made
      → read_gate_result fmt (some (ok (write_gate_result fmt r))) ≡ some (to_dict r)
  unfolding read_gate_result write_gate_result to_dict
  read-write fmt r made faithful = rw (read_gate_result, faithful.loads-dumps) refl

  is_live_allowed-read :
      (fmt : Formats F) (made now : ℤ) (r : GateResult F)
      → AreFaithful fmt r made
      → r.timestamp ≡ fmt.iso_format made
      → is_live_allowed fmt now (some (ok (write_gate_result fmt r)))
        ≡ verdict_at r.passed (now -ℤ made)
  unfolding is_live_allowed to_dict stamp_verdict age_verdict
  is_live_allowed-read fmt made now r faithful at =
      rw (read-write fmt r made faithful, is_live_allowed)
        (ground (arith, at, faithful.format_some, faithful.from_iso-format))

  -- After a gate result has been evaluated at one time and written to the file, live trading is
  -- allowed at another time exactly if every metric met its threshold, the walk-forward run, if its
  -- length was given, was not too short, and the result is at most thirty days old; and the question
  -- does not raise, if the formats of the standard library read back what they wrote.
  pub is_live_allowed-write :
      (fmt : Formats F) (made now : ℤ) (m : BacktestMetrics F) (cfg : BacktestGateCfg F)
      (period_start period_end : Option ℤ) (years : Option F)
      → let r = evaluate_gate fmt made m cfg period_start period_end years in
        AreFaithful fmt r made
        → (allowed : Bool) × (why : String) × (is_live_allowed fmt now
              (some (ok (write_gate_result fmt r)))
            ≡ ok (allowed, why))
          × ((allowed ≡ true)
              ↔ (MeetsGate m cfg years × (now -ℤ made ≤ℤ pos (30 * microseconds_per_day))))
  unfolding evaluate_gate
  is_live_allowed-write fmt made now m cfg period_start period_end years faithful =
      let r = evaluate_gate fmt made m cfg period_start period_end years in
      let same = is_live_allowed-read fmt made now r faithful refl in
      let meets = evaluate_gate-MeetsGate fmt made m cfg period_start period_end years in
      let (allowed, why, verdict, iff) =
        verdict_iff r.passed (MeetsGate m cfg years) meets (now -ℤ made) in
      (allowed, why, same ∙ verdict, iff)
