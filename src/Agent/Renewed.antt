-- ===== src/Agent/Renewed.antt =====
-- What a cycle of core/execution/orchestrator.py renews leaves the broker, the market hours, the halt
-- and the database as they were.
use pypoc.Config.{RiskCfg}
use pypoc.Prelude.{◌≡◌, refl, arith, inl, inr, Bool-cases, string_eq, String, ◌∙◌, ◌==◌}
use pypoc.Prelude.Result.{ok, raises, Result}
use pypoc.Numbers.{Float}
use pypoc.Agent.State.{Orchestrator, execute}
use pypoc.Agent.Days.{maybe_rollover_trade_date, raise_peak, persist_daily_state, save_daily_state}
use pypoc.Agent.Lifecycle.{Pulse, refresh_vix, reload_risk, renewed, is_due, adopted}

module _ {F : Type 0} where
  pub record IsRenewed (a b : Orchestrator F) : Type 0 where
    pub same_broker : b.broker ≡ a.broker
    pub same_hours : b.guardrails.m ≡ a.guardrails.m
    pub same_halt : b.halted ≡ a.halted
    pub same_up : b.store.up ≡ a.store.up

  persist_daily_state-up :
      (td : String) (a : Orchestrator F) → (persist_daily_state td a).store.up ≡ a.store.up
  unfolding persist_daily_state save_daily_state execute
  persist_daily_state-up td a = elim (Bool-cases a.store.up) [
    | inl up ↦ ground arith
    | inr down ↦ ground arith
  ]

  persist_daily_state-IsRenewed :
      (td : String) (a b : Orchestrator F) → IsRenewed a b → IsRenewed a (persist_daily_state td b)
  unfolding persist_daily_state
  persist_daily_state-IsRenewed td a b v =
      let kept = persist_daily_state-up td b in
      let up = v.same_up in
      record {
        same_broker = v.same_broker;
        same_hours = v.same_hours;
        same_halt = v.same_halt;
        same_up = kept ∙ up;
      }

module _ {F : Type 0} ⦃f : Float F⦄ (a : Orchestrator F) where
  rollover-IsRenewed :
      (td : String) (current : F) (b : Orchestrator F)
      → IsRenewed a b
      → IsRenewed a (maybe_rollover_trade_date td current b)
  unfolding maybe_rollover_trade_date
  rollover-IsRenewed td current b v = elim (Bool-cases (td == b.current_trade_date)) [
    | inl same ↦ rw (maybe_rollover_trade_date, same) v
    | inr other ↦
        rw (maybe_rollover_trade_date, other)
          (persist_daily_state-IsRenewed td a _ (record {
            same_broker = v.same_broker;
            same_hours = v.same_hours;
            same_halt = v.same_halt;
            same_up = v.same_up;
          }))
  ]

  raise_peak-IsRenewed :
      (td : String) (current : F) (b : Orchestrator F)
      → IsRenewed a b
      → IsRenewed a (raise_peak td current b)
  unfolding raise_peak
  raise_peak-IsRenewed td current b v = elim (Bool-cases (f.lt b.peak_equity current)) [
    | inr lower ↦ rw (raise_peak, lower) v
    | inl higher ↦
        rw (raise_peak, higher)
          (persist_daily_state-IsRenewed td a _ (record {
            same_broker = v.same_broker;
            same_hours = v.same_hours;
            same_halt = v.same_halt;
            same_up = v.same_up;
          }))
  ]

  refresh_vix-IsRenewed :
      (p : Pulse F) (b : Orchestrator F) → IsRenewed a b → IsRenewed a (refresh_vix p b)
  unfolding refresh_vix
  refresh_vix-IsRenewed p b v = elim (Bool-cases (is_due p.vix_asked b.last_vix_fetch)) [
    | inr early ↦ rw (refresh_vix, early) v
    | inl due ↦
        rw (refresh_vix, due)
          (record {
            same_broker = v.same_broker;
            same_hours = v.same_hours;
            same_halt = v.same_halt;
            same_up = v.same_up;
          })
  ]

  adopted-IsRenewed :
      (r : Result (RiskCfg F)) (b : Orchestrator F) → IsRenewed a b → IsRenewed a (adopted r b)
  adopted-IsRenewed (raises e) b v = v
  adopted-IsRenewed (ok new) b v = record {
    same_broker = v.same_broker;
    same_hours = v.same_hours;
    same_halt = v.same_halt;
    same_up = v.same_up;
  }

  reload_risk-IsRenewed :
      (p : Pulse F) (b : Orchestrator F) → IsRenewed a b → IsRenewed a (reload_risk p b)
  unfolding reload_risk
  reload_risk-IsRenewed p b v =
      let done = adopted-IsRenewed p.settings b v in
      elim (Bool-cases (is_due p.config_asked b.last_config_reload)) [
        | inr early ↦ rw (reload_risk, early) v
        | inl due ↦
            rw (reload_risk, due)
              (record {
                same_broker = done.same_broker;
                same_hours = done.same_hours;
                same_halt = done.same_halt;
                same_up = done.same_up;
              })
      ]

  pub renewed-IsRenewed : (p : Pulse F) (current : F) → IsRenewed a (renewed p current a)
  unfolding renewed
  renewed-IsRenewed p current = reload_risk-IsRenewed p _ (
      refresh_vix-IsRenewed p _ (
        raise_peak-IsRenewed p.trade_date current _ (
          rollover-IsRenewed p.trade_date current _
            (record { same_broker = refl; same_hours = refl; same_halt = refl; same_up = refl }))))
