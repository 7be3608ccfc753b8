-- ===== src/Agent/Guarded.antt =====
-- No signal reaches the broker past the guardrails (core/execution/orchestrator.py).
use pypoc.Prelude.{String, ◌≡◌, refl, ◌⊎◌, inl, inr, true, Bool-cases}
use pypoc.Prelude.Int.{ℤ}
use pypoc.Prelude.Result.{ok, Result-cases, and_then_cases}
use pypoc.Numbers.{Float}
use pypoc.Types.{DateTime, Signal}
use pypoc.Risk.Sizing.{position_size}
use pypoc.Risk.Guardrails.{GuardrailDecision, check}
use pypoc.Risk.Guardrails.SafeOrder.{IsSafe}
use pypoc.Risk.Guardrails.Safe.{check-IsSafe}
use pypoc.Broker.Positions.{equity}
use pypoc.Broker.Orders.{place_order, Request}
use pypoc.Agent.State.{Orchestrator}
use pypoc.Agent.Signals.{
  act_on, handle_signal, portfolio_of, market_ctx, request_of, send_order, record_signal,
  signal_row, with_store,
}

pub send_order-broker :
    {F : Type 0} ⦃f : Float F⦄ (r : Request F) (a : Orchestrator F)
    → (send_order r a).1.broker ≡ (place_order r a.broker).1
unfolding send_order
send_order-broker r a = elim (Result-cases (place_order r a.broker).0) [
  | inl (o, e) ↦ rw (e, send_order) refl
  | inr (x, e) ↦ rw (e, send_order) refl
]

module _ {F : Type 0} ⦃f : Float F⦄ (id : String) (now : DateTime) (s : Signal F)
    (a : Orchestrator F) where
  -- The order that the signal is sized to.
  abbrev pub IsSized : ℤ → Type 0
  IsSized qty =
      position_size (equity a.broker) a.guardrails.r.per_trade_risk_pct s
        a.guardrails.r.max_position_pct
      ≡ ok qty

  act_on-broker :
      (qty : ℤ) (d : GuardrailDecision F)
      → ((act_on id s qty d a).1.broker ≡ a.broker)
        ⊎ ((d.allow ≡ true)
            × ((act_on id s qty d a).1.broker ≡ (place_order (request_of id s qty) a.broker).1))
  unfolding act_on
  act_on-broker qty d =
      and_then_cases
        (λ m.
          (m.1.broker ≡ a.broker)
          ⊎ ((d.allow ≡ true) × (m.1.broker ≡ (place_order (request_of id s qty) a.broker).1)))
        (with_store a (record_signal (signal_row s d) a.store)) _ (λ e. inl refl)
        (elim (Bool-cases d.allow) [
          | inl allowed ↦ rw allowed (inr (refl, send_order-broker (request_of id s qty) _))
          | inr rejected ↦ rw rejected (inl refl)
        ])

  -- A signal leaves the broker as it was, or it was sized, the order of that size is safe in the
  -- sense of the guardrails at that time, and the broker is the one after the order was placed.
  pub handle_signal-IsSafe :
      ((handle_signal id now s a).1.broker ≡ a.broker)
      ⊎ ((qty : ℤ) × IsSized qty
          × IsSafe a.guardrails s qty (portfolio_of a) (market_ctx now a)
          × ((handle_signal id now s a).1.broker ≡ (place_order (request_of id s qty) a.broker).1))
  unfolding handle_signal
  handle_signal-IsSafe =
      elim (Result-cases (
        position_size (equity a.broker) a.guardrails.r.per_trade_risk_pct s
          a.guardrails.r.max_position_pct)) [
            | inr (x, e) ↦ rw (e, handle_signal) (inl refl)
            | inl (qty, e) ↦
                elim (Result-cases (check a.guardrails s qty (portfolio_of a) (market_ctx now a))) [
                  | inr (x, e') ↦ rw (e, handle_signal, e') (inl refl)
                  | inl (d, e') ↦ elim (act_on-broker qty d) [
                    | inl same ↦ rw (e, handle_signal, e') (inl same)
                    | inr (allowed, placed) ↦
                        let safe =
                          (check-IsSafe a.guardrails s qty (portfolio_of a) (market_ctx now a)).0
                            (rw e' allowed) in
                        rw (e, handle_signal, e') (inr (qty, refl, safe, placed))
                  ]
                ]
          ]
