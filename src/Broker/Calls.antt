-- ===== src/Broker/Calls.antt =====
-- The calls that `PaperBroker` of core/broker/paper.py takes from outside, as steps of its state.
use pypoc.Prelude.{String, List, [], ◌∷◌, string_eq}
use pypoc.Prelude.Int.{ℤ, pos, ◌<ℤ◌}
use pypoc.Prelude.Dict.{Dict}
use pypoc.Numbers.{Float}
use pypoc.Broker.State.{PaperBroker}
use pypoc.Broker.Orders.{Request, place_order, cancel_order, partial_exit}
use pypoc.Broker.Prices.{update_market_prices}

-- A call from outside. `exits` stands for `partial_exit`, `priced` for `update_market_prices`.
pub data Call (F : Type 0) : Type 0 where
  ordered : Request F → Call F
  cancels : String → Call F
  priced : Dict String F → Call F
  exits : String → ℤ → F → String → Call F

module _ {F : Type 0} ⦃f : Float F⦄ where
  -- The state after a call, whether it returns or raises.
  unfoldable pub step : PaperBroker F → Call F → PaperBroker F
  unfolding place_order cancel_order update_market_prices partial_exit
  step b (ordered r) = (place_order r b).1
  step b (cancels id) = (cancel_order id b).1
  step b (priced prices) = (update_market_prices prices b).1
  step b (exits symbol qty price reason) = (partial_exit symbol qty price reason b).1

  unfoldable pub run : PaperBroker F → List (Call F) → PaperBroker F
  unfolding step
  run b [] = b
  run b (c ∷ cs) = run (step b c) cs

  -- Orders are for a positive quantity; the guardrails see to it.
  abbrev pub IsSound : Call F → Type 0
  IsSound (ordered r) = pos 0 <ℤ r.qty
  IsSound _ = Unit
