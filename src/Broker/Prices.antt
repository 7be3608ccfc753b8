-- ===== src/Broker/Prices.antt =====
-- The price feed of `PaperBroker` in core/broker/paper.py, with the automatic exits.
use pypoc.Prelude.{
  String, true, false, Option, none, some, List, [], ◌∷◌, ◌++◌, if◌then◌else◌, string_eq,
}
use pypoc.Prelude.Dict.{Dict, lookup, insert, values}
use pypoc.Prelude.Result.{ok}
use pypoc.Numbers.{Float}
use pypoc.Types.{buy, sell, Position}
use pypoc.Broker.State.{PaperBroker, Outcome, then_do, notify_state_change}
use pypoc.Broker.Positions.{
  worth, apply_slippage, charges_of, default_stamp_duty, close_long, cover_short,
}

module _ {F : Type 0} ⦃f : Float F⦄ where
  unfoldable pub auto_exit : Position F → F → String → PaperBroker F → Outcome F (Unit {0})
  unfolding notify_state_change
  auto_exit p exit_price reason b =
      let fill_price = apply_slippage b exit_price sell in
      let charges = charges_of b sell p.qty fill_price false default_stamp_duty in
      then_do (close_long p.symbol p.qty fill_price charges reason b) (λ b'. (
        ok tt,
        notify_state_change
            (record b' { cash = f.add b'.cash (f.sub (worth p.qty fill_price) charges) }),
      ))

  unfoldable pub auto_exit_short : Position F → F → String → PaperBroker F → Outcome F (Unit {0})
  unfolding notify_state_change
  auto_exit_short p exit_price reason b =
      let fill_price = apply_slippage b exit_price buy in
      let charges = charges_of b buy p.qty fill_price true default_stamp_duty in
      then_do (cover_short p.symbol p.qty fill_price charges reason b)
        (λ b'. (ok tt, notify_state_change b'))

  unfoldable pub maybe_exit : Position F → PaperBroker F → Outcome F (Unit {0})
  unfolding auto_exit
  maybe_exit p b =
      if f.le p.last_price p.stop_loss
      then auto_exit p p.stop_loss "stop_loss" b
      else elim p.target [
        | none ↦ (ok tt, b)
        | some t ↦ if f.le t p.last_price then auto_exit p t "target" b else (ok tt, b)
      ]

  unfoldable pub maybe_exit_short : Position F → PaperBroker F → Outcome F (Unit {0})
  unfolding auto_exit_short
  maybe_exit_short p b =
      if f.le p.stop_loss p.last_price
      then auto_exit_short p p.stop_loss "stop_loss" b
      else elim p.target [
        | none ↦ (ok tt, b)
        | some t ↦ if f.le p.last_price t then auto_exit_short p t "target" b else (ok tt, b)
      ]

  unfoldable pub mark_long : String → F → PaperBroker F → Outcome F (Unit {0})
  unfolding maybe_exit
  mark_long symbol px b = elim (lookup symbol b.positions) [
    | none ↦ (ok tt, b)
    | some p ↦
        let marked = record p { last_price = px } in
        maybe_exit marked (record b { positions = insert symbol marked b.positions })
  ]

  unfoldable pub mark_short : String → F → PaperBroker F → Outcome F (Unit {0})
  unfolding maybe_exit_short
  mark_short symbol px b = elim (lookup symbol b.short_positions) [
    | none ↦ (ok tt, b)
    | some p ↦
        let marked = record p { last_price = px } in
        maybe_exit_short marked
          (record b { short_positions = insert symbol marked b.short_positions })
  ]

  -- One round of the loop in `update_market_prices`.
  unfoldable pub update_price : String → F → PaperBroker F → Outcome F (Unit {0})
  unfolding mark_long mark_short
  update_price symbol px b =
      then_do (mark_long symbol px (record b { latest_prices = insert symbol px b.latest_prices }))
        (mark_short symbol px)

  unfoldable pub update_market_prices : Dict String F → PaperBroker F → Outcome F (Unit {0})
  unfolding update_price
  update_market_prices [] b = (ok tt, b)
  update_market_prices ((symbol, px) ∷ prices) b =
      then_do (update_price symbol px b) (update_market_prices prices)

  unfoldable pub get_positions : PaperBroker F → List (Position F)
  get_positions b = values b.positions ++ values b.short_positions

  unfoldable pub get_position : String → PaperBroker F → Option (Position F)
  get_position symbol b = elim (lookup symbol b.positions) [
    | some p ↦ some p
    | none ↦ lookup symbol b.short_positions
  ]
