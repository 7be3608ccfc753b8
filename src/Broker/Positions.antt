-- ===== src/Broker/Positions.antt =====
-- The internals of `PaperBroker` in core/broker/paper.py: valuation, and the bookkeeping of one
-- position that is opened, grown, reduced or closed.
use pypoc.Prelude.{
  String, Bool, false, Option, none, some, List, [], ◌∷◌, ◌++◌, map, if◌then◌else◌, string_eq,
  nat_beq,
}
use pypoc.Prelude.Int.{ℤ, pos, negsuc, ◌+ℤ◌, ◌-ℤ◌, leb_ℤ}
use pypoc.Prelude.Dict.{Dict, lookup, insert, erase, values}
use pypoc.Prelude.Result.{ok, raises, key_error, zero_division_error}
use pypoc.Numbers.{Float, zero_f, max_f, or_else, sum_f}
use pypoc.Types.{DateTime, Side, buy, sell, is_buy, Position, market_value}
use pypoc.Broker.Charges.{compute_charges, total}
use pypoc.Broker.State.{PaperBroker, TradeRecord, Notice, exited, Outcome, now_of}

-- `n == 0`
abbrev pub is_zero_int : ℤ → Bool
is_zero_int (pos n) = nat_beq n 0
is_zero_int (negsuc n) = false

module _ {F : Type 0} where
  abbrev pub opened : String → ℤ → F → F → Option F → String → DateTime → Position F
  opened symbol qty price stop_loss target strategy at = record {
    symbol = symbol;
    qty = qty;
    avg_price = price;
    stop_loss = stop_loss;
    target = target;
    strategy = strategy;
    opened_at = at;
    last_price = price;
  }

  unfoldable pub open_short : String → ℤ → F → F → Option F → String → PaperBroker F → PaperBroker F
  unfolding now_of
  open_short symbol qty price stop_loss target strategy b = record b {
    short_positions =
        insert symbol (opened symbol qty price stop_loss target strategy (now_of b))
          b.short_positions;
  }

  -- The trade that a close or a cover of `qty` shares records.
  abbrev pub trade :
      PaperBroker F → Position F → String → Side → ℤ → F → F → F → String → TradeRecord F
  trade b p symbol side qty price pnl charges exit_reason = record {
    symbol = symbol;
    side = side;
    qty = qty;
    entry_price = p.avg_price;
    exit_price = price;
    pnl = pnl;
    charges = charges;
    strategy = p.strategy;
    opened_at = p.opened_at;
    closed_at = now_of b;
    exit_reason = exit_reason;
  }

  -- `on_exit`, if it is set
  abbrev pub exit_notices : PaperBroker F → String → F → String → String → List (Notice F)
  exit_notices b symbol pnl exit_reason strategy =
      if b.on_exit then b.notices ++ (exited symbol pnl exit_reason strategy ∷ []) else b.notices

  -- The entry after `qty` shares have left it.
  abbrev pub reduced : String → ℤ → Position F → Dict String (Position F) → Dict String (Position F)
  reduced symbol qty p d =
      if leb_ℤ p.qty qty then erase symbol d else insert symbol (record p { qty = p.qty -ℤ qty }) d

module _ {F : Type 0} ⦃f : Float F⦄ where
  abbrev pub one_f : F
  one_f = f.of_int (pos 1)

  -- `qty * price`
  abbrev pub worth : ℤ → F → F
  worth qty price = f.mul (f.of_int qty) price

  abbrev pub short_pnl : Position F → F
  short_pnl p = f.mul (f.sub p.avg_price p.last_price) (f.of_int p.qty)

  unfoldable pub equity : PaperBroker F → F
  equity b =
      f.add (f.add b.cash (sum_f (map market_value (values b.positions))))
        (sum_f (map short_pnl (values b.short_positions)))

  unfoldable pub buying_power : PaperBroker F → F
  unfolding equity
  buying_power b =
      let lev = or_else b.exec.intraday_leverage one_f in
      let exposure =
        f.add (sum_f (map market_value (values b.positions)))
          (sum_f (map (λ p. f.mul p.avg_price (f.of_int p.qty)) (values b.short_positions))) in
      if f.le lev one_f
      then max_f zero_f b.cash
      else max_f zero_f (f.sub (f.mul (equity b) lev) exposure)

  unfoldable pub apply_slippage : PaperBroker F → F → Side → F
  apply_slippage b ref_price side =
      let bps = f.div b.exec.slippage_bps (f.of_int (pos 10_000)) in
      if is_buy side then f.mul ref_price (f.add one_f bps) else f.mul ref_price (f.sub one_f bps)

  -- The stamp duty of `compute_charges`, if a call does not give it.
  abbrev pub default_stamp_duty : F
  default_stamp_duty = f.ratio 3 1000

  -- The total of `compute_charges` with the settings of the broker and a stamp duty.
  unfoldable pub charges_of : PaperBroker F → Side → ℤ → F → Bool → F → F
  charges_of b side qty fill cover stamp_duty_pct = total (
      compute_charges side qty fill b.exec.brokerage_per_order_inr b.exec.stt_pct
        b.exec.exchange_txn_pct b.exec.gst_pct cover stamp_duty_pct)

  unfoldable pub open_or_add_long :
      String → ℤ → F → F → Option F → String → PaperBroker F → Outcome F (Unit {0})
  unfolding now_of
  open_or_add_long symbol qty price stop_loss target strategy b = elim (lookup symbol b.positions) [
    | none ↦ (
      ok tt,
      record b {
        positions =
            insert symbol (opened symbol qty price stop_loss target strategy (now_of b))
              b.positions;
      },
    )
    | some existing ↦
        let new_qty = existing.qty +ℤ qty in
        let cost =
          f.add (f.mul existing.avg_price (f.of_int existing.qty)) (f.mul price (f.of_int qty)) in
        if is_zero_int new_qty then (raises zero_division_error, b) else (
          ok tt,
          record b {
            positions =
                insert symbol
                  (record existing {
                    avg_price = f.div cost (f.of_int new_qty);
                    qty = new_qty;
                    stop_loss = stop_loss;
                    target = target;
                  })
                  b.positions;
          },
        )
  ]

  unfoldable pub close_long : String → ℤ → F → F → String → PaperBroker F → Outcome F (Unit {0})
  close_long symbol qty price charges exit_reason b = elim (lookup symbol b.positions) [
    | none ↦ (raises key_error, b)
    | some p ↦
        let pnl = f.sub (f.mul (f.sub price p.avg_price) (f.of_int qty)) charges in
        (
          ok tt,
          record b {
            realized_pnl = f.add b.realized_pnl pnl;
            trade_log =
                b.trade_log ++ (trade b p symbol sell qty price pnl charges exit_reason ∷ []);
            notices = exit_notices b symbol pnl exit_reason p.strategy;
            positions = reduced symbol qty p b.positions;
          },
        )
  ]

  unfoldable pub cover_short : String → ℤ → F → F → String → PaperBroker F → Outcome F (Unit {0})
  cover_short symbol qty price charges exit_reason b = elim (lookup symbol b.short_positions) [
    | none ↦ (raises key_error, b)
    | some p ↦
        let pnl = f.sub (f.mul (f.sub p.avg_price price) (f.of_int qty)) charges in
        (
          ok tt,
          record b {
            realized_pnl = f.add b.realized_pnl pnl;
            cash = f.add b.cash (f.add (worth qty p.avg_price) pnl);
            trade_log =
                b.trade_log ++ (trade b p symbol buy qty price pnl charges exit_reason ∷ []);
            notices = exit_notices b symbol pnl exit_reason p.strategy;
            short_positions = reduced symbol qty p b.short_positions;
          },
        )
  ]
