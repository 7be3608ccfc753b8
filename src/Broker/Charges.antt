-- ===== src/Broker/Charges.antt =====
-- core/broker/charges.py: the charges of one intraday order.
use pypoc.Prelude.{Bool, not, ◌&&◌, if◌then◌else◌}
use pypoc.Prelude.Int.{ℤ, pos}
use pypoc.Numbers.{Float, zero_f, min_f, max_f, percent}
use pypoc.Types.{Side, is_buy}

pub record ChargeBreakdown (F : Type 0) : Type 0 where
  pub brokerage : F
  pub stt : F
  pub exchange_txn : F
  pub gst : F
  pub sebi : F
  pub stamp_duty : F
  pub clearing : F

module _ {F : Type 0} ⦃f : Float F⦄ where
  unfoldable pub total : ChargeBreakdown F → F
  total c =
      f.add
        (f.add (f.add (f.add (f.add (f.add c.brokerage c.stt) c.exchange_txn) c.gst) c.sebi)
          c.stamp_duty)
        c.clearing

  unfoldable pub compute_charges : Side → ℤ → F → F → F → F → F → Bool → F → ChargeBreakdown F
  compute_charges side qty price brokerage_per_order_inr stt_pct exchange_txn_pct gst_pct
        is_short_cover stamp_duty_pct =
      let turnover = f.mul (f.of_int qty) price in
      let capped = min_f brokerage_per_order_inr (f.mul turnover (f.ratio 1 1000)) in
      let brokerage = if f.lt zero_f turnover then max_f capped (f.of_int (pos 5)) else zero_f in
      let stt =
        if not (is_buy side) && not is_short_cover
        then f.mul turnover (percent stt_pct)
        else zero_f in
      let exchange_txn = f.mul turnover (percent exchange_txn_pct) in
      let sebi = f.mul turnover (f.ratio 1 1_000_000) in
      let gst = f.mul (f.add (f.add brokerage exchange_txn) sebi) (percent gst_pct) in
      let stamp_duty = if is_buy side then f.mul turnover (percent stamp_duty_pct) else zero_f in
      record {
        brokerage = brokerage;
        stt = stt;
        exchange_txn = exchange_txn;
        gst = gst;
        sebi = sebi;
        stamp_duty = stamp_duty;
        clearing = zero_f;
      }
