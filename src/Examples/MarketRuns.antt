-- ===== src/Examples/MarketRuns.antt =====
-- Candles, call limits and the gate on short inputs.
use pypoc.Prelude.Dict.{Entries}
use pypoc.Prelude.Int.{pos}
use pypoc.Prelude.Result.{ok, Result, raises, os_error}
use pypoc.Prelude.{
  zero, pair_eq, string_eq, List, [], ◌∷◌, All, ◌≡◌, ℕ, some, refl, true, ◌*◌, ◌+◌, ◌≤◌, ◌/◌, arith,
  leb, length, suc,
}
use pypoc.Numbers.{Micro, micro_float, Micro-IsOrdered}
use pypoc.Market.Candles.Floor.{floor_time-multiple}
use pypoc.Market.Candles.Emission.{ingest_run-emits, ingest_run}
use pypoc.Market.Candles.History.{ingest_all-bounded, ingest_all}
use pypoc.Market.Candles.Ohlc.{IsOhlc}
use pypoc.Market.Candles.{
  CandleAggregator, Bucket, empty_aggregator, floor_time, ingest_one, ingest, history_of, push,
  closed_candle, new_aggregator, check_intervals, max_history,
}
use pypoc.Market.Limits.{nse_retry, reset_breaker, trip_threshold, is_open}
use pypoc.Market.Limits.Attempts.{Settles, nse_retry-Settles}
use pypoc.Market.Limits.Phases.{
  Event, asked, failed, closed, phase, blocks, run_breaker, run_phase, run_breaker-phase,
}
use pypoc.Types.{Tick}
use pypoc.Examples.Data.{rupees, ten_oclock}

floor_time-multiple_example :
    floor_time 36_123_456_789 "5m" ≡ ok (36_123_456_789 / 300_000_000 * 300_000_000)
floor_time-multiple_example = floor_time-multiple 36_123_456_789 "5m" 5 refl

abbrev pub tick_at : ℕ → ℕ → Tick Micro
tick_at seconds price = record {
  symbol = "TCS";
  ltp = rupees price;
  bid = rupees price;
  ask = rupees price;
  volume = pos 10;
  ts = ten_oclock + seconds * 1_000_000;
}

abbrev five : CandleAggregator Micro
five = empty_aggregator ("5m" ∷ [])

-- Three ticks after ten, and one five minutes later.
ingest_run-emits_example :
    let opened = (ingest_one (tick_at 10 100) "5m" five).1 in
    let after = ingest_run (tick_at 70 103 ∷ tick_at 200 99 ∷ []) "5m" opened in
    (b : Bucket Micro) × IsOhlc (tick_at 10 100) (tick_at 70 103 ∷ tick_at 200 99 ∷ []) b
    × (b.bucket_start ≡ ten_oclock)
    × (history_of ("TCS", "5m") (ingest_one (tick_at 310 101) "5m" after).1
        ≡ push (history_of ("TCS", "5m") opened) (closed_candle "TCS" "5m" b))
unfolding floor_time
ingest_run-emits_example =
    ingest_run-emits Micro-IsOrdered "TCS" "5m" ten_oclock (tick_at 10 100)
      (tick_at 70 103 ∷ tick_at 200 99 ∷ []) (tick_at 310 101) (ten_oclock + 300_000_000) five
      (refl, refl) ((refl, refl), ((refl, refl), tt)) (λ b h. absurd (ground arith)) refl refl refl

ingest_all-bounded_example :
    let (r, b) = ingest (tick_at 310 101) (ingest_all (tick_at 10 100 ∷ []) five) in
    (r ≡ ok tt) × Entries (λ _ h. length h ≤ max_history) b.histories
unfolding new_aggregator check_intervals
ingest_all-bounded_example =
    ingest_all-bounded ("5m" ∷ []) five (tick_at 10 100 ∷ []) (tick_at 310 101) refl

-- A call half a second after the last one, and one much later.
abbrev readings : List (Micro × Micro)
readings = (pos 10_500_000, pos 12_000_000) ∷ (pos 20_000_000, pos 20_000_001) ∷ []

-- Two calls raise, the third returns.
abbrev third_time : ℕ → Result ℕ
third_time zero = raises os_error
third_time (suc zero) = raises os_error
third_time (suc (suc n)) = ok 7

nse_retry-Settles_example :
    let (r, sleeps) = nse_retry (pos 3) (rupees 1) third_time in
    Settles third_time 0 3 r (length sleeps)
    × All (λ d. micro_float.le d (micro_float.of_int (pos 30)) ≡ true) sleeps
nse_retry-Settles_example = nse_retry-Settles (rupees 1) third_time Micro-IsOrdered 3

-- Three refusals, and a request half a minute later.
abbrev refusals : List (Event Micro)
refusals =
    failed (some 403) (rupees 1)
    ∷ failed (some 429) (rupees 2)
    ∷ failed (some 500) (rupees 3)
    ∷ failed (some 403) (rupees 4)
    ∷ asked (rupees 34)
    ∷ []

run_breaker-phase_example :
    let b = run_breaker reset_breaker refusals in
    let p = run_phase (closed 0) refusals in
    (phase b ≡ p)
    × ((now : Micro) → (is_open now b).0 ≡ blocks now p)
    × (leb trip_threshold b.consecutive_failures ≡ b.tripped)
run_breaker-phase_example = run_breaker-phase refusals
