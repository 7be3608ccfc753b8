-- ===== src/Market/Candles.antt =====
-- core/data/aggregator.py: `CandleAggregator`. A call of a listener is kept as a notice with the
-- listener's place in the list; what it raises is swallowed.
pub mod Floor
pub mod Ohlc
pub mod Emission
pub mod History
use pypoc.Prelude.{
  ℕ, zero, suc, ◌*◌, ◌-◌, ◌/◌, ◌%◌, String, Bool, true, false, Option, none, some, List, [], ◌∷◌,
  ◌++◌, map, length, ltb, nat_beq, if◌then◌else◌, ◌==◌, string_eq, pair_eq,
}
use pypoc.Prelude.Int.{ℤ}
use pypoc.Prelude.Dict.{Dict, lookup, insert}
use pypoc.Prelude.Result.{Result, ok, raises, value_error, key_error, or_raise, Attempt, and_then}
use pypoc.Numbers.{Float, max_f, min_f}
use pypoc.Types.{DateTime, microseconds_per_minute, Tick, Candle}

-- `INTERVAL_MAP`, in minutes
abbrev pub interval_map : Dict String ℕ
interval_map = ("1m", 1) ∷ ("5m", 5) ∷ ("15m", 15) ∷ []

pub record Bucket (F : Type 0) : Type 0 where
  pub opening : F
  pub high : F
  pub low : F
  pub close : F
  pub volume : ℤ
  pub bucket_start : DateTime

-- A symbol and an interval.
abbrev pub Key : Type 0
Key = String × String

pub record CandleAggregator (F : Type 0) : Type 0 where
  pub intervals : List String
  pub buckets : Dict Key (Bucket F)
  -- the number of listeners, and the calls they had
  pub listeners : ℕ
  pub heard : List (ℕ × Candle F)
  pub histories : Dict Key (List (Candle F))

abbrev pub max_history : ℕ
max_history = 500

-- `append` on a deque with `maxlen=500`
unfoldable pub push {ℓ} : {A : Type ℓ} → List A → A → List A
push [] x = x ∷ []
push (y ∷ ys) x = if ltb (length (y ∷ ys)) max_history then (y ∷ ys) ++ (x ∷ []) else ys ++ (x ∷ [])

-- `_floor`: seconds and microseconds are dropped, and the minutes past a multiple.
unfoldable pub floor_time : DateTime → String → Result DateTime
floor_time ts interval = elim (lookup interval interval_map) [
  | none ↦ raises key_error
  | some minutes ↦
      let floored = ts - ts % microseconds_per_minute in
      let minute = ts / microseconds_per_minute % 60 in
      ok (floored - minute % minutes * microseconds_per_minute)
]

unfoldable pub check_intervals : List String → Result (Unit {0})
check_intervals [] = ok tt
check_intervals (i ∷ is) = elim (lookup i interval_map) [
  | none ↦ raises value_error
  | some _ ↦ check_intervals is
]

module _ {F : Type 0} where
  -- An aggregator that has taken no tick.
  abbrev pub empty_aggregator : List String → CandleAggregator F
  empty_aggregator intervals = record {
    intervals = intervals;
    buckets = [];
    listeners = 0;
    heard = [];
    histories = [];
  }

  unfoldable pub new_aggregator : List String → Result (CandleAggregator F)
  new_aggregator intervals = elim (check_intervals intervals) [
    | raises e ↦ raises e
    | ok _ ↦ ok (empty_aggregator intervals)
  ]

  unfoldable pub on_candle : CandleAggregator F → CandleAggregator F
  on_candle a = record a { listeners = suc a.listeners }

  -- `self._history[key]` of a `defaultdict`
  abbrev pub history_of : Key → CandleAggregator F → List (Candle F)
  history_of key a = elim (lookup key a.histories) [ none ↦ [] | some h ↦ h ]

  -- `history`: reading a key that is missing makes an empty entry.
  unfoldable pub history :
      String → String → CandleAggregator F → List (Candle F) × CandleAggregator F
  history symbol interval a =
      let key : Key = (symbol, interval) in
      (history_of key a, record a { histories = insert key (history_of key a) a.histories })

  -- The candle of a bucket that is closed.
  abbrev pub closed_candle : String → String → Bucket F → Candle F
  closed_candle symbol interval b = record {
    symbol = symbol;
    interval = interval;
    opening = b.opening;
    high = b.high;
    low = b.low;
    close = b.close;
    volume = b.volume;
    ts = b.bucket_start;
  }

  -- The calls of the listeners, from the one at `i`, `n` of them.
  unfoldable pub notify : ℕ → ℕ → Candle F → List (ℕ × Candle F)
  notify i zero candle = []
  notify i (suc n) candle = (i, candle) ∷ notify (suc i) n candle

  unfoldable pub emit : String → String → Bucket F → CandleAggregator F → CandleAggregator F
  emit symbol interval b a =
      let candle = closed_candle symbol interval b in
      let key : Key = (symbol, interval) in
      record a {
        histories = insert key (push (history_of key a) candle) a.histories;
        heard = a.heard ++ notify 0 a.listeners candle;
      }

  -- The bucket that the first tick opens.
  abbrev pub first_bucket : Tick F → DateTime → Bucket F
  first_bucket tick bucket_start = record {
    opening = tick.ltp;
    high = tick.ltp;
    low = tick.ltp;
    close = tick.ltp;
    volume = tick.volume;
    bucket_start = bucket_start;
  }

module _ {F : Type 0} ⦃f : Float F⦄ where
  -- What a further tick makes of its bucket.
  abbrev pub grown : Bucket F → Tick F → Bucket F
  grown b tick = record b {
    high = max_f b.high tick.ltp;
    low = min_f b.low tick.ltp;
    close = tick.ltp;
    volume = tick.volume;
  }

  -- `_ingest_one`, once the start of the tick's bucket is known
  unfoldable pub ingest_at : DateTime → Tick F → String → CandleAggregator F → CandleAggregator F
  ingest_at bucket_start tick interval a =
      let key : Key = (tick.symbol, interval) in
      let opened = first_bucket tick bucket_start in
      elim (lookup key a.buckets) [
        | none ↦ record a { buckets = insert key opened a.buckets }
        | some b ↦
            if nat_beq b.bucket_start bucket_start
            then record a { buckets = insert key (grown b tick) a.buckets }
            else let emitted = emit tick.symbol interval b a in
              record emitted { buckets = insert key opened emitted.buckets }
      ]

  unfoldable pub ingest_one :
      Tick F → String → CandleAggregator F → Attempt (CandleAggregator F) (Unit {0})
  ingest_one tick interval a = elim (floor_time tick.ts interval) [
    | raises e ↦ (raises e, a)
    | ok bucket_start ↦ (ok tt, ingest_at bucket_start tick interval a)
  ]

  -- `ingest`, over the intervals that are left
  unfoldable pub ingest_each :
      List String → Tick F → CandleAggregator F → Attempt (CandleAggregator F) (Unit {0})
  ingest_each [] tick a = (ok tt, a)
  ingest_each (i ∷ is) tick a = and_then (ingest_one tick i a) (ingest_each is tick)

  unfoldable pub ingest : Tick F → CandleAggregator F → Attempt (CandleAggregator F) (Unit {0})
  ingest tick a = ingest_each a.intervals tick a
