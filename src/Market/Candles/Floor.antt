-- ===== src/Market/Candles/Floor.antt =====
-- The start of a bucket in core/data/aggregator.py.
use pypoc.Prelude.{ℕ, ◌*◌, ◌-◌, ◌/◌, ◌%◌, ◌≡◌, ap, ◌⊎◌, inl, inr, String, some, string_eq, arith}
use pypoc.Prelude.Dict.{lookup}
use pypoc.Prelude.Result.{ok}
use pypoc.Types.{DateTime, microseconds_per_minute}
use pypoc.Market.Candles.{interval_map, floor_time}

interval_map_cases :
    (interval : String) (minutes : ℕ)
    → lookup interval interval_map ≡ some minutes
    → (minutes ≡ 1) ⊎ ((minutes ≡ 5) ⊎ (minutes ≡ 15))
interval_map_cases interval minutes h = ground arith

floored_by : ℕ → ℕ → ℕ
floored_by ts minutes =
    ts
    - ts % microseconds_per_minute
    - ts / microseconds_per_minute % 60 % minutes * microseconds_per_minute

floor_one : (ts : ℕ) → floored_by ts 1 ≡ ts / 60_000_000 * 60_000_000
unfolding floored_by
floor_one ts = omega arith

floor_five : (ts : ℕ) → floored_by ts 5 ≡ ts / 300_000_000 * 300_000_000
unfolding floored_by
floor_five ts = omega arith

floor_fifteen : (ts : ℕ) → floored_by ts 15 ≡ ts / 900_000_000 * 900_000_000
unfolding floored_by
floor_fifteen ts = omega arith

-- For each supported interval the start of a tick's bucket is the time rounded down to a multiple of
-- the interval's length since midnight.
pub floor_time-multiple :
    (ts : DateTime) (interval : String) (minutes : ℕ)
    → lookup interval interval_map ≡ some minutes
    → let w = minutes * microseconds_per_minute in floor_time ts interval ≡ ok (ts / w * w)
unfolding floor_time floored_by
floor_time-multiple ts interval minutes h = elim (interval_map_cases interval minutes h) [
  | inl e ↦ rw (h, floor_time, e) (ap ok (floor_one ts))
  | inr (inl e) ↦ rw (h, floor_time, e) (ap ok (floor_five ts))
  | inr (inr e) ↦ rw (h, floor_time, e) (ap ok (floor_fifteen ts))
]
