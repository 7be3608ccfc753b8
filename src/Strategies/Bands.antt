-- ===== src/Strategies/Bands.antt =====
-- `supertrend_bands` of core/strategies/indicators.py: the loop over the bars.
use pypoc.Prelude.{List, ◌∷◌, [], if◌then◌else◌, ◌||◌, ◌-◌, ℕ, drop_last, ltb, suc, drop, take}
use pypoc.Prelude.Int.{ℤ, pos, negsuc}
use pypoc.Numbers.{Float}
use pypoc.Types.{Candle}
use pypoc.Strategies.Frame.{Pandas, closes}
use pypoc.Strategies.Indicators.{true_range}

-- One bar: its band before it is tightened, its range and its close.
pub record Bar (F : Type 0) : Type 0 where
  pub upper_band : F
  pub lower_band : F
  pub atr : F
  pub close : F

-- What the loop writes for one bar, and the close that the next one reads.
pub record Trail (F : Type 0) : Type 0 where
  pub final_upper : F
  pub final_lower : F
  pub direction : ℤ
  pub close : F

module _ {F : Type 0} ⦃f : Float F⦄ ⦃pd : Pandas F⦄ where
  -- `x`, or the band of the bar where `x` is not a number
  abbrev pub seeded : F → F → F
  seeded x band = if pd.is_na x then band else x

  unfoldable pub tighten : Trail F → Bar F → Trail F
  tighten t b =
      let prev_upper = seeded t.final_upper b.upper_band in
      let prev_lower = seeded t.final_lower b.lower_band in
      if pd.is_na b.atr
      then record {
        final_upper = b.upper_band;
        final_lower = b.lower_band;
        direction = t.direction;
        close = b.close;
      }
      else record {
        final_upper =
            if f.lt b.upper_band prev_upper || f.lt prev_upper t.close
            then b.upper_band
            else prev_upper;
        final_lower =
            if f.lt prev_lower b.lower_band || f.lt t.close prev_lower
            then b.lower_band
            else prev_lower;
        direction =
            if f.lt prev_upper b.close
            then pos 1
            else if f.lt b.close prev_lower
            then negsuc 0
            else t.direction;
        close = b.close;
      }

  unfoldable pub trails : Trail F → List (Bar F) → List (Trail F)
  trails t [] = []
  trails t (b ∷ bs) = let next = tighten t b in next ∷ trails next bs

  -- `atr_arr[i]`
  abbrev pub atr_at : ℕ → List F → ℕ → F
  atr_at period tr i =
      if ltb (suc i) period then pd.na else pd.mean (drop (suc i - period) (take (suc i) tr))

  abbrev pub bar : F → F → Candle F → Bar F
  bar multiplier atr c =
      let hl2 = f.div (f.add c.high c.low) (f.of_int (pos 2)) in
      record {
        upper_band = f.add hl2 (f.mul multiplier atr);
        lower_band = f.sub hl2 (f.mul multiplier atr);
        atr = atr;
        close = c.close;
      }

  abbrev pub bars_from : ℕ → ℕ → F → List F → List (Candle F) → List (Bar F)
  bars_from i period multiplier tr [] = []
  bars_from i period multiplier tr (c ∷ cs) =
      bar multiplier (atr_at period tr i) c ∷ bars_from (suc i) period multiplier tr cs

  -- The first close is its own predecessor.
  abbrev pub prev_close : List F → List F
  prev_close [] = []
  prev_close (x ∷ xs) = x ∷ drop_last (x ∷ xs)

  -- The bands of the first bar are not tightened, and its direction is up.
  abbrev pub trails_of : List (Bar F) → List (Trail F)
  trails_of [] = []
  trails_of (b ∷ bs) =
      let first : Trail F = record {
        final_upper = b.upper_band;
        final_lower = b.lower_band;
        direction = pos 1;
        close = b.close;
      } in
      first ∷ trails first bs

  unfoldable pub supertrend_bands : List (Candle F) → ℕ → F → List (Trail F)
  supertrend_bands candles atr_period multiplier =
      let tr = true_range (prev_close (closes candles)) candles in
      trails_of (bars_from 0 atr_period multiplier tr candles)
