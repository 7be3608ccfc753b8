-- ===== src/Strategies/Levels.antt =====
-- Stop, entry and target of a signal of core/strategies, on the sides on which they belong.
use pypoc.Prelude.{◌≡◌, refl, true, false, String, arith, List, not, Bool, ◌||◌}
use pypoc.Prelude.Int.{pos, ◌<ℤ◌, int_laws}
use pypoc.Numbers.{Float, IsExact, zero_f}
use pypoc.Types.{Side, buy, sell, Regime, Signal}
use pypoc.Strategies.Frame.{Pandas}
use pypoc.Strategies.Entry.{Asked, supports, signal_of}

or_left : (a b : Bool) → (a || b) ≡ false → a ≡ false
or_left a b h = ground arith

or_right : (a b : Bool) → (a || b) ≡ false → b ≡ false
or_right a b h = ground arith

module _ {F : Type 0} ⦃f : Float F⦄ where
  -- A stop on the losing side of the entry, and a target on the winning one.
  pub data InOrder : Side → F → F → F → Type 0 where
    long :
        {stop entry target : F}
        → f.lt stop entry ≡ true
        → f.lt entry target ≡ true
        → InOrder buy stop entry target
    short :
        {stop entry target : F}
        → f.lt target entry ≡ true
        → f.lt entry stop ≡ true
        → InOrder sell stop entry target

  -- A signal of the strategy of that name, for what it was asked, in one of its regimes.
  pub record IsSound (name : String) (regimes : List Regime) (asked : Asked) (s : Signal F)
      : Type 0 where
    pub named : s.strategy ≡ name
    pub about : s.symbol ≡ asked.symbol
    pub at_regime : s.regime ≡ asked.regime
    pub supported : supports regimes asked.regime ≡ true
    pub in_order : InOrder s.side s.stop_loss s.entry_price s.target

  pub signal_of-IsSound :
      (name : String) (regimes : List Regime) (side : Side) (asked : Asked)
      (entry stop target confidence : F) (rationale : String)
      → not (supports regimes asked.regime) ≡ false
      → InOrder side stop entry target
      → IsSound name regimes asked
          (signal_of name side asked entry stop target confidence rationale)
  signal_of-IsSound name regimes side asked entry stop target confidence rationale fits h = record {
    named = refl;
    about = refl;
    at_regime = refl;
    supported = ground arith;
    in_order = h;
  }

  -- `m` is at least one.
  abbrev pub AtLeastOne : F → Type 0
  AtLeastOne m = f.le (f.of_int (pos 1)) m ≡ true

  module _ (exact : IsExact F) where
    open exact use {units}

    positive : (x : F) → f.le x zero_f ≡ false → pos 0 <ℤ units x
    positive x h = ground (arith, exact.le-units x zero_f, exact.units-zero)

    not_le_lt : (x y : F) → f.le y x ≡ false → f.lt x y ≡ true
    not_le_lt x y h = ground (arith, exact.le-units y x, exact.lt-units x y)

    less : (x y : F) → units x <ℤ units y → f.lt x y ≡ true
    less x y h = ground (arith, exact.lt-units x y)

    gap : (x y : F) → units y <ℤ units x → pos 0 <ℤ units (f.sub x y)
    gap x y h = rw (exact.units-sub x y) (omega int_laws)

    raised : (x y : F) → pos 0 <ℤ units y → f.lt x (f.add x y) ≡ true
    raised x y h = less x (f.add x y) (rw (exact.units-add x y) (omega int_laws))

    lowered : (x y : F) → pos 0 <ℤ units y → f.lt (f.sub x y) x ≡ true
    lowered x y h = less (f.sub x y) x (rw (exact.units-sub x y) (omega int_laws))

    not_le_units : (x y : F) → f.le y x ≡ false → units x <ℤ units y
    not_le_units x y h = ground (arith, exact.le-units y x)

    -- A stop below the entry, and a target at a multiple of the risk above it.
    pub above_stop :
        (r close stop : F)
        → AtLeastOne r
        → f.le close stop ≡ false
        → InOrder buy stop close (f.add close (f.mul r (f.sub close stop)))
    above_stop r close stop one below =
        let risk = exact.mul_positive r _ one (gap close stop (not_le_units stop close below)) in
        long (not_le_lt stop close below) (raised close _ risk)

    pub below_stop :
        (r close stop : F)
        → AtLeastOne r
        → f.le stop close ≡ false
        → InOrder sell stop close (f.sub close (f.mul r (f.sub stop close)))
    below_stop r close stop one above =
        let risk = exact.mul_positive r _ one (gap stop close (not_le_units close stop above)) in
        short (lowered close _ risk) (not_le_lt close stop above)

    pub at_risk :
        (r close stop : F)
        → AtLeastOne r
        → f.le (f.sub close stop) zero_f ≡ false
        → InOrder buy stop close (f.add close (f.mul r (f.sub close stop)))
    at_risk r close stop one risk =
        let gained = positive (f.sub close stop) risk in
        let gained' = rw (exact.units-sub close stop) at gained in
        let apart : units stop <ℤ units close = omega int_laws in
        long (less stop close apart) (raised close _ (exact.mul_positive r _ one gained))

    pub at_atr :
        ⦃pd : Pandas F⦄ (m r close atr : F)
        → AtLeastOne m
        → AtLeastOne r
        → (pd.is_na atr || f.le atr zero_f) ≡ false
        → InOrder buy
            (f.sub close (f.mul m atr))
            close
            (f.add close (f.mul r (f.sub close (f.sub close (f.mul m atr)))))
    at_atr ⦃pd⦄ m r close atr one one' moves =
        let up = positive atr (or_right (pd.is_na atr) (f.le atr zero_f) moves) in
        let stop_gap = exact.mul_positive m atr one up in
        let risk : pos 0 <ℤ units (f.sub close (f.sub close (f.mul m atr))) =
          rw
            (exact.units-sub close (f.sub close (f.mul m atr)), exact.units-sub close (f.mul m atr))
            (omega int_laws) in
        long (lowered close _ stop_gap) (raised close _ (exact.mul_positive r _ one' risk))

    -- A target above the entry and a stop below it, as they were tested.
    pub between :
        (close stop target : F)
        → (f.le target close || f.le close stop) ≡ false
        → InOrder buy stop close target
    between close stop target h =
        long (not_le_lt stop close (or_right (f.le target close) (f.le close stop) h))
          (not_le_lt close target (or_left (f.le target close) (f.le close stop) h))
