-- ===== src/Strategies/Ratchet.antt =====
-- The bands of the supertrend in core/strategies/indicators.py only tighten.
use pypoc.Prelude.{◌≡◌, false, All, List, [], ◌∷◌, true, ◌∙◌, All-weaken, arith}
use pypoc.Numbers.{Float, IsOrdered}
use pypoc.Strategies.Frame.{Pandas}
use pypoc.Strategies.Bands.{Bar, Trail, tighten, trails}

module _ {F : Type 0} ⦃f : Float F⦄ ⦃pd : Pandas F⦄ where
  -- The bar's numbers are numbers, and neither its close nor the close before leaves the bands of the
  -- trail.
  pub record StaysInside (t : Trail F) (b : Bar F) : Type 0 where
    pub has_atr : pd.is_na b.atr ≡ false
    pub has_upper : pd.is_na b.upper_band ≡ false
    pub has_lower : pd.is_na b.lower_band ≡ false
    pub below : f.lt t.final_upper b.close ≡ false
    pub above : f.lt b.close t.final_lower ≡ false
    pub was_below : f.lt t.final_upper t.close ≡ false
    pub was_above : f.lt t.close t.final_lower ≡ false

  abbrev pub StayInside : Trail F → List (Bar F) → Type 0
  StayInside t [] = Unit
  StayInside t (b ∷ bs) = StaysInside t b × StayInside (tighten t b) bs

  -- Bands that are no wider, and the same direction.
  pub record IsTighter (t u : Trail F) : Type 0 where
    pub no_higher : f.le u.final_upper t.final_upper ≡ true
    pub no_lower : f.le t.final_lower u.final_lower ≡ true
    pub same_direction : u.direction ≡ t.direction

  -- Both bands are numbers.
  pub record HasBands (t : Trail F) : Type 0 where
    pub upper : pd.is_na t.final_upper ≡ false
    pub lower : pd.is_na t.final_lower ≡ false

  tighten-HasBands :
      (t : Trail F) (b : Bar F) → StaysInside t b → HasBands t → HasBands (tighten t b)
  unfolding tighten
  tighten-HasBands t b s h = ground arith

  module _ (o : IsOrdered F) where
    IsTighter-trans : (t u v : Trail F) → IsTighter t u → IsTighter u v → IsTighter t v
    IsTighter-trans t u v h k = record {
      no_higher = o.le_trans v.final_upper u.final_upper t.final_upper k.no_higher h.no_higher;
      no_lower = o.le_trans t.final_lower u.final_lower v.final_lower h.no_lower k.no_lower;
      same_direction = k.same_direction ∙ h.same_direction;
    }

    tighten-IsTighter :
        (t : Trail F) (b : Bar F) → StaysInside t b → HasBands t → IsTighter t (tighten t b)
    unfolding tighten
    tighten-IsTighter t b s h = ground (
      arith,
      o.le_refl t.final_upper,
      o.le_refl t.final_lower,
      o.lt_le b.upper_band t.final_upper,
      o.lt_le t.final_lower b.lower_band,
    )

    -- While neither the closes nor the bar before leave the bands, and the bands and the ranges are
    -- numbers, the loop of the supertrend never widens a band and keeps the direction: each trail that
    -- it writes is no wider than the one that it starts with.
    pub trails-IsTighter :
        (t : Trail F) (bs : List (Bar F))
        → HasBands t
        → StayInside t bs
        → All (IsTighter t) (trails t bs)
    unfolding trails
    trails-IsTighter t [] h s = tt
    trails-IsTighter t (b ∷ bs) h (s, rest) =
        let first = tighten-IsTighter t b s h in
        (
          first,
          All-weaken (trails (tighten t b) bs) (λ v k. IsTighter-trans t (tighten t b) v first k)
              (trails-IsTighter (tighten t b) bs (tighten-HasBands t b s h) rest),
        )
