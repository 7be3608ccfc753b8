-- ===== src/Market/Candles/Ohlc.antt =====
-- The ticks of one bucket in core/data/aggregator.py make the candle that they should.
use pypoc.Prelude.{
  ◌≡◌, refl, ◌⊎◌, inl, inr, true, List, [], ◌∷◌, ◌++◌, All, Any, All-append, All-weaken,
  Any-append_left, Any-append_right, last_of, last_of-snoc, arith, pair_eq, string_eq,
}
use pypoc.Numbers.{
  Float, IsOrdered, max_f, min_f, le-max_left, le-max_right, min_left-le, min_right-le,
}
use pypoc.Types.{DateTime, Tick}
use pypoc.Market.Candles.{Bucket, first_bucket, grown}

module _ {F : Type 0} ⦃f : Float F⦄ where
  -- What a bucket has to say of its ticks, the first of which is `t`.
  pub record IsOhlc (t : Tick F) (ts : List (Tick F)) (b : Bucket F) : Type 0 where
    pub opens : b.opening ≡ t.ltp
    pub above : All (λ u. f.le u.ltp b.high ≡ true) (t ∷ ts)
    pub touches_high : Any (λ u. u.ltp ≡ b.high) (t ∷ ts)
    pub below : All (λ u. f.le b.low u.ltp ≡ true) (t ∷ ts)
    pub touches_low : Any (λ u. u.ltp ≡ b.low) (t ∷ ts)
    pub closes : b.close ≡ (last_of t ts).ltp
    pub counts : b.volume ≡ (last_of t ts).volume

  high_cases : (x y : F) → (max_f x y ≡ x) ⊎ (y ≡ max_f x y)
  high_cases x y = ground arith

  low_cases : (x y : F) → (min_f x y ≡ x) ⊎ (y ≡ min_f x y)
  low_cases x y = ground arith

  -- An extreme value that is kept or replaced by the new tick's price is met by a tick.
  still_met :
      (ts : List (Tick F)) (u : Tick F) (x y : F)
      → Any (λ v. v.ltp ≡ x) ts
      → (y ≡ x) ⊎ (u.ltp ≡ y)
      → Any (λ v. v.ltp ≡ y) (ts ++ (u ∷ []))
  still_met ts u x y h (inl e) = Any-append_left (λ v. v.ltp ≡ y) ts (u ∷ []) (rw e h)
  still_met ts u x y h (inr e) = Any-append_right (λ v. v.ltp ≡ y) ts (u ∷ []) (inl e)

  module _ (o : IsOrdered F) where
    pub first_bucket-IsOhlc : (t : Tick F) (start : DateTime) → IsOhlc t [] (first_bucket t start)
    first_bucket-IsOhlc t start = record {
      opens = refl;
      above = (o.le_refl t.ltp, tt);
      touches_high = inl refl;
      below = (o.le_refl t.ltp, tt);
      touches_low = inl refl;
      closes = refl;
      counts = refl;
    }

    pub grown-IsOhlc :
        (t : Tick F) (ts : List (Tick F)) (u : Tick F) (b : Bucket F)
        → IsOhlc t ts b
        → IsOhlc t (ts ++ (u ∷ [])) (grown b u)
    grown-IsOhlc t ts u b h = record {
      opens = h.opens;
      above =
          All-append _ (t ∷ ts) (u ∷ [])
            (All-weaken (t ∷ ts) (λ v le. o.le_trans v.ltp b.high _ le (le-max_left o b.high u.ltp))
              h.above)
            (le-max_right o b.high u.ltp, tt);
      touches_high = still_met (t ∷ ts) u b.high _ h.touches_high (high_cases b.high u.ltp);
      below =
          All-append _ (t ∷ ts) (u ∷ [])
            (All-weaken (t ∷ ts) (λ v le. o.le_trans _ b.low v.ltp (min_left-le o b.low u.ltp) le)
              h.below)
            (min_right-le o b.low u.ltp, tt);
      touches_low = still_met (t ∷ ts) u b.low _ h.touches_low (low_cases b.low u.ltp);
      closes = rw (last_of-snoc t ts u) refl;
      counts = rw (last_of-snoc t ts u) refl;
    }
