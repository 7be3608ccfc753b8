-- ===== src/Market/Candles/History.antt =====
-- The histories of `CandleAggregator` in core/data/aggregator.py stay bounded.
use pypoc.Prelude.{
  subst, ℕ, ◌≤◌, ◌≡◌, refl, String, some, inl, inr, List, [], ◌∷◌, length, length-append, arith,
  All, nat_beq, pair_eq, string_eq, Option-cases, Bool-cases,
}
use pypoc.Prelude.Dict.{Dict, lookup, Entries, lookup-Entries, insert-Entries}
use pypoc.Prelude.Result.{ok, Result-cases, ok-injective, and_then}
use pypoc.Numbers.{Float}
use pypoc.Types.{DateTime, Tick, Candle}
use pypoc.Market.Candles.{
  CandleAggregator, Key, interval_map, max_history, push, history_of, floor_time, check_intervals,
  new_aggregator, empty_aggregator, emit, ingest_at, ingest_one, ingest_each, ingest,
}

push-length :
    {A : Type 0} (h : List A) (x : A) → length h ≤ max_history → length (push h x) ≤ max_history
unfolding push
push-length [] x le = omega arith
push-length (y ∷ ys) x le = ground (arith, length-append ys (x ∷ []))

floor_time-ok :
    (ts : DateTime) (interval : String) (m : ℕ)
    → lookup interval interval_map ≡ some m
    → (start : DateTime) × (floor_time ts interval ≡ ok start)
unfolding floor_time
floor_time-ok ts interval m e = rw (e, floor_time) (_, refl)

check_intervals-All :
    (is : List String)
    → check_intervals is ≡ ok tt
    → All (λ i. (m : ℕ) × (lookup i interval_map ≡ some m)) is
unfolding check_intervals
check_intervals-All [] h = tt
check_intervals-All (i ∷ is) h = elim (Option-cases (lookup i interval_map)) [
  | inl e ↦ absurd (ground arith)
  | inr (m, e) ↦ ((m, e), check_intervals-All is (ground arith))
]

module _ {F : Type 0} ⦃f : Float F⦄ where
  abbrev Short : Dict Key (List (Candle F)) → Type 0
  Short = Entries λ _ h. length h ≤ max_history

  -- The intervals are supported, and no history is longer than 500 candles.
  pub record IsBounded (a : CandleAggregator F) : Type 0 where
    pub supported : All (λ i. (m : ℕ) × (lookup i interval_map ≡ some m)) a.intervals
    pub short : Short a.histories

  history_of-short :
      (key : Key) (a : CandleAggregator F)
      → Short a.histories
      → length (history_of key a) ≤ max_history
  history_of-short key a h = elim (Option-cases (lookup key a.histories)) [
    | inl e ↦ rw (history_of, e) (omega arith)
    | inr (c, e) ↦
        rw (history_of, e) (lookup-Entries (λ _ h. length h ≤ max_history) key a.histories h e)
  ]

  ingest_at-IsBounded :
      (start : DateTime) (t : Tick F) (interval : String) (a : CandleAggregator F)
      → IsBounded a
      → IsBounded (ingest_at start t interval a)
  unfolding ingest_at emit
  ingest_at-IsBounded start t interval a v =
      elim (Option-cases (lookup (t.symbol, interval) a.buckets)) [
        | inl e ↦ rw (e, ingest_at) (record { supported = v.supported; short = v.short })
        | inr (b, e) ↦ elim (Bool-cases (nat_beq b.bucket_start start)) [
          | inl same ↦ rw (e, ingest_at, same) (record { supported = v.supported; short = v.short })
          | inr other ↦
              rw (e, ingest_at, other, emit)
                (record {
                  supported = v.supported;
                  short =
                      insert-Entries (λ _ h. length h ≤ max_history) (t.symbol, interval) _
                        a.histories v.short
                        (push-length _ _ (history_of-short (t.symbol, interval) a v.short));
                })
        ]
      ]

  ingest_each-IsBounded :
      (is : List String) (t : Tick F) (a : CandleAggregator F)
      → All (λ i. (m : ℕ) × (lookup i interval_map ≡ some m)) is
      → IsBounded a
      → ((ingest_each is t a).0 ≡ ok tt) × IsBounded (ingest_each is t a).1
  unfolding ingest_each ingest_one and_then
  ingest_each-IsBounded [] t a known v = (refl, v)
  ingest_each-IsBounded (i ∷ is) t a ((m, e), known) v =
      let (start, at) = floor_time-ok t.ts i m e in
      rw (at, ingest_one, and_then)
        (ingest_each-IsBounded is t (ingest_at start t i a) known
          (ingest_at-IsBounded start t i a v))

  -- The ticks of a stream, one after the other.
  unfoldable pub ingest_all : List (Tick F) → CandleAggregator F → CandleAggregator F
  ingest_all [] a = a
  ingest_all (t ∷ ts) a = ingest_all ts (ingest t a).1

  pub ingest-IsBounded :
      (t : Tick F) (a : CandleAggregator F)
      → IsBounded a
      → ((ingest t a).0 ≡ ok tt) × IsBounded (ingest t a).1
  unfolding ingest
  ingest-IsBounded t a v = ingest_each-IsBounded a.intervals t a v.supported v

  new_aggregator-IsBounded :
      (intervals : List String) (a : CandleAggregator F)
      → new_aggregator intervals ≡ ok a
      → IsBounded a
  unfolding new_aggregator
  new_aggregator-IsBounded intervals a made = elim (Result-cases (check_intervals intervals)) [
    | inr (x, e) ↦ absurd (ground arith)
    | inl (u, e) ↦
        let v : IsBounded (empty_aggregator intervals) = record {
          supported = check_intervals-All intervals (ground arith);
          short = tt;
        } in
        subst IsBounded (ok-injective (ground arith)) v
  ]

  ingest_all-IsBounded :
      (ts : List (Tick F)) (a : CandleAggregator F) → IsBounded a → IsBounded (ingest_all ts a)
  unfolding ingest_all
  ingest_all-IsBounded [] a v = v
  ingest_all-IsBounded (t ∷ ts) a v =
      ingest_all-IsBounded ts (ingest t a).1 (ingest-IsBounded t a v).1

  -- On an aggregator that the constructor made and that has taken any ticks, taking a tick does not
  -- raise, and each history keeps at most 500 candles.
  pub ingest_all-bounded :
      (intervals : List String) (a : CandleAggregator F) (ts : List (Tick F)) (t : Tick F)
      → new_aggregator intervals ≡ ok a
      → let (r, b) = ingest t (ingest_all ts a) in
        (r ≡ ok tt) × Entries (λ _ h. length h ≤ max_history) b.histories
  ingest_all-bounded intervals a ts t made =
      let (returns, v) =
        ingest-IsBounded t _
          (ingest_all-IsBounded ts a (new_aggregator-IsBounded intervals a made)) in
      (returns, v.short)
