-- ===== src/Market/Candles/Emission.antt =====
-- The candle that `CandleAggregator` of core/data/aggregator.py emits when a bucket is over.
use mathlib.Core.List.{append_assoc, append-nil}
use pypoc.Prelude.{
  ap, ◌∙◌, subst, sym, ◌≡◌, refl, inl, inr, String, false, some, List, [], ◌∷◌, ◌++◌, All, nat_beq,
  nat_beq_iff, pair_eq, string_eq, Option-cases,
}
use pypoc.Prelude.Dict.{lookup, insert, lookup-insert_same}
use pypoc.Prelude.Result.{ok}
use pypoc.Numbers.{Float, IsOrdered}
use pypoc.Types.{DateTime, Tick, Candle}
use pypoc.Market.Candles.{
  Bucket, CandleAggregator, Key, push, history_of, closed_candle, first_bucket, grown, floor_time,
  ingest_at, ingest_one, emit,
}
use pypoc.Market.Candles.Ohlc.{IsOhlc, first_bucket-IsOhlc, grown-IsOhlc}

module _ {F : Type 0} ⦃f : Float F⦄ where
  -- The ticks that an interval of the aggregator takes one after the other.
  unfoldable pub ingest_run : List (Tick F) → String → CandleAggregator F → CandleAggregator F
  ingest_run [] interval a = a
  ingest_run (t ∷ ts) interval a = ingest_run ts interval (ingest_one t interval a).1

  ingest_one-at :
      (t : Tick F) (interval : String) (a : CandleAggregator F) (start : DateTime)
      → floor_time t.ts interval ≡ ok start
      → ingest_one t interval a ≡ (ok tt, ingest_at start t interval a)
  unfolding ingest_one
  ingest_one-at t interval a start h = rw (h, ingest_one) refl

  -- No bucket of the key starts at the time.
  abbrev pub IsFresh : Key → DateTime → CandleAggregator F → Type 0
  IsFresh key start a =
      (b : Bucket F) → lookup key a.buckets ≡ some b → nat_beq b.bucket_start start ≡ false

  ingest_at-opens :
      (t : Tick F) (interval : String) (a : CandleAggregator F) (start : DateTime)
      → IsFresh (t.symbol, interval) start a
      → lookup (t.symbol, interval) (ingest_at start t interval a).buckets
        ≡ some (first_bucket t start)
  unfolding ingest_at emit
  ingest_at-opens t interval a start fresh =
      elim (Option-cases (lookup (t.symbol, interval) a.buckets)) [
        | inl e ↦ rw (e, ingest_at, lookup-insert_same) refl
        | inr (b, e) ↦ rw (e, ingest_at, fresh b e, lookup-insert_same) refl
      ]

  ingest_at-grows :
      (t : Tick F) (interval : String) (a : CandleAggregator F) (start : DateTime) (b : Bucket F)
      → lookup (t.symbol, interval) a.buckets ≡ some b
      → b.bucket_start ≡ start
      → ingest_at start t interval a
        ≡ record a { buckets = insert (t.symbol, interval) (grown b t) a.buckets }
  unfolding ingest_at
  ingest_at-grows t interval a start b e same =
      rw (e, ingest_at, (nat_beq_iff b.bucket_start start).1 same) refl

  ingest_at-histories :
      (t : Tick F) (interval : String) (a : CandleAggregator F) (start : DateTime) (b : Bucket F)
      → lookup (t.symbol, interval) a.buckets ≡ some b
      → nat_beq b.bucket_start start ≡ false
      → (ingest_at start t interval a).histories
        ≡ insert
            (t.symbol, interval)
            (push (history_of (t.symbol, interval) a) (closed_candle t.symbol interval b))
            a.histories
  unfolding ingest_at emit
  ingest_at-histories t interval a start b e other = rw (e, ingest_at, other, emit) refl

  ingest_at-emits :
      (t : Tick F) (interval : String) (a : CandleAggregator F) (start : DateTime) (b : Bucket F)
      → lookup (t.symbol, interval) a.buckets ≡ some b
      → nat_beq b.bucket_start start ≡ false
      → history_of (t.symbol, interval) (ingest_at start t interval a)
        ≡ push (history_of (t.symbol, interval) a) (closed_candle t.symbol interval b)
  ingest_at-emits t interval a start b e other =
      rw (ingest_at-histories t interval a start b e other, history_of, lookup-insert_same) refl

  module _ (o : IsOrdered F) (symbol interval : String) (start : DateTime) where
    -- A tick of the symbol in the bucket.
    abbrev pub InBucket : Tick F → Type 0
    InBucket t = (t.symbol ≡ symbol) × (floor_time t.ts interval ≡ ok start)

    -- The bucket that holds the ticks so far, the first of which is `t`, and the closed candles.
    record Collects (t : Tick F) (seen : List (Tick F)) (h : List (Candle F))
        (a : CandleAggregator F) : Type 0 where
      pub bucket : Bucket F
      pub held : lookup (symbol, interval) a.buckets ≡ some bucket
      pub starts : bucket.bucket_start ≡ start
      pub ohlc : IsOhlc t seen bucket
      pub before : history_of (symbol, interval) a ≡ h

    Collects-next :
        (t u : Tick F) (seen : List (Tick F)) (h : List (Candle F)) (a : CandleAggregator F)
        → InBucket u
        → Collects t seen h a
        → Collects t (seen ++ (u ∷ [])) h (ingest_one u interval a).1
    Collects-next t u seen h a (e, at) c =
        let held : lookup (u.symbol, interval) a.buckets ≡ some c.bucket = rw e c.held in
        rw
          (
            ingest_one-at u interval a start at,
            ingest_at-grows u interval a start c.bucket held c.starts,
          )
          (record {
            bucket = grown c.bucket u;
            held = rw (e, lookup-insert_same) refl;
            starts = c.starts;
            ohlc = grown-IsOhlc o t seen u c.bucket c.ohlc;
            before = c.before;
          })

    Collects-run :
        (t : Tick F) (us seen : List (Tick F)) (h : List (Candle F)) (a : CandleAggregator F)
        → All InBucket us
        → Collects t seen h a
        → Collects t (seen ++ us) h (ingest_run us interval a)
    unfolding ingest_run
    Collects-run t [] seen h a all c = rw append-nil c
    Collects-run t (u ∷ us) seen h a (at, all) c =
        subst (λ l. Collects t l h (ingest_run us interval (ingest_one u interval a).1))
          (append_assoc seen (u ∷ []) us)
          (Collects-run t us (seen ++ (u ∷ [])) h _ all (Collects-next t u seen h a at c))

    Collects-first :
        (t : Tick F) (a : CandleAggregator F)
        → InBucket t
        → IsFresh (symbol, interval) start a
        → let b = (ingest_one t interval a).1 in Collects t [] (history_of (symbol, interval) b) b
    Collects-first t a (e, at) fresh =
        let fresh' : IsFresh (t.symbol, interval) start a = λ b h. fresh b (rw (sym e) h) in
        rw (ingest_one-at t interval a start at) (record {
          bucket = first_bucket t start;
          held = rw (sym e) (ingest_at-opens t interval a start fresh');
          starts = refl;
          ohlc = first_bucket-IsOhlc o t start;
          before = refl;
        })

    -- Ticks of one symbol that fall into one bucket, in a row and the first of them in no bucket that
    -- was open, and then a tick of the symbol in another bucket: the aggregator closes one candle. It
    -- opens at the first of the ticks, closes at the last with its volume, its high and its low are
    -- prices of ticks that no tick goes beyond, and it is pushed to the history of its symbol and
    -- interval.
    pub ingest_run-emits :
        (t : Tick F) (us : List (Tick F)) (u : Tick F) (next : DateTime) (a : CandleAggregator F)
        → InBucket t
        → All InBucket us
        → IsFresh (symbol, interval) start a
        → u.symbol ≡ symbol
        → floor_time u.ts interval ≡ ok next
        → nat_beq start next ≡ false
        → let opened = (ingest_one t interval a).1 in
          (b : Bucket F) × IsOhlc t us b
          × (b.bucket_start ≡ start)
          × (history_of (symbol, interval) (ingest_one u interval (ingest_run us interval opened)).1
              ≡ push (history_of (symbol, interval) opened) (closed_candle symbol interval b))
    ingest_run-emits t us u next a at all fresh e later other =
        let c = Collects-run t us [] _ _ all (Collects-first t a at fresh) in
        let filled = ingest_run us interval (ingest_one t interval a).1 in
        let held : lookup (u.symbol, interval) filled.buckets ≡ some c.bucket = rw e c.held in
        let emits = ingest_at-emits u interval filled next c.bucket held (rw c.starts other) in
        let closes =
          subst
            (λ s.
              history_of (s, interval) (ingest_at next u interval filled)
              ≡ push (history_of (s, interval) filled) (closed_candle s interval c.bucket))
            e emits in
        (
          c.bucket,
          c.ohlc,
          c.starts,
          ap (λ m. history_of (symbol, interval) m.1) (ingest_one-at u interval filled next later)
              ∙ closes
              ∙ ap (λ h. push h (closed_candle symbol interval c.bucket)) c.before,
        )
