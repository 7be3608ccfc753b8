-- ===== src/Market/Limits/Attempts.antt =====
-- `nse_retry` of core/data/nse_rate_limiter.py: which result comes back, and how long it waits.
use pypoc.Prelude.{
  ℕ, zero, suc, ◌+◌, ◌≤◌, ◌≡◌, refl, subst, sym, ap, ◌∙◌, ◌⊎◌, inl, inr, length, arith, All, true,
  ◌∷◌,
}
use pypoc.Prelude.Result.{Result, Exn, ok, raises, Result-cases}
use pypoc.Numbers.{Float, IsOrdered, min_right-le}
use pypoc.Market.Limits.{retry_from, delay, nse_retry, pos}

module _ {A : Type 0} (func : ℕ → Result A) where
  -- The calls from `i` on, `n` of them, raise.
  abbrev pub AllRaise : ℕ → ℕ → Type 0
  AllRaise i zero = Unit
  AllRaise i (suc n) = ((e : Exn) × (func i ≡ raises e)) × AllRaise (suc i) n

  -- After `n` calls that raised, the next one, call `last` in the end, gives the result.
  abbrev pub Settles : ℕ → ℕ → Result A → ℕ → Type 0
  Settles i left r sleeps =
      ((sleeps ≤ left) × AllRaise i sleeps × ((v : A) × (func (i + sleeps) ≡ ok v) × (r ≡ ok v)))
      ⊎ ((sleeps ≡ left) × AllRaise i (suc left) × (r ≡ func (i + left)))

module _ {F : Type 0} ⦃f : Float F⦄ {A : Type 0} (base_delay : F) (func : ℕ → Result A) where
  Settles-cons :
      (i left : ℕ) (r : Result A) (sleeps : ℕ) (e : Exn)
      → func i ≡ raises e
      → Settles func (suc i) left r sleeps
      → Settles func i (suc left) r (suc sleeps)
  Settles-cons i left r sleeps e h (inl (le, raised, (v, hit, same))) =
      inl (omega (arith, le), ((e, h), raised), (v, ap func (omega arith) ∙ hit, same))
  Settles-cons i left r sleeps e h (inr (all, raised, same)) =
      inr (omega (arith, all), ((e, h), raised), same ∙ ap func (omega arith))

  retry_from-retries :
      (left i : ℕ) (x : Exn)
      → func i ≡ raises x
      → let rest = retry_from base_delay func left (suc i) in
        retry_from base_delay func (suc left) i ≡ (rest.0, delay base_delay i ∷ rest.1)
  unfolding retry_from
  retry_from-retries left i x e = rw (e, retry_from) refl

  retry_from-Settles :
      (left i : ℕ)
      → let (r, sleeps) = retry_from base_delay func left i in Settles func i left r (length sleeps)
  unfolding retry_from
  retry_from-Settles zero i = elim (Result-cases (func i)) [
    | inl (v, e) ↦ rw (e, retry_from) (inl (omega arith, tt, (v, ap func (omega arith) ∙ e, refl)))
    | inr (x, e) ↦ rw (e, retry_from) (inr (refl, ((x, refl), tt), sym e ∙ ap func (omega arith)))
  ]
  retry_from-Settles (suc left) i = elim (Result-cases (func i)) [
    | inl (v, e) ↦ rw (e, retry_from) (inl (omega arith, tt, (v, ap func (omega arith) ∙ e, refl)))
    | inr (x, e) ↦
        subst (λ m. Settles func i (suc left) m.0 (length m.1))
          (sym (retry_from-retries left i x e))
          (Settles-cons i left _ _ x e (retry_from-Settles left (suc i)))
  ]

  retry_from-delays :
      IsOrdered F
      → (left i : ℕ)
      → All (λ d. f.le d (f.of_int (pos 30)) ≡ true) (retry_from base_delay func left i).1
  unfolding retry_from
  retry_from-delays o zero i = elim (Result-cases (func i)) [
    | inl (v, e) ↦ rw (e, retry_from) tt
    | inr (x, e) ↦ rw (e, retry_from) tt
  ]
  retry_from-delays o (suc left) i = elim (Result-cases (func i)) [
    | inl (v, e) ↦ rw (e, retry_from) tt
    | inr (x, e) ↦
        subst (λ m. All (λ d. f.le d (f.of_int (pos 30)) ≡ true) m.1)
          (sym (retry_from-retries left i x e))
          (min_right-le o _ (f.of_int (pos 30)), retry_from-delays o left (suc i))
  ]

  -- A retried function is called until it returns, at most one time more than the retries allowed,
  -- with a sleep between two calls: the result is that of the first call that returns, or, if every
  -- call raises, what the last one raises. No sleep is longer than thirty seconds.
  pub nse_retry-Settles :
      IsOrdered F
      → (max_retries : ℕ)
      → let (r, sleeps) = nse_retry (pos max_retries) base_delay func in
        Settles func 0 max_retries r (length sleeps)
        × All (λ d. f.le d (f.of_int (pos 30)) ≡ true) sleeps
  unfolding nse_retry
  nse_retry-Settles o max_retries =
      (retry_from-Settles max_retries 0, retry_from-delays o max_retries 0)
