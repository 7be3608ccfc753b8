-- ===== src/Market/Limits/Phases.antt =====
-- The circuit breaker of core/data/nse_rate_limiter.py as the state machine that its documentation
-- draws.
use pypoc.Prelude.{
  ap, ◌∙◌, ℕ, suc, ◌≡◌, refl, true, false, not, Option, leb, arith, if◌then◌else◌, List, [], Bool,
}
use pypoc.Numbers.{Float}
use pypoc.Market.Limits.{
  CircuitBreaker, trip_threshold, lockout_seconds, is_open, is_refusal, record_failure,
  record_success, ◌∷◌, reset_breaker,
}

-- What happens to the breaker, with the readings of the clock.
pub data Event (F : Type 0) : Type 0 where
  asked : F → Event F
  failed : Option ℕ → F → Event F
  succeeded : Event F

-- The two states that the documentation names: closed after some refusals in a row, or open.
pub data Phase (F : Type 0) : Type 0 where
  closed : ℕ → Phase F
  locked : F → Phase F

module _ {F : Type 0} ⦃f : Float F⦄ where
  unfoldable pub react : CircuitBreaker F → Event F → CircuitBreaker F
  react b (asked now) = (is_open now b).1
  react b (failed code now) = record_failure code now b
  react b succeeded = record_success b

  -- A refusal counts; the third in a row locks. A lock ends by a success, or when it is asked for at
  -- least fifteen minutes later.
  unfoldable pub advance : Phase F → Event F → Phase F
  advance p succeeded = closed 0
  advance (closed n) (asked now) = closed n
  advance (closed n) (failed code now) =
      if not (is_refusal code)
      then closed n
      else elim (leb 2 n) [ true ↦ locked now | false ↦ closed (suc n) ]
  advance (locked t) (asked now) =
      if f.le (f.of_int lockout_seconds) (f.sub now t) then closed 0 else locked t
  advance (locked t) (failed code now) = locked t

  -- The phase of a breaker; how many refusals came after it opened is forgotten.
  abbrev pub phase : CircuitBreaker F → Phase F
  phase b = if b.tripped then locked b.open_since else closed b.consecutive_failures

  -- The breaker is open exactly from three refusals in a row on.
  pub record IsConsistent (b : CircuitBreaker F) : Type 0 where
    pub counted : leb trip_threshold b.consecutive_failures ≡ b.tripped

  react-IsConsistent :
      (b : CircuitBreaker F) (e : Event F) → IsConsistent b → IsConsistent (react b e)
  unfolding react is_open record_failure record_success
  react-IsConsistent b (asked now) h = let c = h.counted in record { counted = ground arith }
  react-IsConsistent b (failed code now) h = let c = h.counted in record { counted = ground arith }
  react-IsConsistent b succeeded h = record { counted = refl }

  react-phase :
      (b : CircuitBreaker F) (e : Event F)
      → IsConsistent b
      → phase (react b e) ≡ advance (phase b) e
  unfolding react advance is_open record_failure record_success
  react-phase b (asked now) h = ground arith
  react-phase b (failed code now) h = let c = h.counted in ground arith
  react-phase b succeeded h = refl

  -- The events of a history, one after the other.
  unfoldable pub run_breaker : CircuitBreaker F → List (Event F) → CircuitBreaker F
  run_breaker b [] = b
  run_breaker b (e ∷ es) = run_breaker (react b e) es

  unfoldable pub run_phase : Phase F → List (Event F) → Phase F
  run_phase p [] = p
  run_phase p (e ∷ es) = run_phase (advance p e) es

  run_breaker-simulates :
      (es : List (Event F)) (b : CircuitBreaker F)
      → IsConsistent b
      → IsConsistent (run_breaker b es) × (phase (run_breaker b es) ≡ run_phase (phase b) es)
  unfolding run_breaker run_phase
  run_breaker-simulates [] b h = (h, refl)
  run_breaker-simulates (e ∷ es) b h =
      let (h', same) = run_breaker-simulates es (react b e) (react-IsConsistent b e h) in
      (h', same ∙ ap (λ p. run_phase p es) (react-phase b e h))

  -- Whether a request is blocked in a phase: until fifteen minutes after it was locked.
  unfoldable pub blocks : F → Phase F → Bool
  blocks now (closed n) = false
  blocks now (locked t) = not (f.le (f.of_int lockout_seconds) (f.sub now t))

  is_open-blocks : (now : F) (b : CircuitBreaker F) → (is_open now b).0 ≡ blocks now (phase b)
  unfolding is_open blocks
  is_open-blocks now b = ground arith

  -- Through any history of requests, failures and successes, the breaker is in the phase of the
  -- documented machine: closed with the refusals (403 or 429) in a row so far, or locked since the
  -- third of them. It blocks a request exactly if the phase does, and it is open exactly if its
  -- counter has reached three.
  pub run_breaker-phase :
      (es : List (Event F))
      → let b = run_breaker reset_breaker es in
        let p = run_phase (closed 0) es in
        (phase b ≡ p)
        × ((now : F) → (is_open now b).0 ≡ blocks now p)
        × (leb trip_threshold b.consecutive_failures ≡ b.tripped)
  run_breaker-phase es =
      let (h, same) = run_breaker-simulates es reset_breaker (record { counted = refl }) in
      let b = run_breaker reset_breaker es in
      (same, (λ now. is_open-blocks now b ∙ ap (blocks now) same), h.counted)
