-- ===== src/Risk/Guardrails/Loop.antt =====
-- The loop of `check`, for any list of rules.
use pypoc.Prelude.{
  ◌≡◌, refl, inl, inr, ◌↔◌, Bool, true, false, List, [], ◌∷◌, ◌++◌, All, arith, Bool-cases,
}
use pypoc.Prelude.Int.{ℤ}
use pypoc.Prelude.Result.{Result, ok, raises}
use pypoc.Numbers.{Float}
use pypoc.Types.{Signal}
use pypoc.Risk.Guardrails.{
  Rule, Guardrails, GuardrailDecision, PortfolioState, MarketContext, allowed, rules, check_rules,
  check,
}

-- Whether a rule, or the whole check, returned a decision that allows the order.
abbrev pub passes : {F : Type 0} → Result (GuardrailDecision F) → Bool
passes (ok d) = d.allow
passes (raises e) = false

abbrev pub Allows : {F : Type 0} → Result (GuardrailDecision F) → Type 0
Allows r = passes r ≡ true

module _ {F : Type 0} ⦃f : Float F⦄ (g : Guardrails F) (s : Signal F) (q : ℤ) (p : PortfolioState F)
    (m : MarketContext F) where
  check_rules-All :
      (rs : List (Rule F))
      → Allows (check_rules rs g s q p m)
      → All (λ rule. Allows (rule g s q p m)) rs
  unfolding check_rules
  check_rules-All [] h = tt
  check_rules-All (r ∷ rs) h = ground (arith, check_rules-All rs)

  All-check_rules :
      (rs : List (Rule F))
      → All (λ rule. Allows (rule g s q p m)) rs
      → check_rules rs g s q p m ≡ allowed
  unfolding check_rules
  All-check_rules [] h = refl
  All-check_rules (r ∷ rs) (a, h) = ground (arith, All-check_rules rs h)

  -- An order is allowed exactly when each of the fifteen rules allows it.
  pub check-All : Allows (check g s q p m) ↔ All (λ rule. Allows (rule g s q p m)) rules
  unfolding check
  check-All = (check_rules-All rules, λ h. rw (All-check_rules rules h))

  -- The decision of the first rule that does not allow, with the rules before it.
  abbrev pub Rejects : List (Rule F) → GuardrailDecision F → Type 0
  Rejects rs d =
      (before : List (Rule F)) × (rule : Rule F) × (after : List (Rule F)) × (rs
        ≡ before ++ (rule ∷ after))
      × All (λ b. Allows (b g s q p m)) before
      × (rule g s q p m ≡ ok d)

  Rejects-cons :
      (r : Rule F) (rs : List (Rule F)) {d : GuardrailDecision F}
      → Allows (r g s q p m)
      → Rejects rs d
      → Rejects (r ∷ rs) d
  Rejects-cons r rs a (before, rule, after, e, pass, hit) =
      (r ∷ before, rule, after, rw e, (a, pass), hit)

  check_rules-Rejects :
      (rs : List (Rule F)) (d : GuardrailDecision F)
      → check_rules rs g s q p m ≡ ok d
      → d.allow ≡ false
      → Rejects rs d
  unfolding check_rules
  check_rules-Rejects [] d e h = absurd (ground arith)
  check_rules-Rejects (r ∷ rs) d e h = elim (Bool-cases (passes (r g s q p m))) [
    | inl a ↦ Rejects-cons r rs a (check_rules-Rejects rs d (ground arith) h)
    | inr a ↦ ([], r, rs, refl, tt, ground arith)
  ]

  -- A rejection is the verdict of the first rule that does not allow the order: every rule before
  -- it allows.
  pub check-first :
      (d : GuardrailDecision F) → check g s q p m ≡ ok d → d.allow ≡ false → Rejects rules d
  unfolding check
  check-first d e h = check_rules-Rejects rules d e h
